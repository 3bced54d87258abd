-- ===== src/BankProfile/Build.antt =====
-- `bank_profile_build`: the profile of a process from the regions of its address space.
use cgroup_research.Prelude.{
  ℕ, Bool, not, ◌||◌, Option, none, some, List, [], ◌∷◌, Pid, positive, pos, length, ◌==◌,
  if◌then◌else◌,
}
use cgroup_research.Prelude.Word.{inc}
use cgroup_research.Prelude.Double.{Double, nought}
use cgroup_research.DramMapping.Mapping.{DramMapping, is_ready}
use cgroup_research.BankProfile.Profile.{
  ProfileRc, is_ok, ProfileError, Counters, BankProfile, finalize,
}
use cgroup_research.BankProfile.Sampling.{
  SampleConfig, sample_config_default, Region, region_is_selected, Translation, sample_region,
  enough_sampled,
}

-- What the system answers: the page size, or no positive one; the lines of the maps file, `none`
-- where a line does not parse, or no file; whether the pagemap opens; its translations; and whether
-- the reading of the lines ended in an error. The path of the maps file fits its buffer.
pub record Process : Type 0 where
  pub system_page_size : Option ℕ
  pub maps : Option (List (Option Region))
  pub pagemap_opens : Bool
  pub translate : ℕ → Translation
  pub maps_fail : Bool

abbrev pub zero_counters : Counters
zero_counters = record {
  regions_seen = 0;
  regions_selected = 0;
  pages_seen = 0;
  pages_considered = 0;
  pages_sampled = 0;
  pages_translated = 0;
  pages_skipped_not_present = 0;
  pages_skipped_swapped = 0;
  pages_skipped_pfn_unavailable = 0;
  pages_skipped_translation_error = 0;
  pages_skipped_mapping_error = 0;
}

abbrev pub with_stride : Option SampleConfig → SampleConfig
with_stride none = sample_config_default
with_stride (some cfg) = record cfg {
  sample_stride_pages = if cfg.sample_stride_pages == 0 then 1 else cfg.sample_stride_pages;
}

module _ {W : Type 0} ⦃d : Double W⦄ where
  -- `bank_profile_reset`
  abbrev pub profile_reset : BankProfile W
  profile_reset = record {
    pid = pos 0;
    page_size = 0;
    counters = zero_counters;
    entries = [];
    dominant_bank_class = 0;
    dominant_page_count = 0;
    dominant_fraction = nought;
    error_message = ProfileError.empty;
  }

  abbrev pub see_region : BankProfile W → BankProfile W
  see_region p = record p {
    counters = record p.counters { regions_seen = inc p.counters.regions_seen };
  }

  abbrev pub select_region : BankProfile W → BankProfile W
  select_region p = record p {
    counters = record p.counters { regions_selected = inc p.counters.regions_selected };
  }

  -- The loop over the lines of the maps file.
  unfoldable pub sample_lines :
      (ℕ → Translation)
      → DramMapping
      → SampleConfig
      → List (Option Region)
      → BankProfile W
      → ProfileRc × BankProfile W
  sample_lines translate mapping cfg [] p = (ProfileRc.ok, p)
  sample_lines translate mapping cfg (none ∷ lines) p = sample_lines translate mapping cfg lines p
  sample_lines translate mapping cfg (some region ∷ lines) p =
      let seen = see_region p in
      let skipped = sample_lines translate mapping cfg lines seen in
      let (rc, p') = sample_region translate mapping cfg region (select_region seen) in
      let rest = sample_lines translate mapping cfg lines p' in
      if not (region_is_selected region cfg)
      then skipped
      else if not (is_ok rc)
      then (rc, p')
      else if enough_sampled cfg p'
      then (ProfileRc.ok, p')
      else rest

  fail : ProfileRc → ProfileError → BankProfile W → ProfileRc × BankProfile W
  fail rc error p = (rc, record p { error_message = error })

  -- After the loop.
  unfoldable finish_build : Bool → ProfileRc × BankProfile W → ProfileRc × BankProfile W
  unfolding fail
  finish_build maps_fail (ProfileRc.ok, p) =
      let final = finalize p in
      if maps_fail
      then fail ProfileRc.io ProfileError.maps_unread p
      else if final.counters.pages_translated == 0 || length final.entries == 0
      then fail ProfileRc.no_samples ProfileError.no_pages final
      else (ProfileRc.ok, final)
  finish_build maps_fail (rc, p) = (rc, p)

  read_maps :
      Process
      → DramMapping
      → SampleConfig
      → Option (List (Option Region))
      → BankProfile W
      → ProfileRc × BankProfile W
  unfolding fail finish_build
  read_maps process mapping cfg none p = fail ProfileRc.open_maps ProfileError.no_maps p
  read_maps process mapping cfg (some lines) p =
      if not process.pagemap_opens
      then fail ProfileRc.addr_open ProfileError.no_pagemap p
      else finish_build process.maps_fail (sample_lines process.translate mapping cfg lines p)

  with_page_size :
      Process → DramMapping → SampleConfig → Option ℕ → BankProfile W → ProfileRc × BankProfile W
  unfolding fail read_maps
  with_page_size process mapping cfg none p = fail ProfileRc.page_size ProfileError.no_page_size p
  with_page_size process mapping cfg (some size) p =
      read_maps process mapping cfg process.maps (record p { page_size = size })

  -- `out` is what the output pointer points at before the call; the pointers are no null pointers but
  -- for that of the configuration.
  unfoldable pub build :
      Process → Pid → DramMapping → Option SampleConfig → BankProfile W → ProfileRc × BankProfile W
  unfolding with_page_size
  build process pid mapping cfg out =
      if not (positive pid)
      then (ProfileRc.invalid_arg, out)
      else if not (is_ready mapping)
      then (ProfileRc.not_ready, out)
      else with_page_size process mapping (with_stride cfg) process.system_page_size
          (record profile_reset { pid = pid })
