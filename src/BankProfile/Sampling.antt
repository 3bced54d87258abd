-- ===== src/BankProfile/Sampling.antt =====
-- bank_profile.c: which regions of a process are sampled, and the sampling of their pages.
use cgroup_research.Prelude.{
  ℕ, zero, suc, ◌/◌, Bool, true, false, not, ◌&&◌, some, [], ◌∷◌, ltb, leb, ◌==◌, if◌then◌else◌,
  codes,
}
use cgroup_research.Prelude.Word.{Text, add_u64, mul_u64, sub_u64, inc}
use cgroup_research.Cgroup.Tree.{eq_text}
use cgroup_research.DramMapping.Mapping.{MappingRc, DramMapping, bank_class}
use cgroup_research.BankProfile.Profile.{
  ProfileRc, is_ok, Counters, BankProfile, add_bank_class_count,
}

-- `struct bank_profile_config`
pub record SampleConfig : Type 0 where
  pub max_pages_to_sample : ℕ
  pub sample_stride_pages : ℕ
  pub include_anonymous : Bool
  pub include_heap : Bool
  pub include_stack : Bool
  pub include_file_backed : Bool
  pub include_readonly : Bool

abbrev pub sample_config_default : SampleConfig
sample_config_default = record {
  max_pages_to_sample = 4096;
  sample_stride_pages = 16;
  include_anonymous = true;
  include_heap = true;
  include_stack = true;
  include_file_backed = false;
  include_readonly = false;
}

-- `struct maps_region`
pub record Region : Type 0 where
  pub start : ℕ
  pub end : ℕ
  pub perms : Text
  pub pathname : Text

-- s[i], where the text ends with NUL
abbrev pub char_at : Text → ℕ → ℕ
char_at [] i = 0
char_at (c ∷ s) zero = c
char_at (c ∷ s) (suc i) = char_at s i

abbrev pub path_is_empty : Text → Bool
path_is_empty [] = true
path_is_empty (c ∷ s) = false

abbrev pub path_is_heap : Text → Bool
path_is_heap path = eq_text path (codes "[heap]")

-- `strncmp(path, prefix, strlen(prefix)) == 0`
unfoldable pub starts_with : Text → Text → Bool
starts_with [] path = true
starts_with (d ∷ prefix) [] = false
starts_with (d ∷ prefix) (c ∷ path) = c == d && starts_with prefix path

abbrev pub path_is_stack : Text → Bool
path_is_stack path = starts_with (codes "[stack") path

-- The first character is no bracket, 91, and there is one.
abbrev pub path_is_file_backed : Text → Bool
path_is_file_backed [] = false
path_is_file_backed (c ∷ s) = not (c == 91)

-- The last two returns are both false.
unfoldable pub region_is_selected : Region → SampleConfig → Bool
region_is_selected region cfg =
    if not (char_at region.perms 0 == 114)
    then false
    else if not cfg.include_readonly && not (char_at region.perms 1 == 119)
    then false
    else if path_is_heap region.pathname
    then cfg.include_heap
    else if path_is_stack region.pathname
    then cfg.include_stack
    else if path_is_empty region.pathname
    then cfg.include_anonymous
    else if path_is_file_backed region.pathname
    then cfg.include_file_backed
    else false

-- What `addr_translate_va_to_pa` returns, with the physical address where it succeeds.
pub data Translation : Type 0 where
  translated : ℕ → Translation
  not_present swapped pfn_unavailable failed : Translation

unfoldable pub count_translation_skip : Translation → Counters → Counters
count_translation_skip Translation.not_present k = record k {
  pages_skipped_not_present = inc k.pages_skipped_not_present;
}
count_translation_skip Translation.swapped k = record k {
  pages_skipped_swapped = inc k.pages_skipped_swapped;
}
count_translation_skip Translation.pfn_unavailable k = record k {
  pages_skipped_pfn_unavailable = inc k.pages_skipped_pfn_unavailable;
}
count_translation_skip _ k = record k {
  pages_skipped_translation_error = inc k.pages_skipped_translation_error;
}

module _ {W : Type 0} where
  -- The class of a translated page, or the error of the mapping, goes into the profile.
  unfoldable pub record_class : MappingRc → ℕ → BankProfile W → ProfileRc × BankProfile W
  record_class MappingRc.ok class p = add_bank_class_count p class 1 p.page_size
  record_class rc class p = (
    ProfileRc.ok,
    record p {
      counters = record p.counters {
        pages_skipped_mapping_error = inc p.counters.pages_skipped_mapping_error;
      };
    },
  )

  unfoldable pub record_translation :
      DramMapping → Translation → BankProfile W → ProfileRc × BankProfile W
  unfolding record_class
  record_translation mapping (Translation.translated pa) p =
      let (rc, class) = bank_class (some mapping) pa 0 in
      record_class rc class (record p {
        counters = record p.counters { pages_translated = inc p.counters.pages_translated };
      })
  record_translation mapping t p =
      (ProfileRc.ok, record p { counters = count_translation_skip t p.counters })

  -- `cfg->max_pages_to_sample > 0U && profile->pages_sampled >= cfg->max_pages_to_sample`
  abbrev pub enough_sampled : SampleConfig → BankProfile W → Bool
  enough_sampled cfg p =
      ltb 0 cfg.max_pages_to_sample && leb cfg.max_pages_to_sample p.counters.pages_sampled

-- The address translation is that of the process; it may answer each address as it likes.
module _ {W : Type 0} (translate : ℕ → Translation) (mapping : DramMapping)
    (cfg : SampleConfig) where
  unfoldable pub sample_page : ℕ → BankProfile W → ProfileRc × BankProfile W
  unfolding record_translation
  sample_page va p = record_translation mapping (translate va) (record p {
    counters = record p.counters {
      pages_considered = inc p.counters.pages_considered;
      pages_sampled = inc p.counters.pages_sampled;
    };
  })

  -- The loop over the pages; the fuel bounds their number.
  unfoldable pub sample_pages : ℕ → ℕ → ℕ → ℕ → ℕ → BankProfile W → ProfileRc × BankProfile W
  unfolding sample_page
  sample_pages zero region_start region_pages stride page_idx p = (ProfileRc.ok, p)
  sample_pages (suc fuel) region_start region_pages stride page_idx p =
      let va = add_u64 region_start (mul_u64 page_idx p.page_size) in
      let (rc, p') = sample_page va p in
      let rest = sample_pages fuel region_start region_pages stride (add_u64 page_idx stride) p' in
      if not (ltb page_idx region_pages)
      then (ProfileRc.ok, p)
      else if enough_sampled cfg p
      then (ProfileRc.ok, p)
      else if is_ok rc
      then rest
      else (rc, p')

  -- The fuel is the number of pages, since the stride is at least one.
  unfoldable pub sample_region : Region → BankProfile W → ProfileRc × BankProfile W
  unfolding sample_pages
  sample_region region p =
      if p.page_size == 0
      then (ProfileRc.page_size, p)
      else let region_pages = sub_u64 region.end region.start / p.page_size in
        let stride = if cfg.sample_stride_pages == 0 then 1 else cfg.sample_stride_pages in
        sample_pages region_pages region.start region_pages stride 0 (record p {
          counters = record p.counters { pages_seen = add_u64 p.counters.pages_seen region_pages };
        })
