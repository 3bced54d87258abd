-- ===== src/BankProfile/Accounting.antt =====
-- The counters of the sampling, and the regions that the default configuration selects.
use cgroup_research.Prelude.{
  ℕ, zero, suc, ◌+◌, ◌≤◌, ◌<◌, ◌≡◌, refl, ◌⊎◌, ◌↔◌, inl, inr, true, false, some, ltb, if◌then◌else◌,
  ◌/◌, max, ◌==◌, arith, Bool-cases,
}
use cgroup_research.Prelude.Word.{word, inc, add_u64, mul_u64, sub_u64}
use cgroup_research.DramMapping.Mapping.{MappingRc, DramMapping, bank_class}
use cgroup_research.BankProfile.Profile.{
  is_ok, Counters, BankProfile, append_entry, add_bank_class_count,
}
use cgroup_research.BankProfile.Sampling.{
  SampleConfig, sample_config_default, Region, char_at, path_is_empty, path_is_heap, path_is_stack,
  region_is_selected, Translation, count_translation_skip, record_class, record_translation,
  sample_page, enough_sampled, sample_pages, sample_region,
}

-- The default configuration selects exactly the regions with permissions r, 114, and w, 119, that are
-- anonymous, the heap or a stack.
pub region_is_selected_iff :
    (region : Region)
    → (region_is_selected region sample_config_default ≡ true) ↔ (
        (char_at region.perms 0 ≡ 114)
        × (char_at region.perms 1 ≡ 119)
        × ((path_is_heap region.pathname ≡ true)
            ⊎ (path_is_stack region.pathname ≡ true)
            ⊎ (path_is_empty region.pathname ≡ true)))
unfolding region_is_selected
region_is_selected_iff region = ground arith

-- Every page that was sampled was considered, and was translated or counted under the reason why it
-- was not; at most `left` more can be counted.
pub record Accounted (left : ℕ) (k : Counters) : Type 0 where
  pub sampled : k.pages_sampled ≡ k.pages_considered
  pub explained :
      k.pages_considered
      ≡ k.pages_translated + k.pages_skipped_not_present + k.pages_skipped_swapped
        + k.pages_skipped_pfn_unavailable + k.pages_skipped_translation_error
  pub room : k.pages_considered + left < word

-- A page that has been considered, and is not explained yet.
record Pending (left : ℕ) (k : Counters) : Type 0 where
  sampled : k.pages_sampled ≡ k.pages_considered
  unexplained :
      k.pages_considered
      ≡ 1 + k.pages_translated + k.pages_skipped_not_present + k.pages_skipped_swapped
        + k.pages_skipped_pfn_unavailable + k.pages_skipped_translation_error
  room : k.pages_considered + left < word

Accounted-less :
    (left left' : ℕ) (k : Counters) → left' ≤ left → Accounted left k → Accounted left' k
Accounted-less left left' k l h = record {
  sampled = h.sampled;
  explained = h.explained;
  room = omega (arith, h.room);
}

module _ {W : Type 0} where
  add_bank_class_count-counters :
      (p : BankProfile W) (c pages bytes : ℕ)
      → (add_bank_class_count p c pages bytes).1.counters ≡ p.counters
  unfolding add_bank_class_count append_entry
  add_bank_class_count-counters p c pages bytes = ground arith

  -- Handling a translated page changes none of the counters but that of the mapping's errors.
  record_class-Accounted :
      (rc : MappingRc) (class left : ℕ) (p : BankProfile W)
      → Accounted left p.counters
      → Accounted left (record_class rc class p).1.counters
        × ((record_class rc class p).1.counters.pages_sampled ≡ p.counters.pages_sampled)
  unfolding record_class
  record_class-Accounted rc class left p h =
      ground (arith, add_bank_class_count-counters p class 1 p.page_size)

  record_translation-Accounted :
      (t : Translation) (mapping : DramMapping) (left : ℕ) (p : BankProfile W)
      → Pending left p.counters
      → Accounted left (record_translation mapping t p).1.counters
        × ((record_translation mapping t p).1.counters.pages_sampled ≡ p.counters.pages_sampled)
  unfolding record_translation count_translation_skip
  record_translation-Accounted (Translation.translated pa) mapping left p h =
      let (rc, class) = bank_class (some mapping) pa 0 in
      let counted : BankProfile W = record p {
        counters = record p.counters { pages_translated = inc p.counters.pages_translated };
      } in
      record_class-Accounted rc class left counted (ground arith)
  record_translation-Accounted Translation.not_present mapping left p h = (ground arith, refl)
  record_translation-Accounted Translation.swapped mapping left p h = (ground arith, refl)
  record_translation-Accounted Translation.pfn_unavailable mapping left p h = (ground arith, refl)
  record_translation-Accounted Translation.failed mapping left p h = (ground arith, refl)

  module _ (translate : ℕ → Translation) (mapping : DramMapping) (cfg : SampleConfig) where
    sample_page-Accounted :
        (va left : ℕ) (p : BankProfile W)
        → Accounted (left + 1) p.counters
        → let p' = (sample_page translate mapping cfg va p).1 in
          Accounted left p'.counters × (p'.counters.pages_sampled ≡ p.counters.pages_sampled + 1)
    unfolding sample_page
    sample_page-Accounted va left p h =
        let counted : BankProfile W = record p {
          counters = record p.counters {
            pages_considered = inc p.counters.pages_considered;
            pages_sampled = inc p.counters.pages_sampled;
          };
        } in
        let ih = record_translation-Accounted (translate va) mapping left counted (ground arith) in
        (ih.0, ground (arith, ih.1, h.sampled, h.room))

    -- What the loop leaves of the counters.
    pub record Sampled (left : ℕ) (p p' : BankProfile W) : Type 0 where
      pub accounted : Accounted left p'.counters
      pub limited :
          (cfg.max_pages_to_sample ≡ 0)
          ⊎ (p'.counters.pages_sampled ≤ max p.counters.pages_sampled cfg.max_pages_to_sample)

    sample_pages-Sampled :
        (fuel start pages stride i left : ℕ) (p : BankProfile W)
        → Accounted (left + fuel) p.counters
        → Sampled left p (sample_pages translate mapping cfg fuel start pages stride i p).1
    unfolding sample_pages
    sample_pages-Sampled zero start pages stride i left p h = record {
      accounted = Accounted-less (left + zero) left p.counters (omega arith) h;
      limited = inr (omega arith);
    }
    sample_pages-Sampled (suc fuel) start pages stride i left p h =
        let va = add_u64 start (mul_u64 i p.page_size) in
        let page = sample_page translate mapping cfg va p in
        let one = sample_page-Accounted va (left + fuel) p (ground (arith, h)) in
        let ih =
          sample_pages-Sampled fuel start pages stride (add_u64 i stride) left page.1 one.0 in
        let stopped : Sampled left p p = record {
          accounted = Accounted-less (left + suc fuel) left p.counters (omega arith) h;
          limited = inr (omega arith);
        } in
        elim (Bool-cases (ltb i pages)) [
          | inr past ↦ rw past stopped
          | inl inside ↦ elim (Bool-cases (enough_sampled cfg p)) [
            | inl enough ↦ rw (inside, enough) stopped
            | inr more ↦ elim (Bool-cases (is_ok page.0)) [
              | inl done ↦
                  rw (inside, more, done)
                    (record {
                      accounted = ih.accounted;
                      limited = ground (arith, ih.limited, one.1);
                    })
              | inr error ↦
                  rw (inside, more, error)
                    (record {
                      accounted =
                          Accounted-less (left + fuel) left page.1.counters (omega arith) one.0;
                      limited = ground (arith, one.1);
                    })
            ]
          ]
        ]

    -- As many turns as there are pages are enough: one more changes nothing.
    pub sample_pages-fuel :
        (fuel start pages stride i : ℕ) (p : BankProfile W)
        → 0 < stride
        → pages + stride < word
        → pages ≤ i + fuel
        → sample_pages translate mapping cfg (suc fuel) start pages stride i p
          ≡ sample_pages translate mapping cfg fuel start pages stride i p
    unfolding sample_pages
    sample_pages-fuel zero start pages stride i p s b l =
        let past : ltb i pages ≡ false = ground arith in rw past refl
    sample_pages-fuel (suc fuel) start pages stride i p s b l = elim (Bool-cases (ltb i pages)) [
      | inr past ↦ rw past refl
      | inl inside ↦
          let va = add_u64 start (mul_u64 i p.page_size) in
          let next = (sample_page translate mapping cfg va p).1 in
          rw (sample_pages-fuel fuel start pages stride (add_u64 i stride) next s b (ground arith))
            refl
    ]

    -- The sampling of a region, on counters that add up and have room for its pages, leaves counters
    -- that add up: every page sampled was considered, and was translated or counted under the reason
    -- why not. Where the configuration has a limit, the pages sampled do not pass it, unless they had
    -- before.
    pub sample_region-Sampled :
        (region : Region) (left : ℕ) (p : BankProfile W)
        → Accounted (left + sub_u64 region.end region.start / p.page_size) p.counters
        → Sampled left p (sample_region translate mapping cfg region p).1
    unfolding sample_region
    sample_region-Sampled region left p h =
        let pages = sub_u64 region.end region.start / p.page_size in
        let stride = if cfg.sample_stride_pages == 0 then 1 else cfg.sample_stride_pages in
        let seen : BankProfile W = record p {
          counters = record p.counters { pages_seen = add_u64 p.counters.pages_seen pages };
        } in
        let ready : Accounted (left + pages) seen.counters = record {
          sampled = h.sampled;
          explained = h.explained;
          room = h.room;
        } in
        let run = sample_pages-Sampled pages region.start pages stride 0 left seen ready in
        elim (Bool-cases (p.page_size == 0)) [
          | inl none_known ↦ rw none_known (record {
            accounted = Accounted-less (left + pages) left p.counters (omega arith) h;
            limited = inr (omega arith);
          })
          | inr known ↦ rw known (record { accounted = run.accounted; limited = run.limited })
        ]
