-- ===== src/Calibration/Scanned.antt =====
-- The masks that the scan of their array stores.
use cgroup_research.Prelude.{
  ℕ, zero, suc, ◌≤◌, ◌<◌, ◌≡◌, inl, inr, false, ◌||◌, Option, none, some, List, [], ◌∷◌, ◌++◌, All,
  All-append, length, length-append, leb, ◌==◌, arith, Bool-cases, Option-cases,
}
use cgroup_research.Prelude.Word.{Text}
use cgroup_research.Activity.Stat.{is_space}
use cgroup_research.Calibration.Json.{c_string}
use cgroup_research.Calibration.Masks.{
  CalibrationRc, is_success, not_success, whole_mask, mask_of, add_mask, scan_masks, strtoull,
}

-- Masks that the loader stores: at most 32, and none of them 0.
pub record AreMasks (masks : List ℕ) : Type 0 where
  pub few : length masks ≤ 32
  pub nonzero : All (λ m. (m == 0) ≡ false) masks

whole_mask-nonzero : (o : Option (ℕ × Text)) {m : ℕ} → whole_mask o ≡ some m → (m == 0) ≡ false
whole_mask-nonzero none h = cc
whole_mask-nonzero (some (mask, [])) h = ground arith
whole_mask-nonzero (some (mask, c ∷ rest)) h = cc

add_mask-AreMasks :
    (masks : List ℕ) (text : Text) → AreMasks masks → AreMasks (add_mask masks text).1
unfolding add_mask mask_of
add_mask-AreMasks masks text h = elim (Bool-cases (leb 32 (length masks))) [
  | inl full ↦ rw full h
  | inr room ↦ elim (Option-cases (mask_of text)) [
    | inl e ↦ rw (room, e) h
    | inr (mask, e) ↦
        rw (room, e)
          (record {
            few = ground (arith, length-append masks (mask ∷ []));
            nonzero =
                All-append _ masks (mask ∷ []) h.nonzero
                  (whole_mask-nonzero (strtoull 0 (c_string text)) e, tt);
          })
  ]
]

-- What the scan of an array gives.
pub record Scanned (r : CalibrationRc × List ℕ) : Type 0 where
  pub are_masks : AreMasks r.1
  pub some_masks : r.0 ≡ CalibrationRc.ok → 0 < length r.1

failed_scan :
    (rc : CalibrationRc) (masks : List ℕ)
    → (rc ≡ CalibrationRc.ok → ⊥)
    → AreMasks masks
    → Scanned (rc, masks)
failed_scan rc masks n h = record { are_masks = h; some_masks = λ e. absurd (n e) }

pub scan_masks-Scanned :
    (state : Option Text) (left : ℕ) (s : Text) (masks : List ℕ)
    → AreMasks masks
    → Scanned (scan_masks state left s masks)
unfolding scan_masks
scan_masks-Scanned none zero s [] h = failed_scan CalibrationRc.rejected [] (λ e. cc) h
scan_masks-Scanned none zero s (m ∷ masks) h = record {
  are_masks = h;
  some_masks = λ e. omega arith;
}
scan_masks-Scanned (some text) zero s masks h = failed_scan CalibrationRc.json masks (λ e. cc) h
scan_masks-Scanned none (suc left) [] masks h = failed_scan CalibrationRc.json masks (λ e. cc) h
scan_masks-Scanned (some text) (suc left) [] masks h =
    failed_scan CalibrationRc.json masks (λ e. cc) h
scan_masks-Scanned none (suc left) (c ∷ s) masks h = elim (Bool-cases (is_space c || c == 44)) [
  | inl skip ↦ rw skip (scan_masks-Scanned none left s masks h)
  | inr solid ↦ elim (Bool-cases (c == 34)) [
    | inl quote ↦ rw (solid, quote) (scan_masks-Scanned (some []) left s masks h)
    | inr other ↦ rw (solid, other) (failed_scan CalibrationRc.json masks (λ e. cc) h)
  ]
]
scan_masks-Scanned (some text) (suc left) (c ∷ s) masks h = elim (Bool-cases (c == 34)) [
  | inl quote ↦
      let added = add_mask-AreMasks masks text h in
      elim (Bool-cases (is_success (add_mask masks text).0)) [
        | inl good ↦ rw (quote, good) (scan_masks-Scanned none left s (add_mask masks text).1 added)
        | inr bad ↦ rw (quote, bad) (failed_scan _ _ (not_success _ bad) added)
      ]
  | inr more ↦ elim (Bool-cases (leb 63 (length text))) [
    | inl long ↦ rw (more, long) (failed_scan CalibrationRc.json masks (λ e. cc) h)
    | inr short ↦ rw (more, short) (scan_masks-Scanned (some (text ++ (c ∷ []))) left s masks h)
  ]
]
