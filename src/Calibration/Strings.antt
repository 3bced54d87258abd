-- ===== src/Calibration/Strings.antt =====
-- The strings of the result file, against the print that the worker gives them.
use cgroup_research.Prelude.{
  ℕ, zero, suc, ◌-◌, ◌≤◌, ◌<◌, ◌≡◌, ◌≢◌, refl, inl, inr, false, some, [], ◌∷◌, ◌++◌, All, length,
  ◌==◌, arith, Bool-cases,
}
use cgroup_research.Prelude.Word.{Text}
use cgroup_research.Calibration.Json.{read_string}

-- A printable character of ASCII: from the space to the tilde.
abbrev pub IsPrintable : ℕ → Type 0
IsPrintable c = (32 ≤ c) × (c ≤ 126)

-- What `json.dump` of Python documents of the characters of a string, without the quotes around it, as
-- far as they are printable: a backslash, 92, goes before a quote, 34, and before a backslash, and any
-- other one stands for itself.
pub record PrintsJson (print : Text → Text) : Type 0 where
  pub empty : print [] ≡ []
  pub quote : (s : Text) → print (34 ∷ s) ≡ 92 ∷ 34 ∷ print s
  pub backslash : (s : Text) → print (92 ∷ s) ≡ 92 ∷ 92 ∷ print s
  pub plain : (c : ℕ) (s : Text) → IsPrintable c → c ≢ 34 → c ≢ 92 → print (c ∷ s) ≡ c ∷ print s

read_string-plain :
    (room left c : ℕ) (s t : Text)
    → (c == 92) ≡ false
    → (c == 34) ≡ false
    → (room == 0) ≡ false
    → read_string (room - 1) left s false ≡ some t
    → read_string room (suc left) (c ∷ s) false ≡ some (c ∷ t)
unfolding read_string
read_string-plain room left c s t b q r h = rw (b, q, r, h) refl

read_string-hidden :
    (room left c : ℕ) (s t : Text)
    → (room == 0) ≡ false
    → read_string (room - 1) left s false ≡ some t
    → read_string room (suc (suc left)) (92 ∷ c ∷ s) false ≡ some (c ∷ t)
unfolding read_string
read_string-hidden room left c s t r h = rw (r, h) refl

read_string-quote :
    (room left : ℕ) (rest : Text) → read_string room (suc left) (34 ∷ rest) false ≡ some []
unfolding read_string
read_string-quote room left rest = refl

read_string-special :
    (room left c : ℕ) (s t : Text)
    → 0 < room
    → 0 < left
    → read_string (room - 1) (left - 1) s false ≡ some t
    → read_string room (suc left) (92 ∷ c ∷ s) false ≡ some (c ∷ t)
read_string-special room zero c s t r l h = absurd (omega arith)
read_string-special room (suc left) c s t r l h =
    let same : suc left - 1 ≡ left = omega arith in
    read_string-hidden room left c s t (ground arith) (rw same at h)

-- A string of printable characters of ASCII is read back from its JSON print between quotes, as
-- `json.dump` gives it, where its characters fit in the room that is given, and the quote at the end
-- comes before the end of the range.
pub read_string-print :
    (print : Text → Text) (j : PrintsJson print) (room left : ℕ) (s rest : Text)
    → All IsPrintable s
    → length s ≤ room
    → length (print s) < left
    → read_string room left (print s ++ 34 ∷ rest) false ≡ some s
read_string-print print j room zero s rest p r l = absurd (omega arith)
read_string-print print j room (suc left) [] rest p r l =
    rw j.empty (read_string-quote room left rest)
read_string-print print j room (suc left) (c ∷ s) rest (p, ps) r l = elim (Bool-cases (c == 34)) [
  | inl quote ↦
      let here : c ≡ 34 = ground (arith, quote) in
      let shown : print (c ∷ s) ≡ 92 ∷ 34 ∷ print s = rw here (j.quote s) in
      let fits = rw shown at l in
      rw (shown, here)
        (read_string-special room left 34 _ s (omega arith) (omega arith)
          (read_string-print print j (room - 1) (left - 1) s rest ps (omega arith) (omega arith)))
  | inr other ↦ elim (Bool-cases (c == 92)) [
    | inl backslash ↦
        let here : c ≡ 92 = ground (arith, backslash) in
        let shown : print (c ∷ s) ≡ 92 ∷ 92 ∷ print s = rw here (j.backslash s) in
        let fits = rw shown at l in
        rw (shown, here)
          (read_string-special room left 92 _ s (omega arith) (omega arith)
            (read_string-print print j (room - 1) (left - 1) s rest ps (omega arith) (omega arith)))
    | inr plain ↦
        let shown : print (c ∷ s) ≡ c ∷ print s =
          j.plain c s p (λ h. ground arith) (λ h. ground arith) in
        let fits = rw shown at l in
        rw shown (
          read_string-plain room left c _ s plain other (ground arith)
            (read_string-print print j (room - 1) left s rest ps (omega arith) (omega arith)))
  ]
]
