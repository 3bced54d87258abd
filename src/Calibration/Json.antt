-- ===== src/Calibration/Json.antt =====
-- calibration.c: the search for keys in the result file, and the values behind them.
use cgroup_research.Prelude.{
  ℕ, zero, suc, ◌+◌, ◌-◌, Bool, true, false, not, ◌&&◌, ◌||◌, Option, none, some, [], ◌∷◌, ◌++◌,
  length, ltb, leb, ◌==◌, if◌then◌else◌, codes,
}
use cgroup_research.Prelude.Word.{Text}
use cgroup_research.BankProfile.Sampling.{char_at, starts_with}
use cgroup_research.Activity.Stat.{is_space, from}

-- `struct json_range`, or a pointer into one: the text from the pointer to the end of the buffer, and
-- how many of its bytes come before the end of the range; 0 is a pointer at or behind that end.
pub record Cursor : Type 0 where
  pub text : Text
  pub left : ℕ

-- `p + n`
abbrev pub advance : ℕ → Cursor → Cursor
advance n p = record { text = from n p.text; left = p.left - n }

unfoldable pub skip_ws_from : ℕ → Text → Cursor
skip_ws_from zero s = record { text = s; left = 0 }
skip_ws_from (suc left) [] = record { text = []; left = suc left }
skip_ws_from (suc left) (c ∷ s) =
    let rest = skip_ws_from left s in
    if is_space c then rest else record { text = c ∷ s; left = suc left }

abbrev pub skip_ws : Cursor → Cursor
skip_ws p = skip_ws_from p.left p.text

-- The value behind a match of the pattern, if a colon follows it. 58 is ':'.
unfoldable pub value_behind : ℕ → Cursor → Option Cursor
unfolding skip_ws_from
value_behind len match =
    let colon = skip_ws (advance len match) in
    if ltb 0 colon.left && char_at colon.text 0 == 58
    then some (skip_ws (advance 1 colon))
    else none

-- The loop over the matches of `strstr`, which stops at a NUL, position by position.
unfoldable pub find_pattern : Text → ℕ → Text → Option Cursor
unfolding value_behind
find_pattern pattern zero s = none
find_pattern pattern (suc left) [] = none
find_pattern pattern (suc left) (c ∷ s) =
    let rest = find_pattern pattern left s in
    let value = value_behind (length pattern) (record { text = c ∷ s; left = suc left }) in
    if c == 0
    then none
    else if starts_with pattern (c ∷ s)
    then elim value [ none ↦ rest | some p ↦ some p ]
    else rest

-- 34 is '"'; the pattern has to fit in 128 bytes.
unfoldable pub find_key_value : Cursor → Text → Option Cursor
unfolding find_pattern
find_key_value range key =
    let pattern = 34 ∷ (key ++ (34 ∷ [])) in
    if leb 128 (length pattern) then none else find_pattern pattern range.left range.text

-- The state of the scan: outside of strings, in one, or behind its backslash.
pub data Scan : Type 0 where
  outside inside escaped : Scan

-- One byte: the state and the depth after it. 92 is '\\'.
unfoldable pub scan_byte : ℕ → ℕ → Scan → ℕ → ℕ → Scan × ℕ
scan_byte open_ch close_ch Scan.escaped depth c = (Scan.inside, depth)
scan_byte open_ch close_ch Scan.inside depth c =
    if c == 92
    then (Scan.escaped, depth)
    else if c == 34
    then (Scan.outside, depth)
    else (Scan.inside, depth)
scan_byte open_ch close_ch Scan.outside depth c =
    if c == 34
    then (Scan.inside, depth)
    else if c == open_ch
    then (Scan.outside, depth + 1)
    else if c == close_ch
    then (Scan.outside, depth - 1)
    else (Scan.outside, depth)

-- The byte is the one that closes: `depth` is the number of open brackets before it.
abbrev pub closes : ℕ → ℕ → Scan → ℕ → ℕ → Bool
closes open_ch close_ch Scan.outside depth c =
    not (c == 34) && not (c == open_ch) && c == close_ch && depth == 1
closes open_ch close_ch state depth c = false

-- The loop: the number of bytes up to the closing one, with it.
unfoldable pub scan_from : ℕ → ℕ → ℕ → Text → Scan → ℕ → Option ℕ
unfolding scan_byte
scan_from open_ch close_ch zero s state depth = none
scan_from open_ch close_ch (suc left) [] state depth = none
scan_from open_ch close_ch (suc left) (c ∷ s) state depth =
    let (state', depth') = scan_byte open_ch close_ch state depth c in
    let rest = scan_from open_ch close_ch left s state' depth' in
    if closes open_ch close_ch state depth c
    then some 1
    else elim rest [ none ↦ none | some n ↦ some (suc n) ]

-- `none` is CALIBRATION_ERR_JSON.
unfoldable pub scan_balanced : Cursor → ℕ → ℕ → Option Cursor
unfolding scan_from
scan_balanced p open_ch close_ch =
    if p.left == 0 || not (char_at p.text 0 == open_ch)
    then none
    else elim (scan_from open_ch close_ch p.left p.text Scan.outside 0) [
      | none ↦ none
      | some n ↦ some (record { text = p.text; left = n })
    ]

abbrev pub scanned : ℕ → ℕ → Option Cursor → Option Cursor
scanned open_ch close_ch none = none
scanned open_ch close_ch (some p) = scan_balanced p open_ch close_ch

-- 123 is '{' and 125 is '}'.
unfoldable pub extract_object : Cursor → Text → Option Cursor
unfolding find_key_value scan_balanced
extract_object range key = scanned 123 125 (find_key_value range key)

-- 91 is '[' and 93 is ']'.
unfoldable pub extract_array : Cursor → Text → Option Cursor
unfolding find_key_value scan_balanced
extract_array range key = scanned 91 93 (find_key_value range key)

-- The loop over the bytes of a string: `room` is what fits before the NUL of `dst`.
unfoldable pub read_string : ℕ → ℕ → Text → Bool → Option Text
read_string room zero s after_backslash = none
read_string room (suc left) [] after_backslash = none
read_string room (suc left) (c ∷ s) after_backslash =
    let stored = read_string (room - 1) left s false in
    let waits = read_string room left s true in
    if not after_backslash && c == 92
    then waits
    else if not after_backslash && c == 34
    then some []
    else if room == 0
    then none
    else elim stored [ none ↦ none | some t ↦ some (c ∷ t) ]

abbrev pub string_at : ℕ → Option Cursor → Option Text
string_at dst_size none = none
string_at dst_size (some p) =
    if dst_size == 0 || (p.left == 0 || not (char_at p.text 0 == 34))
    then none
    else read_string (dst_size - 1) (p.left - 1) (from 1 p.text) false

unfoldable pub extract_string : Cursor → Text → ℕ → Option Text
unfolding find_key_value read_string
extract_string range key dst_size = string_at dst_size (find_key_value range key)

abbrev pub bool_at : Option Cursor → Option Bool
bool_at none = none
bool_at (some p) =
    if leb 4 p.left && starts_with (codes "true") p.text
    then some true
    else if leb 5 p.left && starts_with (codes "false") p.text
    then some false
    else none

unfoldable pub extract_bool : Cursor → Text → Option Bool
unfolding find_key_value
extract_bool range key = bool_at (find_key_value range key)

-- The string in a buffer, up to its NUL.
unfoldable pub c_string : Text → Text
c_string [] = []
c_string (c ∷ s) = let rest = c_string s in if c == 0 then [] else c ∷ rest
