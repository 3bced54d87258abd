-- ===== src/AddrTranslate/Exact.antt =====
-- The physical address of a page, without wrap-around and without bit operations.
use cgroup_research.Prelude.{
  ℕ, ◌+◌, ◌*◌, ◌-◌, ◌/◌, ◌%◌, ◌^◌, ◌≤◌, ◌<◌, ◌≡◌, refl, true, false, Option, none, some, inl, inr,
  Bool-cases, ltb, leb, ◌==◌, if◌then◌else◌, positive, ℤ, arith,
}
use native.Mathlib.Nat.{le-div_iff_mul-le, mod-le}
use cgroup_research.Prelude.Word.{word, uint64_max, add_u64, sub_u64}
use cgroup_research.AddrTranslate.Pagemap.{
  TranslateRc, System, Context, Bytes, is_negative, entry_read, read_pagemap_entry, decode_u64_le,
}
use cgroup_research.AddrTranslate.Translate.{
  AddrTranslation, describe, locate, translate_entry, addr_translate_va_to_pa,
}
use cgroup_research.AddrTranslate.Words.{AreBytes, value, decode_u64_le-value, has_bit_lem, pfn_lem}

-- The result and the address that the entry of a page asks for.
abbrev pub located : ℕ → ℕ → ℕ → TranslateRc × ℕ
located page_size virtual_address entry =
    let pfn = entry % 2 ^ 55 in
    let address = pfn * page_size + virtual_address % page_size in
    if entry / 2 ^ 63 % 2 == 0
    then (if entry / 2 ^ 62 % 2 == 0
        then (TranslateRc.not_present, 0)
        else (TranslateRc.swapped, 0))
    else if pfn == 0
    then (TranslateRc.pfn_unavailable, 0)
    else if leb word address
    then (TranslateRc.overflow, 0)
    else (TranslateRc.ok, address)

-- The result and the address of a virtual address, of the bytes that the kernel gives for its page.
abbrev pub answer : ℕ → ℕ → Option Bytes → TranslateRc × ℕ
answer page_size virtual_address none = (TranslateRc.read_failed, 0)
answer page_size virtual_address (some b) = located page_size virtual_address (value b)

-- A context that addr_translate_open has filled.
pub record IsOpen (ctx : Context) : Type 0 where
  pub pid_there : positive ctx.pid ≡ true
  pub fd_there : is_negative ctx.pagemap_fd ≡ false
  pub size_positive : 0 < ctx.page_size
  pub size_word : ctx.page_size < word

compare_lem :
    (pfn quotient product off : ℕ)
    → off < word
    → (pfn ≤ quotient → product ≤ uint64_max - off)
    → (product ≤ uint64_max - off → pfn ≤ quotient)
    → ltb quotient pfn ≡ leb word (product + off)
compare_lem pfn quotient product off l to from = ground arith

-- The test before the product is exact.
fits_lem :
    (pfn size off : ℕ)
    → 0 < size
    → off < word
    → ltb (sub_u64 uint64_max off / size) pfn ≡ leb word (pfn * size + off)
fits_lem pfn size off h l =
    let x = uint64_max - off in
    let rest : sub_u64 uint64_max off ≡ x = omega arith in
    let to = (le-div_iff_mul-le {k = size} {x = pfn} {y = x} h).0 in
    let from = (le-div_iff_mul-le {k = size} {x = pfn} {y = x} h).1 in
    rw rest (compare_lem pfn (x / size) (pfn * size) off l to from)

exact_lem :
    (product off : ℕ)
    → leb word (product + off) ≡ false
    → add_u64 (product % word) off ≡ product + off
exact_lem product off h = ground arith

locate_lem :
    (ctx : Context) (virtual_address entry : ℕ)
    → IsOpen ctx
    → virtual_address < word
    → (
      (locate ctx (describe ctx virtual_address entry)).0,
      (locate ctx (describe ctx virtual_address entry)).1.physical_address,
    )
      ≡ located ctx.page_size virtual_address entry
unfolding locate describe
locate_lem ctx va entry o l =
    let size = ctx.page_size in
    let pfn = entry % 2 ^ 55 in
    let off_lt : va % size < word = omega (arith, mod-le va size) in
    let fits = fits_lem pfn size (va % size) o.size_positive off_lt in
    rw (has_bit_lem 63 entry (omega arith), has_bit_lem 62 entry (omega arith), pfn_lem entry, fits)
      (elim (Bool-cases (entry / 2 ^ 63 % 2 == 0)) [
        | inl absent ↦ elim (Bool-cases (entry / 2 ^ 62 % 2 == 0)) [
          | inl n ↦ rw (absent, n) refl
          | inr y ↦ rw (absent, y) refl
        ]
        | inr present ↦ elim (Bool-cases (pfn == 0)) [
          | inl z ↦ rw (present, z) refl
          | inr nonzero ↦ elim (Bool-cases (leb word (pfn * size + va % size))) [
            | inl big ↦ rw (present, nonzero, big) refl
            | inr small ↦
                rw (present, nonzero, small, exact_lem (pfn * size) (va % size) small) refl
          ]
        ]
      ])

read_pagemap_entry_lem :
    (system : System) (ctx : Context) (page_index : ℕ)
    → is_negative ctx.pagemap_fd ≡ false
    → read_pagemap_entry system ctx page_index ≡ (
        if leb (2 ^ 60) page_index
        then (TranslateRc.overflow, 0)
        else entry_read (system.pread ctx.pagemap_fd (page_index * 8)))
unfolding read_pagemap_entry
read_pagemap_entry_lem system ctx page_index n = rw n (elim (Bool-cases (leb (2 ^ 60) page_index)) [
  | inl far ↦ elim (Bool-cases (ltb (2 ^ 61 - 1) page_index)) [
    | inl farther ↦ rw (far, farther) refl
    | inr less ↦
        let beyond : ltb (2 ^ 63 - 1) (page_index * 8 % word) ≡ true = ground arith in
        rw (far, less, beyond) refl
  ]
  | inr near ↦
      let less : ltb (2 ^ 61 - 1) page_index ≡ false = ground arith in
      let whole : page_index * 8 % word ≡ page_index * 8 = ground arith in
      let below : ltb (2 ^ 63 - 1) (page_index * 8) ≡ false = ground arith in
      rw (near, less, whole, below) refl
])

entry_lem :
    (ctx : Context) (virtual_address : ℕ) (read : Option Bytes)
    → IsOpen ctx
    → virtual_address < word
    → ((b : Bytes) → read ≡ some b → AreBytes b)
    → (
      (translate_entry ctx virtual_address (entry_read read)).0,
      (translate_entry ctx virtual_address (entry_read read)).1.physical_address,
    )
      ≡ answer ctx.page_size virtual_address read
unfolding translate_entry entry_read
entry_lem ctx va none o l bytes = refl
entry_lem ctx va (some b) o l bytes =
    rw (← decode_u64_le-value b (bytes b refl)) (locate_lem ctx va (decode_u64_le b) o l)

-- An open context and an address of 64 bits give the result and the physical address of the exact
-- arithmetic: a failed read, then the flags of the entry, a frame of 0, an address that does not fit
-- in 64 bits, and otherwise frame times page size plus offset, without wrap-around. An address whose
-- entry lies beyond the largest file offset is refused as an overflow.
pub addr_translate_va_to_pa-exact :
    (system : System) (ctx : Context) (virtual_address : ℕ) (out : AddrTranslation)
    → IsOpen ctx
    → virtual_address < word
    → ((fd : ℤ) (offset : ℕ) (b : Bytes) → system.pread fd offset ≡ some b → AreBytes b)
    → let page_index = virtual_address / ctx.page_size in
      let result = addr_translate_va_to_pa system ctx virtual_address out in
      (result.0, result.1.physical_address) ≡ (
        if leb (2 ^ 60) page_index
        then (TranslateRc.overflow, 0)
        else answer ctx.page_size virtual_address (system.pread ctx.pagemap_fd (page_index * 8)))
unfolding addr_translate_va_to_pa
addr_translate_va_to_pa-exact system ctx va out o l bytes =
    let zero_size : (ctx.page_size == 0) ≡ false = ground (arith, o.size_positive) in
    let page_index = va / ctx.page_size in
    let read = system.pread ctx.pagemap_fd (page_index * 8) in
    rw (o.pid_there, o.fd_there, zero_size, read_pagemap_entry_lem system ctx page_index o.fd_there)
      (elim (Bool-cases (leb (2 ^ 60) page_index)) [
        | inl far ↦ rw far refl
        | inr near ↦ rw near (entry_lem ctx va read o l (bytes ctx.pagemap_fd (page_index * 8)))
      ])
