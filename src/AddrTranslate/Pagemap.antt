-- ===== src/AddrTranslate/Pagemap.antt =====
-- addr_translate.c: the entries of a pagemap file.
use cgroup_research.Prelude.{
  ℕ, ◌*◌, ◌/◌, ◌%◌, false, true, ◌^◌, ◌-◌, Bool, not, Option, none, some, List, ltb, ◌==◌,
  if◌then◌else◌, Pid, ℤ, pos, negsuc,
}
use cgroup_research.Prelude.Word.{word, uint64_max}
use cgroup_research.DramMapping.Bits.{and_bits, or_bits}

-- PAGEMAP_ENTRY_BYTES
abbrev pub pagemap_entry_bytes : ℕ
pagemap_entry_bytes = 8

-- PAGEMAP_PFN_MASK
abbrev pub pagemap_pfn_mask : ℕ
pagemap_pfn_mask = 2 ^ 55 - 1

-- (entry & (1ULL << i)) != 0
abbrev pub has_bit : ℕ → ℕ → Bool
has_bit i entry = not (and_bits 64 entry (2 ^ i) == 0)

-- `enum addr_translate_rc`
pub data TranslateRc : Type 0 where
  ok invalid_arg page_size open_failed read_failed not_present swapped pfn_unavailable overflow :
      TranslateRc

-- (uint64_t)b << i
abbrev pub shift_left : ℕ → ℕ → ℕ
shift_left b i = b * 2 ^ i % word

abbrev pub or_64 : ℕ → ℕ → ℕ
or_64 a b = or_bits 64 a b

-- bytes[i] of eight bytes
pub record Bytes : Type 0 where
  pub b0 : ℕ
  pub b1 : ℕ
  pub b2 : ℕ
  pub b3 : ℕ
  pub b4 : ℕ
  pub b5 : ℕ
  pub b6 : ℕ
  pub b7 : ℕ

unfoldable pub decode_u64_le : Bytes → ℕ
decode_u64_le b =
    or_64
      (or_64
        (or_64
          (or_64
            (or_64 (or_64 (or_64 b.b0 (shift_left b.b1 8)) (shift_left b.b2 16))
              (shift_left b.b3 24))
            (shift_left b.b4 32))
          (shift_left b.b5 40))
        (shift_left b.b6 48))
      (shift_left b.b7 56)

-- What the kernel answers: `sysconf(_SC_PAGESIZE)`, the descriptor that `open` gives for a path, and
-- the eight bytes that `pread` fills, or `none` when it reads fewer.
pub record System : Type 0 where
  pub sysconf_page_size : ℤ
  pub opens : List ℕ → ℤ
  pub pread : ℤ → ℕ → Option Bytes

abbrev pub is_negative : ℤ → Bool
is_negative (pos n) = false
is_negative (negsuc n) = true

-- `struct addr_translate_ctx`
pub record Context : Type 0 where
  pub pid : Pid
  pub pagemap_fd : ℤ
  pub page_size : ℕ

unfoldable pub entry_read : Option Bytes → TranslateRc × ℕ
entry_read none = (TranslateRc.read_failed, 0)
entry_read (some bytes) = (TranslateRc.ok, decode_u64_le bytes)

-- The entry is written only when the result is ok.
unfoldable pub read_pagemap_entry : System → Context → ℕ → TranslateRc × ℕ
unfolding entry_read
read_pagemap_entry system ctx page_index =
    if is_negative ctx.pagemap_fd
    then (TranslateRc.invalid_arg, 0)
    else if ltb (uint64_max / pagemap_entry_bytes) page_index
    then (TranslateRc.overflow, 0)
    else let offset = page_index * pagemap_entry_bytes % word in
      if ltb (2 ^ 63 - 1) offset
      then (TranslateRc.overflow, 0)
      else entry_read (system.pread ctx.pagemap_fd offset)
