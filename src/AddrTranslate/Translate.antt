-- ===== src/AddrTranslate/Translate.antt =====
-- addr_translate.c: the operations on a translation context.
use cgroup_research.Prelude.{
  ℕ, ◌/◌, ◌%◌, Bool, false, not, ◌||◌, List, ◌∷◌, ◌++◌, [], ltb, leb, ◌==◌, if◌then◌else◌, length,
  codes, positive, Pid, eq_ℤ, ℤ, pos, negsuc,
}
use cgroup_research.Prelude.Word.{uint64_max, add_u64, mul_u64, sub_u64}
use cgroup_research.Cgroup.Decimal.{print_pid}
use cgroup_research.DramMapping.Bits.{and_bits}
use cgroup_research.AddrTranslate.Pagemap.{
  TranslateRc, System, Context, is_negative, has_bit, pagemap_pfn_mask, read_pagemap_entry,
}

-- `struct addr_translation`
pub record AddrTranslation : Type 0 where
  pub pid : Pid
  pub virtual_address : ℕ
  pub physical_address : ℕ
  pub page_size : ℕ
  pub page_index : ℕ
  pub page_offset : ℕ
  pub pagemap_entry : ℕ
  pub pfn : ℕ
  pub present : Bool
  pub swapped : Bool
  pub soft_dirty : Bool
  pub exclusively_mapped : Bool
  pub uffd_wp : Bool
  pub guard_region : Bool
  pub file_or_shared_anon : Bool

-- After memset(0).
abbrev pub zero_translation : AddrTranslation
zero_translation = record {
  pid = pos 0;
  virtual_address = 0;
  physical_address = 0;
  page_size = 0;
  page_index = 0;
  page_offset = 0;
  pagemap_entry = 0;
  pfn = 0;
  present = false;
  swapped = false;
  soft_dirty = false;
  exclusively_mapped = false;
  uffd_wp = false;
  guard_region = false;
  file_or_shared_anon = false;
}

abbrev pub size_of : ℤ → ℕ
size_of (pos n) = n
size_of (negsuc n) = 0

abbrev pub get_page_size : System → ℕ
get_page_size system =
    if positive system.sysconf_page_size then size_of system.sysconf_page_size else 0

-- After addr_translate_reset.
abbrev pub addr_translate_reset : Context
addr_translate_reset = record { pid = negsuc 0; pagemap_fd = negsuc 0; page_size = 0 }

-- The descriptors that the process has open, the last opened first.
abbrev pub Descriptors : Type 0
Descriptors = List ℤ

-- `close`: the descriptor is open no more.
unfoldable pub close : ℤ → Descriptors → Descriptors
close fd [] = []
close fd (d ∷ ds) = let rest = close fd ds in if eq_ℤ d fd then ds else d ∷ rest

-- A call of the three that use the context: the result, the context and the descriptors after it.
unfoldable pub addr_translate_open :
    System → Context → Pid → Descriptors → TranslateRc × Context × Descriptors
addr_translate_open system ctx pid ds =
    if not (positive pid)
    then (TranslateRc.invalid_arg, ctx, ds)
    else let page_size = get_page_size system in
      let path = codes "/proc/" ++ (print_pid pid ++ codes "/pagemap") in
      let fd = system.opens path in
      if page_size == 0
      then (TranslateRc.page_size, addr_translate_reset, ds)
      else if leb 64 (length path)
      then (TranslateRc.invalid_arg, addr_translate_reset, ds)
      else if is_negative fd
      then (TranslateRc.open_failed, addr_translate_reset, ds)
      else (TranslateRc.ok, record { pid = pid; pagemap_fd = fd; page_size = page_size }, fd ∷ ds)

unfoldable pub addr_translate_close : Context → Descriptors → Context × Descriptors
addr_translate_close ctx ds =
    (addr_translate_reset, if not (is_negative ctx.pagemap_fd) then close ctx.pagemap_fd ds else ds)

-- What is written from the entry of the page.
unfoldable pub describe : Context → ℕ → ℕ → AddrTranslation
describe ctx virtual_address entry = record zero_translation {
  pid = ctx.pid;
  virtual_address = virtual_address;
  page_size = ctx.page_size;
  page_index = virtual_address / ctx.page_size;
  page_offset = virtual_address % ctx.page_size;
  pagemap_entry = entry;
  present = has_bit 63 entry;
  swapped = has_bit 62 entry;
  soft_dirty = has_bit 55 entry;
  exclusively_mapped = has_bit 56 entry;
  uffd_wp = has_bit 57 entry;
  guard_region = has_bit 58 entry;
  file_or_shared_anon = has_bit 61 entry;
}

-- From the flags on.
unfoldable pub locate : Context → AddrTranslation → TranslateRc × AddrTranslation
locate ctx out =
    let pfn = and_bits 64 out.pagemap_entry pagemap_pfn_mask in
    let out' = record out { pfn = pfn } in
    if not out.present
    then (if out.swapped then (TranslateRc.swapped, out) else (TranslateRc.not_present, out))
    else if pfn == 0
    then (TranslateRc.pfn_unavailable, out')
    else if ltb (sub_u64 uint64_max out.page_offset / ctx.page_size) pfn
    then (TranslateRc.overflow, out')
    else (
      TranslateRc.ok,
      record out' { physical_address = add_u64 (mul_u64 pfn ctx.page_size) out.page_offset },
    )

unfoldable pub translate_entry : Context → ℕ → TranslateRc × ℕ → TranslateRc × AddrTranslation
unfolding describe locate
translate_entry ctx virtual_address (TranslateRc.ok, entry) =
    locate ctx (describe ctx virtual_address entry)
translate_entry ctx virtual_address (rc, entry) = (rc, zero_translation)

unfoldable pub addr_translate_va_to_pa :
    System → Context → ℕ → AddrTranslation → TranslateRc × AddrTranslation
unfolding translate_entry
addr_translate_va_to_pa system ctx virtual_address out =
    if not (positive ctx.pid) || (is_negative ctx.pagemap_fd || ctx.page_size == 0)
    then (TranslateRc.invalid_arg, out)
    else translate_entry ctx virtual_address
        (read_pagemap_entry system ctx (virtual_address / ctx.page_size))

-- After the open: the translation, and the close.
unfoldable pub translate_opened :
    System
    → ℕ
    → AddrTranslation
    → TranslateRc × Context × Descriptors
    → TranslateRc × AddrTranslation × Descriptors
translate_opened system virtual_address out (TranslateRc.ok, ctx, ds) =
    let (rc, out') = addr_translate_va_to_pa system ctx virtual_address out in
    (rc, out', (addr_translate_close ctx ds).1)
translate_opened system virtual_address out (rc, ctx, ds) = (rc, out, ds)

unfoldable pub addr_translate_pid_va_to_pa :
    System → Pid → ℕ → AddrTranslation → Descriptors → TranslateRc × AddrTranslation × Descriptors
unfolding translate_opened
addr_translate_pid_va_to_pa system pid virtual_address out ds =
    translate_opened system virtual_address out
      (addr_translate_open system addr_translate_reset pid ds)
