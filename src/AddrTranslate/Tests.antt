-- ===== src/AddrTranslate/Tests.antt =====
-- Runs of addr_translate.c, and its theorems at concrete inputs.
use mathlib.Core.Option.{some-injective}
use mathlib.Core.Path.{subst}
use cgroup_research.Prelude.{
  ◌/◌, ◌^◌, ◌≡◌, refl, some, [], pos, leb, if◌then◌else◌, arith, positive,
}
use cgroup_research.AddrTranslate.Pagemap.{TranslateRc, System, Context, Bytes, decode_u64_le}
use cgroup_research.AddrTranslate.Translate.{
  zero_translation, addr_translate_va_to_pa, addr_translate_pid_va_to_pa,
}
use cgroup_research.AddrTranslate.Words.{AreBytes, bytes_of, decode_u64_le-bytes_of}
use cgroup_research.AddrTranslate.Exact.{answer, addr_translate_va_to_pa-exact}
use cgroup_research.AddrTranslate.Descriptors.{OneShot, addr_translate_pid_va_to_pa-OneShot}

-- Every page is present, in frame 3.
abbrev third_frame : Bytes
third_frame = record { b0 = 3; b1 = 0; b2 = 0; b3 = 0; b4 = 0; b5 = 0; b6 = 0; b7 = 128 }

abbrev machine : System
machine = record {
  sysconf_page_size = pos 4096;
  opens = λ path. pos 9;
  pread = λ fd offset. some third_frame;
}

abbrev opened : Context
opened = record { pid = pos 7; pagemap_fd = pos 9; page_size = 4096 }

third_frame-AreBytes : (b : Bytes) → some third_frame ≡ some b → AreBytes b
third_frame-AreBytes b h =
    let e : third_frame ≡ b = some-injective third_frame b h in
    subst (λ x. AreBytes x) e
      (record {
        lt0 = omega arith;
        lt1 = omega arith;
        lt2 = omega arith;
        lt3 = omega arith;
        lt4 = omega arith;
        lt5 = omega arith;
        lt6 = omega arith;
        lt7 = omega arith;
      })

addr_translate_va_to_pa-exact_example :
    let result = addr_translate_va_to_pa machine opened 8200 zero_translation in
    (result.0, result.1.physical_address) ≡ (
      if leb (2 ^ 60) (8200 / 4096)
      then (TranslateRc.overflow, 0)
      else answer 4096 8200 (some third_frame))
unfolding positive
addr_translate_va_to_pa-exact_example =
    addr_translate_va_to_pa-exact machine opened 8200 zero_translation
      (record {
        pid_there = refl;
        fd_there = refl;
        size_positive = omega arith;
        size_word = omega arith;
      })
      (omega arith) (λ fd offset b h. third_frame-AreBytes b h)

addr_translate_pid_va_to_pa-OneShot_example :
    OneShot machine
      (pos 7)
      8200
      zero_translation
      []
      (addr_translate_pid_va_to_pa machine (pos 7) 8200 zero_translation [])
unfolding positive
addr_translate_pid_va_to_pa-OneShot_example =
    addr_translate_pid_va_to_pa-OneShot machine (pos 7) 8200 zero_translation [] (omega arith)

decode_u64_le-bytes_of_example : decode_u64_le (bytes_of 9223372036854775811) ≡ 9223372036854775811
decode_u64_le-bytes_of_example = decode_u64_le-bytes_of 9223372036854775811 (omega arith)

-- Frame 3, and offset 8 in the page.
finds_the_frame : answer 4096 8200 (some third_frame) ≡ (TranslateRc.ok, 12296)
finds_the_frame = refl
