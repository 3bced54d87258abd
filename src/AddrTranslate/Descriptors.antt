-- ===== src/AddrTranslate/Descriptors.antt =====
-- The one-shot translation opens one descriptor and closes it, whatever happens in between.
use cgroup_research.Prelude.{
  ℕ, ◌<◌, ◌≡◌, refl, inl, inr, false, ◌∷◌, ◌++◌, Bool-cases, eq_ℤ_refl, leb, ◌==◌, positive, Pid, ℤ,
  arith, length, codes,
}
use cgroup_research.Prelude.Word.{word}
use cgroup_research.Cgroup.Decimal.{print_pid}
use cgroup_research.AddrTranslate.Pagemap.{TranslateRc, System, Context, is_negative}
use cgroup_research.AddrTranslate.Translate.{
  AddrTranslation, Descriptors, get_page_size, close, addr_translate_reset, addr_translate_open,
  addr_translate_close, addr_translate_va_to_pa, translate_opened, addr_translate_pid_va_to_pa,
}
use cgroup_research.AddrTranslate.Exact.{IsOpen}

-- The ways of addr_translate_open.
pub data Opened (system : System) (pid : Pid) (ctx : Context) (ds : Descriptors)
    : TranslateRc × Context × Descriptors → Type 0 where
  invalid : positive pid ≡ false → Opened system pid ctx ds (TranslateRc.invalid_arg, ctx, ds)
  failed :
      (rc : TranslateRc)
      → (rc ≡ TranslateRc.ok → ⊥)
      → Opened system pid ctx ds (rc, addr_translate_reset, ds)
  opened :
      (ctx' : Context)
      → IsOpen ctx'
      → ctx'.pid ≡ pid
      → Opened system pid ctx ds (TranslateRc.ok, ctx', ctx'.pagemap_fd ∷ ds)

addr_translate_open-Opened :
    (system : System) (pid : Pid) (ctx : Context) (ds : Descriptors)
    → get_page_size system < word
    → Opened system pid ctx ds (addr_translate_open system ctx pid ds)
unfolding addr_translate_open
addr_translate_open-Opened system pid ctx ds l = elim (Bool-cases (positive pid)) [
  | inr n ↦ rw n (Opened.invalid n)
  | inl y ↦
      let size = get_page_size system in
      let path = codes "/proc/" ++ (print_pid pid ++ codes "/pagemap") in
      elim (Bool-cases (size == 0)) [
        | inl z ↦ rw (y, z) (Opened.failed TranslateRc.page_size (λ h. cc))
        | inr s ↦ elim (Bool-cases (leb 64 (length path))) [
          | inl long ↦ rw (y, s, long) (Opened.failed TranslateRc.invalid_arg (λ h. cc))
          | inr short ↦ elim (Bool-cases (is_negative (system.opens path))) [
            | inl e ↦ rw (y, s, short, e) (Opened.failed TranslateRc.open_failed (λ h. cc))
            | inr fd ↦
                let there : IsOpen
                    (record { pid = pid; pagemap_fd = system.opens path; page_size = size }) =
                  record {
                    pid_there = y;
                    fd_there = fd;
                    size_positive = ground arith;
                    size_word = l;
                  } in
                rw (y, s, short, fd)
                  (Opened.opened
                    (record { pid = pid; pagemap_fd = system.opens path; page_size = size }) there
                    refl)
          ]
        ]
      ]
]

-- What the one-shot translation may return, with the descriptors that are open after it.
pub data OneShot (system : System) (pid : Pid) (virtual_address : ℕ) (out : AddrTranslation)
    (ds : Descriptors) : TranslateRc × AddrTranslation × Descriptors → Type 0 where
  refused :
      (rc : TranslateRc)
      → (rc ≡ TranslateRc.ok → ⊥)
      → OneShot system pid virtual_address out ds (rc, out, ds)
  translated :
      (ctx : Context)
      → IsOpen ctx
      → ctx.pid ≡ pid
      → OneShot system pid virtual_address out ds (
        (addr_translate_va_to_pa system ctx virtual_address out).0,
        (addr_translate_va_to_pa system ctx virtual_address out).1,
        ds,
      )

pub close-first : (fd : ℤ) (ds : Descriptors) → close fd (fd ∷ ds) ≡ ds
unfolding close
close-first fd ds = rw (eq_ℤ_refl fd) refl

translate_opened-failed :
    (system : System) (virtual_address : ℕ) (out : AddrTranslation) (rc : TranslateRc)
    (ctx : Context) (ds : Descriptors)
    → (rc ≡ TranslateRc.ok → ⊥)
    → translate_opened system virtual_address out (rc, ctx, ds) ≡ (rc, out, ds)
unfolding translate_opened
translate_opened-failed system va out rc ctx ds n = ground arith

translate_opened-OneShot :
    (system : System) (pid : Pid) (virtual_address : ℕ) (out : AddrTranslation) (ds : Descriptors)
    {r : TranslateRc × Context × Descriptors}
    → Opened system pid addr_translate_reset ds r
    → OneShot system pid virtual_address out ds (translate_opened system virtual_address out r)
unfolding translate_opened addr_translate_close
translate_opened-OneShot system pid va out ds (Opened.invalid n) =
    OneShot.refused TranslateRc.invalid_arg (λ h. cc)
translate_opened-OneShot system pid va out ds (Opened.failed rc n) =
    rw (translate_opened-failed system va out rc addr_translate_reset ds n) (OneShot.refused rc n)
translate_opened-OneShot system pid va out ds (Opened.opened ctx o p) =
    rw (o.fd_there, close-first ctx.pagemap_fd ds) (OneShot.translated ctx o p)

-- The one-shot translation leaves exactly the descriptors open that were open before, on every path.
-- It reports success only through an open context of the pid, with the result of the translation in it;
-- where the context does not open, the result is an error and the output is untouched.
pub addr_translate_pid_va_to_pa-OneShot :
    (system : System) (pid : Pid) (virtual_address : ℕ) (out : AddrTranslation) (ds : Descriptors)
    → get_page_size system < word
    → OneShot system pid virtual_address out ds
        (addr_translate_pid_va_to_pa system pid virtual_address out ds)
unfolding addr_translate_pid_va_to_pa
addr_translate_pid_va_to_pa-OneShot system pid va out ds l =
    translate_opened-OneShot system pid va out ds
      (addr_translate_open-Opened system pid addr_translate_reset ds l)
