-- ===== src/CandidateFilter/Kinds.antt =====
-- What the kinds of candidate_filter.c mean.
use cgroup_research.Prelude.{
  ℕ, ◌≡◌, ◌↔◌, ◌<◌, All, ◌⊎◌, inl, inr, refl, ap₂, Bool, true, false, not, ◌&&◌, ◌||◌, Option, none,
  some, [], ◌∷◌, ◌++◌, Pid, positive, eq_ℤ, ◌==◌, if◌then◌else◌, codes, arith, Bool-cases,
}
use cgroup_research.Prelude.Word.{Text}
use cgroup_research.BankProfile.Sampling.{starts_with, char_at}
use cgroup_research.ProcessTable.Table.{ProcInfo}
use cgroup_research.CandidateFilter.Filter.{
  Kind, Reason, Result, CgroupFiles, process_record_is_valid, process_record_is_protected,
  read_cgroup_v2_path, path_is_system_slice, classify_by_path, classify_path, classify_read,
  classify_pid,
}

-- Whether the process may be looked at at all.
abbrev pub is_watched : ProcInfo → Pid → Bool
is_watched p daemon_pid =
    process_record_is_valid p && not (positive daemon_pid && eq_ℤ p.pid daemon_pid)

-- The kind and reason, in one test after the other.
abbrev pub expected : ProcInfo → Pid → Option Text → Result
expected p daemon_pid path =
    if not (process_record_is_valid p)
    then record { kind = Kind.excluded; reason = Reason.invalid_process }
    else if positive daemon_pid && eq_ℤ p.pid daemon_pid
    then record { kind = Kind.excluded; reason = Reason.daemon_self }
    else if process_record_is_protected p
    then record { kind = Kind.protected; reason = Reason.none_given }
    else classify_by_path path

classify_read_lem :
    (p : ProcInfo) (daemon_pid : Pid) (path : Option Text)
    → process_record_is_valid p ≡ true
    → (positive daemon_pid && eq_ℤ p.pid daemon_pid) ≡ false
    → process_record_is_protected p ≡ false
    → classify_read p daemon_pid path ≡ classify_by_path path
unfolding classify_read classify_path classify_by_path
classify_read_lem p daemon_pid none v d n = refl
classify_read_lem p daemon_pid (some path) v d n = rw (v, d, n) refl

-- A process classified by its pid has the result of its path, read or not: the daemon itself is
-- excluded before it can be protected, a protected process is one before its path is looked at, and a
-- path that is not read counts as one that is not available.
pub classify_pid_lem :
    (files : CgroupFiles) (p : ProcInfo) (daemon_pid : Pid)
    → (classify_pid files p daemon_pid
        ≡ classify_path p daemon_pid (read_cgroup_v2_path files p.pid))
      × (classify_pid files p daemon_pid ≡ expected p daemon_pid (read_cgroup_v2_path files p.pid))
unfolding classify_pid classify_path
classify_pid_lem files p daemon_pid =
    let path = read_cgroup_v2_path files p.pid in
    elim (Bool-cases (process_record_is_valid p)) [
      | inr v ↦ rw v (refl, refl)
      | inl v ↦ elim (Bool-cases (positive daemon_pid && eq_ℤ p.pid daemon_pid)) [
        | inl d ↦ rw (v, d) (refl, refl)
        | inr d ↦ elim (Bool-cases (process_record_is_protected p)) [
          | inl y ↦ rw (v, d, y) (refl, refl)
          | inr n ↦
              let same = classify_read_lem p daemon_pid path v d n in
              rw (v, d, n, same) (refl, refl)
        ]
      ]
    ]

starts_with_iff :
    (prefix path : Text)
    → (starts_with prefix path ≡ true) ↔ ((rest : Text) × (path ≡ prefix ++ rest))
unfolding starts_with
starts_with_iff [] path = (λ h. (path, refl), λ h. refl)
starts_with_iff (d ∷ prefix) [] = (λ h. cc, λ (rest, e). cc)
starts_with_iff (d ∷ prefix) (c ∷ path) =
    let ih = starts_with_iff prefix path in
    (
      λ h.
          let first : c ≡ d = ground arith in
          let deeper : starts_with prefix path ≡ true = ground arith in
          let (rest, e) = ih.0 deeper in (rest, ap₂ (λ x xs. x ∷ xs) first e),
      λ (rest, e).
          let first : c ≡ d = cc in
          let tail : path ≡ prefix ++ rest = cc in
          let deeper : starts_with prefix path ≡ true = ih.1 (rest, tail) in
          ground (arith, first, deeper),
    )

-- The path of the slice.
abbrev pub slice : Text
slice = codes "/system.slice"

All-rest : (prefix rest : Text) → All (λ c. 0 < c) (prefix ++ rest) → All (λ c. 0 < c) rest
All-rest [] rest h = h
All-rest (c ∷ prefix) rest h = All-rest prefix rest h.1

not_true : false ≡ true → ⊥
not_true h = cc

-- The text after the slice's path ends, or goes on below it.
ends_lem :
    (rest : Text)
    → All (λ c. 0 < c) (slice ++ rest)
    → (char_at rest 0 == 0 || char_at rest 0 == 47) ≡ true
    → (slice ++ rest ≡ slice) ⊎ ((below : Text) × (slice ++ rest ≡ slice ++ (47 ∷ below)))
ends_lem [] h e = inl refl
ends_lem (c ∷ rest) h e =
    let whole : 0 < c = (All-rest slice (c ∷ rest) h).0 in
    let below : c ≡ 47 = ground arith in inr (rest, rw below refl)

-- A path without NUL is of the system slice exactly if it is the slice or below it.
pub path_is_system_slice_iff :
    (path : Text)
    → All (λ c. 0 < c) path
    → (path_is_system_slice path ≡ true)
      ↔ ((path ≡ slice) ⊎ ((below : Text) × (path ≡ slice ++ (47 ∷ below))))
unfolding path_is_system_slice starts_with
path_is_system_slice_iff path h = (
  λ e. elim (Bool-cases (starts_with slice path)) [
    | inr n ↦ absurd (not_true (rw n at e))
    | inl y ↦
        let (rest, shape) = (starts_with_iff slice path).0 y in
        let whole : All (λ c. 0 < c) (slice ++ rest) = rw shape at h in
        let ends : (char_at rest 0 == 0 || char_at rest 0 == 47) ≡ true = rw (y, shape) at e in
        rw shape (ends_lem rest whole ends)
  ],
  λ e. elim e [ inl same ↦ rw same refl | inr (below, shape) ↦ rw shape refl ],
)

both : (x y : Bool) → (x && y) ≡ true → (x ≡ true) × (y ≡ true)
both x y h = (ground arith, ground arith)

-- A path that is read and lies outside the system slice.
abbrev pub IsOutside : Option Text → Type 0
IsOutside path =
    (c : ℕ) × ((rest : Text) × ((path ≡ some (c ∷ rest))
        × (path_is_system_slice (c ∷ rest) ≡ false)))

inside :
    {path path' : Text}
    → path_is_system_slice path ≡ true
    → some path ≡ some path'
    → path_is_system_slice path' ≡ false
    → ⊥
inside y e n = cc

by_path_iff :
    (path : Option Text)
    → (((classify_by_path path).kind ≡ Kind.background) ↔ IsOutside path)
      × ((classify_by_path path).kind ≡ Kind.protected → ⊥)
unfolding classify_by_path
by_path_iff none = ((λ h. cc, λ (c, (rest, (e, n))). cc), λ h. cc)
by_path_iff (some []) = ((λ h. cc, λ (c, (rest, (e, n))). cc), λ h. cc)
by_path_iff (some (c ∷ rest)) = elim (Bool-cases (path_is_system_slice (c ∷ rest))) [
  | inl y ↦ rw y ((λ h. cc, λ (d, (others, (e, n))). absurd (inside y e n)), λ h. cc)
  | inr n ↦ rw n ((λ h. (c, (rest, (refl, n))), λ h. refl), λ h. cc)
]

-- A process is a background candidate exactly if it is watched, unprotected, and has a cgroup path that
-- is read and outside the system slice; it is a protected one exactly if it is watched and protected,
-- wherever its cgroup is.
pub classify_pid_iff :
    (files : CgroupFiles) (p : ProcInfo) (daemon_pid : Pid)
    → let path = read_cgroup_v2_path files p.pid in
      let result = classify_pid files p daemon_pid in
      ((result.kind ≡ Kind.background) ↔ (
        (is_watched p daemon_pid ≡ true)
        × ((process_record_is_protected p ≡ false) × IsOutside path)))
      × ((result.kind ≡ Kind.protected)
          ↔ ((is_watched p daemon_pid ≡ true) × (process_record_is_protected p ≡ true)))
classify_pid_iff files p daemon_pid =
    let path = read_cgroup_v2_path files p.pid in
    let (background, protected) = by_path_iff path in
    rw (classify_pid_lem files p daemon_pid).1 (elim (Bool-cases (process_record_is_valid p)) [
      | inr v ↦ rw v ((λ h. cc, λ (w, x). cc), (λ h. cc, λ (w, x). cc))
      | inl v ↦ elim (Bool-cases (positive daemon_pid && eq_ℤ p.pid daemon_pid)) [
        | inl d ↦ rw (v, d) ((λ h. cc, λ (w, x). cc), (λ h. cc, λ (w, x). cc))
        | inr d ↦ elim (Bool-cases (process_record_is_protected p)) [
          | inl y ↦ rw (v, d, y) ((λ h. cc, λ (w, (m, o)). cc), (λ h. (refl, refl), λ x. refl))
          | inr n ↦
              rw (v, d, n)
                (
                  (λ h. (refl, (refl, background.0 h)), λ (w, (m, o)). background.1 o),
                  (λ h. absurd (protected h), λ (w, m). cc),
                )
        ]
      ]
    ])
