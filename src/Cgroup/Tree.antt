-- ===== src/Cgroup/Tree.antt =====
-- The log of cgroup writes read as the group of each pid, and cgroup.c as the interface that the rest
-- of the daemon uses.
use cgroup_research.Prelude.{
  ℕ, ◌≡◌, refl, sym, ◌∙◌, Bool, true, false, ◌&&◌, Option, none, some, List, [], ◌∷◌, ◌++◌, Pid,
  positive, eq_ℤ, eq_ℤ_iff, eq_ℤ_refl, ◌==◌, if◌then◌else◌, codes, arith, Bool-cases, Option-cases,
  inl, inr, some_inj, or_else,
}
use cgroup_research.Prelude.Word.{Text}
use mathlib.Core.List.{append_assoc}
use mathlib.Core.Bool.{false≢true}
use cgroup_research.Cgroup.Group.{Group}
use cgroup_research.Cgroup.Interface.{Cgroups}
use cgroup_research.Cgroup.Decimal.{print_pid, print_pid-injective}
use cgroup_research.Cgroup.Control.{
  Written, is_done, Write, World, Kernel, path_max, control_path, group_dir, group_to_dir_name,
  has_slash, write_control, move_pid, set_cpu_max, set_memory_low,
}

unfoldable pub eq_text : Text → Text → Bool
eq_text [] [] = true
eq_text [] (d ∷ t) = false
eq_text (c ∷ s) [] = false
eq_text (c ∷ s) (d ∷ t) = c == d && eq_text s t

pub eq_text_refl : (s : Text) → eq_text s s ≡ true
unfolding eq_text
eq_text_refl [] = refl
eq_text_refl (c ∷ s) = ground (arith, eq_text_refl s)

pub eq_text_eq : (s t : Text) → eq_text s t ≡ true → s ≡ t
unfolding eq_text
eq_text_eq [] [] h = refl
eq_text_eq [] (d ∷ t) h = cc
eq_text_eq (c ∷ s) [] h = cc
eq_text_eq (c ∷ s) (d ∷ t) h = ground (arith, eq_text_eq s t)

-- A common front does not matter, nor does a common last character.
eq_text-append : (a s t : Text) → eq_text (a ++ s) (a ++ t) ≡ eq_text s t
unfolding eq_text
eq_text-append [] s t = refl
eq_text-append (c ∷ a) s t = ground (arith, eq_text-append a s t)

eq_text-snoc :
    (s t : Text) (c : ℕ) → eq_text (s ++ (c ∷ [])) (t ++ (c ∷ [])) ≡ true → eq_text s t ≡ true
unfolding eq_text
eq_text-snoc [] [] c h = refl
eq_text-snoc [] (d ∷ []) c h = ground arith
eq_text-snoc [] (d ∷ e ∷ t) c h = ground arith
eq_text-snoc (d ∷ []) [] c h = ground arith
eq_text-snoc (d ∷ e ∷ s) [] c h = ground arith
eq_text-snoc (a ∷ s) (b ∷ t) c h = ground (arith, eq_text-snoc s t c)

-- What `cgroup_move_pid` writes for a pid.
abbrev pid_line : Pid → Text
pid_line pid = print_pid pid ++ (10 ∷ [])

pid_line-injective :
    (p q : Pid)
    → positive p ≡ true
    → positive q ≡ true
    → eq_text (pid_line p) (pid_line q) ≡ eq_ℤ p q
pid_line-injective p q hp hq = elim (Bool-cases (eq_ℤ p q)) [
  | inl e ↦ rw ((eq_ℤ_iff p q).0 e, eq_text_refl, eq_ℤ_refl)
  | inr n ↦ elim (Bool-cases (eq_text (pid_line p) (pid_line q))) [
    | inr m ↦ m ∙ sym n
    | inl m ↦ absurd (
        differ p q n (
          print_pid-injective p q hp hq (
            eq_text_eq (print_pid p) (print_pid q)
              (eq_text-snoc (print_pid p) (print_pid q) 10 m))))
  ]
]
  where
    differ : (a b : Pid) → eq_ℤ a b ≡ false → a ≡ b → ⊥
    differ a b n e = ground (arith, eq_ℤ_iff a b)

abbrev procs : Text
procs = codes "cgroup.procs"

-- The end of the path of a group's `cgroup.procs` behind the base.
abbrev tail_of : Text → Text
tail_of name = 47 ∷ name ++ 47 ∷ procs

-- The group whose `cgroup.procs` stands at a path.
abbrev group_at : Text → Text → Option Group
group_at base path =
    if eq_text path (base ++ tail_of (codes "protected"))
    then some Group.protected
    else if eq_text path (base ++ tail_of (codes "background"))
    then some Group.background
    else if eq_text path (base ++ tail_of (codes "throttled"))
    then some Group.throttled
    else none

control_path-named :
    (base : Text) (g : Group) (name path : Text)
    → group_to_dir_name g ≡ some name
    → control_path base g (some procs) path_max ≡ some path
    → path ≡ (base ++ (47 ∷ name)) ++ (47 ∷ procs)
unfolding control_path group_dir has_slash
control_path-named base g name path e h = ground arith

control_path-none :
    (base : Text) (g : Group)
    → group_to_dir_name g ≡ none
    → control_path base g (some procs) path_max ≡ none
unfolding control_path group_dir has_slash
control_path-none base g e = ground arith

group_at-tail :
    (base : Text) (g : Group) (name : Text)
    → group_to_dir_name g ≡ some name
    → group_at base ((base ++ (47 ∷ name)) ++ (47 ∷ procs)) ≡ some g
unfolding group_to_dir_name
group_at-tail base Group.protected name h =
    rw (← some_inj _ _ h) (simp (append_assoc, eq_text-append) (unfold eq_text in refl))
group_at-tail base Group.background name h =
    rw (← some_inj _ _ h) (simp (append_assoc, eq_text-append) (unfold eq_text in refl))
group_at-tail base Group.throttled name h =
    rw (← some_inj _ _ h) (simp (append_assoc, eq_text-append) (unfold eq_text in refl))
group_at-tail base Group.ignored name h = cc
group_at-tail base Group.unknown name h = cc
group_at-tail base (Group.other n) name h = cc

-- A group whose `cgroup.procs` has a path is found from that path.
group_at-control_path :
    (base : Text) (g : Group) (path : Text)
    → control_path base g (some procs) path_max ≡ some path
    → group_at base path ≡ some g
group_at-control_path base g path h = elim (Option-cases (group_to_dir_name g)) [
  | inl e ↦ cc (control_path-none base g e)
  | inr (name, e) ↦ rw (control_path-named base g name path e h) (group_at-tail base g name e)
]

-- What one write says of a pid.
unfoldable pub entry_group : Text → Pid → Write → Option Group
entry_group base pid e =
    if is_done e.result && positive pid && eq_text e.content (pid_line pid)
    then group_at base e.path
    else none

-- The group of the last acknowledged move of a pid.
unfoldable pub last_group : Text → Pid → List Write → Option Group
unfolding entry_group
last_group base pid [] = none
last_group base pid (e ∷ log) = or_else (entry_group base pid e) (last_group base pid log)

last_group-cons :
    (base : Text) (pid : Pid) (e : Write) (log : List Write)
    → last_group base pid (e ∷ log) ≡ or_else (entry_group base pid e) (last_group base pid log)
unfolding last_group
last_group-cons base pid e log = refl

abbrev pub group_of : World → Pid → Option Group
group_of w pid = last_group w.base pid w.log

-- The entry of an acknowledged move tells the group of that pid, and nothing of another.
entry_group_moved :
    (base : Text) (p q : Pid) (g : Group) (path : Text)
    → positive p ≡ true
    → group_at base path ≡ some g
    → entry_group base q (record { path = path; content = pid_line p; result = Written.done })
      ≡ (if eq_ℤ p q then some g else none)
unfolding entry_group
entry_group_moved base p q g path h e = elim (Bool-cases (positive q)) [
  | inl hq ↦ rw (hq, pid_line-injective p q h hq, e)
  | inr hq ↦ ground (arith, eq_ℤ_iff p q)
]

module _ (kernel : Kernel) where
  -- A move that succeeds has written the pid's line into the group's file.
  move_pid-acknowledged :
      (p : Pid) (g : Group) (w : World)
      → (move_pid kernel p g w).0 ≡ true
      → (path : Text) × (control_path w.base g (some procs) path_max ≡ some path)
        × (positive p ≡ true)
        × ((move_pid kernel p g w).1 ≡ record w {
          log = record { path = path; content = pid_line p; result = Written.done } ∷ w.log;
        })
  unfolding move_pid write_control
  move_pid-acknowledged p g w h =
      elim (Option-cases (control_path w.base g (some procs) path_max)) [
        | inl e ↦ absurd (false≢true (ground arith))
        | inr (path, e) ↦ (path, e, ground arith, ground arith)
      ]

  -- After a move that succeeds, the log tells the new group of that pid, and of every other pid what
  -- it told before.
  pub group_of-moved :
      (p : Pid) (g : Group) (w : World) (q : Pid)
      → (move_pid kernel p g w).0 ≡ true
      → group_of (move_pid kernel p g w).1 q ≡ (if eq_ℤ p q then some g else group_of w q)
  group_of-moved p g w q h =
      let (path, e, positive_pid, logged) = move_pid-acknowledged p g w h in
      let found = group_at-control_path w.base g path e in
      rw (logged, last_group-cons, entry_group_moved w.base p q g path positive_pid found)
        (ground arith)

  -- A move that fails, at whichever of its steps, leaves the group of every pid as the log tells it.
  pub group_of-refused :
      (p : Pid) (g : Group) (w : World) (q : Pid)
      → (move_pid kernel p g w).0 ≡ false
      → group_of (move_pid kernel p g w).1 q ≡ group_of w q
  unfolding move_pid write_control last_group
  group_of-refused p g w q h = ground arith

-- cgroup.c as the rest of the daemon uses it.
abbrev pub cgroups_of : Kernel → Cgroups World
cgroups_of kernel = record {
  move_pid = move_pid kernel;
  set_cpu_max = set_cpu_max kernel;
  set_memory_low = set_memory_low kernel;
  group_of = group_of;
  group_of-moved = group_of-moved kernel;
  group_of-refused = group_of-refused kernel;
}
