-- ===== src/Cgroup/Control.antt =====
-- cgroup.c: paths below the configured base, and writes of control files.
use cgroup_research.Prelude.{
  ℕ, Bool, true, false, not, ◌||◌, Option, none, some, List, [], ◌∷◌, ◌++◌, Pid, positive, length,
  take, leb, ◌==◌, if◌then◌else◌, codes,
}
use cgroup_research.Prelude.Word.{Text}
use cgroup_research.Cgroup.Group.{Group}
use cgroup_research.Cgroup.Decimal.{print_pid}

-- What becomes of `fopen`, `fprintf` and `fclose` on a control file.
pub data Written : Type 0 where
  not_opened not_written not_closed done : Written

abbrev pub is_done : Written → Bool
is_done Written.done = true
is_done _ = false

-- One attempt to write a control file.
pub record Write : Type 0 where
  pub path : Text
  pub content : Text
  pub result : Written

-- `g_cgroup_base`, and the attempts so far, the newest first.
pub record World : Type 0 where
  pub base : Text
  pub log : List Write

-- The kernel's answer to an attempt, which may depend on all that went before.
abbrev pub Kernel : Type 0
Kernel = List Write → Text → Text → Written

abbrev pub path_max : ℕ
path_max = 512

abbrev pub value_max : ℕ
value_max = 128

unfoldable pub group_to_dir_name : Group → Option Text
group_to_dir_name Group.protected = some (codes "protected")
group_to_dir_name Group.background = some (codes "background")
group_to_dir_name Group.throttled = some (codes "throttled")
group_to_dir_name _ = none

unfoldable pub group_name : Group → Text
group_name Group.protected = codes "protected"
group_name Group.background = codes "background"
group_name Group.throttled = codes "throttled"
group_name Group.ignored = codes "ignored"
group_name Group.unknown = codes "unknown"
group_name (Group.other n) = codes "invalid"

-- `snprintf` into a buffer of `size` bytes: `none` where the text and its terminator do not fit.
abbrev pub fitting : ℕ → Text → Option Text
fitting size s = if leb size (length s) then none else some s

-- `snprintf` fills the buffer also where it then reports that the text was too long.
unfoldable pub set_base_path : Option Text → World → Bool × World
set_base_path none w = (false, w)
set_base_path (some []) w = (false, w)
set_base_path (some (c ∷ s)) w =
    (not (leb path_max (length (c ∷ s))), record w { base = take 511 (c ∷ s) })

dir_under : Text → ℕ → Option Text → Option Text
dir_under base size none = none
dir_under base size (some name) = fitting size (base ++ (47 ∷ name))

-- `none` is -1, and `some` the text that goes through `out`, which is no null pointer.
unfoldable pub group_dir : Text → Group → ℕ → Option Text
unfolding dir_under
group_dir base group size =
    if size == 0 then none else dir_under base size (group_to_dir_name group)

-- `strchr(s, '/') != NULL`
unfoldable pub has_slash : Text → Bool
has_slash [] = false
has_slash (c ∷ s) = c == 47 || has_slash s

file_under : Text → ℕ → Option Text → Option Text
file_under file size none = none
file_under file size (some dir) = fitting size (dir ++ (47 ∷ file))

unfoldable pub control_path : Text → Group → Option Text → ℕ → Option Text
unfolding file_under
control_path base group none size = none
control_path base group (some []) size = none
control_path base group (some (c ∷ s)) size =
    if has_slash (c ∷ s) then none else file_under (c ∷ s) size (group_dir base group path_max)

module _ (kernel : Kernel) where
  -- The file is opened, written and closed; every attempt is logged with its result.
  attempt : Text → Text → World → Bool × World
  attempt path content w =
      let result = kernel w.log path content in
      (
        is_done result,
        record w { log = record { path = path; content = content; result = result } ∷ w.log },
      )

  write_at : Option Text → Text → World → Bool × World
  unfolding attempt
  write_at none value w = (false, w)
  write_at (some path) value w = attempt path (value ++ (10 ∷ [])) w

  unfoldable pub write_control : Group → Option Text → Option Text → World → Bool × World
  unfolding write_at
  write_control group file none w = (false, w)
  write_control group file (some value) w =
      write_at (control_path w.base group file path_max) value w

  unfoldable pub move_pid : Pid → Group → World → Bool × World
  move_pid pid group w =
      if not (positive pid)
      then (false, w)
      else if leb value_max (length (print_pid pid))
      then (false, w)
      else write_control group (some (codes "cgroup.procs")) (some (print_pid pid)) w

  unfoldable pub set_cpu_max : Group → Text → World → Bool × World
  set_cpu_max group value w = write_control group (some (codes "cpu.max")) (some value) w

  unfoldable pub set_memory_low : Group → Text → World → Bool × World
  set_memory_low group value w = write_control group (some (codes "memory.low")) (some value) w

  unfoldable pub set_memory_high : Group → Text → World → Bool × World
  set_memory_high group value w = write_control group (some (codes "memory.high")) (some value) w

  unfoldable pub set_memory_max : Group → Text → World → Bool × World
  set_memory_max group value w = write_control group (some (codes "memory.max")) (some value) w
