-- ===== src/Cgroup/Interface.antt =====
-- What the daemon asks of the cgroup tree: writes of control files that succeed or fail, and what
-- the acknowledged moves say of a pid's group.
use cgroup_research.Prelude.{◌≡◌, Bool, true, false, Option, some, Pid, eq_ℤ, if◌then◌else◌}
use cgroup_research.Prelude.Word.{Text}
use cgroup_research.Cgroup.Group.{Group}

-- A call returns `true` for 0 and `false` for -1, beside the world after it.
pub record Cgroups (World : Type 0) : Type 0 where
  pub move_pid : Pid → Group → World → Bool × World
  pub set_cpu_max : Group → Text → World → Bool × World
  pub set_memory_low : Group → Text → World → Bool × World
  -- the group of the last acknowledged move of a pid
  pub group_of : World → Pid → Option Group
  pub group_of-moved :
      (p : Pid) (g : Group) (w : World) (q : Pid)
      → (move_pid p g w).0 ≡ true
      → group_of (move_pid p g w).1 q ≡ (if eq_ℤ p q then some g else group_of w q)
  pub group_of-refused :
      (p : Pid) (g : Group) (w : World) (q : Pid)
      → (move_pid p g w).0 ≡ false
      → group_of (move_pid p g w).1 q ≡ group_of w q
