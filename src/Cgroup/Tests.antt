-- ===== src/Cgroup/Tests.antt =====
-- Runs of cgroup.c, and its theorems at concrete inputs.
use cgroup_research.Prelude.{◌≡◌, refl, some, none, [], pos, codes, positive, eq_ℤ, if◌then◌else◌}
use cgroup_research.Cgroup.Group.{Group}
use cgroup_research.Cgroup.Decimal.{print_pid}
use cgroup_research.Cgroup.Control.{
  Written, Kernel, World, control_path, has_slash, group_dir, group_to_dir_name, move_pid,
  write_control,
}
use cgroup_research.Cgroup.Tree.{group_of, group_of-moved}

-- A kernel that accepts the first write only.
abbrev first_only : Kernel
first_only [] path content = Written.done
first_only _ path content = Written.not_written

abbrev untouched : World
untouched = record { base = codes "/cg"; log = [] }

prints_in_decimal : print_pid (pos 4096) ≡ codes "4096"
unfolding print_pid
prints_in_decimal = refl

finds_the_file :
    control_path (codes "/cg") Group.throttled (some (codes "cgroup.procs")) 512
    ≡ some (codes "/cg/throttled/cgroup.procs")
unfolding control_path has_slash group_dir group_to_dir_name
finds_the_file = refl

refuses_a_slash : control_path (codes "/cg") Group.throttled (some (codes "../cpu.max")) 512 ≡ none
unfolding control_path has_slash
refuses_a_slash = refl

group_of-moved_example :
    group_of (move_pid first_only (pos 7) Group.throttled untouched).1 (pos 7)
    ≡ (if eq_ℤ (pos 7) (pos 7) then some Group.throttled else group_of untouched (pos 7))
unfolding move_pid positive print_pid write_control control_path has_slash group_dir
    group_to_dir_name
group_of-moved_example = group_of-moved first_only (pos 7) Group.throttled untouched (pos 7) refl
