-- ===== src/CandidateFilter/Filter.antt =====
-- candidate_filter.c, function by function.
use cgroup_research.Prelude.{
  Bool, false, not, ◌&&◌, ◌||◌, Option, none, some, List, [], ◌∷◌, Pid, positive, eq_ℤ, length, leb,
  ◌==◌, if◌then◌else◌, codes,
}
use cgroup_research.Prelude.Word.{Text}
use cgroup_research.Cgroup.Group.{Group, ◌==_group◌}
use cgroup_research.BankProfile.Sampling.{starts_with, char_at}
use cgroup_research.Daemon.Policy.{cut_line}
use cgroup_research.ProcessTable.Table.{ProcInfo}

-- `enum candidate_filter_kind`
pub data Kind : Type 0 where
  excluded protected background : Kind

-- `enum candidate_filter_reason`
pub data Reason : Type 0 where
  none_given invalid_process daemon_self system_slice cgroup_unavailable : Reason

-- `struct candidate_filter_result`; the calls below return CANDIDATE_FILTER_OK where `result` is no
-- null pointer.
pub record Result : Type 0 where
  pub kind : Kind
  pub reason : Reason

abbrev pub process_record_is_valid : ProcInfo → Bool
process_record_is_valid p = p.used && positive p.pid

abbrev pub process_record_is_protected : ProcInfo → Bool
process_record_is_protected p =
    p.is_protected || p.inherited_protected || p.group ==_group Group.protected

-- The text after "0::", where the line starts with it.
unfoldable pub after_prefix : Text → Text
after_prefix (a ∷ b ∷ c ∷ path) = path
after_prefix _ = []

-- What is copied from the path of a line, if it is neither empty nor too long.
abbrev pub fitting_path : Text → Option Text
fitting_path path = if length path == 0 || leb 4096 (length path) then none else some path

-- The lines of the cgroup file, as `fgets` gives them, and whether the file closes. `none` is -1.
unfoldable pub path_in : Bool → List Text → Option Text
path_in closes [] = none
path_in closes (line ∷ lines) =
    let rest = path_in closes lines in
    let path = fitting_path (cut_line (after_prefix line)) in
    if not (starts_with (codes "0::") line) then rest else if closes then path else none

-- The cgroup files of the processes: `none` where the file does not open.
abbrev pub CgroupFiles : Type 0
CgroupFiles = Pid → Option (List Text × Bool)

unfoldable pub read_opened : Option (List Text × Bool) → Option Text
unfolding path_in
read_opened none = none
read_opened (some (lines, closes)) = path_in closes lines

unfoldable pub read_cgroup_v2_path : CgroupFiles → Pid → Option Text
unfolding read_opened
read_cgroup_v2_path files pid = if not (positive pid) then none else read_opened (files pid)

unfoldable pub path_is_system_slice : Text → Bool
path_is_system_slice path =
    if not (starts_with (codes "/system.slice") path)
    then false
    else char_at path 13 == 0 || char_at path 13 == 47

abbrev pub result_of : Kind → Reason → Result
result_of kind reason = record { kind = kind; reason = reason }

-- From the protection on, where the path is known; the empty path is one that is not available.
unfoldable pub classify_by_path : Option Text → Result
unfolding path_is_system_slice
classify_by_path none = result_of Kind.excluded Reason.cgroup_unavailable
classify_by_path (some []) = result_of Kind.excluded Reason.cgroup_unavailable
classify_by_path (some (c ∷ path)) =
    if path_is_system_slice (c ∷ path)
    then result_of Kind.excluded Reason.system_slice
    else result_of Kind.background Reason.none_given

unfoldable pub classify_path : ProcInfo → Pid → Option Text → Result
unfolding classify_by_path
classify_path p daemon_pid path =
    if not (process_record_is_valid p)
    then result_of Kind.excluded Reason.invalid_process
    else if positive daemon_pid && eq_ℤ p.pid daemon_pid
    then result_of Kind.excluded Reason.daemon_self
    else if process_record_is_protected p
    then result_of Kind.protected Reason.none_given
    else classify_by_path path

-- A path that is not read is reported without a second call.
unfoldable pub classify_read : ProcInfo → Pid → Option Text → Result
unfolding classify_path
classify_read p daemon_pid none = result_of Kind.excluded Reason.cgroup_unavailable
classify_read p daemon_pid (some path) = classify_path p daemon_pid (some path)

unfoldable pub classify_pid : CgroupFiles → ProcInfo → Pid → Result
unfolding classify_read read_cgroup_v2_path
classify_pid files p daemon_pid =
    if not (process_record_is_valid p)
    then result_of Kind.excluded Reason.invalid_process
    else if positive daemon_pid && eq_ℤ p.pid daemon_pid
    then result_of Kind.excluded Reason.daemon_self
    else if process_record_is_protected p
    then result_of Kind.protected Reason.none_given
    else classify_read p daemon_pid (read_cgroup_v2_path files p.pid)
