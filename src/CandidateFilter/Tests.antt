-- ===== src/CandidateFilter/Tests.antt =====
-- Runs of candidate_filter.c, and its theorems at concrete inputs.
use cgroup_research.Prelude.{◌≡◌, ◌↔◌, true, false, some, [], ◌∷◌, pos, codes}
use cgroup_research.Cgroup.Group.{Group}
use cgroup_research.ProcessTable.Table.{ProcInfo, zero_info}
use cgroup_research.CandidateFilter.Filter.{
  Kind, CgroupFiles, process_record_is_protected, read_cgroup_v2_path, classify_pid,
}
use cgroup_research.CandidateFilter.Kinds.{IsOutside, is_watched, classify_pid_iff}

abbrev compiler : ProcInfo
compiler = record zero_info {
  used = true;
  pid = pos 11;
  group = Group.background;
  comm = codes "cc";
}

-- Every process is in a user slice.
abbrev files : CgroupFiles
files = λ pid. some (codes "0::/user.slice/a\n" ∷ [], true)

classify_pid_iff_example :
    let path = read_cgroup_v2_path files (pos 11) in
    let result = classify_pid files compiler (pos 5) in
    ((result.kind ≡ Kind.background) ↔ (
      (is_watched compiler (pos 5) ≡ true)
      × ((process_record_is_protected compiler ≡ false) × IsOutside path)))
    × ((result.kind ≡ Kind.protected)
        ↔ ((is_watched compiler (pos 5) ≡ true) × (process_record_is_protected compiler ≡ true)))
classify_pid_iff_example = classify_pid_iff files compiler (pos 5)
