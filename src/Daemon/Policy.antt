-- ===== src/Daemon/Policy.antt =====
-- policy.c: the list of protected names, and the group of a process.
use cgroup_research.Prelude.{
  ℕ, Bool, true, false, ◌&&◌, ◌||◌, Option, none, some, List, [], ◌∷◌, ◌++◌, Pid, pos, negsuc,
  length, take, leb, ◌==◌, if◌then◌else◌,
}
use cgroup_research.Prelude.Word.{Text}
use cgroup_research.Cgroup.Group.{Group}
use cgroup_research.Cgroup.Tree.{eq_text}
use cgroup_research.ProcessTable.Table.{ProcInfo}

-- MAX_PROTECTED
abbrev pub max_protected : ℕ
max_protected = 128

-- `isspace` in the C locale
abbrev pub is_space : ℕ → Bool
is_space c = c == 32 || leb 9 c && leb c 13

-- `s[strcspn(s, "\r\n")] = '\0'`
unfoldable pub cut_line : List ℕ → List ℕ
cut_line [] = []
cut_line (c ∷ s) = let rest = cut_line s in if c == 10 || c == 13 then [] else c ∷ rest

unfoldable pub skip_space : List ℕ → List ℕ
skip_space [] = []
skip_space (c ∷ s) = let rest = skip_space s in if is_space c then rest else c ∷ s

abbrev pub is_nil : Text → Bool
is_nil [] = true
is_nil (c ∷ s) = false

-- The spaces at the end, from the last one backwards.
unfoldable pub trim_end : List ℕ → List ℕ
trim_end [] = []
trim_end (c ∷ s) = let rest = trim_end s in if is_space c && is_nil rest then [] else c ∷ rest

unfoldable pub trim_line : Text → Text
trim_line s = trim_end (skip_space (cut_line s))

-- One line of the file: an empty line, a comment, a full list, or a new name of at most 15 bytes.
unfoldable pub load_line : List Text → Text → List Text
load_line names [] = names
load_line names (c ∷ s) =
    if c == 35
    then names
    else if leb max_protected (length names)
    then names
    else names ++ (take 15 (c ∷ s) ∷ [])

unfoldable pub load_lines : List Text → List Text → List Text
load_lines names [] = names
load_lines names (line ∷ lines) = load_lines (load_line names (trim_line line)) lines

-- `none` where the file does not open; its lines as `fgets` gives them. The names are
-- `protected_comm[0 .. protected_count]`.
unfoldable pub policy_load_config : Option (List Text) → Bool × List Text
policy_load_config none = (false, [])
policy_load_config (some lines) = (true, load_lines [] lines)

-- `pid <= 2`
abbrev pub at_most_two : Pid → Bool
at_most_two (pos n) = leb n 2
at_most_two (negsuc n) = true

unfoldable pub policy_is_ignored : ProcInfo → Bool
policy_is_ignored p = at_most_two p.pid || is_nil p.comm

unfoldable pub name_among : Text → List Text → Bool
name_among comm [] = false
name_among comm (name ∷ names) = eq_text comm name || name_among comm names

unfoldable pub policy_is_protected : List Text → ProcInfo → Bool
policy_is_protected names p = name_among p.comm names

unfoldable pub policy_decide_group : List Text → ProcInfo → Group
policy_decide_group names p =
    if policy_is_ignored p
    then Group.ignored
    else if p.is_protected || policy_is_protected names p
    then Group.protected
    else Group.background
