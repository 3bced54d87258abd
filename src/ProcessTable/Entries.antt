-- ===== src/ProcessTable/Entries.antt =====
-- The entries that the events ask for, field by field, apart from the steps in which process.c writes
-- them.
use mathlib.Core.Path.{fun_ext}
use cgroup_research.Prelude.{
  ◌≡◌, refl, ◌==◌, Bool, true, false, ◌&&◌, Option, none, some, [], take, positive, if◌then◌else◌,
  map, arith, Bool-cases, inl, inr,
}
use cgroup_research.Prelude.Word.{Text}
use cgroup_research.Cgroup.Group.{Group}
use cgroup_research.ProcessTable.Table.{
  ProcInfo, Event, Answers, exec_info, fork_info, process_read_exe, process_read_cmdline,
  read_cmdline_from,
}

-- The path that an entry has of a link: empty where the link cannot be read.
abbrev pub exe_of : Option Text → Text
exe_of none = []
exe_of (some path) = take 4095 path

-- The command line that an entry has of a file, with blanks for the bytes of 0: empty where the file
-- does not open or does not close.
abbrev pub cmdline_of : Option (Text × Bool) → Text
cmdline_of none = []
cmdline_of (some (content, false)) = []
cmdline_of (some (content, true)) = map (λ c. if c == 0 then 32 else c) (take 4095 content)

-- The entry of a process that executes a program: the metadata of the event and of /proc, and the
-- protection and the group of the entry that was there, where one was found.
abbrev pub exec_asked : Answers → Event → Bool → ProcInfo → ProcInfo
exec_asked answers e found old = record {
  used = true;
  pid = e.pid;
  ppid = e.ppid;
  uid = e.uid;
  exec_seen = true;
  exited = false;
  is_protected = found && old.is_protected;
  inherited_protected = found && old.inherited_protected;
  group = if found then old.group else Group.unknown;
  comm = take 15 e.comm;
  exe_path = exe_of (answers.exe e.pid);
  cmdline = cmdline_of (answers.cmdline e.pid);
}

-- Whether there is an entry of the parent, and it is protected.
abbrev pub guards : Option ProcInfo → Bool
guards none = false
guards (some p) = p.used && p.is_protected

-- The entry of a forked child: the metadata of the event, and the protection of the parent.
unfoldable pub fork_asked : Event → Option ProcInfo → ProcInfo
fork_asked e parent = record {
  used = true;
  pid = e.child_pid;
  ppid = e.pid;
  uid = e.uid;
  exec_seen = false;
  exited = false;
  is_protected = guards parent;
  inherited_protected = guards parent;
  group = if guards parent then Group.protected else Group.unknown;
  comm = take 15 e.comm;
  exe_path = [];
  cmdline = [];
}

exec_fields :
    (exe : Option Text) (cmdline : Option (Text × Bool)) (answers : Answers) (e : Event)
    (found : Bool) (old : ProcInfo)
    → positive e.pid ≡ true
    → answers.exe e.pid ≡ exe
    → answers.cmdline e.pid ≡ cmdline
    → exec_info answers e found old ≡ exec_asked answers e found old
unfolding exec_info process_read_exe process_read_cmdline read_cmdline_from
exec_fields none none answers e found old y h k = rw (y, h, y, k) (ground arith)
exec_fields none (some (content, false)) answers e found old y h k = rw (y, h, y, k) (ground arith)
exec_fields none (some (content, true)) answers e found old y h k = rw (y, h, y, k) (ground arith)
exec_fields (some path) none answers e found old y h k = rw (y, h, y, k) (ground arith)
exec_fields (some path) (some (content, false)) answers e found old y h k =
    rw (y, h, y, k) (ground arith)
exec_fields (some path) (some (content, true)) answers e found old y h k =
    rw (y, h, y, k) (ground arith)

pub exec_info_lem :
    (answers : Answers) (e : Event)
    → positive e.pid ≡ true
    → exec_info answers e ≡ exec_asked answers e
exec_info_lem answers e y = fun_ext λ found.
    fun_ext
      λ old. exec_fields (answers.exe e.pid) (answers.cmdline e.pid) answers e found old y refl refl

pub fork_info_lem :
    (e : Event) (parent : Option ProcInfo) → fork_info e parent ≡ fork_asked e parent
unfolding fork_info fork_asked
fork_info_lem e none = refl
fork_info_lem e (some p) = elim (Bool-cases (p.used && p.is_protected)) [
  | inl g ↦ rw g refl
  | inr n ↦ rw n refl
]
