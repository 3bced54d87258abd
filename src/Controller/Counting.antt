-- ===== src/Controller/Counting.antt =====
-- The statistics that a call leaves: every candidate and every record is counted in its turn.
use cgroup_research.Prelude.{ℕ, ◌≡◌, Option, some, List, [], ◌∷◌, length}
use cgroup_research.Prelude.Double.{Double}
use cgroup_research.Cgroup.Interface.{Cgroups}
use cgroup_research.Controller.Types.{Rc, Message, Candidate, Config, Record, Controller, Stats}
use cgroup_research.Controller.Record.{Effects}
use cgroup_research.Controller.Apply.{Outcome}
use cgroup_research.Controller.Config.{controller_now_ns}
use cgroup_research.Controller.Counted.{SeenCounted, SweptCounted}

module _ {W World : Type 0} ⦃d : Double W⦄ (cfg : Config W) (now : ℕ) where
  -- The rounds of the candidates: each, in their order, is counted once, at a record of its pid.
  pub data Rounds : List (Candidate W) → Effects W World → Effects W World → Type 0 where
    ended : (e : Effects W World) → Rounds [] e e
    round :
        (c : Candidate W) (cs : List (Candidate W)) (r r' : Record W) (s : Stats W)
        (e e' last : Effects W World)
        → r.pid ≡ c.pid
        → e.stats ≡ some s
        → SeenCounted cfg now c r r' s e e'
        → Rounds cs e' last
        → Rounds (c ∷ cs) e last

  -- The sweep: each record, in their order, is counted at most once.
  pub data Sweeps
      : List (Record W) → List (Record W) → Effects W World → Effects W World → Type 0 where
    ended : (e : Effects W World) → Sweeps [] [] e e
    round :
        (r r' : Record W) (rs rs' : List (Record W)) (s : Stats W) (e e' last : Effects W World)
        → e.stats ≡ some s
        → SweptCounted cfg now r r' s e e'
        → Sweeps rs rs' e' last
        → Sweeps (r ∷ rs) (r' ∷ rs') e last

  -- Statistics are there.
  abbrev pub HasStats : Effects W World → Type 0
  HasStats e = (s : Stats W) × (e.stats ≡ some s)

module _ {W World : Type 0} ⦃d : Double W⦄ (cgroups : Cgroups World) (cfg : Config W)
    (now : ℕ) where
  -- What the loop over the candidates keeps: the rounds so far lead from `first` to here.
  abbrev Led : List (Candidate W) → Effects W World → List (Candidate W) → Effects W World → Type 0
  Led all first cs e =
      HasStats cfg now e
      × ((last : Effects W World) → Rounds cfg now cs e last → Rounds cfg now all first last)

module _ {W World : Type 0} ⦃d : Double W⦄ (cgroups : Cgroups World) where
  -- All counters are 0 but the number of the candidates.
  abbrev pub fresh_stats : ℕ → Stats W
  fresh_stats n = record {
    candidate_count = n;
    records_seen = 0;
    throttle_actions = 0;
    release_actions = 0;
    kept_throttled = 0;
    skipped_low_score = 0;
    skipped_cooldown = 0;
    stale_releases = 0;
    errors = 0;
    last_error = Rc.ok;
    last_error_reason = Message.empty;
  }

  -- How an accepted call comes to its statistics: the rounds of the candidates, and then the sweep over
  -- the records.
  pub record Tallied (ctl : Controller W) (reading : Option (ℕ × ℕ)) (cs : List (Candidate W))
      (w : World) (out : Outcome W World) : Type 0 where
    pub now : ℕ
    pub clock : controller_now_ns ctl.cfg reading ≡ some now
    pub seen : Effects W World
    pub last : Effects W World
    pub records : List (Record W)
    pub swept : List (Record W)
    pub rounds :
        Rounds ctl.cfg now cs
          (record { stats = some (fresh_stats (length cs)); world = w; overall_rc = Rc.ok })
          seen
    pub sweeps : Sweeps ctl.cfg now records swept seen last
    pub controller : out.controller ≡ some (record ctl { records = swept })
    pub stats : out.stats ≡ last.stats
    pub rc : out.rc ≡ last.overall_rc
    pub world : out.world ≡ last.world
