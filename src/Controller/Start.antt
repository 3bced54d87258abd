-- ===== src/Controller/Start.antt =====
-- How a controller begins: `validate_config` and `throttle_controller_init`.
use cgroup_research.Prelude.{
  ◌≡◌, refl, ◌≢◌, ◌⊎◌, ◌↔◌, inl, inr, ◌<◌, Bool, true, false, Option, some, [], arith, Bool-cases,
}
use cgroup_research.Prelude.Word.{word}
use cgroup_research.Prelude.Double.{Double, nought, one}
use cgroup_research.Cgroup.Group.{Group}
use cgroup_research.Cgroup.Interface.{Cgroups}
use cgroup_research.Controller.Types.{Rc, Config, Controller}
use cgroup_research.Controller.Config.{
  valid_control_group, valid_control_value, value_max, validate_config,
}
use cgroup_research.Controller.Apply.{zeroed, configure, initialize, init, effective}
use cgroup_research.Controller.Invariant.{IsValid}

-- One of the groups that have a directory of their own.
abbrev pub IsNamed : Group → Type 0
IsNamed g = (g ≡ Group.protected) ⊎ (g ≡ Group.background) ⊎ (g ≡ Group.throttled)

pub valid_control_group_iff : (g : Group) → (valid_control_group g ≡ true) ↔ IsNamed g
unfolding valid_control_group
valid_control_group_iff g = ground arith

module _ {W : Type 0} ⦃d : Double W⦄ where
  -- What an accepted configuration fulfils.
  pub record IsUsable (cfg : Config W) : Type 0 where
    pub normal_named : IsNamed cfg.normal_group
    pub throttled_named : IsNamed cfg.throttled_group
    pub protected_named : IsNamed cfg.protected_group
    pub normal_apart : cfg.normal_group ≢ cfg.throttled_group
    pub protected_apart : cfg.normal_group ≢ cfg.protected_group
    pub throttled_apart : cfg.throttled_group ≢ cfg.protected_group
    pub low_finite : d.is_finite cfg.low_score_threshold ≡ true
    pub high_finite : d.is_finite cfg.high_score_threshold ≡ true
    pub low_bounded : d.lt cfg.low_score_threshold nought ≡ false
    pub high_bounded : d.lt one cfg.high_score_threshold ≡ false
    pub ordered : d.lt cfg.high_score_threshold cfg.low_score_threshold ≡ false
    pub some_records : 0 < cfg.max_records
    pub cpu_max_valid :
        cfg.configure_throttled_cpu_max ≡ true
        → valid_control_value cfg.throttled_cpu_max value_max ≡ true
    pub memory_low_valid :
        cfg.configure_protected_memory_low ≡ true
        → valid_control_value cfg.protected_memory_low value_max ≡ true

  -- The validation accepts exactly the usable configurations.
  pub validate_config_iff : (cfg : Config W) → (validate_config (some cfg) ≡ Rc.ok) ↔ IsUsable cfg
  unfolding validate_config
  validate_config_iff cfg = (validated cfg, usable cfg)
    where
      validated : (c : Config W) → validate_config (some c) ≡ Rc.ok → IsUsable c
      validated c h = ground (
        arith,
        valid_control_group_iff c.normal_group,
        valid_control_group_iff c.throttled_group,
        valid_control_group_iff c.protected_group,
      )

      usable : (c : Config W) → IsUsable c → validate_config (some c) ≡ Rc.ok
      usable c h = ground (
        arith,
        valid_control_group_iff c.normal_group,
        valid_control_group_iff c.throttled_group,
        valid_control_group_iff c.protected_group,
      )

-- What `init` leaves, by whether it succeeds.
abbrev pub Begun :
    {W World : Type 0} ⦃d : Double W⦄ → Config W → Bool → Rc × Controller W × World → Type 0
Begun cfg allocated (rc, ctl, w') =
    ((rc ≡ Rc.ok)
      × (allocated ≡ true)
      × IsUsable cfg
      × (ctl.initialized ≡ true)
      × (ctl.cfg ≡ cfg)
      × (ctl.records ≡ [])
      × IsValid ctl)
    ⊎ ((rc ≢ Rc.ok) × (ctl ≡ zeroed))

module _ {W World : Type 0} ⦃d : Double W⦄ (cgroups : Cgroups World) where
  initialize-Begun :
      (rc : Rc) (allocated : Bool) (cfg : Config W) (w : World)
      → cfg.max_records < word
      → (rc ≡ Rc.ok → IsUsable cfg)
      → Begun cfg allocated (initialize cgroups rc allocated cfg w)
  unfolding initialize
  initialize-Begun Rc.ok false cfg w b h = inr (λ e. cc, refl)
  initialize-Begun Rc.ok true cfg w b h = elim (Bool-cases (configure cgroups cfg w).0) [
    | inl done ↦ rw done (
        inl (
          refl,
          refl,
          h refl,
          refl,
          refl,
          refl,
          record { fits = omega arith; bounded = b; distinct = tt; well_formed = tt },
        ))
    | inr failed ↦ rw failed (inr (λ e. cc, refl))
  ]
  initialize-Begun _ allocated cfg w b h = inr (λ e. cc, refl)

  -- A successful initialisation had a usable configuration and its memory, and leaves a controller
  -- that is initialised, valid and empty; every other one returns an error and leaves the zeroed
  -- structure.
  pub init_lem :
      (cfg : Option (Config W)) (allocated : Bool) (w : World)
      → (effective cfg).max_records < word
      → Begun (effective cfg) allocated (init cgroups cfg allocated w)
  unfolding init
  init_lem cfg allocated w b =
      let local = effective cfg in
      initialize-Begun (validate_config (some local)) allocated local w b
        (validate_config_iff local).0
