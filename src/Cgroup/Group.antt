-- ===== src/Cgroup/Group.antt =====
-- `enum proc_group` of cgroup.h.
use cgroup_research.Prelude.{ℕ, ◌≡◌, ◌↔◌, ◌+◌, Bool, true, arith, ◌==◌}

-- `other n` is the value n + 5 that an `int` can hold beside the five names.
pub data Group : Type 0 where
  protected background throttled ignored unknown : Group
  other : ℕ → Group

-- The number of an enumerator, by which C compares.
abbrev pub group_code : Group → ℕ
group_code protected = 0
group_code background = 1
group_code throttled = 2
group_code ignored = 3
group_code unknown = 4
group_code (other n) = n + 5

infix 50 ◌==_group◌
abbrev pub ◌==_group◌ : Group → Group → Bool
a ==_group b = group_code a == group_code b

pub group_code-injective : (a b : Group) → group_code a ≡ group_code b → a ≡ b
group_code-injective a b h = ground arith

pub ==_group_iff : (a b : Group) → ((a ==_group b) ≡ true) ↔ (a ≡ b)
==_group_iff a b = ground arith
