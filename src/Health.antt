-- ===== src/Health.antt =====
-- internal/health/health.go: the readiness checks with cached results. The clock is a function of the
-- number of its reads, and a probe may answer differently at each of them. The context's timeout is
-- part of what a probe answers.
pub mod Fresh
use snmp_olt_zte.Common.{
  ℕ, zero, suc, ◌*◌, Bool, true, false, ◌&&◌, ◌||◌, not, Option, none, some, List, [], ◌∷◌, ◌++◌,
  if◌then◌else◌, Text, codes, ℤ, pos, ◌-ℤ◌, ltb_ℤ,
}

-- 5 * time.Second
abbrev pub failure_ttl : ℤ
failure_ttl = pos (5 * 1_000_000_000)

-- `last_at` is none before the first probe; `last_err` is the text of an error.
pub record Dependency : Type 0 where
  pub name : Text
  pub ttl : ℤ
  pub critical : Bool
  pub last_at : Option ℤ
  pub last_err : Option Text

pub record Status : Type 0 where
  pub name : Text
  pub state : Text
  pub error : Text

abbrev pub dependency : Text → ℤ → Bool → Dependency
dependency name ttl critical = record {
  name = name;
  ttl = ttl;
  critical = critical;
  last_at = none;
  last_err = none;
}

unfoldable pub register : Text → ℤ → List Dependency → List Dependency
register name ttl deps = deps ++ dependency name ttl true ∷ []

unfoldable pub register_optional : Text → ℤ → List Dependency → List Dependency
register_optional name ttl deps = deps ++ dependency name ttl false ∷ []

abbrev pub has_failed : Dependency → Bool
has_failed d = elim d.last_err [ none ↦ false | some _ ↦ true ]

unfoldable pub current_ttl : Dependency → ℤ
current_ttl d = if has_failed d && ltb_ℤ failure_ttl d.ttl then failure_ttl else d.ttl

unfoldable pub is_cached : ℤ → Dependency → Bool
unfolding current_ttl
is_cached now d = elim d.last_at [ none ↦ false | some at ↦ ltb_ℤ (now -ℤ at) (current_ttl d) ]

unfoldable pub status_of : Dependency → Status
status_of d = elim d.last_err [
  | none ↦ record { name = d.name; state = codes "up"; error = [] }
  | some e ↦ record { name = d.name; state = codes "down"; error = e }
]

pub record Checked : Type 0 where
  pub deps : List Dependency
  pub statuses : List Status
  pub healthy : Bool

module _ (clock : ℕ → ℤ) (probe : ℕ → Text → Option Text) where
  abbrev pub probed : ℕ → Dependency → Dependency
  probed reads d = record d { last_err = probe reads d.name; last_at = some (clock reads) }

  -- The body of the loop up to the unlock, and the number of the next read of the clock.
  unfoldable pub check_dependency : ℤ → ℕ → Dependency → Dependency × ℕ
  unfolding is_cached
  check_dependency now reads d = if is_cached now d then (d, reads) else (probed reads d, suc reads)

  unfoldable pub check_loop : ℤ → ℕ → List Dependency → Checked
  unfolding check_dependency status_of
  check_loop now reads [] = record { deps = []; statuses = []; healthy = true }
  check_loop now reads (d ∷ ds) =
      let (d', reads') = check_dependency now reads d in
      let rest = check_loop now reads' ds in
      record {
        deps = d' ∷ rest.deps;
        statuses = status_of d' ∷ rest.statuses;
        healthy = not (has_failed d' && d'.critical) && rest.healthy;
      }

  -- Check, at the read number `reads` of the clock.
  unfoldable pub check_health : ℕ → List Dependency → Checked
  unfolding check_loop
  check_health reads deps = check_loop (clock reads) (suc reads) deps
