-- ===== src/Health/Fresh.antt =====
-- How old the results are that a check reports, and when it is healthy.
use snmp_olt_zte.Common.{ℕ, ◌≡◌, ◌⊎◌, false, ◌&&◌, Option, some, List, [], ◌∷◌, Text, ℤ, ◌-ℤ◌, ◌<ℤ◌}
use snmp_olt_zte.Health.{Dependency, failure_ttl, has_failed, probed}

module _ (clock : ℕ → ℤ) (probe : ℕ → Text → Option Text) (now : ℤ) where
  -- A result that is served from the cache: it is younger than its time to live, and than five
  -- seconds if it is a failure.
  pub record IsYoung (d : Dependency) : Type 0 where
    pub at : ℤ
    pub probed_at : d.last_at ≡ some at
    pub young : now -ℤ at <ℤ d.ttl
    pub recent : (has_failed d ≡ false) ⊎ (now -ℤ at <ℤ failure_ttl)

  -- What a check makes of a dependency: it is as it was and young, or it is probed.
  abbrev pub IsFresh : Dependency → Dependency → Type 0
  IsFresh old new =
      ((new ≡ old) × IsYoung new) ⊎ ((reads : ℕ) × (new ≡ probed clock probe reads old))

  pub data AllFresh : List Dependency → List Dependency → Type 0 where
    no_more : AllFresh [] []
    one_more :
        {old new : Dependency} {olds news : List Dependency}
        → IsFresh old new
        → AllFresh olds news
        → AllFresh (old ∷ olds) (new ∷ news)

abbrev pub IsHarmless : Dependency → Type 0
IsHarmless d = (has_failed d && d.critical) ≡ false
