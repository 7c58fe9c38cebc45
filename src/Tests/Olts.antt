-- ===== src/Tests/Olts.antt =====
-- The theorems on the configured OLTs, their registry and the requests, at two OLTs.
use snmp_olt_zte.Common.{
  ℕ, ◌<◌, ◌≡◌, refl, ◌≢◌, ◌⊎◌, Bool, true, false, Option, some, List, [], ◌∷◌, arith, Text, codes,
  text_eq, to_lower, trim_space, pos, atoi, ok, Map, lookup, insert, delete, text_key, int_key,
}
use snmp_olt_zte.Config.Olts.{OltRuntimeConfig, OltJson, build_olt_registry, olt_from_json}
use snmp_olt_zte.Config.Olts.Checked.{
  Once, IsRegistry, IsOlt, build_olt_registry-IsRegistry, olt_from_json-IsOlt,
}
use snmp_olt_zte.Config.Users.{
  ApiUser, ApiUserJson, build_user_registry, IsUser, AreUsers, build_user_registry-AreUsers,
  build_user_registry-IsUser, is_admin,
}
use snmp_olt_zte.Registry.{OltEntry, OltRegistry, reconcile, close}
use snmp_olt_zte.Registry.Soundness.{IsSound, mem_ℕ}
use snmp_olt_zte.Registry.Sweep.{reconcile-IsSound, close-IsSound}
use snmp_olt_zte.Registry.Reconciled.{fresh}
use snmp_olt_zte.Registry.Converges.{reconcile_twice}
use snmp_olt_zte.Access.{admit, principals, resolve_olt}
use snmp_olt_zte.Access.Tenants.{admit-owner, resolve_olt-hidden}

abbrev entry_of : Text → OltJson
entry_of id = record {
  id = id;
  user_id = pos 7;
  host = codes "10.0.0.1";
  port = pos 161;
  community = codes "public";
  max_concurrent = pos 0;
  boards = codes "3:16";
  pons_per_board = pos 16;
  walk = false;
}

abbrev config : Text → OltRuntimeConfig
config id = record {
  id = id;
  user_id = pos 7;
  host = codes "10.0.0.1";
  port = 161;
  community = codes "public";
  max_concurrent = pos 5;
  boards = pos 3 ∷ [];
  board_pons = (pos 3, pos 16) ∷ [];
  pons_per_board = pos 16;
  board_pon_map = [];
  use_walk = false;
}

abbrev olts : List OltRuntimeConfig
olts = config (codes "a") ∷ config (codes "b") ∷ []

abbrev nothing : OltRegistry
nothing = record { entries = []; default_olt = codes "a"; next_stack = 0; retired = [] }

nothing-IsSound : IsSound nothing
unfolding lookup mem_ℕ
nothing-IsSound = record {
  made = λ id {e} h. ground arith;
  live = λ id {e} h. ground arith;
  apart = λ i j {e} {f} h h' same. ground arith;
  distinct = tt;
  retired_made = λ n h. unretired n h;
}
  where
    unretired : (n : ℕ) → mem_ℕ n [] ≡ true → n < 0
    unretired n h = ground arith

abbrev online : OltRuntimeConfig → Bool
online o = true

olts-Once : Once olts
unfolding text_eq
olts-Once = ((refl, tt), (tt, tt))

reconcile-IsSound_example : IsSound (reconcile online olts nothing)
reconcile-IsSound_example = reconcile-IsSound online olts nothing nothing-IsSound

close-IsSound_example : IsSound (close nothing)
close-IsSound_example = close-IsSound nothing nothing-IsSound

a-runs :
    lookup (codes "a") (reconcile online olts nothing).entries ≡ some (fresh (config (codes "a")) 0)
unfolding reconcile lookup insert text_eq
a-runs = refl

-- No OLT can be connected the second time.
reconcile_twice_example :
    lookup (codes "a") (reconcile (λ o. false) olts (reconcile online olts nothing)).entries
    ≡ some (fresh (config (codes "a")) 0)
reconcile_twice_example =
    reconcile_twice online (λ o. false) olts nothing (codes "a") (fresh (config (codes "a")) 0)
      olts-Once a-runs

abbrev served : OltEntry
served = record {
  olt = config (codes "a");
  stack = 0;
  board_pons = (pos 3, pos 16) ∷ [];
  user_id = pos 7;
}

abbrev running : OltRegistry
running = record nothing { entries = (codes "a", served) ∷ []; next_stack = 1 }

found_a : lookup (codes "a") running.entries ≡ some served
unfolding lookup text_eq
found_a = refl

eight : pos 8 ≢ pos 7
eight e = ground arith

resolve_olt-hidden_example :
    resolve_olt running (some (record { user_id = pos 8; admin = false })) (codes "a")
    ≡ resolve_olt
        (record running { entries = delete (codes "a") running.entries })
        (some (record { user_id = pos 8; admin = false }))
        (codes "a")
resolve_olt-hidden_example =
    resolve_olt-hidden running (record { user_id = pos 8; admin = false }) (codes "a") served
      found_a refl eight

-- encoding/json on one fixed document.
abbrev decode_users : Text → Option (List ApiUserJson)
decode_users s = some (record { user_id = pos 7; api_key = codes "k"; role = codes "User" } ∷ [])

abbrev user : ApiUser
user = record { user_id = pos 7; api_key = codes "k"; role = codes "user" }

users_built : build_user_registry decode_users (codes "[...]") ≡ ok (some ((codes "k", user) ∷ []))
unfolding build_user_registry text_eq trim_space to_lower lookup insert
users_built = refl

build_user_registry-IsUser_example : IsUser (codes "k") user
unfolding lookup text_eq
build_user_registry-IsUser_example =
    build_user_registry-IsUser decode_users (codes "[...]") ((codes "k", user) ∷ []) (codes "k")
      user users_built refl

users-AreUsers : AreUsers ((codes "k", user) ∷ [])
users-AreUsers =
    build_user_registry-AreUsers decode_users (codes "[...]") ((codes "k", user) ∷ []) users_built

admitted :
    admit
      (principals ((codes "k", user) ∷ []))
      []
      running
      (codes "k")
      (codes "a")
      (codes "3")
      (codes "1")
    ≡ ok (served, pos 3, pos 1)
unfolding admit principals text_eq lookup is_admin atoi
admitted = refl

abbrev one_user : Map Text ApiUser
one_user = (codes "k", user) ∷ []

some_user : one_user ≢ []
some_user e = ground arith

admit-owner_example :
    (u : ApiUser) × (lookup (codes "k") ((codes "k", user) ∷ []) ≡ some u)
    × (lookup (codes "a") running.entries ≡ some served)
    × ((is_admin u ≡ true) ⊎ ((u.user_id ≡ served.user_id) × (served.user_id ≢ pos 0)))
admit-owner_example =
    admit-owner ((codes "k", user) ∷ []) [] running (codes "k") (codes "a") (codes "3") (codes "1")
      served (pos 3) (pos 1) users-AreUsers some_user admitted

-- encoding/json on another one.
abbrev decode_olts : Text → Option (List OltJson)
decode_olts s = some (entry_of (codes "a") ∷ entry_of (codes "b") ∷ [])

-- An OLT of SNMP_HOST, which the list of OLTS replaces.
abbrev legacy : OltRuntimeConfig
legacy = config (codes "default")

legacy_built : build_olt_registry decode_olts [] [] legacy ≡ ok (legacy ∷ [], codes "default")
unfolding build_olt_registry text_eq
legacy_built = refl

build_olt_registry-IsRegistry_example : IsRegistry (legacy ∷ []) (codes "default")
build_olt_registry-IsRegistry_example =
    build_olt_registry-IsRegistry decode_olts [] [] legacy (legacy ∷ []) (codes "default")
      legacy_built

some_id : codes "a" ≢ []
some_id e = ground arith

some_host : codes "10.0.0.1" ≢ []
some_host e = ground arith

some_community : codes "public" ≢ []
some_community e = ground arith

olt_from_json-IsOlt_example :
    (o : OltRuntimeConfig) × (olt_from_json (entry_of (codes "a")) (pos 5) ≡ ok o)
    × IsOlt (entry_of (codes "a")) o
olt_from_json-IsOlt_example =
    olt_from_json-IsOlt (entry_of (codes "a")) (pos 5) some_id some_host some_community
