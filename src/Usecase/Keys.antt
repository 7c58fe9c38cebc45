-- ===== src/Usecase/Keys.antt =====
-- internal/usecase/onu.go: the keys of the cache. No two of them coincide, for any two OLTs, boards,
-- PONs and kinds of list.
use snmp_olt_zte.Common.{
  ℕ, ◌≡◌, refl, sym, ap, ◌∙◌, inl, inr, Bool, true, ◌&&◌, not, [], ◌∷◌, ◌++◌, append_assoc, arith,
  ◌==◌, if◌then◌else◌, Bool-cases, drop, Text, codes, text_eq, ℤ, pos, itoa, itoa_ℕ, Lacks-itoa_ℕ,
  text_key, int_key,
}
use snmp_olt_zte.Common.{Lacks, cut_injective, itoa_ℕ_injective}

unfoldable pub generate_redis_key : Text → ℤ → ℤ → Text
generate_redis_key key_type board_id pon_id =
    if text_eq key_type (codes "empty_onu_id")
    then codes "board_"
      ++ (itoa board_id ++ (codes "_pon_" ++ (itoa pon_id ++ codes "_empty_onu_id")))
    else codes "board_" ++ (itoa board_id ++ (codes "_pon_" ++ itoa pon_id))

unfoldable pub generate_onu_detail_redis_key : ℤ → ℤ → ℤ → Text
generate_onu_detail_redis_key board_id pon_id onu_id =
    codes "board_"
    ++ (itoa board_id
        ++ (codes "_pon_" ++ (itoa pon_id ++ (codes "_onu_" ++ (itoa onu_id ++ codes "_detail")))))

-- fmt.Sprintf("board_%d_pon_%d_serial_list", boardID, ponID)
unfoldable pub serial_list_key : ℤ → ℤ → Text
serial_list_key board_id pon_id =
    codes "board_" ++ (itoa board_id ++ (codes "_pon_" ++ (itoa pon_id ++ codes "_serial_list")))

unfoldable pub cache_key : Text → Text → Text
cache_key olt_id base = if text_eq olt_id [] then base else codes "olt_" ++ (olt_id ++ b'_' ∷ base)

-- The keys without the OLT.
pub data BaseKey : Type 0 where
  info : ℕ → ℕ → BaseKey
  empty_ids : ℕ → ℕ → BaseKey
  serials : ℕ → ℕ → BaseKey
  detail : ℕ → ℕ → ℕ → BaseKey

unfoldable pub base_key : BaseKey → Text
unfolding generate_redis_key generate_onu_detail_redis_key serial_list_key
base_key (info b p) = generate_redis_key (codes "onu_info") (pos b) (pos p)
base_key (empty_ids b p) = generate_redis_key (codes "empty_onu_id") (pos b) (pos p)
base_key (serials b p) = serial_list_key (pos b) (pos p)
base_key (detail b p o) = generate_onu_detail_redis_key (pos b) (pos p) (pos o)

board_of : BaseKey → ℕ
board_of (info b p) = b
board_of (empty_ids b p) = b
board_of (serials b p) = b
board_of (detail b p o) = b

pon_of : BaseKey → ℕ
pon_of (info b p) = p
pon_of (empty_ids b p) = p
pon_of (serials b p) = p
pon_of (detail b p o) = p

abbrev suffix : BaseKey → Text
suffix (info b p) = []
suffix (empty_ids b p) = codes "empty_onu_id_"
suffix (serials b p) = codes "serial_list_"
suffix (detail b p o) = codes "onu_" ++ (itoa_ℕ o ++ codes "_detail_")

-- Every key, with `_` after it, is cut by `_` at the same places.
base_key-cut :
    (k : BaseKey)
    → base_key k ++ codes "_"
      ≡ codes "board_"
        ++ (itoa_ℕ (board_of k) ++ b'_' ∷ (codes "pon_" ++ (itoa_ℕ (pon_of k) ++ b'_' ∷ suffix k)))
unfolding base_key generate_redis_key generate_onu_detail_redis_key serial_list_key itoa board_of
    pon_of text_eq
base_key-cut (info b p) = simp append_assoc
base_key-cut (empty_ids b p) = simp append_assoc
base_key-cut (serials b p) = simp append_assoc
base_key-cut (detail b p o) = simp append_assoc

cut_number :
    (n m : ℕ) (s t : Text) → itoa_ℕ n ++ b'_' ∷ s ≡ itoa_ℕ m ++ b'_' ∷ t → (n ≡ m) × (s ≡ t)
cut_number n m s t e =
    let (same, rest) =
      cut_injective b'_' (itoa_ℕ n) (itoa_ℕ m) s t (Lacks-itoa_ℕ b'_' n refl)
        (Lacks-itoa_ℕ b'_' m refl) e in
    (itoa_ℕ_injective n m same, rest)

same_fields :
    (j k : BaseKey)
    → base_key j ≡ base_key k
    → (board_of j ≡ board_of k) × (pon_of j ≡ pon_of k) × (suffix j ≡ suffix k)
same_fields j k e =
    let (b, rest) = cut_number (board_of j) (board_of k) _ _ (ap (drop 6) whole) in
    let (p, last) = cut_number (pon_of j) (pon_of k) (suffix j) (suffix k) (ap (drop 4) rest) in
    (b, p, last)
  where
    whole :
        codes "board_"
          ++ (itoa_ℕ (board_of j)
              ++ b'_' ∷ (codes "pon_" ++ (itoa_ℕ (pon_of j) ++ b'_' ∷ suffix j)))
        ≡ codes "board_"
          ++ (itoa_ℕ (board_of k)
              ++ b'_' ∷ (codes "pon_" ++ (itoa_ℕ (pon_of k) ++ b'_' ∷ suffix k)))
    whole = sym (base_key-cut j) ∙ ap (λ x. x ++ codes "_") e ∙ base_key-cut k

-- Two keys of one OLT coincide only if they are of one kind, board, PON and ONU.
pub base_key_injective : (j k : BaseKey) → base_key j ≡ base_key k → j ≡ k
unfolding board_of pon_of
base_key_injective j k e = go j k (same_fields j k e)
  where
    go :
        (j k : BaseKey)
        → (board_of j ≡ board_of k) × (pon_of j ≡ pon_of k) × (suffix j ≡ suffix k)
        → j ≡ k
    go (info b p) (info c q) (eb, ep, es) = cc
    go (empty_ids b p) (empty_ids c q) (eb, ep, es) = cc
    go (serials b p) (serials c q) (eb, ep, es) = cc
    go (detail b p o) (detail c q i) (eb, ep, es) =
        let (eo, _) = cut_number o i (codes "detail_") (codes "detail_") (ap (drop 4) es) in cc
    go _ _ (eb, ep, es) = ground arith

-- A key holds one `b` only, at its start.
key_tail : BaseKey → Text
unfolding base_key
key_tail k = drop 1 (base_key k)

Lacks-append : (sep : ℕ) (s t : Text) → Lacks sep s → Lacks sep t → Lacks sep (s ++ t)
Lacks-append sep [] t hs ht = ht
Lacks-append sep (c ∷ s) t (h, hs) ht = (h, Lacks-append sep s t hs ht)

-- The test, for literals.
abbrev lacks : ℕ → Text → Bool
lacks sep [] = true
lacks sep (c ∷ s) = not (c == sep) && lacks sep s

Lacks-of : (sep : ℕ) (s : Text) → lacks sep s ≡ true → Lacks sep s
Lacks-of sep [] h = tt
Lacks-of sep (c ∷ s) h = (ground arith, Lacks-of sep s (ground arith))

no_b : (n : ℕ) → Lacks b'b' (itoa_ℕ n)
no_b n = Lacks-itoa_ℕ b'b' n refl

no_b-board :
    (b : ℕ) (rest : Text)
    → Lacks b'b' rest
    → Lacks b'b' (codes "oard_" ++ (itoa_ℕ b ++ (codes "_pon_" ++ rest)))
no_b-board b rest h = Lacks-append b'b' (codes "oard_") _ (Lacks-of b'b' (codes "oard_") refl) (
    Lacks-append b'b' (itoa_ℕ b) _ (no_b b)
      (Lacks-append b'b' (codes "_pon_") rest (Lacks-of b'b' (codes "_pon_") refl) h))

no_b-pon : (p : ℕ) (last : Text) → Lacks b'b' last → Lacks b'b' (itoa_ℕ p ++ last)
no_b-pon p last h = Lacks-append b'b' (itoa_ℕ p) last (no_b p) h

key_tail-Lacks : (k : BaseKey) → (base_key k ≡ b'b' ∷ key_tail k) × Lacks b'b' (key_tail k)
unfolding key_tail generate_redis_key generate_onu_detail_redis_key serial_list_key text_eq itoa
key_tail-Lacks (info b p) = (refl, no_b-board b _ (no_b p))
key_tail-Lacks (empty_ids b p) =
    (refl, no_b-board b _ (no_b-pon p _ (Lacks-of b'b' (codes "_empty_onu_id") refl)))
key_tail-Lacks (serials b p) =
    (refl, no_b-board b _ (no_b-pon p _ (Lacks-of b'b' (codes "_serial_list") refl)))
key_tail-Lacks (detail b p o) = (
  refl,
  no_b-board b _ (
      no_b-pon p _ (
        Lacks-append b'b' (codes "_onu_") _ (Lacks-of b'b' (codes "_onu_") refl)
          (no_b-pon o _ (Lacks-of b'b' (codes "_detail") refl)))),
)

Lacks-middle : (sep : ℕ) (p s : Text) → Lacks sep (p ++ sep ∷ s) → ⊥
Lacks-middle sep [] s (h, hs) = h refl
Lacks-middle sep (c ∷ p) s (h, hs) = Lacks-middle sep p s hs

-- Cut at the last `b`.
cut_last :
    (sep : ℕ) (p q s t : Text)
    → Lacks sep s
    → Lacks sep t
    → p ++ sep ∷ s ≡ q ++ sep ∷ t
    → (p ≡ q) × (s ≡ t)
cut_last sep [] [] s t hs ht e = ground arith
cut_last sep [] (c ∷ q) s t hs ht e = elim (Lacks-middle sep q t (rw (ap (drop 1) e) at hs)) [ ]
cut_last sep (c ∷ p) [] s t hs ht e = elim (Lacks-middle sep p s (rw (← ap (drop 1) e) at ht)) [ ]
cut_last sep (c ∷ p) (d ∷ q) s t hs ht e =
    let (same, rest) = cut_last sep p q s t hs ht (ground arith) in (ground arith, rest)

-- What stands before a key.
abbrev namespace : Text → Text
namespace olt_id = if text_eq olt_id [] then [] else codes "olt_" ++ (olt_id ++ codes "_")

cache_key-namespace :
    (a : Text) (k : BaseKey) → cache_key a (base_key k) ≡ namespace a ++ b'b' ∷ key_tail k
unfolding cache_key
cache_key-namespace a k = elim (Bool-cases (text_eq a [])) [
  | inl default ↦ rw default ((key_tail-Lacks k).0)
  | inr named ↦ rw (named, (key_tail-Lacks k).0) (simp append_assoc)
]

namespace_injective : (a b : Text) → namespace a ≡ namespace b → a ≡ b
unfolding text_eq
namespace_injective [] [] e = refl
namespace_injective [] (d ∷ b) e = ground arith
namespace_injective (c ∷ a) [] e = ground arith
namespace_injective (c ∷ a) (d ∷ b) e =
    (cut_last b'_' (c ∷ a) (d ∷ b) [] [] tt tt (ap (drop 4) e)).0

-- No two OLTs share a key, and the OLT without a prefix shares none with a named one.
pub cache_key_injective :
    (a b : Text) (j k : BaseKey)
    → cache_key a (base_key j) ≡ cache_key b (base_key k)
    → (a ≡ b) × (j ≡ k)
cache_key_injective a b j k e =
    let (before, after) =
      cut_last b'b' (namespace a) (namespace b) (key_tail j) (key_tail k) ((key_tail-Lacks j).1)
        ((key_tail-Lacks k).1) (sym (cache_key-namespace a j) ∙ e ∙ cache_key-namespace b k) in
    (
      namespace_injective a b before,
      base_key_injective j k
          ((key_tail-Lacks j).0 ∙ ap (λ t. b'b' ∷ t) after ∙ sym ((key_tail-Lacks k).0)),
    )
