-- ===== src/Trap/Index.antt =====
-- `parseOnuIndex` of internal/trap/listener.go: the slot, PON port and ONU id in the OID of a trap's
-- variable.
use snmp_olt_zte.Common.{
  ℕ, ◌+◌, ◌*◌, ◌^◌, ◌≤◌, ◌<◌, ◌≡◌, refl, sym, ap, ◌∙◌, ◌≢◌, inl, inr, ◌||◌, Option, none, some,
  List, [], ◌∷◌, ◌++◌, append_assoc, arith, if◌then◌else◌, Option-cases, Text, trim_prefix, split,
  last_part, ℤ, pos, negsuc, ◌+ℤ◌, ◌-ℤ◌, ◌*ℤ◌, ltb_ℤ, tdiv, tmod, itoa, itoa_ℕ, atoi, atoi-itoa_ℕ,
  split-append, sub_add_cancel, split-Lacks, Lacks-itoa_ℕ, trim_prefix-append, text_key, int_key,
}
use snmp_olt_zte.Config.Oid.{
  onu_id_if_index_base, onu_id_slot_stride, max_board_id, max_pon_id, onu_id_suffix, dotted, IsSlot,
  IsPort, onu_id_suffix_lem,
}

abbrev int_or_zero : Option ℤ → ℤ
int_or_zero none = pos 0
int_or_zero (some id) = id

-- `parts[0]`, `parts[1]` if it is there, and the last part. Split returns a part at least.
abbrev pub first_part : List Text → Text
first_part [] = []
first_part (p ∷ ps) = p

abbrev second_int : List Text → ℤ
second_int (p ∷ q ∷ ps) = int_or_zero (atoi q)
second_int _ = pos 0

-- `n` is the number behind the prefix, less the base.
unfoldable pub decode_index : ℤ → List Text → ℤ × ℤ × ℤ
decode_index n parts =
    let slot = tdiv n onu_id_slot_stride in
    let pon_val = tmod n onu_id_slot_stride in
    if ltb_ℤ n (pos 1)
      || (ltb_ℤ slot (pos 1)
          || (ltb_ℤ (pos max_board_id) slot
              || (ltb_ℤ pon_val (pos 1) || ltb_ℤ (pos max_pon_id) pon_val)))
    then (pos 0, pos 0, int_or_zero (atoi (last_part parts)))
    else (slot, pon_val, second_int parts)

unfoldable pub decode_parts : List Text → ℤ × ℤ × ℤ
unfolding decode_index
decode_parts parts = elim (atoi (first_part parts)) [
  | none ↦ (pos 0, pos 0, pos 0)
  | some encoded ↦ decode_index (encoded -ℤ pos onu_id_if_index_base) parts
]

unfoldable pub parse_onu_index : Text → Text → ℤ × ℤ × ℤ
unfolding decode_parts
parse_onu_index full_oid prefix =
    decode_parts (split b'.' (trim_prefix (trim_prefix full_oid prefix) (b'.' ∷ [])))

-- The OID of a variable of ONU `id`: a prefix, the suffix of its port and the ONU's id.
abbrev pub onu_oid : Text → ℕ → ℕ → ℕ → Text
onu_oid prefix b p id = dotted (dotted prefix (onu_id_suffix (pos b) (pos p))) (pos id)

pub onu_oid_lem :
    (prefix : Text) (b p id : ℕ)
    → onu_oid prefix b p id
      ≡ prefix ++ b'.' ∷ (itoa_ℕ (285278208 + b * 256 + p) ++ b'.' ∷ itoa_ℕ id)
unfolding dotted itoa
onu_oid_lem prefix b p id = rw (onu_id_suffix_lem, append_assoc)

decode_index_of_valid :
    (b p id : ℕ) (q r : Text)
    → 1 ≤ b
    → b ≤ 30
    → 1 ≤ p
    → p ≤ 16
    → atoi q ≡ some (pos id)
    → decode_index (pos (285278208 + b * 256 + p) -ℤ pos onu_id_if_index_base) (r ∷ q ∷ [])
      ≡ (pos b, pos p, pos id)
unfolding decode_index ◌-ℤ◌ tdiv tmod
decode_index_of_valid b p id q r h1 h2 h3 h4 e = ground arith

decode_parts_lem :
    (q : Text) (ps : List Text) (encoded : ℤ)
    → atoi q ≡ some encoded
    → decode_parts (q ∷ ps) ≡ decode_index (encoded -ℤ pos onu_id_if_index_base) (q ∷ ps)
unfolding decode_parts
decode_parts_lem q ps encoded e = rw (decode_parts, e)

-- The trap listener reads back the slot, the port and the ONU that the OID generator printed: for
-- every slot 1..30, port 1..16 and ONU id that fits an int, and whatever the prefix.
pub parse_onu_index-onu_oid :
    (prefix : Text) (b p id : ℕ)
    → 1 ≤ b
    → b ≤ 30
    → 1 ≤ p
    → p ≤ 16
    → id < 2 ^ 63
    → parse_onu_index (onu_oid prefix b p id) prefix ≡ (pos b, pos p, pos id)
unfolding parse_onu_index
parse_onu_index-onu_oid prefix b p id h1 h2 h3 h4 h5 =
    rw
      (
        onu_oid_lem,
        trim_prefix-append,
        trim_prefix-append (b'.' ∷ []),
        split-append b'.' (itoa_ℕ (285278208 + b * 256 + p)) (itoa_ℕ id)
            (Lacks-itoa_ℕ b'.' (285278208 + b * 256 + p) refl),
        split-Lacks b'.' (itoa_ℕ id) (Lacks-itoa_ℕ b'.' id refl),
        decode_parts_lem _ _ _ (atoi-itoa_ℕ (285278208 + b * 256 + p) (omega arith)),
      )
      (decode_index_of_valid b p id (itoa_ℕ id) (itoa_ℕ (285278208 + b * 256 + p)) h1 h2 h3 h4
        (atoi-itoa_ℕ id h5))

-- The parts that `parseOnuIndex` looks at.
abbrev pub index_parts : Text → Text → List Text
index_parts full_oid prefix = split b'.' (trim_prefix (trim_prefix full_oid prefix) (b'.' ∷ []))

decode_index_sound :
    (n : ℤ) (parts : List Text) {b p id : ℤ}
    → decode_index n parts ≡ (b, p, id)
    → b ≢ pos 0
    → IsSlot b × IsPort p × (n +ℤ pos onu_id_if_index_base ≡ onu_id_suffix b p)
unfolding decode_index ◌-ℤ◌ ◌+ℤ◌ ◌*ℤ◌ tdiv tmod
decode_index_sound (pos n) parts {b} {p} {id} e h = ground arith
decode_index_sound (negsuc n) parts {b} {p} {id} e h = ground arith

decode_parts_sound :
    (parts : List Text) {b p id : ℤ}
    → decode_parts parts ≡ (b, p, id)
    → b ≢ pos 0
    → IsSlot b × IsPort p × (atoi (first_part parts) ≡ some (onu_id_suffix b p))
unfolding decode_parts
decode_parts_sound parts {b} {p} {id} e h = elim (Option-cases (atoi (first_part parts))) [
  | inl bad ↦ absurd (h (sym (ap (λ t. t.0) (rw (decode_parts, bad) at e))))
  | inr (encoded, good) ↦
      let (hb, hp, same) =
        decode_index_sound (encoded -ℤ pos onu_id_if_index_base) parts
          (rw (decode_parts, good) at e) h in
      (hb, hp, good ∙ ap some (sym (sub_add_cancel encoded (pos onu_id_if_index_base)) ∙ same))
]

-- What the listener decodes is a port of the hardware, and its OID is that port's: if the slot is
-- not 0, slot and PON port are in range and the first number behind the prefix is the suffix that
-- the OID generator gives them.
pub parse_onu_index_sound :
    (full_oid prefix : Text) {b p id : ℤ}
    → parse_onu_index full_oid prefix ≡ (b, p, id)
    → b ≢ pos 0
    → IsSlot b
      × IsPort p
      × (atoi (first_part (index_parts full_oid prefix)) ≡ some (onu_id_suffix b p))
unfolding parse_onu_index
parse_onu_index_sound full_oid prefix e h = decode_parts_sound (index_parts full_oid prefix) e h
