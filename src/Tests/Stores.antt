-- ===== src/Tests/Stores.antt =====
-- A Redis of one association list, and an encoding of lists of records, with their laws.
use snmp_olt_zte.Common.{
  ℕ, zero, suc, ◌<◌, ◌≡◌, refl, Option, none, some, List, [], ◌∷◌, arith, length, Text, ℤ, pos,
  negsuc, Map, lookup, insert, delete, lookup-insert, lookup-delete, text_key, int_key,
}
use mathlib.Core.Option.{some-injective}
use snmp_olt_zte.Model.{OnuId, OnuInfoPerBoard, OnuSerialNumber}
use snmp_olt_zte.Cache.{RedisClient, IsRedis, Json, IsJson}

abbrev pub map_redis : RedisClient
map_redis = record {
  Store = Map Text Text;
  get = lookup;
  set = λ k v seconds s. some (insert k v s);
  del = λ k s. some (delete k s);
  ttl = λ k s. none;
}

pub map_redis-IsRedis : IsRedis map_redis
map_redis-IsRedis = record {
  get-set =
      λ j k v seconds s s' e. rw (← some-injective (insert k v s) s' e) (lookup-insert k j v s);
  get-del = λ j k s s' e. rw (← some-injective (delete k s) s' e) (lookup-delete k j s);
}

-- A code that tells where it ends.
pub record Codec (A : Type 0) : Type 0 where
  pub encode : A → Text → Text
  pub decode : Text → Option (A × Text)
  pub decode-encode : (a : A) (rest : Text) → decode (encode a rest) ≡ some (a, rest)

decode_ℤ : Text → Option (ℤ × Text)
decode_ℤ (zero ∷ n ∷ s) = some (pos n, s)
decode_ℤ (suc _ ∷ n ∷ s) = some (negsuc n, s)
decode_ℤ _ = none

encode_ℤ : ℤ → Text → Text
encode_ℤ (pos n) s = 0 ∷ n ∷ s
encode_ℤ (negsuc n) s = 1 ∷ n ∷ s

decode-encode_ℤ : (a : ℤ) (rest : Text) → decode_ℤ (encode_ℤ a rest) ≡ some (a, rest)
unfolding decode_ℤ encode_ℤ
decode-encode_ℤ (pos n) rest = refl
decode-encode_ℤ (negsuc n) rest = refl

codec_ℤ : Codec ℤ
codec_ℤ = record { encode = encode_ℤ; decode = decode_ℤ; decode-encode = decode-encode_ℤ }

module _ {A : Type 0} (c : Codec A) where
  encode_list : List A → Text → Text
  encode_list [] s = 0 ∷ s
  encode_list (x ∷ xs) s = 1 ∷ c.encode x (encode_list xs s)

  -- Each element takes a unit of fuel.
  decode_list : ℕ → Text → Option (List A × Text)
  decode_list zero s = none
  decode_list (suc fuel) [] = none
  decode_list (suc fuel) (zero ∷ s) = some ([], s)
  decode_list (suc fuel) (suc n ∷ s) = elim (c.decode s) [
    | none ↦ none
    | some (x, t) ↦ elim (decode_list fuel t) [ none ↦ none | some (xs, r) ↦ some (x ∷ xs, r) ]
  ]

  decode-encode_list :
      (xs : List A) (fuel : ℕ) (rest : Text)
      → length xs < fuel
      → decode_list fuel (encode_list xs rest) ≡ some (xs, rest)
  unfolding encode_list decode_list
  decode-encode_list [] (suc fuel) rest h = refl
  decode-encode_list xs zero rest h = ground arith
  decode-encode_list (x ∷ xs) (suc fuel) rest h =
      rw (c.decode-encode, decode-encode_list xs fuel rest (omega arith)) refl

  codec_list : Codec (List A)
  unfolding encode_list decode_list
  codec_list = record {
    encode = λ xs s. suc (length xs) ∷ encode_list xs s;
    decode = λ s. elim s [ [] ↦ none | n ∷ t ↦ decode_list n t ];
    decode-encode = λ xs rest. decode-encode_list xs (suc (length xs)) rest (omega arith);
  }

module _ {A B : Type 0} (c : Codec A) (d : Codec B) where
  codec_pair : Codec (A × B)
  codec_pair = record {
    encode = λ p s. c.encode p.0 (d.encode p.1 s);
    decode = λ s. elim (c.decode s) [
      | none ↦ none
      | some (a, t) ↦ elim (d.decode t) [ none ↦ none | some (b, r) ↦ some ((a, b), r) ]
    ];
    decode-encode = λ p rest. rw (c.decode-encode, d.decode-encode) refl;
  }

module _ {A B : Type 0} (c : Codec A) where
  codec_map : (f : A → B) (g : B → A) → ((b : B) → f (g b) ≡ b) → Codec B
  codec_map f g h = record {
    encode = λ b s. c.encode (g b) s;
    decode = λ s. elim (c.decode s) [ none ↦ none | some (a, t) ↦ some (f a, t) ];
    decode-encode = λ b rest. rw (c.decode-encode, h b) refl;
  }

codec_ℕ : Codec ℕ
codec_ℕ = record {
  encode = λ n s. n ∷ s;
  decode = λ s. elim s [ [] ↦ none | n ∷ t ↦ some (n, t) ];
  decode-encode = λ n rest. refl;
}

codec_text : Codec Text
codec_text = codec_list codec_ℕ

abbrev Option_fst : {A : Type 0} → Option (List A × Text) → Option (Option (List A))
Option_fst none = none
Option_fst (some (xs, t)) = some (some xs)

module _ {A : Type 0} (c : Codec A) where
  unmarshal : Text → Option (Option (List A))
  unmarshal [] = none
  unmarshal (zero ∷ s) = some none
  unmarshal (suc _ ∷ s) = Option_fst ((codec_list c).decode s)

  marshal : Option (List A) → Text
  marshal none = 0 ∷ []
  marshal (some xs) = 1 ∷ (codec_list c).encode xs []

  pub codec_json : Json A
  codec_json = record { marshal = marshal; unmarshal = unmarshal }

  pub codec_json-IsJson : IsJson codec_json
  unfolding codec_json marshal unmarshal
  codec_json-IsJson none = refl
  codec_json-IsJson (some xs) = rw ((codec_list c).decode-encode) refl

pub codec_id : Codec OnuId
codec_id =
    codec_map (codec_pair codec_ℤ (codec_pair codec_ℤ codec_ℤ))
      (λ p. record { board = p.0; pon = p.1.0; id = p.1.1 }) (λ o. (o.board, (o.pon, o.id)))
      (λ o. refl)

pub codec_serial : Codec OnuSerialNumber
codec_serial =
    codec_map (codec_pair codec_id codec_text)
      (λ p. record { board = p.0.board; pon = p.0.pon; id = p.0.id; serial_number = p.1 })
      (λ o. (record { board = o.board; pon = o.pon; id = o.id }, o.serial_number)) (λ o. refl)

pub codec_info : Codec OnuInfoPerBoard
codec_info =
    codec_map
      (codec_pair codec_serial
        (codec_pair codec_text (codec_pair codec_text (codec_pair codec_text codec_text))))
      (λ p. record {
        board = p.0.board;
        pon = p.0.pon;
        id = p.0.id;
        serial_number = p.0.serial_number;
        name = p.1.0;
        onu_type = p.1.1.0;
        rx_power = p.1.1.1.0;
        status = p.1.1.1.1;
      })
      (λ o. (
        record { board = o.board; pon = o.pon; id = o.id; serial_number = o.serial_number },
        (o.name, (o.onu_type, (o.rx_power, o.status))),
      ))
      (λ o. refl)
