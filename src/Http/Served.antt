-- ===== src/Http/Served.antt =====
-- What a client is told of an OLT that answers: the detail of an ONU and the pages of a list.
use snmp_olt_zte.Common.{
  ℕ, zero, suc, ◌+◌, ◌-◌, ◌*◌, ◌/◌, ◌^◌, ◌<◌, ◌≤◌, ◌≡◌, ◌≢◌, refl, ap, ◌∙◌, inl, inr, Bool, false,
  Bool-cases, none, some, List, [], ◌∷◌, arith, Text, codes, text_eq, length, take, drop, ℤ, pos,
  ◌+ℤ◌, ◌-ℤ◌, eq_ℤ, tdiv, wrap64, wrap64_lem, itoa_ℕ, atoi-itoa_ℕ, text_eq→eq, ok, insert, text_key,
}
use snmp_olt_zte.Model.{OnuInfoPerBoard, OnuCustomerInfo}
use snmp_olt_zte.Config.Oid.{dotted}
use snmp_olt_zte.Cache.{RedisClient, Json}
use snmp_olt_zte.Utils.Extract.{SnmpPdu, extract_name, extract_id_onu_id, extract_id_onu_id-dotted}
use snmp_olt_zte.Usecase.Device.{
  SnmpRepository, OnuUsecase, OltConfig, get_board_config, onu_oid_of, snmp_data_map,
}
use snmp_olt_zte.Usecase.Lists.{get_by_board_id_and_pon_id}
use snmp_olt_zte.Usecase.Pages.{get_page_lem}
use snmp_olt_zte.Usecase.Detail.{
  Times, onu_detail, last_detail, read_detail, get_by_board_id_pon_id_and_onu_id,
}
use snmp_olt_zte.Usecase.Uplink.Names.{itoa_ℕ-ne_nil}
use snmp_olt_zte.Http.Errors.{new_not_found_error}
use snmp_olt_zte.Http.Responses.{onus, onu, handle_error, handle_app_error, write_error}
use snmp_olt_zte.Http.Pagination.{
  clamped_size, new, parse_int, default_page_size, get_pagination_parameters,
}
use snmp_olt_zte.Http.Handlers.{
  ok_response, page_response, page_meta, is_zero_info, detail_response, handle_get_detail,
  handle_get_page,
}

module _ (typed : Text → Bool) (request_id cause : Text) (r : RedisClient) (u : OnuUsecase)
    (snmp : SnmpRepository) (board_id pon_id : ℤ) (c : OltConfig)
    (valid : get_board_config u board_id pon_id ≡ ok c) where
  -- An ONU that the OLT has no row of is answered with 404.
  pub detail-missing :
      (times : Times) (now onu_id : ℤ)
      → snmp.bulk_walk (onu_oid_of c.base_oid c.oids.onu_id_name_oid onu_id) ≡ ok []
      → (handle_get_detail typed request_id cause r u snmp board_id pon_id times now
          onu_id).status_code
        ≡ 404
  unfolding handle_get_detail detail_response is_zero_info get_by_board_id_pon_id_and_onu_id
      read_detail last_detail snmp_data_map handle_error handle_app_error write_error
      new_not_found_error
  detail-missing times now onu_id e =
      rw (get_by_board_id_pon_id_and_onu_id, valid, read_detail, e) refl

  -- The answer of an ONU whose name's row is the only one of the walk is its detail, with the board and
  -- the PON of the request, the id at the end of the row's OID and the name in the row.
  pub detail-served :
      (times : Times) (now onu_id : ℤ) (pdu : SnmpPdu) (prefix : Text) (id : ℕ)
      → eq_ℤ board_id (pos 0) ≡ false
      → id < 2 ^ 63
      → pdu.name ≡ dotted prefix (pos id)
      → snmp.bulk_walk (onu_oid_of c.base_oid c.oids.onu_id_name_oid onu_id) ≡ ok (pdu ∷ [])
      → (info : OnuCustomerInfo) × (handle_get_detail typed request_id cause r u snmp board_id
            pon_id times now onu_id
          ≡ ok_response (onu info) none)
        × (info.board ≡ board_id)
        × (info.pon ≡ pon_id)
        × (info.id ≡ pos id)
        × (info.name ≡ extract_name pdu.value)
  unfolding handle_get_detail detail_response is_zero_info get_by_board_id_pon_id_and_onu_id
      read_detail last_detail snmp_data_map insert onu_detail
  detail-served times now onu_id pdu prefix id board h name e =
      let info : OnuCustomerInfo = onu_detail times now u snmp board_id pon_id c pdu in
      (
        info,
        rw (get_by_board_id_pon_id_and_onu_id, valid, read_detail, e) (rw board refl),
        refl,
        refl,
        ap extract_id_onu_id name ∙ extract_id_onu_id-dotted prefix id h,
        refl,
      )

parse_int-itoa_ℕ : (n : ℕ) (d : ℤ) → n < 2 ^ 63 → parse_int (itoa_ℕ n) d ≡ pos n
unfolding parse_int
parse_int-itoa_ℕ n d h = elim (Bool-cases (text_eq (itoa_ℕ n) [])) [
  | inl empty ↦ absurd (itoa_ℕ-ne_nil n h (text_eq→eq (itoa_ℕ n) [] empty))
  | inr other ↦ rw (other, atoi-itoa_ℕ n h) refl
]

ceiling :
    (total n : ℕ)
    → 1 ≤ n
    → n ≤ 100
    → total + 100 < 2 ^ 63
    → wrap64 (wrap64 (pos total +ℤ pos n) -ℤ pos 1) ≡ pos (total + n - 1)
ceiling total n one small fits =
    rw (plus, wrap64_lem (pos (total + n)) (omega arith), minus)
      (wrap64_lem (pos (total + n - 1)) (omega arith))
  where
    plus : pos total +ℤ pos n ≡ pos (total + n)
    plus = unfold ◌+ℤ◌ in ground arith

    minus : pos (total + n) -ℤ pos 1 ≡ pos (total + n - 1)
    minus = unfold ◌-ℤ◌ in ground arith

-- The metadata of a page within the bounds.
new_lem :
    (k total n : ℕ)
    → 1 ≤ n
    → n ≤ 100
    → total + 100 < 2 ^ 63
    → new (pos (suc k)) (pos n) (pos total) ≡ record {
      page = pos (suc k);
      page_size = pos n;
      page_count = pos ((total + n - 1) / n);
      total_rows = pos total;
    }
unfolding new tdiv
new_lem k total n one small fits =
    rw (clamped n one small, ceiling total n one small fits) (ground arith)
  where
    clamped : (m : ℕ) → 1 ≤ m → m ≤ 100 → clamped_size (pos m) ≡ pos m
    clamped m a b = unfold clamped_size in ground arith

le-mul : (k n : ℕ) → 1 ≤ n → k ≤ k * n
le-mul zero n h = omega arith
le-mul (suc k) n h = grind (arith, le-mul k n)

take-ne_nil :
    (xs : List OnuInfoPerBoard) (m n : ℕ) → 1 ≤ n → m < length xs → take n (drop m xs) ≢ []
take-ne_nil [] m n one h = absurd (omega arith)
take-ne_nil (x ∷ xs) zero zero one h = elim one [ ]
take-ne_nil (x ∷ xs) zero (suc n) one h = λ e. ground arith
take-ne_nil (x ∷ xs) (suc m) n one h = take-ne_nil xs m n one (omega arith)

module _ (typed : Text → Bool) (request_id cause : Text) (r : RedisClient) (u : OnuUsecase)
    (snmp : SnmpRepository) (board_id pon_id : ℤ) (json : Json OnuInfoPerBoard) where
  page_response_lem :
      (page_index page_size : ℤ) (page : List OnuInfoPerBoard) (count : ℕ)
      → page ≢ []
      → page_response typed request_id cause r u snmp board_id pon_id page_index page_size
          (page, count)
        ≡ ok_response (onus page) (
            some (
              page_meta typed request_id cause r u snmp board_id pon_id
                (new page_index page_size (pos count))))
  page_response_lem page_index page_size [] count h = absurd (h refl)
  page_response_lem page_index page_size (x ∷ xs) count h = refl

  -- For a page number k + 1 and a limit n from 1 to 100 of a list that reaches to that page, the answer
  -- has the rows from k * n on, at most n of them, and the metadata of that page: its number and
  -- limit, the number of all rows and the number of pages that hold them.
  pub page-served :
      (parameters : Text → Text) (s : r.Store) (xs : List OnuInfoPerBoard) (k n : ℕ)
      → parameters (codes "page") ≡ itoa_ℕ (suc k)
      → parameters (codes "limit") ≡ itoa_ℕ n
      → 1 ≤ n
      → n ≤ 100
      → k * n < length xs
      → length xs + 100 < 2 ^ 63
      → (get_by_board_id_and_pon_id r json u snmp board_id pon_id s).result ≡ ok (some xs)
      → (handle_get_page typed request_id cause r u snmp board_id pon_id json parameters s).0
        ≡ ok (
            ok_response (onus (take n (drop (k * n) xs))) (
              some (record {
                page = pos (suc k);
                limit = pos n;
                page_count = pos ((length xs + n - 1) / n);
                total_rows = pos (length xs);
              })))
  unfolding handle_get_page get_pagination_parameters
  page-served parameters s xs k n page limit one small reach fits listed =
      let below : suc k < 2 ^ 63 = omega (arith, le-mul k n one) in
      rw
        (
          page,
          limit,
          parse_int-itoa_ℕ (suc k) (pos 1) below,
          parse_int-itoa_ℕ n default_page_size (omega arith),
          listed,
          get_page_lem xs k n below (omega arith),
          page_response_lem (pos (suc k)) (pos n) (take n (drop (k * n) xs)) (length xs)
              (take-ne_nil xs (k * n) n one reach),
        )
        (ap
          (λ pages. ok (
            ok_response (onus (take n (drop (k * n) xs)))
              (some (page_meta typed request_id cause r u snmp board_id pon_id pages))))
          (new_lem k (length xs) n one small fits))
