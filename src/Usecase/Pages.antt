-- ===== src/Usecase/Pages.antt =====
-- internal/usecase/onu.go, GetByBoardIDAndPonIDWithPagination: the slice of a page, in int64.
use snmp_olt_zte.Common.{
  ℕ, zero, suc, ◌+◌, ◌-◌, ◌*◌, ◌^◌, ◌≤◌, ◌<◌, ◌≡◌, refl, sym, ap, ◌∙◌, inl, inr, true, false, ◌&&◌,
  Option, none, some, List, [], ◌∷◌, ◌++◌, arith, ltb, if◌then◌else◌, Bool-cases, length, take,
  drop, ℤ, pos, negsuc, pos_part, ◌+ℤ◌, ◌-ℤ◌, ◌*ℤ◌, ltb_ℤ, leb_ℤ, wrap64, Result, ok, err, ◌>>=◌,
  text_key, int_key,
}
use snmp_olt_zte.Common.{wrap64_lem, tests, length-drop}

-- The bounds of a Go slice expression are out of range.
pub data Panic : Type 0 where
  slice_bounds : Panic

-- allOnus[startIndex:endIndex]
unfoldable pub slice {ℓ} : {A : Type ℓ} → List A → ℤ → ℤ → Result Panic (List A)
slice xs start_index end_index =
    if (leb_ℤ (pos 0) start_index && leb_ℤ start_index end_index)
      && leb_ℤ end_index (pos (length xs))
    then ok (take (pos_part end_index - pos_part start_index) (drop (pos_part start_index) xs))
    else err slice_bounds

unfoldable pub min_ℤ : ℤ → ℤ → ℤ
min_ℤ a b = if ltb_ℤ b a then b else a

-- `none` is the error of the list, which gives `nil, 0`.
unfoldable pub get_page {ℓ} : {A : Type ℓ} → Option (List A) → ℤ → ℤ → Result Panic (List A × ℕ)
get_page none page_index page_size = ok ([], 0)
get_page (some all_onus) page_index page_size =
    let count = length all_onus in
    let start_index = wrap64 (wrap64 (page_index -ℤ pos 1) *ℤ page_size) in
    let end_index = wrap64 (start_index +ℤ page_size) in
    if leb_ℤ (pos count) start_index
    then ok ([], count)
    else slice all_onus start_index (min_ℤ end_index (pos count)) >>= λ page. ok (page, count)

times : (a b : ℕ) → pos a *ℤ pos b ≡ pos (a * b)
unfolding ◌*ℤ◌
times a b = ground arith

start_of :
    (k n : ℕ)
    → suc k < 2 ^ 63
    → k * n < 2 ^ 63
    → wrap64 (wrap64 (pos (suc k) -ℤ pos 1) *ℤ pos n) ≡ pos (k * n)
start_of k n hk h =
    rw (pred, wrap64_lem (pos k) (omega arith), times k n, wrap64_lem (pos (k * n)) h) refl
  where
    pred : pos (suc k) -ℤ pos 1 ≡ pos k
    pred = unfold ◌-ℤ◌ in ground arith

end_of : (m n : ℕ) → m + n < 2 ^ 63 → wrap64 (pos m +ℤ pos n) ≡ pos (m + n)
end_of m n h = rw sum (wrap64_lem (pos (m + n)) h)
  where
    sum : pos m +ℤ pos n ≡ pos (m + n)
    sum = unfold ◌+ℤ◌ in ground arith

take_none : {A : Type 0} (n : ℕ) → take {A = A} n [] ≡ []
take_none zero = refl
take_none (suc n) = refl

take_all : {A : Type 0} (n : ℕ) (xs : List A) → length xs ≤ n → take n xs ≡ xs
take_all zero [] h = refl
take_all zero (x ∷ xs) h = ground arith
take_all (suc n) [] h = refl
take_all (suc n) (x ∷ xs) h = rw (take_all n xs (omega arith)) refl

drop_all : {A : Type 0} (n : ℕ) (xs : List A) → length xs ≤ n → drop n xs ≡ []
drop_all zero [] h = refl
drop_all zero (x ∷ xs) h = ground arith
drop_all (suc n) [] h = refl
drop_all (suc n) (x ∷ xs) h = drop_all n xs (omega arith)

slice_of :
    {A : Type 0} (xs : List A) (m e : ℕ)
    → m ≤ e
    → e ≤ length xs
    → slice xs (pos m) (pos e) ≡ ok (take (e - m) (drop m xs))
unfolding slice
slice_of xs m e h h' = ground arith

slice_neg : {A : Type 0} (xs : List A) (n : ℕ) (e : ℤ) → slice xs (negsuc n) e ≡ err slice_bounds
unfolding slice
slice_neg xs n e = ground arith

slice_lem :
    {A : Type 0} (xs : List A) (m n : ℕ)
    → m < length xs
    → slice xs (pos m) (min_ℤ (pos (m + n)) (pos (length xs))) ≡ ok (take n (drop m xs))
slice_lem xs m n h = elim (Bool-cases (ltb (length xs) (m + n))) [
  | inl over ↦
      rw
        (
          last over,
          slice_of xs m (length xs) (omega arith) (omega arith),
          take_all (length xs - m) (drop m xs) (omega (arith, length-drop m xs)),
          take_all n (drop m xs) (omega (tests, length-drop m xs)),
        )
        refl
  | inr within ↦ rw (all within, slice_of xs m (m + n) (omega arith) (ground arith), sub) refl
]
  where
    last : ltb (length xs) (m + n) ≡ true → min_ℤ (pos (m + n)) (pos (length xs)) ≡ pos (length xs)
    last over = unfold min_ℤ in ground arith

    all : ltb (length xs) (m + n) ≡ false → min_ℤ (pos (m + n)) (pos (length xs)) ≡ pos (m + n)
    all within = unfold min_ℤ in ground arith

    sub : m + n - m ≡ n
    sub = omega arith

-- Page `k + 1` of size `n` is the rows from `k * n` on, at most `n` of them, with the number of all
-- rows; it is empty past the end. Indices are those that 64 bits hold.
pub get_page_lem :
    {A : Type 0} (xs : List A) (k n : ℕ)
    → suc k < 2 ^ 63
    → k * n + n < 2 ^ 63
    → get_page (some xs) (pos (suc k)) (pos n) ≡ ok (take n (drop (k * n) xs), length xs)
unfolding get_page
get_page_lem xs k n hk hn =
    rw (start_of k n hk (omega arith), end_of (k * n) n hn)
      (elim (Bool-cases (leb_ℤ (pos (length xs)) (pos (k * n)))) [
        | inl past ↦ rw (past, drop_all (k * n) xs (omega tests), take_none n) refl
        | inr within ↦ rw (within, slice_lem xs (k * n) n (ground arith)) refl
      ])

-- The pages in order make up the list.
pub take_add :
    {A : Type 0} (xs : List A) (m n : ℕ) → take m xs ++ take n (drop m xs) ≡ take (m + n) xs
take_add xs zero n = ap (λ m. take m xs) (omega arith)
take_add [] (suc m) n = take_none n ∙ sym (take_none (suc m + n))
take_add (x ∷ xs) (suc m) n = ap (λ ys. x ∷ ys) (take_add xs m n) ∙ ap (λ m. take m (x ∷ xs)) succ
  where
    succ : suc (m + n) ≡ suc m + n
    succ = omega arith

-- A page number of 0 panics on a list that is not empty.
pub get_page_zero :
    {A : Type 0} (x : A) (xs : List A) (n : ℕ)
    → n < 2 ^ 63
    → get_page (some (x ∷ xs)) (pos 0) (pos (suc n)) ≡ err slice_bounds
unfolding get_page
get_page_zero x xs n h =
    rw (first, start)
      (elim (Bool-cases (leb_ℤ (pos (length (x ∷ xs))) (negsuc n))) [
        | inl past ↦ ground arith
        | inr before ↦ rw (before, slice_neg (x ∷ xs) n _) refl
      ])
  where
    first : wrap64 (pos 0 -ℤ pos 1) ≡ negsuc 0
    first = unfold wrap64 ◌-ℤ◌ in ground arith

    start : wrap64 (negsuc 0 *ℤ pos (suc n)) ≡ negsuc n
    start = unfold wrap64 ◌*ℤ◌ in ground arith
