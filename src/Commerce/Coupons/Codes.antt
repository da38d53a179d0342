-- ===== src/Commerce/Coupons/Codes.antt =====
-- A code names at most one live coupon of a store.
use all_in_one_v2_api.Base.{
  ℕ, ◌+◌, ◌≤◌, ◌≡◌, refl, ◌==◌, ◌&&◌, none, [], ◌∷◌, arith, if◌then◌else◌, Table, find_first,
  any_row, insert, update, update_many, state_of, ◌>>=◌, Option-cases, Bool-cases, inl, inr,
}
use all_in_one_v2_api.Commerce.Coupons.{
  Coupon, CouponBody, Coupons, has_code, find_by_code, create_coupon, delete_coupon, deleted_coupon,
  new_coupon, find_coupon, holds_code,
}

-- how many live coupons of the store have the code
unfoldable pub count_code : ℕ → ℕ → Table Coupon → ℕ
count_code tenant code [] = 0
count_code tenant code ((i, c) ∷ t) =
    let rest = count_code tenant code t in if has_code tenant code i c then 1 + rest else rest

count_code-absent :
    (tenant code : ℕ) (t : Table Coupon)
    → find_first (has_code tenant code) t ≡ none
    → count_code tenant code t ≡ 0
unfolding find_first count_code
count_code-absent tenant code [] h = refl
count_code-absent tenant code ((i, c) ∷ t) h = ground (arith, count_code-absent tenant code t)

count_code-delete :
    (tenant code id : ℕ) (t : Table Coupon)
    → count_code tenant code (update id deleted_coupon t) ≤ count_code tenant code t
unfolding update update_many count_code
count_code-delete tenant code id [] = omega arith
count_code-delete tenant code id ((i, c) ∷ t) = ground (arith, count_code-delete tenant code id t)

count_code-insert :
    (tenant code store i value : ℕ) (k : ℕ) (body : CouponBody) (t : Table Coupon)
    → find_first (has_code store i) t ≡ none
    → count_code tenant code t ≤ 1
    → count_code tenant code (insert k (new_coupon store i value body) t) ≤ 1
unfolding insert count_code
count_code-insert tenant code store i value k body t free few =
    elim (Bool-cases (store == tenant && i == code)) [
      | inr other ↦ ground arith
      | inl hit ↦
          let same_store : store ≡ tenant = ground arith in
          let same_code : i ≡ code = ground arith in
          let none_yet =
            count_code-absent tenant code t (rw same_store at (rw same_code at free)) in
          ground arith
    ]

created_code :
    (store : ℕ) (body : CouponBody) (s : Coupons) (tenant code : ℕ)
    → count_code tenant code s.rows ≤ 1
    → count_code tenant code (state_of (create_coupon store body s)).rows ≤ 1
unfolding create_coupon find_by_code ◌>>=◌
created_code store body s tenant code few = elim (Option-cases body.code) [
  | inl blank ↦ rw blank few
  | inr (c, given) ↦ elim (Option-cases body.discount_value) [
    | inl missing ↦ rw given (rw missing few)
    | inr (value, present) ↦ elim (Option-cases (find_first (has_code store c) s.rows)) [
      | inr (row, clash) ↦ rw given (rw present (rw clash few))
      | inl free ↦ rw given (
          rw present (
            rw free (elim (Bool-cases (any_row (holds_code store c) s.rows)) [
              | inl held ↦ rw held few
              | inr unheld ↦
                  rw unheld
                    (count_code-insert tenant code store c value s.next_id body s.rows free few)
            ])))
    ]
  ]
]

deleted_code :
    (store id : ℕ) (s : Coupons) (tenant code : ℕ)
    → count_code tenant code s.rows ≤ 1
    → count_code tenant code (state_of (delete_coupon store id s)).rows ≤ 1
unfolding delete_coupon ◌>>=◌
deleted_code store id s tenant code few = elim (Option-cases (find_coupon store id s)) [
  | inl missing ↦ rw missing few
  | inr (c, known) ↦ let fewer = count_code-delete tenant code id s.rows in rw known (omega arith)
]

pub coupon_code_unique :
    (store id : ℕ) (body : CouponBody) (s : Coupons) (tenant code : ℕ)
    → count_code tenant code s.rows ≤ 1
    → (count_code tenant code (state_of (create_coupon store body s)).rows ≤ 1)
      × (count_code tenant code (state_of (delete_coupon store id s)).rows ≤ 1)
coupon_code_unique store id body s tenant code few =
    (created_code store body s tenant code few, deleted_code store id s tenant code few)
