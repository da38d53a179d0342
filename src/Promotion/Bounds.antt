-- ===== src/Promotion/Bounds.antt =====
-- How much the promotions may take off.
use all_in_one_v2_api.Base.{
  ℕ, ◌+◌, ◌≤◌, ◌≡◌, refl, Bool, not, ◌&&◌, List, [], ◌∷◌, ◌++◌, arith, leb, Bool-cases, inl, inr,
}
use all_in_one_v2_api.Promotion.{
  Context, Promo, Applied, Running, fine, at_most, apply_promo, consider, consider_all, qualifies,
  started, evaluate,
}

-- what the applied promotions take off together
pub sum_applied : List Applied → ℕ
sum_applied [] = 0
sum_applied (a ∷ rest) = a.discount_amount + sum_applied rest

sum_applied-++ : (xs ys : List Applied) → sum_applied (xs ++ ys) ≡ sum_applied xs + sum_applied ys
unfolding sum_applied
sum_applied-++ [] ys = omega arith
sum_applied-++ (a ∷ xs) ys = ground (arith, sum_applied-++ xs ys)

-- the invariant of the loop
abbrev IsBalanced : ℕ → Running → Type 0
IsBalanced whole r = (r.remaining + r.total ≡ whole) × (sum_applied r.so_far ≡ r.total)

at_most-≤ : (remaining d : ℕ) → at_most remaining d ≤ remaining
at_most-≤ remaining d = ground arith

apply_promo-IsBalanced :
    (whole id discount : ℕ) (free : Bool) (r : Running)
    → discount ≤ r.remaining
    → IsBalanced whole r
    → IsBalanced whole (apply_promo id discount free r)
unfolding apply_promo sum_applied
apply_promo-IsBalanced whole id discount free r fits (balance, sums) =
    elim (Bool-cases (leb discount 0 && not free)) [
      | inl skipped ↦ rw skipped (balance, sums)
      | inr taken ↦ rw taken (
        ground arith,
        ground (
          arith,
          sum_applied-++ r.so_far
              (record { promotion_id = id; discount_amount = discount; free_shipping = free } ∷ []),
        ),
      )
    ]

consider-IsBalanced :
    (whole : ℕ) (ctx : Context) (p : Promo) (r : Running)
    → IsBalanced whole r
    → IsBalanced whole (consider ctx p r)
unfolding consider
consider-IsBalanced whole ctx p r h = elim (Bool-cases (qualifies ctx p)) [
  | inl taken ↦ rw taken (apply_promo-IsBalanced whole p.id _ _ r (at_most-≤ r.remaining _) h)
  | inr skipped ↦ rw skipped h
]

consider_all-IsBalanced :
    (whole : ℕ) (ctx : Context) (candidates : List Promo) (r : Running)
    → IsBalanced whole r
    → IsBalanced whole (consider_all ctx candidates r)
unfolding consider_all
consider_all-IsBalanced whole ctx [] r h = h
consider_all-IsBalanced whole ctx (p ∷ rest) r h = elim (Bool-cases (leb r.remaining 0)) [
  | inl done ↦ rw done h
  | inr more ↦
      rw more (consider_all-IsBalanced whole ctx rest _ (consider-IsBalanced whole ctx p r h))
]

-- Whatever promotions are active, together they take off no more than the cart's subtotal, and the
-- discount that is reported is the sum of the discounts of the promotions that are listed as applied.
pub evaluate_bounded :
    (ctx : Context) (candidates : List Promo)
    → ((evaluate ctx candidates).discount_amount ≤ fine ctx.subtotal)
      × (sum_applied (evaluate ctx candidates).applied ≡ (evaluate ctx candidates).discount_amount)
unfolding evaluate sum_applied
evaluate_bounded ctx candidates = ground (
  arith,
  consider_all-IsBalanced (fine ctx.subtotal) ctx candidates (started ctx) (ground arith, refl),
)
