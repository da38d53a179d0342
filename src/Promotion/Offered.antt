-- ===== src/Promotion/Offered.antt =====
-- Which promotions are applied: none but candidates.
use all_in_one_v2_api.Base.{
  ℕ, ◌≡◌, refl, ◌==◌, Bool, true, false, ◌||◌, List, [], ◌∷◌, ◌++◌, arith, any, leb, is_empty,
  Bool-cases, inl, inr,
}
use all_in_one_v2_api.Promotion.{
  Context, Promo, Applied, Running, apply_promo, consider, consider_all, qualifies, started,
  evaluate,
}

-- the promotion `id` was applied, is offered
abbrev pub names : ℕ → List Applied → Bool
names id applied = any (λ (a : Applied). a.promotion_id == id) applied

abbrev pub offers : ℕ → List Promo → Bool
offers id candidates = any (λ (p : Promo). p.id == id) candidates

names-append :
    (id : ℕ) (xs : List Applied) (a : Applied)
    → names id (xs ++ a ∷ []) ≡ (names id xs || a.promotion_id == id)
names-append id [] a = ground arith
names-append id (x ∷ xs) a = ground (arith, names-append id xs a)

apply_promo-names :
    (id k discount : ℕ) (free : Bool) (r : Running)
    → names k (apply_promo id discount free r).so_far ≡ true
    → names k r.so_far || id == k ≡ true
unfolding apply_promo
apply_promo-names id k discount free r h = ground (
  arith,
  names-append k r.so_far
      (record { promotion_id = id; discount_amount = discount; free_shipping = free }),
)

consider-names :
    (ctx : Context) (p : Promo) (k : ℕ) (r : Running)
    → names k (consider ctx p r).so_far ≡ true
    → names k r.so_far || p.id == k ≡ true
unfolding consider
consider-names ctx p k r h = elim (Bool-cases (qualifies ctx p)) [
  | inl taken ↦ apply_promo-names p.id k _ _ r (rw taken at h)
  | inr skipped ↦ let before : names k r.so_far ≡ true = rw skipped at h in rw before refl
]

consider_all-names :
    (ctx : Context) (candidates : List Promo) (k : ℕ) (r : Running)
    → names k (consider_all ctx candidates r).so_far ≡ true
    → names k r.so_far || offers k candidates ≡ true
unfolding consider_all
consider_all-names ctx [] k r h = ground arith
consider_all-names ctx (p ∷ candidates) k r h =
    ground (arith, consider_all-names ctx candidates k (consider ctx p r), consider-names ctx p k r)

-- No promotion is applied that was not a candidate.
pub evaluate-names :
    (ctx : Context) (candidates : List Promo) (k : ℕ)
    → names k (evaluate ctx candidates).applied ≡ true
    → offers k candidates ≡ true
unfolding evaluate
evaluate-names ctx candidates k h = elim (Bool-cases (is_empty ctx.items || leb ctx.subtotal 0)) [
  | inl nothing ↦ let no_one : false ≡ true = rw nothing at h in cc
  | inr some' ↦ consider_all-names ctx candidates k (started ctx) (rw some' at h)
]
