-- ===== src/Commerce/Checkout/Limits.antt =====
-- The limits on the uses of coupons and promotions.
use all_in_one_v2_api.Base.{
  ℕ, ◌+◌, ◌≤◌, ◌≡◌, refl, sym, ◌∙◌, ap, ◌==◌, Bool, true, false, ◌||◌, Option, none, some, List, [],
  ◌∷◌, arith, Table, find, update, IsKeyed, update_many-IsKeyed, any, map, Ends-weaken, Ends-state,
  Bool-cases, inl, inr, ==_iff, state_of, Everywhere, Everywhere-update_many, find-of-find_first,
  sort_by, any-sort_by,
}
use all_in_one_v2_api.Promotion.Offered.{offers, evaluate-names}
use all_in_one_v2_api.Commerce.Coupons.{
  Coupon, find_by_code, has_code, is_usable, is_used_up, increment_usage, used_once_more,
}
use all_in_one_v2_api.Commerce.Checkout.Shop.{PromotionRow, CartItemLike, Shop, Desk, Params}
use all_in_one_v2_api.Commerce.Checkout.Candidates.{
  is_candidate, candidate_rows, ranks_before, promo_of, find_active_candidates, used_again,
  increment_promotions, below_limit,
}
use all_in_one_v2_api.Commerce.Checkout.Pricing.{subtotal_of, promotions_for}
use all_in_one_v2_api.Commerce.Checkout.Placing.{claim_coupon, place_order, create_order_from_items}
use all_in_one_v2_api.Commerce.Checkout.Outcome.{OnlyStock, Placement, IsClaimed, create_order-Ends}

abbrev pub Within : Option ℕ → ℕ → Type 0
Within none used = Unit
Within (some limit) used = used ≤ limit

abbrev pub CouponFits : Coupon → Type 0
CouponFits c = Within c.usage_limit c.usage_count

abbrev pub PromotionFits : PromotionRow → Type 0
PromotionFits p = Within p.usage_limit p.usage_count

-- No coupon and no promotion has been used more often than its limit allows.
pub record IsWithinLimits (s : Shop) : Type 0 where
  pub coupons_keyed : IsKeyed (s.coupons).rows
  pub promotions_keyed : IsKeyed s.promotions
  pub coupons_fit : Everywhere CouponFits (s.coupons).rows
  pub promotions_fit : Everywhere PromotionFits s.promotions

unused-Within :
    (limit : Option ℕ) (used : ℕ) → is_used_up limit used ≡ false → Within limit (used + 1)
unused-Within none used h = tt
unused-Within (some limit) used h = ground arith

usable-Fits :
    (now subtotal : ℕ) (c : Coupon)
    → is_usable now c (some subtotal) ≡ true
    → CouponFits (used_once_more c)
usable-Fits now subtotal c h = unused-Within c.usage_limit c.usage_count (ground arith)

claimed_coupons :
    (d : Desk) (code : Option ℕ) (subtotal : ℕ) (s : Shop) (coupon : Option (ℕ × Coupon))
    → IsClaimed d code subtotal s coupon
    → IsKeyed (s.coupons).rows
    → Everywhere CouponFits (s.coupons).rows
    → IsKeyed (claim_coupon coupon s.coupons).rows
      × Everywhere CouponFits (claim_coupon coupon s.coupons).rows
unfolding increment_usage update find_by_code
claimed_coupons d code subtotal s none h keyed fit = (keyed, fit)
claimed_coupons d code subtotal s (some (i, c)) (k, asked, found, usable) keyed fit = (
  update_many-IsKeyed _ used_once_more (s.coupons).rows keyed,
  Everywhere-update_many CouponFits _ used_once_more (s.coupons).rows
      (λ j a at_j same.
        let here = find-of-find_first (has_code d.tenant k) (s.coupons).rows i c keyed found in
        let one : j ≡ i = (==_iff j i).0 same in
        let row : c ≡ a = ground (arith, rw one at at_j) in
        rw row at (usable-Fits d.now subtotal c usable))
      fit,
)

abbrev is_row : ℕ → ℕ × PromotionRow → Bool
is_row id (i, p) = i == id

offers-map :
    (id : ℕ) (rows : List (ℕ × PromotionRow)) → offers id (map promo_of rows) ≡ any (is_row id) rows
offers-map id [] = refl
offers-map id ((i, p) ∷ rows) = ap (λ b. i == id || b) (offers-map id rows)

candidate-absent :
    (test : PromotionRow → Bool) (id : ℕ) (t : Table PromotionRow)
    → find id t ≡ none
    → any (is_row id) (candidate_rows test t) ≡ false
unfolding find candidate_rows
candidate-absent test id [] h = refl
candidate-absent test id ((i, p) ∷ t) h = ground (arith, candidate-absent test id t)

candidate-passes :
    (test : PromotionRow → Bool) (id : ℕ) (t : Table PromotionRow) (r : PromotionRow)
    → IsKeyed t
    → find id t ≡ some r
    → any (is_row id) (candidate_rows test t) ≡ true
    → test r ≡ true
unfolding find candidate_rows
candidate-passes test id [] r keyed h m = ground arith
candidate-passes test id ((i, p) ∷ t) r keyed h m = elim (Bool-cases (id == i)) [
  | inl hit ↦ elim (Bool-cases (test p)) [
    | inl passes ↦ let same : p ≡ r = ground arith in rw same at passes
    | inr fails ↦
        let key : id ≡ i = (==_iff id i).0 hit in
        let gone = candidate-absent test id t (rw (sym key) at keyed.0) in ground (arith, gone)
  ]
  | inr miss ↦ ground (arith, candidate-passes test id t r keyed.1)
]

below-Within :
    (limit : Option ℕ) (used : ℕ) → below_limit used limit ≡ true → Within limit (used + 1)
below-Within none used h = tt
below-Within (some limit) used h = ground arith

-- a promotion that is offered has room for one more use
offered-Fits :
    (tenant now : ℕ) (code : Option ℕ) (t : Table PromotionRow) (id : ℕ) (r : PromotionRow)
    → IsKeyed t
    → find id t ≡ some r
    → offers id (find_active_candidates tenant now code t) ≡ true
    → PromotionFits (used_again r)
unfolding find_active_candidates
offered-Fits tenant now code t id r keyed found offered =
    let rows = candidate_rows (is_candidate tenant now code) t in
    let listed : any (is_row id) rows ≡ true =
      sym (any-sort_by (is_row id) ranks_before rows)
      ∙ sym (offers-map id (sort_by ranks_before rows))
      ∙ offered in
    let passes = candidate-passes (is_candidate tenant now code) id t r keyed found listed in
    below-Within r.usage_limit r.usage_count (ground arith)

claimed_promotions :
    (d : Desk) (p : Params) (lines : List CartItemLike) (s : Shop)
    → IsKeyed s.promotions
    → Everywhere PromotionFits s.promotions
    → let after = increment_promotions (promotions_for d p lines s).applied s.promotions in
      IsKeyed after × Everywhere PromotionFits after
unfolding increment_promotions promotions_for
claimed_promotions d p lines s keyed fit = (
  update_many-IsKeyed _ used_again s.promotions keyed,
  Everywhere-update_many PromotionFits _ used_again s.promotions
      (λ id r found named.
        offered-Fits d.tenant d.now p.promotion_code s.promotions id r keyed found (
          evaluate-names _ (find_active_candidates d.tenant d.now p.promotion_code s.promotions) id
            named))
      fit,
)

kept : (s t : Shop) → OnlyStock s t → IsWithinLimits s → IsWithinLimits t
kept s t h w =
    let coupons : s.coupons ≡ t.coupons = sym (ap (λ (x : Shop). x.coupons) h) in
    let promotions : s.promotions ≡ t.promotions = sym (ap (λ (x : Shop). x.promotions) h) in
    record {
      coupons_keyed = rw coupons at w.coupons_keyed;
      promotions_keyed = rw promotions at w.promotions_keyed;
      coupons_fit = rw coupons at w.coupons_fit;
      promotions_fit = rw promotions at w.promotions_fit;
    }

Placement-limits :
    (d : Desk) (p : Params) (cart : Option ℕ) (lines : List CartItemLike) (s : Shop) (id : ℕ)
    (t : Shop)
    → Placement d p cart lines s id t
    → IsWithinLimits s
    → IsWithinLimits t
unfolding place_order
Placement-limits d p cart lines s id t h w =
    let applied = (promotions_for d p lines s).applied in
    let promotions : increment_promotions applied s.promotions ≡ t.promotions = sym (
      ap (λ (x : Shop). x.promotions) h.after
      ∙ ap (λ (x : Shop). increment_promotions applied x.promotions) h.only_stock) in
    let coupons : claim_coupon h.coupon s.coupons ≡ t.coupons = sym (
      ap (λ (x : Shop). x.coupons) h.after
      ∙ ap (λ (x : Shop). claim_coupon h.coupon x.coupons) h.only_stock) in
    let of_promotions = claimed_promotions d p lines s w.promotions_keyed w.promotions_fit in
    let of_coupons =
      claimed_coupons d p.coupon_code (subtotal_of lines) s h.coupon h.claimed w.coupons_keyed
        w.coupons_fit in
    record {
      coupons_keyed = rw coupons at of_coupons.0;
      promotions_keyed = rw promotions at of_promotions.0;
      coupons_fit = rw coupons at of_coupons.1;
      promotions_fit = rw promotions at of_promotions.1;
    }

pub create_order-IsWithinLimits :
    (d : Desk) (p : Params) (cart : Option ℕ) (lines : List CartItemLike) (s : Shop)
    → IsWithinLimits s
    → IsWithinLimits (state_of (create_order_from_items d p cart lines s))
create_order-IsWithinLimits d p cart lines s w =
    Ends-state IsWithinLimits (create_order_from_items d p cart lines s) (
      Ends-weaken (λ id t. Placement d p cart lines s id t) (λ _ t. IsWithinLimits t)
        (λ _ t. OnlyStock s t) (λ _ t. IsWithinLimits t) (create_order_from_items d p cart lines s)
        (create_order-Ends d p cart lines s) (λ id t h. Placement-limits d p cart lines s id t h w)
        (λ _ t h. kept s t h w))
