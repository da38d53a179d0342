-- ===== src/Commerce/Checkout/Visits.antt =====
-- Any number of checkouts, one after another.
use all_in_one_v2_api.Base.{
  ℕ, Option, List, [], ◌∷◌, Steps, Preorder, step_rules, Steps-pure, Steps-bind, Steps-or_throw,
  state_of, Bool-cases, inl, inr,
}
use all_in_one_v2_api.Commerce.Checkout.Shop.{CartItemLike, Shop, DirectItem, Desk, Params, Desking}
use all_in_one_v2_api.Commerce.Checkout.Placing.{
  create_order_from_items, checkout_from_cart, resolve_direct_checkout_items, tell_placed,
  checkout_direct,
}
use all_in_one_v2_api.Commerce.Checkout.Limits.{IsWithinLimits, create_order-IsWithinLimits}
use all_in_one_v2_api.Commerce.Checkout.Shelves.{IsShelved, create_order-IsShelved}

-- a request to one of the two endpoints, with what it runs in
pub data Visit : Type 0 where
  from_cart : Desk → Params → Visit
  direct : Desk → Params → ℕ → List DirectItem → Visit

unfoldable pub serve_visit : Visit → Desking ℕ
serve_visit (from_cart d p) = checkout_from_cart d p
serve_visit (direct d p user items) = checkout_direct d p user items

unfoldable pub serve_visits : List Visit → Shop → Shop
unfolding serve_visit
serve_visits [] s = s
serve_visits (v ∷ visits) s = serve_visits visits (state_of (serve_visit v s))

module _ (P : Shop → Type 0)
    (created : (d : Desk) (p : Params) (cart : Option ℕ) (lines : List CartItemLike) (s : Shop)
      → P s
      → P (state_of (create_order_from_items d p cart lines s)))
    (told : (s : Shop) (l : List (ℕ × ℕ)) → P s → P (record s { told = l })) where
  abbrev KeepsP : Shop → Shop → Type 0
  KeepsP s t = P s → P t

  KeepsP-Preorder : Preorder KeepsP
  KeepsP-Preorder = record { stay = λ s h. h; chain = λ s t u f g h. g (f h) }

  create-Steps :
      (d : Desk) (p : Params) (cart : Option ℕ) (lines : List CartItemLike)
      → Steps KeepsP (create_order_from_items d p cart lines)
  create-Steps d p cart lines = record { at = created d p cart lines }

  from_cart-Steps : (d : Desk) (p : Params) → Steps KeepsP (checkout_from_cart d p)
  unfolding checkout_from_cart
  from_cart-Steps d p = search (step_rules, KeepsP-Preorder, create-Steps) depth 10

  resolve-Steps :
      (d : Desk) (items : List DirectItem) → Steps KeepsP (resolve_direct_checkout_items d items)
  unfolding resolve_direct_checkout_items
  resolve-Steps d [] = Steps-pure KeepsP-Preorder []
  resolve-Steps d (i ∷ items) =
      Steps-bind KeepsP-Preorder _ _ (Steps-or_throw KeepsP-Preorder _ _) λ variant.
        Steps-bind KeepsP-Preorder _ _ (resolve-Steps d items) λ lines. Steps-pure KeepsP-Preorder _

  tell-Steps : (d : Desk) (user order : ℕ) → Steps KeepsP (tell_placed d user order)
  unfolding tell_placed
  tell-Steps d user order = record {
    at = λ s h. elim (Bool-cases d.notifier_up) [
      | inl up ↦ rw up (told s ((user, order) ∷ s.told) h)
      | inr down ↦ rw down h
    ];
  }

  direct-Steps :
      (d : Desk) (p : Params) (user : ℕ) (items : List DirectItem)
      → Steps KeepsP (checkout_direct d p user items)
  unfolding checkout_direct
  direct-Steps d p user items =
      search (step_rules, KeepsP-Preorder, create-Steps, resolve-Steps, tell-Steps) depth 10

  serve-Steps : (v : Visit) → Steps KeepsP (serve_visit v)
  unfolding serve_visit
  serve-Steps (from_cart d p) = from_cart-Steps d p
  serve-Steps (direct d p user items) = direct-Steps d p user items

  serve_visits-keep : (visits : List Visit) (s : Shop) → P s → P (serve_visits visits s)
  unfolding serve_visits
  serve_visits-keep [] s h = h
  serve_visits-keep (v ∷ visits) s h =
      serve_visits-keep visits (state_of (serve_visit v s)) ((serve-Steps v).at s h)

-- Whatever checkouts come, one after another: no coupon and no promotion is ever used more often than
-- its limit allows. Coupons have distinct ids, and so have promotions.
pub serve_visits-IsWithinLimits :
    (visits : List Visit) (s : Shop) → IsWithinLimits s → IsWithinLimits (serve_visits visits s)
serve_visits-IsWithinLimits = serve_visits-keep IsWithinLimits create_order-IsWithinLimits (λ s l h.
    record {
      coupons_keyed = h.coupons_keyed;
      promotions_keyed = h.promotions_keyed;
      coupons_fit = h.coupons_fit;
      promotions_fit = h.promotions_fit;
    })

-- Whatever checkouts come, one after another: where stock rows have their own ids and places, never is
-- more reserved than is on hand, and each row shows as available what is left, also after a checkout
-- that failed half-way.
pub serve_visits-IsShelved :
    (visits : List Visit) (s : Shop)
    → IsShelved (s.warehouse).stocks
    → IsShelved ((serve_visits visits s).warehouse).stocks
serve_visits-IsShelved =
    serve_visits-keep (λ (s : Shop). IsShelved (s.warehouse).stocks)
      (λ d p cart lines s h. (create_order-IsShelved d p cart lines).at s h) (λ s l h. h)
