-- ===== src/Commerce/Checkout/AddItem.antt =====
-- What addItemToCart does to the cart of the caller.
use all_in_one_v2_api.Base.{
  ℕ, ◌+◌, ◌≡◌, refl, sym, ◌∙◌, ap, ◌==◌, Bool, true, false, not, Option, none, some, arith,
  find_first, find_first-update_many, insert, update, ltb, thrown, Ends, Ends-weaken, bind-Ends,
  gets-Ends, guard-Ends, or_throw-Ends, Option-cases, inl, inr, ==_refl, modify,
}
use all_in_one_v2_api.Base.Int.{pos, ltb_ℤ}
use all_in_one_v2_api.Inventory.{effective_available_stock}
use all_in_one_v2_api.Commerce.Checkout.Shop.{Cart, CartItem, Shop, Desk}
use all_in_one_v2_api.Commerce.Checkout.Carts.{
  CartOwner, customer, session, new_cart, get_or_create_cart, created_unless, is_cart_for, is_item,
  new_quantity, write_item, repriced, add_item_to_cart,
}

-- the caller's cart, with the items and the stock as before
abbrev IsFound : Desk → CartOwner → Shop → ℕ → Shop → Type 0
IsFound d owner s cart t =
    (c : Cart) × (find_first (is_cart_for d.tenant owner) t.carts ≡ some (cart, c))
    × (t.cart_items ≡ s.cart_items)
    × (t.warehouse ≡ s.warehouse)

new_cart-matches :
    (tenant id : ℕ) (owner : CartOwner) → is_cart_for tenant owner id (new_cart tenant owner) ≡ true
new_cart-matches tenant id (customer c) = ground (arith, ==_refl tenant, ==_refl c)
new_cart-matches tenant id (session c) = ground (arith, ==_refl tenant, ==_refl c)

created-IsFound :
    (d : Desk) (owner : CartOwner) (s : Shop)
    → Ends
        (λ cart t. IsFound d owner s cart t)
        (λ _ t. t.cart_items ≡ s.cart_items)
        (created_unless d owner (find_first (is_cart_for d.tenant owner) s.carts) s)
unfolding created_unless insert find_first
created-IsFound d owner s = elim (Option-cases (find_first (is_cart_for d.tenant owner) s.carts)) [
  | inr ((id, c), found) ↦ rw found (c, found, refl, refl)
  | inl absent ↦
      rw absent
        (new_cart d.tenant owner, rw (new_cart-matches d.tenant s.next_id owner) refl, refl, refl)
]

get_or_create_cart-IsFound :
    (d : Desk) (owner : CartOwner) (s : Shop)
    → Ends
        (λ cart t. IsFound d owner s cart t)
        (λ _ t. t.cart_items ≡ s.cart_items)
        (get_or_create_cart d owner s)
unfolding get_or_create_cart
get_or_create_cart-IsFound d owner s =
    bind-Ends (λ a t. (t ≡ s) × (a ≡ find_first (is_cart_for d.tenant owner) s.carts)) _ _ _ _ s
      (gets-Ends (λ (x : Shop). find_first (is_cart_for d.tenant owner) x.carts) _ s)
      λ found t g. rw g.0 (rw g.1 (created-IsFound d owner s))

-- the item of the variant in the caller's cart: its quantity is raised by what was asked for, or starts
-- at it, the stock covers it, and it has the present price
abbrev pub IsAdded : Desk → CartOwner → ℕ → ℕ → Shop → Shop → Type 0
IsAdded d owner variant quantity s t =
    (cart : ℕ) × (c : Cart) × (k : ℕ) × (i : CartItem) × (find_first (is_cart_for d.tenant owner)
        t.carts
      ≡ some (cart, c))
    × (find_first (is_item cart variant) t.cart_items ≡ some (k, i))
    × (i.quantity ≡ new_quantity (find_first (is_item cart variant) s.cart_items) quantity)
    × (d.price_of variant ≡ some i.unit_price)
    × (ltb_ℤ
          (effective_available_stock d.tenant variant (d.supplier_stock variant)
            (s.warehouse).stocks)
          (pos i.quantity)
        ≡ false)

-- what writing an item leaves at the variant
written :
    (d : Desk) (cart variant quantity price : ℕ) (u : Shop)
    → let existing = find_first (is_item cart variant) u.cart_items in
      (k : ℕ) × (i : CartItem) × (find_first
          (is_item cart variant)
          (write_item d cart variant quantity price existing u).cart_items
        ≡ some (k, i))
      × (i.quantity ≡ new_quantity existing quantity)
      × (i.unit_price ≡ price)
unfolding write_item insert update find_first
written d cart variant quantity price u =
    elim (Option-cases (find_first (is_item cart variant) u.cart_items)) [
      | inl absent ↦ rw absent (
        u.next_id,
        record {
          tenant_id = d.tenant;
          cart_id = cart;
          product_variant_id = variant;
          quantity = quantity;
          unit_price = price;
        },
        ground (arith, ==_refl cart, ==_refl variant),
        refl,
        refl,
      )
      | inr ((id, i), found) ↦ rw found (
        id,
        repriced (i.quantity + quantity) price i,
        (let hit = ==_refl id in
            find_first-update_many (is_item cart variant) (λ j _. j == id)
              (repriced (i.quantity + quantity) price) u.cart_items (λ j x. refl)
            ∙ rw found (rw hit refl)),
        refl,
        refl,
      )
    ]

write_item-carts :
    (d : Desk) (cart variant quantity price : ℕ) (existing : Option (ℕ × CartItem)) (s : Shop)
    → (write_item d cart variant quantity price existing s).carts ≡ s.carts
unfolding write_item
write_item-carts d cart variant quantity price none s = refl
write_item-carts d cart variant quantity price (some (id, i)) s = refl

added :
    (d : Desk) (owner : CartOwner) (variant quantity cart price : ℕ) (s t : Shop)
    → IsFound d owner s cart t
    → d.price_of variant ≡ some price
    → let existing = find_first (is_item cart variant) t.cart_items in
      ltb_ℤ
          (effective_available_stock d.tenant variant
            (d.supplier_stock variant)
            (t.warehouse).stocks)
          (pos (new_quantity existing quantity))
        ≡ false
      → IsAdded d owner variant quantity s (write_item d cart variant quantity price existing t)
added d owner variant quantity cart price s t (c, found, items, stock) priced covered =
    let (k, i, at, amount, cost) = written d cart variant quantity price t in
    (
      cart,
      c,
      k,
      i,
      ap (find_first (is_cart_for d.tenant owner)) (
            write_item-carts d cart variant quantity price
              (find_first (is_item cart variant) t.cart_items) t)
          ∙ found,
      at,
      amount ∙ ap (λ x. new_quantity (find_first (is_item cart variant) x) quantity) items,
      priced ∙ sym (ap (λ x. some x) cost),
      rw (sym stock) (rw amount covered),
    )

-- the test of the stock in addItemToCart
abbrev falls_short : Desk → ℕ → ℕ → ℕ → Shop → Bool
falls_short d variant quantity cart t =
    ltb_ℤ
      (effective_available_stock d.tenant variant (d.supplier_stock variant) (t.warehouse).stocks)
      (pos (new_quantity (find_first (is_item cart variant) t.cart_items) quantity))

-- the cart, the price and the state that addItemToCart writes to
abbrev pub Wrote : Desk → CartOwner → ℕ → ℕ → Shop → Shop → Type 0
Wrote d owner variant quantity s u =
    (cart : ℕ) × (price : ℕ) × (t : Shop) × IsFound d owner s cart t
    × (d.price_of variant ≡ some price)
    × (falls_short d variant quantity cart t ≡ false)
    × (u
        ≡ write_item d cart variant quantity price (find_first (is_item cart variant) t.cart_items)
            t)

pub add_item-Wrote :
    (d : Desk) (owner : CartOwner) (variant quantity : ℕ) (s : Shop)
    → Ends
        (λ _ u. Wrote d owner variant quantity s u)
        (λ _ t. t.cart_items ≡ s.cart_items)
        (add_item_to_cart d owner variant quantity s)
unfolding add_item_to_cart modify
add_item-Wrote d owner variant quantity s =
    bind-Ends (λ _ t. (t ≡ s) × (ltb 0 quantity ≡ true)) _ _ _ _ s (guard-Ends _ thrown _ s refl)
      λ _ t e. rw e.0 (
        bind-Ends (λ cart t. IsFound d owner s cart t) _ _ _ _ s
          (get_or_create_cart-IsFound d owner s)
          λ cart t found.
            bind-Ends (λ a u. (u ≡ t) × (d.price_of variant ≡ some a)) _ _ _ _ t
              (or_throw-Ends (d.price_of variant) thrown _ t found.2)
              λ price u priced. rw priced.0 (
                bind-Ends (λ a u. (u ≡ t) × (a ≡ (t.warehouse).stocks)) _ _ _ _ t
                  (gets-Ends (λ (x : Shop). (x.warehouse).stocks) _ t)
                  λ stocks u g. rw g.0 (
                    rw g.1 (
                      bind-Ends
                        (λ a u. (u ≡ t) × (a ≡ find_first (is_item cart variant) t.cart_items)) _ _
                        _ _ t
                        (gets-Ends (λ (x : Shop). find_first (is_item cart variant) x.cart_items) _
                          t)
                        λ existing u g. rw g.0 (
                          rw g.1 (
                            bind-Ends
                              (λ _ u.
                                (u ≡ t) × (not (falls_short d variant quantity cart t) ≡ true))
                              _ _ _ _ t (guard-Ends _ thrown _ t found.2)
                              λ _ u g.
                                rw g.0
                                  (cart, price, t, found, priced.1, ground (arith, g.1), refl)))))))

-- A request to add an item that succeeds leaves it in the cart of the caller, at the present price, with
-- what the cart had of it before added up, and the stock at hand covers that. One that fails leaves every
-- item as it was.
pub add_item_effect :
    (d : Desk) (owner : CartOwner) (variant quantity : ℕ) (s : Shop)
    → Ends
        (λ _ t. IsAdded d owner variant quantity s t)
        (λ _ t. t.cart_items ≡ s.cart_items)
        (add_item_to_cart d owner variant quantity s)
add_item_effect d owner variant quantity s =
    Ends-weaken (λ _ u. Wrote d owner variant quantity s u)
      (λ _ t. IsAdded d owner variant quantity s t) (λ _ t. t.cart_items ≡ s.cart_items)
      (λ _ t. t.cart_items ≡ s.cart_items) (add_item_to_cart d owner variant quantity s)
      (add_item-Wrote d owner variant quantity s)
      (λ _ u (cart, price, t, found, priced, covered, wrote).
        rw wrote (added d owner variant quantity cart price s t found priced covered))
      (λ _ t h. h)
