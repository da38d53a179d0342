-- ===== src/Commerce/Checkout/Carts.antt =====
-- src/modules/commerce/cart.service.ts
use all_in_one_v2_api.Base.{
  ℕ, ◌+◌, ◌==◌, Bool, not, ◌&&◌, Option, none, some, if◌then◌else◌, find, find_first, insert,
  update, delete_many, is_some, ltb, thrown, ok, ◌>>=◌, ◌>>◌, gets, guard, modify, or_throw,
}
use all_in_one_v2_api.Base.Int.{pos, ltb_ℤ}
use all_in_one_v2_api.Inventory.{effective_available_stock}
use all_in_one_v2_api.Commerce.Store.{owned_by}
use all_in_one_v2_api.Commerce.Checkout.Shop.{Cart, CartItem, Shop, Desk, Desking}

-- CartOwner, as the request names it: a signed-in customer, or the session of a guest
pub data CartOwner : Type 0 where
  customer session : ℕ → CartOwner

abbrev pub is_cart_for : ℕ → CartOwner → ℕ → Cart → Bool
is_cart_for tenant (customer id) _ c = c.tenant_id == tenant && owned_by c.customer_id id
is_cart_for tenant (session id) _ c = c.tenant_id == tenant && owned_by c.session_id id

abbrev pub new_cart : ℕ → CartOwner → Cart
new_cart tenant (customer id) = record {
  tenant_id = tenant;
  customer_id = some id;
  session_id = none;
}
new_cart tenant (session id) = record {
  tenant_id = tenant;
  customer_id = none;
  session_id = some id;
}

unfoldable pub created_unless : Desk → CartOwner → Option (ℕ × Cart) → Desking ℕ
created_unless d owner (some (id, _)) s = ok id s
created_unless d owner none s = ok s.next_id (record s {
  carts = insert s.next_id (new_cart d.tenant owner) s.carts;
  next_id = s.next_id + 1;
})

-- getOrCreateCart, getCart
unfoldable pub get_or_create_cart : Desk → CartOwner → Desking ℕ
unfolding created_unless
get_or_create_cart d owner = do
  found ← gets (λ (s : Shop). find_first (is_cart_for d.tenant owner) s.carts)
  created_unless d owner found

-- `where: { cartId_productVariantId }`
abbrev pub is_item : ℕ → ℕ → ℕ → CartItem → Bool
is_item cart variant _ i = i.cart_id == cart && i.product_variant_id == variant

-- `existingItem ? existingItem.quantity + quantity : quantity`
abbrev pub new_quantity : Option (ℕ × CartItem) → ℕ → ℕ
new_quantity none quantity = quantity
new_quantity (some (_, i)) quantity = i.quantity + quantity

abbrev pub repriced : ℕ → ℕ → CartItem → CartItem
repriced quantity price i = record i { quantity = quantity; unit_price = price }

-- the write of addItemToCart
unfoldable pub write_item : Desk → ℕ → ℕ → ℕ → ℕ → Option (ℕ × CartItem) → Shop → Shop
write_item d cart variant quantity price (some (id, i)) s = record s {
  cart_items = update id (repriced (i.quantity + quantity) price) s.cart_items;
}
write_item d cart variant quantity price none s =
    let item : CartItem = record {
      tenant_id = d.tenant;
      cart_id = cart;
      product_variant_id = variant;
      quantity = quantity;
      unit_price = price;
    } in
    record s { cart_items = insert s.next_id item s.cart_items; next_id = s.next_id + 1 }

-- addItemToCart, addItem
unfoldable pub add_item_to_cart : Desk → CartOwner → ℕ → ℕ → Desking (Unit {0})
unfolding write_item
add_item_to_cart d owner variant quantity = do
  guard (ltb 0 quantity) thrown
  cart ← get_or_create_cart d owner
  price ← or_throw (d.price_of variant) thrown
  stocks ← gets (λ (s : Shop). (s.warehouse).stocks)
  existing ← gets (λ (s : Shop). find_first (is_item cart variant) s.cart_items)
  guard
      (not (
        ltb_ℤ (effective_available_stock d.tenant variant (d.supplier_stock variant) stocks)
          (pos (new_quantity existing quantity))))
      thrown
  modify (write_item d cart variant quantity price existing)

-- `delete({ where: { id } })`, which throws where there is no such row
unfoldable pub remove_item_from_cart : ℕ → Desking (Unit {0})
remove_item_from_cart item = do
  row ← gets (λ (s : Shop). find item s.cart_items)
  guard (is_some row) thrown
  modify λ s. record s { cart_items = delete_many (λ i _. i == item) s.cart_items }

abbrev pub with_quantity : ℕ → CartItem → CartItem
with_quantity quantity i = record i { quantity = quantity }

-- `update({ where: { id }, data: { quantity } })`
unfoldable pub set_item_quantity : ℕ → ℕ → Desking (Unit {0})
set_item_quantity item quantity = do
  row ← gets (λ (s : Shop). find item s.cart_items)
  guard (is_some row) thrown
  modify λ s. record s { cart_items = update item (with_quantity quantity) s.cart_items }

-- updateCartItemQuantity; the owner that it is given is not used
unfoldable pub update_cart_item_quantity : ℕ → ℕ → CartOwner → Desking (Unit {0})
unfolding remove_item_from_cart set_item_quantity
update_cart_item_quantity item quantity owner =
    if ltb 0 quantity then set_item_quantity item quantity else remove_item_from_cart item
