-- ===== src/Commerce/Checkout/OneItem.antt =====
-- A cart has one item for a variant.
use all_in_one_v2_api.Base.{
  ℕ, ◌+◌, ◌≤◌, ◌≡◌, refl, ◌==◌, Bool, ◌&&◌, none, List, [], ◌∷◌, arith, if◌then◌else◌, Table,
  find_first, insert, update, update_many, delete_many, ltb, Ends-state, Ends-weaken, Steps,
  Preorder, step_rules, Bool-cases, Option-cases, inl, inr, state_of,
}
use all_in_one_v2_api.Commerce.Checkout.Shop.{CartItem, Shop, Desk, Desking}
use all_in_one_v2_api.Commerce.Checkout.Carts.{
  CartOwner, is_item, write_item, repriced, add_item_to_cart, remove_item_from_cart,
  set_item_quantity, with_quantity, update_cart_item_quantity,
}
use all_in_one_v2_api.Commerce.Checkout.AddItem.{Wrote, add_item-Wrote}

-- how many items of the cart are of the variant
unfoldable pub count_item : ℕ → ℕ → Table CartItem → ℕ
count_item cart variant [] = 0
count_item cart variant ((i, x) ∷ t) =
    let rest = count_item cart variant t in if is_item cart variant i x then 1 + rest else rest

-- no cart has two items of one variant
abbrev pub IsMerged : Table CartItem → Type 0
IsMerged t = (cart variant : ℕ) → count_item cart variant t ≤ 1

count_item-absent :
    (cart variant : ℕ) (t : Table CartItem)
    → find_first (is_item cart variant) t ≡ none
    → count_item cart variant t ≡ 0
unfolding find_first count_item
count_item-absent cart variant [] h = refl
count_item-absent cart variant ((i, x) ∷ t) h = ground (arith, count_item-absent cart variant t)

count_item-update :
    (cart variant : ℕ) (p : ℕ → CartItem → Bool) (f : CartItem → CartItem) (t : Table CartItem)
    → ((i : ℕ) (x : CartItem) → is_item cart variant i (f x) ≡ is_item cart variant i x)
    → count_item cart variant (update_many p f t) ≡ count_item cart variant t
unfolding update_many count_item
count_item-update cart variant p f [] same = refl
count_item-update cart variant p f ((i, x) ∷ t) same =
    ground (arith, count_item-update cart variant p f t same, same i x)

count_item-delete :
    (cart variant : ℕ) (p : ℕ → CartItem → Bool) (t : Table CartItem)
    → count_item cart variant (delete_many p t) ≤ count_item cart variant t
unfolding delete_many count_item
count_item-delete cart variant p [] = omega arith
count_item-delete cart variant p ((i, x) ∷ t) = ground (arith, count_item-delete cart variant p t)

write_item-IsMerged :
    (d : Desk) (cart variant quantity price : ℕ) (s : Shop)
    → IsMerged s.cart_items
    → IsMerged
        (write_item d cart variant quantity price
          (find_first (is_item cart variant) s.cart_items)
          s).cart_items
unfolding write_item update insert count_item
write_item-IsMerged d cart variant quantity price s h c v =
    elim (Option-cases (find_first (is_item cart variant) s.cart_items)) [
      | inr ((id, i), found) ↦ rw found (
          rw
            (count_item-update c v (λ j _. j == id) (repriced (i.quantity + quantity) price)
              s.cart_items (λ j x. refl))
            (h c v))
      | inl absent ↦ rw absent (elim (Bool-cases (cart == c && variant == v)) [
        | inr other ↦ rw other (h c v)
        | inl hit ↦
            let same_cart : cart ≡ c = ground arith in
            let same_variant : variant ≡ v = ground arith in
            let zero' =
              count_item-absent c v s.cart_items (rw same_cart at (rw same_variant at absent)) in
            rw hit (omega arith)
      ])
    ]

add_item-IsMerged :
    (d : Desk) (owner : CartOwner) (variant quantity : ℕ) (s : Shop)
    → IsMerged s.cart_items
    → IsMerged (state_of (add_item_to_cart d owner variant quantity s)).cart_items
add_item-IsMerged d owner variant quantity s h =
    Ends-state (λ (t : Shop). IsMerged t.cart_items) (add_item_to_cart d owner variant quantity s)
      (Ends-weaken (λ _ u. Wrote d owner variant quantity s u) (λ _ t. IsMerged t.cart_items)
        (λ _ t. t.cart_items ≡ s.cart_items) (λ _ t. IsMerged t.cart_items)
        (add_item_to_cart d owner variant quantity s) (add_item-Wrote d owner variant quantity s)
        (λ _ u (cart, price, t, found, priced, covered, wrote).
          rw wrote
            (write_item-IsMerged d cart variant quantity price t (λ c v. rw found.2 (h c v))))
        (λ _ t same c v. rw same (h c v)))

abbrev KeepsMerged : Shop → Shop → Type 0
KeepsMerged s t = IsMerged s.cart_items → IsMerged t.cart_items

KeepsMerged-Preorder : Preorder KeepsMerged
KeepsMerged-Preorder = record { stay = λ s h. h; chain = λ s t u f g h. g (f h) }

delete-merged :
    (p : ℕ → CartItem → Bool) (s : Shop)
    → KeepsMerged s (record s { cart_items = delete_many p s.cart_items })
delete-merged p s h c v = omega (arith, h c v, count_item-delete c v p s.cart_items)

update-merged :
    (item quantity : ℕ) (s : Shop)
    → KeepsMerged s (record s { cart_items = update item (with_quantity quantity) s.cart_items })
unfolding update
update-merged item quantity s h c v =
    rw
      (count_item-update c v (λ i _. i == item) (with_quantity quantity) s.cart_items (λ i x. refl))
      (h c v)

remove-Steps : (item : ℕ) → Steps KeepsMerged (remove_item_from_cart item)
unfolding remove_item_from_cart
remove-Steps item = search (step_rules, KeepsMerged-Preorder, delete-merged (λ i _. i == item))

set-Steps : (item quantity : ℕ) → Steps KeepsMerged (set_item_quantity item quantity)
unfolding set_item_quantity
set-Steps item quantity = search (step_rules, KeepsMerged-Preorder, update-merged item quantity)

update-Steps :
    (item quantity : ℕ) (owner : CartOwner)
    → Steps KeepsMerged (update_cart_item_quantity item quantity owner)
unfolding update_cart_item_quantity
update-Steps item quantity owner = elim (Bool-cases (ltb 0 quantity)) [
  | inl positive ↦ rw positive (set-Steps item quantity)
  | inr nothing ↦ rw nothing (remove-Steps item)
]

-- a request to the cart endpoints
pub data CartRequest : Type 0 where
  add : Desk → CartOwner → ℕ → ℕ → CartRequest
  set_to : ℕ → ℕ → CartOwner → CartRequest
  remove : ℕ → CartRequest

unfoldable pub serve_cart : CartRequest → Desking (Unit {0})
serve_cart (add d owner variant quantity) = add_item_to_cart d owner variant quantity
serve_cart (set_to item quantity owner) = update_cart_item_quantity item quantity owner
serve_cart (remove item) = remove_item_from_cart item

unfoldable pub serve_carts : List CartRequest → Shop → Shop
unfolding serve_cart
serve_carts [] s = s
serve_carts (r ∷ requests) s = serve_carts requests (state_of (serve_cart r s))

serve_cart-IsMerged :
    (r : CartRequest) (s : Shop)
    → IsMerged s.cart_items
    → IsMerged (state_of (serve_cart r s)).cart_items
unfolding serve_cart
serve_cart-IsMerged (add d owner variant quantity) s h =
    add_item-IsMerged d owner variant quantity s h
serve_cart-IsMerged (set_to item quantity owner) s h = (update-Steps item quantity owner).at s h
serve_cart-IsMerged (remove item) s h = (remove-Steps item).at s h

-- Whatever is asked of the cart endpoints, in whatever order: a cart never holds two items of the same
-- variant.
pub serve_carts-IsMerged :
    (requests : List CartRequest) (s : Shop)
    → IsMerged s.cart_items
    → IsMerged (serve_carts requests s).cart_items
unfolding serve_carts
serve_carts-IsMerged [] s h = h
serve_carts-IsMerged (r ∷ requests) s h =
    serve_carts-IsMerged requests (state_of (serve_cart r s)) (serve_cart-IsMerged r s h)
