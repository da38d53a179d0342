-- ===== src/Examples/Carts.antt =====
-- A customer adds two more shirts to a cart that has two.
use all_in_one_v2_api.Base.{◌≡◌, List, [], ◌∷◌, arith, Ends}
use all_in_one_v2_api.Commerce.Checkout.Carts.{customer, session, add_item_to_cart}
use all_in_one_v2_api.Commerce.Checkout.AddItem.{IsAdded, add_item_effect}
use all_in_one_v2_api.Commerce.Checkout.OneItem.{
  IsMerged, CartRequest, add, set_to, remove, serve_carts, serve_carts-IsMerged, count_item,
}
use all_in_one_v2_api.Examples.Checkouts.{desk, market}

add_item_effect_example :
    Ends
      (λ _ t. IsAdded desk (customer 11) 41 2 market t)
      (λ _ t. t.cart_items ≡ market.cart_items)
      (add_item_to_cart desk (customer 11) 41 2 market)
add_item_effect_example = add_item_effect desk (customer 11) 41 2 market

market-IsMerged : IsMerged market.cart_items
unfolding count_item
market-IsMerged cart variant = ground arith

abbrev requests : List CartRequest
requests = add desk (customer 11) 41 1 ∷ set_to 3 4 (session 5) ∷ remove 3 ∷ []

serve_carts-IsMerged_example : IsMerged (serve_carts requests market).cart_items
serve_carts-IsMerged_example = serve_carts-IsMerged requests market market-IsMerged
