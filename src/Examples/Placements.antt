-- ===== src/Examples/Placements.antt =====
-- An order of the shop is placed with CJ, which refuses the first call; then it is placed again.
use all_in_one_v2_api.Base.{
  ◌+◌, ◌≡◌, refl, ◌==◌, true, some, [], ◌∷◌, arith, if◌then◌else◌, count_where, Ends, find, insert,
  update_many, any_row, ◌>>=◌, gets, or_throw, guard,
}
use all_in_one_v2_api.Commerce.Status.{OrderStatus, PaymentStatus}
use all_in_one_v2_api.Commerce.Orders.Rows.{find_order}
use all_in_one_v2_api.Commerce.Fulfilment.{
  Reply, Placements, CjEnv, ask_cj, record_placement, create_supplier_order_with_items,
  place_with_supplier, place_all,
}
use all_in_one_v2_api.Commerce.Fulfilment.Placed.{
  accepted_for, IsPlacement, IsUnplaced, place_with_supplier_effect,
}
use all_in_one_v2_api.Commerce.Fulfilment.Once.{HasOnePlacement, place_all-HasOnePlacement}
use all_in_one_v2_api.Examples.Fixtures.{shop}

abbrev cj : CjEnv
cj = record {
  tenant = 1;
  partner = some 7;
  vid = λ variant. some (variant + 1000);
  replies = λ n. if n == 0 then Reply.refused else Reply.accepted 900 true;
  commits = λ n. true;
}

abbrev unplaced : Placements
unplaced = record { store = shop OrderStatus.pending PaymentStatus.paid; calls = [] }

place_with_supplier_effect_example :
    Ends
      (λ n t. IsPlacement cj 2 unplaced n t)
      (λ _ t. IsUnplaced cj unplaced t)
      (place_with_supplier cj 2 unplaced)
place_with_supplier_effect_example = place_with_supplier_effect cj 2 unplaced

nothing_placed : HasOnePlacement 7 unplaced
unfolding count_where any_row
nothing_placed k = omega arith

place_all-HasOnePlacement_example : HasOnePlacement 7 (place_all cj (2 ∷ 2 ∷ 2 ∷ []) unplaced)
place_all-HasOnePlacement_example =
    place_all-HasOnePlacement cj 7 (2 ∷ 2 ∷ 2 ∷ []) unplaced refl (λ n. refl) nothing_placed

-- of three calls the first is refused, the second buys, the third finds the order placed
bought_once : accepted_for 2 (place_all cj (2 ∷ 2 ∷ 2 ∷ []) unplaced) ≡ 1
unfolding place_all place_with_supplier ask_cj record_placement create_supplier_order_with_items
    find_order find insert update_many any_row count_where ◌>>=◌ gets or_throw guard
bought_once = refl
