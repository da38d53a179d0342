-- ===== src/Commerce/Fulfilment/Once.antt =====
-- An order is placed with CJ once.
use all_in_one_v2_api.Base.{
  ℕ, ◌≤◌, ◌≡◌, Bool, true, false, some, List, [], ◌∷◌, arith, if◌then◌else◌, Table, any_row, insert,
  count_where, length, Ends-weaken, Ends-state, state_of, ==_iff,
}
use all_in_one_v2_api.Commerce.Store.{SupplierOrder}
use all_in_one_v2_api.Commerce.Fulfilment.{
  Reply, Placements, CjEnv, is_placement_of, placed_row, place_with_supplier, place_all,
}
use all_in_one_v2_api.Commerce.Fulfilment.Placed.{
  is_accepted, accepted_for, IsPlacement, IsUnplaced, place_with_supplier_effect,
}

-- whether the shop knows a placement of the order, as a number
abbrev pub known_placements : ℕ → ℕ → Placements → ℕ
known_placements partner order s =
    if any_row (is_placement_of order partner) (s.store).supplier_orders then 1 else 0

-- CJ accepted an order at most once, and only an order that the shop knows to be placed.
abbrev pub HasOnePlacement : ℕ → Placements → Type 0
HasOnePlacement partner s = (k : ℕ) → accepted_for k s ≤ known_placements partner k s

-- one more accepted call, and one more row
counted_more :
    (k id n partner external : ℕ) (paid : Bool) (calls : Table Reply) (rows : Table SupplierOrder)
    → any_row (is_placement_of id partner) rows ≡ false
    → count_where (is_accepted k) calls
      ≤ (if any_row (is_placement_of k partner) rows then 1 else 0)
    → count_where (is_accepted k) (insert id (Reply.accepted external paid) calls) ≤ (
        if any_row (is_placement_of k partner) (insert n (placed_row id partner external paid) rows)
        then 1
        else 0)
unfolding count_where any_row insert
counted_more k id n partner external paid calls rows fresh h =
    ground (arith, ==_iff id k, ==_iff partner partner)

placed-HasOnePlacement :
    (env : CjEnv) (id partner : ℕ) (s : Placements) (n : ℕ) (t : Placements)
    → env.partner ≡ some partner
    → HasOnePlacement partner s
    → IsPlacement env id s n t
    → HasOnePlacement partner t
placed-HasOnePlacement env id partner s n t configured h p k =
    let same_partner : p.partner ≡ partner = ground (arith, p.configured, configured) in
    rw (p.asked, p.row, same_partner)
      (counted_more k id n partner p.external p.paid s.calls (s.store).supplier_orders
        (rw same_partner at p.fresh) (h k))

unplaced-HasOnePlacement :
    (env : CjEnv) (partner : ℕ) (s t : Placements)
    → ((n : ℕ) → env.commits n ≡ true)
    → HasOnePlacement partner s
    → IsUnplaced env s t
    → HasOnePlacement partner t
unplaced-HasOnePlacement env partner s t commits h (stands, asked) k =
    rw (asked (commits (length t.calls)) k, stands) (h k)

place-HasOnePlacement :
    (env : CjEnv) (id partner : ℕ) (s : Placements)
    → env.partner ≡ some partner
    → ((n : ℕ) → env.commits n ≡ true)
    → HasOnePlacement partner s
    → HasOnePlacement partner (state_of (place_with_supplier env id s))
place-HasOnePlacement env id partner s configured commits h =
    Ends-state (HasOnePlacement partner) (place_with_supplier env id s) (
      Ends-weaken (λ n t. IsPlacement env id s n t) (λ _ t. HasOnePlacement partner t)
        (λ _ t. IsUnplaced env s t) (λ _ t. HasOnePlacement partner t)
        (place_with_supplier env id s) (place_with_supplier_effect env id s)
        (λ n t. placed-HasOnePlacement env id partner s n t configured h)
        (λ _ t. unplaced-HasOnePlacement env partner s t commits h))

pub place_all-HasOnePlacement :
    (env : CjEnv) (partner : ℕ) (ids : List ℕ) (s : Placements)
    → env.partner ≡ some partner
    → ((n : ℕ) → env.commits n ≡ true)
    → HasOnePlacement partner s
    → HasOnePlacement partner (place_all env ids s)
unfolding place_all
place_all-HasOnePlacement env partner [] s configured commits h = h
place_all-HasOnePlacement env partner (id ∷ ids) s configured commits h =
    place_all-HasOnePlacement env partner ids (state_of (place_with_supplier env id s)) configured
      commits (place-HasOnePlacement env id partner s configured commits h)
