-- ===== src/Commerce/Fulfilment/Placed.antt =====
-- What a placement with CJ leaves behind.
use all_in_one_v2_api.Base.{
  ℕ, ◌≡◌, refl, ◌==◌, Bool, true, false, some, arith, if◌then◌else◌, same, any_row, insert,
  update_many, find-update_many, count_where, length, http, Outcome, ◌>>=◌, gets, or_throw, guard,
  Bool-cases, Option-cases, inl, inr, ==_refl, Ends,
}
use all_in_one_v2_api.Commerce.Status.{OrderStatus, order_status}
use all_in_one_v2_api.Commerce.Store.{Order, SupplierOrder, Store}
use all_in_one_v2_api.Commerce.Orders.Rows.{find_order, is_order, set_order_status}
use all_in_one_v2_api.Commerce.Fulfilment.{
  Reply, Placements, CjEnv, is_placement_of, all_sourced, ask_cj, placed_row, with_placement,
  is_pending_order, create_supplier_order_with_items, record_placement, place_with_supplier,
}

-- a call for the order that CJ accepted
abbrev pub is_accepted : ℕ → ℕ → Reply → Bool
is_accepted order i Reply.threw = false
is_accepted order i Reply.refused = false
is_accepted order i (Reply.accepted external paid) = i == order

-- the orders that CJ accepted for an order of the shop
abbrev pub accepted_for : ℕ → Placements → ℕ
accepted_for order s = count_where (is_accepted order) s.calls

-- the order with its items linked; PROCESSING, if it was PENDING
abbrev pub order_after : ℕ → Order → Order
order_after placement o =
    if same o.status OrderStatus.pending
    then set_order_status OrderStatus.processing (with_placement placement o)
    else with_placement placement o

pub record IsPlacement (env : CjEnv) (id : ℕ) (s : Placements) (n : ℕ) (t : Placements)
    : Type 0 where
  pub order : Order
  pub partner : ℕ
  pub external : ℕ
  pub paid : Bool
  pub known : find_order env.tenant id s.store ≡ some order
  pub configured : env.partner ≡ some partner
  pub fresh : any_row (is_placement_of id partner) (s.store).supplier_orders ≡ false
  pub has_address : order.has_shipping_address ≡ true
  pub sourced : all_sourced env order.items ≡ true
  pub asked : t.calls ≡ insert id (Reply.accepted external paid) s.calls
  pub row :
      (t.store).supplier_orders
      ≡ insert n (placed_row id partner external paid) (s.store).supplier_orders
  pub advanced : find_order env.tenant id t.store ≡ some (order_after n order)
  pub paid_as_before : (t.store).payments ≡ (s.store).payments

-- The tables of the shop stand, and CJ accepted no order unless the transaction after its answer did not
-- commit.
abbrev pub IsUnplaced : CjEnv → Placements → Placements → Type 0
IsUnplaced env s t =
    (t.store ≡ s.store)
    × (env.commits (length t.calls) ≡ true → (k : ℕ) → accepted_for k t ≡ accepted_for k s)

stands : (env : CjEnv) (s : Placements) → IsUnplaced env s s
stands env s = (refl, λ _ k. refl)

-- the order after the transaction
find_order-create :
    (tenant id : ℕ) (row : SupplierOrder) (s : Store) (o : Order)
    → find_order tenant id s ≡ some o
    → find_order tenant id (create_supplier_order_with_items tenant id row s)
      ≡ some (order_after s.next_id o)
unfolding find_order create_supplier_order_with_items
find_order-create tenant id row s o h = ground (
  arith,
  find-update_many id (is_pending_order tenant id) (set_order_status OrderStatus.processing)
      (update_many (is_order tenant id) (with_placement s.next_id) s.orders),
  find-update_many id (is_order tenant id) (with_placement s.next_id) s.orders,
  ==_refl id,
)

module _ (env : CjEnv) (id : ℕ) (s : Placements) (o : Order) (partner : ℕ)
    (known : find_order env.tenant id s.store ≡ some o) (configured : env.partner ≡ some partner)
    (fresh : any_row (is_placement_of id partner) (s.store).supplier_orders ≡ false)
    (has_address : o.has_shipping_address ≡ true) (sourced : all_sourced env o.items ≡ true) where
  abbrev logged : Reply → Placements
  logged reply = record s { calls = insert id reply s.calls }

  -- the end of the handler, once CJ accepted the order
  recorded-Ends :
      (external : ℕ) (paid : Bool)
      → Ends
          (λ n t. IsPlacement env id s n t)
          (λ _ t. IsUnplaced env s t)
          (record_placement env id
            (placed_row id partner external paid)
            (logged (Reply.accepted external paid)))
  unfolding record_placement create_supplier_order_with_items
  recorded-Ends external paid =
      elim (Bool-cases (env.commits (length (insert id (Reply.accepted external paid) s.calls)))) [
        | inl commits ↦ rw commits record {
          order = o;
          partner = partner;
          external = external;
          paid = paid;
          known = known;
          configured = configured;
          fresh = fresh;
          has_address = has_address;
          sourced = sourced;
          asked = refl;
          row = refl;
          advanced =
              find_order-create env.tenant id (placed_row id partner external paid) s.store o known;
          paid_as_before = refl;
        }
        | inr fails ↦ rw fails (refl, λ commits k. absurd (ground (arith, fails, commits)))
      ]

  abbrev the_rest : Placements → Outcome Placements ℕ
  the_rest = do
    result ← ask_cj env id
    cj ← or_throw result (http 502)
    record_placement env id (placed_row id partner cj.0 cj.1)

  -- the end of the handler, from the call on
  asked-Ends :
      (reply : Reply)
      → env.replies (length s.calls) ≡ reply
      → Ends (λ n t. IsPlacement env id s n t) (λ _ t. IsUnplaced env s t) (the_rest s)
  unfolding ask_cj or_throw ◌>>=◌ insert count_where
  asked-Ends Reply.threw e = rw e (refl, λ _ k. refl)
  asked-Ends Reply.refused e = rw e (refl, λ _ k. refl)
  asked-Ends (Reply.accepted external paid) e = rw e (recorded-Ends external paid)

pub place_with_supplier_effect :
    (env : CjEnv) (id : ℕ) (s : Placements)
    → Ends
        (λ n t. IsPlacement env id s n t)
        (λ _ t. IsUnplaced env s t)
        (place_with_supplier env id s)
unfolding place_with_supplier gets or_throw guard ◌>>=◌
place_with_supplier_effect env id s = elim (Option-cases (find_order env.tenant id s.store)) [
  | inl missing ↦ rw missing (stands env s)
  | inr (o, known) ↦ elim (Option-cases env.partner) [
    | inl absent ↦ rw (known, absent) (stands env s)
    | inr (partner, configured) ↦
        elim (Bool-cases (any_row (is_placement_of id partner) (s.store).supplier_orders)) [
          | inl placed ↦ rw (known, configured, placed) (stands env s)
          | inr fresh ↦ elim (Bool-cases o.has_shipping_address) [
            | inr nowhere ↦ rw (known, configured, fresh, nowhere) (stands env s)
            | inl address ↦ elim (Bool-cases (all_sourced env o.items)) [
              | inr unmapped ↦ rw (known, configured, fresh, address, unmapped) (stands env s)
              | inl sourced ↦
                  simp (known, configured, fresh, address, sourced)
                    (asked-Ends env id s o partner known configured fresh address sourced
                      (env.replies (length s.calls)) refl)
            ]
          ]
        ]
  ]
]
