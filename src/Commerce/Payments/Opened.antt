-- ===== src/Commerce/Payments/Opened.antt =====
-- What createPaymentIntent leaves behind.
use all_in_one_v2_api.Base.{
  ℕ, ◌≡◌, refl, ap, Bool, true, false, ◌||◌, Option, none, some, ◌∷◌, is_some, same, find_first,
  pure, ◌>>=◌, gets, guard, modify, or_throw, Bool-cases, Option-cases, inl, inr, Ends, Ends-weaken,
  bind-Ends,
}
use all_in_one_v2_api.Commerce.Status.{OrderStatus, order_status, PaymentStatus}
use all_in_one_v2_api.Commerce.Store.{Order, Payment, Store}
use all_in_one_v2_api.Commerce.Orders.Rows.{find_order}
use all_in_one_v2_api.Commerce.Orders.Service.{may_view}
use all_in_one_v2_api.Commerce.Payments.Refunding.{in_cents, is_stripe}
use all_in_one_v2_api.Commerce.Payments.Intents.{
  Intent, Till, Counter, IntentParams, is_cash, channel_of, gateway_of, is_reusable,
  is_still_confirmable, reused, reuse, payment_row, create_payment, open_intent, or_open,
  pay_by_stripe, pay_cash, pay_online, create_payment_intent,
}
use all_in_one_v2_api.Commerce.Payments.Opening.{
  OnlyCustomers, customer_for-Ends, check_method-Ends, HasId, IsOwned, may_use, with_payment, Opens,
  in_cash, by_stripe, elsewhere, again, StoreStands, create_intent-Ends,
}
use all_in_one_v2_api.Commerce.Payments.Reused.{
  IsConfirmable, confirmable-IsUnfinished, reusable-IsUnpaidFor,
}

-- the Stripe id stays kept
kept_id :
    (customer : Option ℕ) (needed : Bool) (id : Option ℕ) (u w : Counter)
    → w.customers ≡ u.customers
    → HasId customer needed id u
    → HasId customer needed id w
kept_id (some customer) true (some id) u w e h = rw e h
kept_id (some customer) true none u w e h = h
kept_id (some customer) false id u w e h = tt
kept_id none needed id u w e h = tt

module _ (t : Till) (p : IntentParams) (o : Order) (s : Counter)
    (online : is_cash (channel_of p) ≡ false) where
  open_intent-Ends :
      is_stripe (gateway_of p) ≡ true
      → Ends (λ n u. Opens t p o s n u) (StoreStands s) (open_intent t p o s)
  unfolding open_intent create_payment
  open_intent-Ends stripe =
      let customer' = (p.requester).customer_id in
      let needed = is_some p.payment_method || p.save_payment_method in
      bind-Ends (λ id u. OnlyCustomers s u × HasId customer' needed id u) _ _ _ _ s
        (customer_for-Ends t customer' needed s)
        λ id u (h, kept).
          bind-Ends (λ _ v. (v ≡ u) × IsOwned t p.payment_method id) _ _ _ _ u
            (check_method-Ends t p.payment_method id s u h)
            λ _ v (still, own). rw still (
              bind-Ends
                (λ _ w.
                  (w.store ≡ s.store)
                  × (w.asked ≡ (p.order_id, in_cents o.total_amount) ∷ s.asked)
                  × (w.customers ≡ u.customers))
                _ _ _ _ u (create_intent-Ends t p.order_id (in_cents o.total_amount) s u h)
                λ intent w (stores, asked, customers).
                  by_stripe online stripe (ap (λ (x : Store). x.next_id) stores) intent
                    (ap
                      (with_payment (
                        payment_row p.order_id o (gateway_of p) (channel_of p) PaymentStatus.created
                          (some intent)))
                      stores)
                    asked
                    (may_use t customer' p.payment_method id p.save_payment_method w
                      (kept_id customer' needed id u w customers kept) own))

  abbrev Again : Option ℕ → Type 0
  Again none = Unit {0}
  Again (some n) =
      (row : Payment) × (find_first (is_reusable p.order_id) (s.store).payments ≡ some (n, row))
      × IsConfirmable t row

  reused-Again :
      (n i : ℕ) (row : Payment) (x : Intent)
      → find_first (is_reusable p.order_id) (s.store).payments ≡ some (n, row)
      → row.transaction ≡ some i
      → t.retrieve_intent i ≡ some x
      → Again (reused n x)
  reused-Again n i row x found paid retrieved = elim (Bool-cases (is_still_confirmable x.status)) [
    | inr over ↦ rw over tt
    | inl open' ↦ elim (Bool-cases x.only_cards) [
      | inr others ↦ rw (open', others) tt
      | inl cards ↦
          simp (open', cards)
            (row, found, (i, x, paid, retrieved, confirmable-IsUnfinished x.status open', cards))
    ]
  ]

  reuse-Ends :
      (x : Option (ℕ × Payment))
      → find_first (is_reusable p.order_id) (s.store).payments ≡ x
      → Ends (λ a u. (u ≡ s) × Again a) (StoreStands s) (reuse t x s)
  unfolding reuse or_throw pure ◌>>=◌
  reuse-Ends none h = (refl, tt)
  reuse-Ends (some (n, row)) h = elim (Option-cases row.transaction) [
    | inl absent ↦ simp absent (refl, tt)
    | inr (intent, paid) ↦ elim (Option-cases (t.retrieve_intent intent)) [
      | inl lost ↦ simp (paid, lost) refl
      | inr (found, retrieved) ↦
          let same = reused-Again n intent row found h paid retrieved in
          simp (paid, retrieved) (refl, same)
    ]
  ]

  pay_by_stripe-Ends :
      is_stripe (gateway_of p) ≡ true
      → Ends (λ n u. Opens t p o s n u) (StoreStands s) (pay_by_stripe t p o s)
  unfolding pay_by_stripe gets pure
  pay_by_stripe-Ends stripe =
      let rows = find_first (is_reusable p.order_id) (s.store).payments in
      bind-Ends (λ a u. (u ≡ s) × (a ≡ rows)) _ _ _ _ s (refl, refl)
        λ row u e.
          rw (e.0, e.1)
            (bind-Ends (λ a v. (v ≡ s) × Again a) _ _ _ _ s (reuse-Ends rows refl)
              λ a v h. rw h.0 (finish a h.1))
    where
      finish :
          (a : Option ℕ)
          → Again a
          → Ends (λ n u. Opens t p o s n u) (StoreStands s) (or_open t p o a s)
      finish none h = open_intent-Ends stripe
      finish (some n) (row, found, open_still) =
          again online stripe row found
            (reusable-IsUnpaidFor p.order_id n row (s.store).payments found) open_still refl refl

  pay_online-Ends : Ends (λ n u. Opens t p o s n u) (StoreStands s) (pay_online t p o s)
  unfolding pay_online create_payment
  pay_online-Ends = elim (Bool-cases (is_stripe (gateway_of p))) [
    | inl stripe ↦ simp stripe (pay_by_stripe-Ends stripe)
    | inr other ↦ simp other (elsewhere online other refl refl refl)
  ]

pay_cash-Ends :
    (t : Till) (p : IntentParams) (o : Order) (s : Counter)
    → is_cash (channel_of p) ≡ true
    → Ends (λ n u. Opens t p o s n u) (StoreStands s) (pay_cash t p o s)
unfolding pay_cash create_payment modify pure ◌>>=◌
pay_cash-Ends t p o s cash = in_cash cash refl refl refl

-- the order that was to be paid, and how
pub record IsOpened (t : Till) (p : IntentParams) (s : Counter) (n : ℕ) (u : Counter) : Type 0 where
  pub order : Order
  pub known : find_order t.tenant p.order_id s.store ≡ some order
  pub seen : may_view order p.requester ≡ true
  pub was_pending : same order.status OrderStatus.pending ≡ true
  pub opens : Opens t p order s n u

-- A payment is opened only for a PENDING order of the tenant that the requester may see. Cash leaves a
-- PENDING payment without a gateway and moves the order to PROCESSING. On Stripe a new payment is CREATED
-- after an intent of the order's total in cents was asked for, and a payment method that a registered
-- customer brings belongs to the Stripe id kept for them; or a Stripe payment of this order that is
-- CREATED, PENDING or WAITING_CONFIRMATION is given out again, whose intent still waits for the customer,
-- by card only: then the tables stand and Stripe is asked for no intent. On another gateway a new payment
-- is CREATED. The amount of a new payment is the order's. A request that fails leaves the tables of the
-- shop alone.
pub create_payment_intent_effect :
    (t : Till) (p : IntentParams) (s : Counter)
    → Ends (λ n u. IsOpened t p s n u) (StoreStands s) (create_payment_intent t p s)
unfolding create_payment_intent gets or_throw guard ◌>>=◌
create_payment_intent_effect t p s = elim (Option-cases (find_order t.tenant p.order_id s.store)) [
  | inl missing ↦ simp missing refl
  | inr (o, known) ↦ elim (Bool-cases (may_view o p.requester)) [
    | inr hidden ↦ simp (known, hidden) refl
    | inl seen ↦ elim (Bool-cases (same o.status OrderStatus.pending)) [
      | inr other ↦ simp (known, seen, other) refl
      | inl pending ↦
          let opened : (n : ℕ) (u : Counter) → Opens t p o s n u → IsOpened t p s n u = λ n u h.
            record { order = o; known = known; seen = seen; was_pending = pending; opens = h } in
          elim (Bool-cases (is_cash (channel_of p))) [
            | inl cash ↦
                simp (known, seen, pending, cash)
                  (Ends-weaken (λ n u. Opens t p o s n u) _ (StoreStands s) (StoreStands s)
                    (pay_cash t p o s) (pay_cash-Ends t p o s cash) opened (λ e u h. h))
            | inr online ↦
                simp (known, seen, pending, online)
                  (Ends-weaken (λ n u. Opens t p o s n u) _ (StoreStands s) (StoreStands s)
                    (pay_online t p o s) (pay_online-Ends t p o s online) opened (λ e u h. h))
          ]
    ]
  ]
]
