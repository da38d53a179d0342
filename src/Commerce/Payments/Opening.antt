-- ===== src/Commerce/Payments/Opening.antt =====
-- How createPaymentIntent may open a payment, and the steps that leave the tables of the shop.
use all_in_one_v2_api.Base.{
  Table, ℕ, ◌+◌, ◌≡◌, refl, ap, Bool, true, false, ◌||◌, Option, none, some, [], ◌∷◌, arith,
  is_some, find, find-update, find_first, insert, Error, pure, ◌>>=◌, gets, guard, modify, or_throw,
  ==_refl, ==_iff, Bool-cases, Option-cases, inl, inr, Ends, bind-Ends, Keeps,
}
use all_in_one_v2_api.Commerce.Status.{OrderStatus, PaymentStatus}
use all_in_one_v2_api.Commerce.Store.{Order, Payment, Store}
use all_in_one_v2_api.Commerce.Orders.Rows.{update_status}
use all_in_one_v2_api.Commerce.Payments.Refunding.{in_cents, is_stripe}
use all_in_one_v2_api.Commerce.Payments.Intents.{
  Till, Counter, IntentParams, is_cash, channel_of, gateway_of, is_reusable, known_or_new,
  get_or_create_stripe_customer, customer_for, belongs_to, check_method, payment_row, create_intent,
}
use all_in_one_v2_api.Commerce.Payments.Reused.{IsConfirmable, IsUnpaidFor}

abbrev pub without_customers : Counter → Counter
without_customers s = record s { customers = [] }

-- Only the Stripe ids of customers differ.
abbrev pub OnlyCustomers : Counter → Counter → Type 0
OnlyCustomers = Keeps without_customers

-- the payment joins the others under a new id
abbrev pub with_payment : Payment → Store → Store
with_payment row s = record s {
  payments = insert s.next_id row s.payments;
  next_id = s.next_id + 1;
}

-- a registered customer pays with a method of their own, under the Stripe id that is kept for them
abbrev pub MayUse : Till → Option ℕ → Option ℕ → Table (Option ℕ) → Type 0
MayUse t (some customer) (some m) customers =
    (id : ℕ) × (find customer customers ≡ some (some id)) × (t.owner_of_method m ≡ some (some id))
MayUse t (some customer) none customers = Unit {0}
MayUse t none m customers = Unit {0}

-- How a payment is opened for the order `o`: in cash, where the order is confirmed; by a new intent of
-- Stripe; through another gateway; or again, with the payment of an earlier attempt.
pub data Opens (t : Till) (p : IntentParams) (o : Order) (s : Counter) (n : ℕ) (u : Counter)
    : Type 0 where
  in_cash :
      is_cash (channel_of p) ≡ true
      → n ≡ (s.store).next_id
      → u.store
        ≡ update_status t.tenant p.order_id OrderStatus.processing (
            with_payment
              (payment_row p.order_id o none (channel_of p) PaymentStatus.pending none)
              s.store)
      → u.asked ≡ s.asked
      → Opens t p o s n u
  by_stripe :
      is_cash (channel_of p) ≡ false
      → is_stripe (gateway_of p) ≡ true
      → n ≡ (s.store).next_id
      → (intent : ℕ)
      → u.store
        ≡ with_payment
            (payment_row p.order_id o
              (gateway_of p)
              (channel_of p)
              PaymentStatus.created
              (some intent))
            s.store
      → u.asked ≡ (p.order_id, in_cents o.total_amount) ∷ s.asked
      → MayUse t (p.requester).customer_id p.payment_method u.customers
      → Opens t p o s n u
  elsewhere :
      is_cash (channel_of p) ≡ false
      → is_stripe (gateway_of p) ≡ false
      → n ≡ (s.store).next_id
      → u.store
        ≡ with_payment
            (payment_row p.order_id o (gateway_of p) (channel_of p) PaymentStatus.created none)
            s.store
      → u.asked ≡ s.asked
      → Opens t p o s n u
  again :
      is_cash (channel_of p) ≡ false
      → is_stripe (gateway_of p) ≡ true
      → (row : Payment) → find_first (is_reusable p.order_id) (s.store).payments ≡ some (n, row)
      → IsUnpaidFor p.order_id row
      → IsConfirmable t row
      → u.store ≡ s.store
      → u.asked ≡ s.asked
      → Opens t p o s n u

abbrev pub StoreStands : Counter → Error → Counter → Type 0
StoreStands s _ u = u.store ≡ s.store

-- the Stripe id that is kept for the customer
known_or_new-Ends :
    (t : Till) (customer : ℕ) (known : Option ℕ) (s : Counter)
    → find customer s.customers ≡ some known
    → Ends
        (λ id v. OnlyCustomers s v × (find customer v.customers ≡ some (some id)))
        (StoreStands s)
        (known_or_new t customer known s)
unfolding known_or_new or_throw modify pure ◌>>=◌
known_or_new-Ends t customer (some id) s h = (refl, h)
known_or_new-Ends t customer none s h = elim (Option-cases (t.new_customer customer)) [
  | inl absent ↦ rw absent refl
  | inr (id, made) ↦ rw made (
    refl,
    rw (find-update customer customer (λ _. some id) s.customers, ==_refl customer, h) refl,
  )
]

-- the Stripe id of a registered customer, where one is needed
abbrev pub HasId : Option ℕ → Bool → Option ℕ → Counter → Type 0
HasId (some customer) true (some id) v = find customer v.customers ≡ some (some id)
HasId (some customer) true none v = ⊥
HasId (some customer) false id v = Unit {0}
HasId none needed id v = Unit {0}

get_or_create-Ends :
    (t : Till) (customer : ℕ) (s : Counter)
    → Ends
        (λ id v. OnlyCustomers s v × (find customer v.customers ≡ some (some id)))
        (StoreStands s)
        (get_or_create_stripe_customer t customer s)
unfolding get_or_create_stripe_customer gets or_throw ◌>>=◌
get_or_create-Ends t customer s = elim (Option-cases (find customer s.customers)) [
  | inl absent ↦ rw absent refl
  | inr (known, found) ↦ rw found (known_or_new-Ends t customer known s found)
]

pub customer_for-Ends :
    (t : Till) (customer : Option ℕ) (needed : Bool) (s : Counter)
    → Ends
        (λ id v. OnlyCustomers s v × HasId customer needed id v)
        (StoreStands s)
        (customer_for t customer needed s)
unfolding customer_for pure
customer_for-Ends t none needed s = (refl, tt)
customer_for-Ends t (some customer) false s = (refl, tt)
customer_for-Ends t (some customer) true s =
    bind-Ends (λ id v. OnlyCustomers s v × (find customer v.customers ≡ some (some id))) _ _ _ _ s
      (get_or_create-Ends t customer s) λ id v h. h

belongs : (id : ℕ) (owner : Option ℕ) → belongs_to id owner ≡ true → owner ≡ some id
belongs id none h = ground arith
belongs id (some other) h =
    let same : other ≡ id = ground (arith, ==_iff other id) in ap (λ k. some k) same

-- the method is the customer's
abbrev pub IsOwned : Till → Option ℕ → Option ℕ → Type 0
IsOwned t (some m) (some id) = t.owner_of_method m ≡ some (some id)
IsOwned t (some m) none = Unit {0}
IsOwned t none id = Unit {0}

pub check_method-Ends :
    (t : Till) (m id : Option ℕ) (s u : Counter)
    → OnlyCustomers s u
    → Ends (λ _ v. (v ≡ u) × IsOwned t m id) (StoreStands s) (check_method t m id u)
unfolding check_method or_throw guard ◌>>=◌
check_method-Ends t none id s u h = (refl, tt)
check_method-Ends t (some m) none s u h = (refl, tt)
check_method-Ends t (some m) (some id) s u h =
    let stores = ap (λ (x : Counter). x.store) h in
    elim (Option-cases (t.owner_of_method m)) [
      | inl absent ↦ rw absent stores
      | inr (owner, known) ↦ elim (Bool-cases (belongs_to id owner)) [
        | inl own ↦ simp (known, own) (refl, ap (λ x. some x) (belongs id owner own))
        | inr foreign ↦ rw (known, foreign) stores
      ]
    ]

pub may_use :
    (t : Till) (customer m id : Option ℕ) (saves : Bool) (v : Counter)
    → HasId customer (is_some m || saves) id v
    → IsOwned t m id
    → MayUse t customer m v.customers
may_use t none m id saves v h own = tt
may_use t (some customer) none id saves v h own = tt
may_use t (some customer) (some m) none saves v h own = absurd h
may_use t (some customer) (some m) (some id) saves v h own = (id, h, own)

pub create_intent-Ends :
    (t : Till) (order cents : ℕ) (s u : Counter)
    → OnlyCustomers s u
    → Ends
        (λ _ v.
          (v.store ≡ s.store) × (v.asked ≡ (order, cents) ∷ s.asked) × (v.customers ≡ u.customers))
        (StoreStands s)
        (create_intent t order cents u)
unfolding create_intent or_throw
create_intent-Ends t order cents s u h =
    let stores = ap (λ (x : Counter). x.store) h in
    elim (Option-cases (t.new_intent order cents)) [
      | inl absent ↦ rw absent stores
      | inr (intent, made) ↦
          rw made (stores, ap (λ (x : Counter). (order, cents) ∷ x.asked) h, refl)
    ]
