-- ===== src/Commerce/Payments/Reused.antt =====
-- The payment of an earlier attempt that createPaymentIntent gives out again.
use all_in_one_v2_api.Base.{ℕ, ◌≡◌, ==_iff, true, some, arith, find_first, find_first-holds, Table}
use all_in_one_v2_api.Commerce.Status.{PaymentStatus}
use all_in_one_v2_api.Commerce.Store.{Payment}
use all_in_one_v2_api.Commerce.Payments.Refunding.{is_stripe}
use all_in_one_v2_api.Commerce.Payments.Intents.{
  IntentStatus, Intent, Till, is_reusable, is_open_status, is_still_confirmable,
}

-- an intent that waits for the customer
abbrev pub IsUnfinished : IntentStatus → Type 0
IsUnfinished IntentStatus.requires_payment_method = Unit {0}
IsUnfinished IntentStatus.requires_confirmation = Unit {0}
IsUnfinished IntentStatus.requires_action = Unit {0}
IsUnfinished IntentStatus.settled = ⊥

pub confirmable-IsUnfinished : (x : IntentStatus) → is_still_confirmable x ≡ true → IsUnfinished x
confirmable-IsUnfinished IntentStatus.requires_payment_method h = tt
confirmable-IsUnfinished IntentStatus.requires_confirmation h = tt
confirmable-IsUnfinished IntentStatus.requires_action h = tt
confirmable-IsUnfinished IntentStatus.settled h = absurd (ground arith)

-- a payment that was neither made nor given up
abbrev pub IsUnpaid : PaymentStatus → Type 0
IsUnpaid PaymentStatus.created = Unit {0}
IsUnpaid PaymentStatus.pending = Unit {0}
IsUnpaid PaymentStatus.waiting_confirmation = Unit {0}
IsUnpaid _ = ⊥

open_status-IsUnpaid : (x : PaymentStatus) → is_open_status x ≡ true → IsUnpaid x
open_status-IsUnpaid PaymentStatus.created h = tt
open_status-IsUnpaid PaymentStatus.pending h = tt
open_status-IsUnpaid PaymentStatus.waiting_confirmation h = tt
open_status-IsUnpaid PaymentStatus.processing h = absurd (ground arith)
open_status-IsUnpaid PaymentStatus.authorized h = absurd (ground arith)
open_status-IsUnpaid PaymentStatus.paid h = absurd (ground arith)
open_status-IsUnpaid PaymentStatus.failed h = absurd (ground arith)
open_status-IsUnpaid PaymentStatus.cancelled h = absurd (ground arith)
open_status-IsUnpaid PaymentStatus.refunded h = absurd (ground arith)
open_status-IsUnpaid PaymentStatus.void h = absurd (ground arith)
open_status-IsUnpaid PaymentStatus.expired h = absurd (ground arith)

-- an unpaid Stripe payment of the order
abbrev pub IsUnpaidFor : ℕ → Payment → Type 0
IsUnpaidFor order row =
    (row.order_id ≡ order) × (is_stripe row.gateway ≡ true) × IsUnpaid row.status

pub reusable-IsUnpaidFor :
    (order n : ℕ) (row : Payment) (t : Table Payment)
    → find_first (is_reusable order) t ≡ some (n, row)
    → IsUnpaidFor order row
reusable-IsUnpaidFor order n row t found =
    let holds : is_reusable order n row ≡ true =
      find_first-holds (is_reusable order) t n row found in
    (
      ground (arith, holds, ==_iff row.order_id order),
      ground (arith, holds),
      open_status-IsUnpaid row.status (ground (arith, holds)),
    )

-- the intent of an earlier payment, which Stripe says still waits for the customer, by card only
abbrev pub IsConfirmable : Till → Payment → Type 0
IsConfirmable t row =
    (i : ℕ) × (x : Intent) × (row.transaction ≡ some i)
    × (t.retrieve_intent i ≡ some x)
    × IsUnfinished x.status
    × (x.only_cards ≡ true)
