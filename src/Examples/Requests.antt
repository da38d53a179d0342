-- ===== src/Examples/Requests.antt =====
-- The theorems on requests at concrete requests.
use mathlib.Core.Option
use all_in_one_v2_api.Base.{
  ◌≡◌, refl, ℕ, true, none, [], ◌∷◌, find, find_first, ◌==◌, Bool-cases, inl, inr, update,
}
use all_in_one_v2_api.Commerce.Status.{ReturnStatus}
use all_in_one_v2_api.Commerce.Returns.Transitions.{may_move}
use all_in_one_v2_api.Commerce.Returns.Rows.{find_return}
use all_in_one_v2_api.Commerce.Returns.Audit.{created}
use all_in_one_v2_api.Commerce.Returns.Workflow.{
  review, approve, serve_all, IsTracedRow, serve_all-IsTracedRow,
}
use all_in_one_v2_api.Base.{Option, none, some, state_of, update_many, ◌>>=◌}
use all_in_one_v2_api.Commerce.Store.{Return, Payment, create_notification}
use all_in_one_v2_api.Commerce.Orders.Rows.{find_order}
use all_in_one_v2_api.Commerce.Orders.Service.{is_paid_payment_of}
use all_in_one_v2_api.Commerce.Payments.Refunding.{
  refund_payment, create_refund, create_stripe_refund, is_stripe,
}
use all_in_one_v2_api.Commerce.Returns.Transitions.{assert_valid_return_transition}
use all_in_one_v2_api.Commerce.Returns.Rows.{transition_status}
use all_in_one_v2_api.Commerce.Returns.Requests.{notify_customer}
use all_in_one_v2_api.Commerce.Returns.Disputes.{upsert_financials}
use all_in_one_v2_api.Commerce.Returns.Refunds.{process_refund}
use all_in_one_v2_api.Commerce.Returns.Refunded.{process_refund_effect}
use all_in_one_v2_api.Commerce.Returns.Money.{asked_after, refund_row}
use all_in_one_v2_api.Examples.Fixtures.{with_return, shop_env, silent_cj}

submitted-IsTracedRow : (j : ℕ) → IsTracedRow (find j (with_return ReturnStatus.pending).returns)
unfolding find
submitted-IsTracedRow j = elim (Bool-cases (j == 7)) [
  | inl hit ↦ rw hit (created refl refl)
  | inr miss ↦ rw miss tt
]

serve_all-IsTracedRow_example : IsTracedRow (
    find 7
      (serve_all
        ((shop_env, silent_cj, review 7 none) ∷ (shop_env, silent_cj, approve 7 none none) ∷ [])
        (with_return ReturnStatus.pending)).returns)
serve_all-IsTracedRow_example =
    serve_all-IsTracedRow
      ((shop_env, silent_cj, review 7 none) ∷ (shop_env, silent_cj, approve 7 none none) ∷ [])
      (with_return ReturnStatus.pending) 7 submitted-IsTracedRow

process_refund_effect_example :
    (r : Return) × (k : ℕ) × (p : Payment) × (t : Option ℕ) × (find_return 1 7
        (with_return ReturnStatus.approved)
      ≡ some r)
    × (may_move r.status ReturnStatus.refund_processing ≡ true)
    × (find_first (is_paid_payment_of r.order_id) (with_return ReturnStatus.approved).payments
        ≡ some (k, p))
    × ((state_of (
          process_refund shop_env 7 50000 none none none
            (with_return ReturnStatus.approved))).gateway_refunds
        ≡ asked_after (is_stripe p.gateway) p.transaction 50000 [])
    × (find 100
          (state_of (
            process_refund shop_env 7 50000 none none none
              (with_return ReturnStatus.approved))).refunds
        ≡ some (refund_row shop_env r.order_id (some 7) 50000 t))
    × (Option.map
          (λ (x : Return). x.status)
          (find_return 1 7 (
            state_of
              (process_refund shop_env 7 50000 none none none (with_return ReturnStatus.approved))))
        ≡ some ReturnStatus.refund_processing)
unfolding process_refund ◌>>=◌ find_return find find_first refund_payment find_order create_refund
    create_stripe_refund upsert_financials transition_status update update_many
    assert_valid_return_transition notify_customer create_notification
process_refund_effect_example =
    process_refund_effect shop_env 7 50000 none none none (with_return ReturnStatus.approved) refl
