-- ===== src/Commerce/Payments/Redelivery.antt =====
-- Redelivered webhooks: an event is applied once, and a failed one can be retried.
use mathlib.Core.Option
use all_in_one_v2_api.Base.{
  ℕ, ◌≡◌, ◌≢◌, refl, ◌==◌, Bool, true, false, Option, none, some, arith, if◌then◌else◌, Table,
  find_first, update, find_first-update_many, insert, same, ok, err, state_of, Error, Option-cases,
  Bool-cases, inl, inr, ◌>>=◌, ==_refl, Outcome, and_then,
}
use all_in_one_v2_api.Commerce.Status.{SyncStatus, sync_status}
use all_in_one_v2_api.Commerce.Store.{Store, Env, WebhookEvent}
use all_in_one_v2_api.Commerce.Payments.Frame.{apply_event-Steps}
use all_in_one_v2_api.Commerce.Payments.Webhook.{
  Provider, EventType, Payload, handle_webhook, apply_event, finish, process_claimed,
  record_webhook_event, claim_event, is_event, set_sync, derive_webhook_event_id, provider_place,
}

-- the row of an event, and its status
abbrev seen : Provider → ℕ → Store → Option (ℕ × WebhookEvent)
seen provider external s = find_first (is_event provider external) s.webhooks

abbrev status_of : Option (ℕ × WebhookEvent) → Option SyncStatus
status_of none = none
status_of (some (i, e)) = some e.status

-- whether a delivery owns the processing
abbrev pub is_claimed : Outcome Store (ℕ × Bool) → Bool
is_claimed (ok (i, claimed) s) = claimed
is_claimed (err e s) = false

first-update :
    (provider : Provider) (external i : ℕ) (status : SyncStatus) (t : Table WebhookEvent)
    → find_first (is_event provider external) (update i (set_sync status) t)
      ≡ Option.map
          (λ r. (r.0, (if r.0 == i then set_sync status r.1 else r.1)))
          (find_first (is_event provider external) t)
unfolding update
first-update provider external i status t =
    find_first-update_many (is_event provider external) _ (set_sync status) t (λ k a. refl)

abbrev key_of : Option (ℕ × WebhookEvent) → Option ℕ
key_of none = none
key_of (some (i, e)) = some i

-- what the row of the event says once the processing has ended
abbrev verdict : Outcome Store (Unit {0}) → SyncStatus
verdict (ok a s) = SyncStatus.success
verdict (err e s) = SyncStatus.failed

seen-finish :
    (provider : Provider) (external i : ℕ) (r : Outcome Store (Unit {0}))
    → key_of (seen provider external (state_of r)) ≡ some i
    → status_of (seen provider external (state_of (finish i r))) ≡ some (verdict r)
seen-finish provider external i (ok a s) h =
    ground (arith, first-update provider external i SyncStatus.success s.webhooks, ==_refl i)
seen-finish provider external i (err e s) h =
    ground (arith, first-update provider external i SyncStatus.failed s.webhooks, ==_refl i)

-- What a delivery returned, against the status of its event afterwards.
abbrev Recorded : Outcome Store Bool → Option SyncStatus → Type 0
Recorded (ok false s) status = status ≡ some SyncStatus.success
Recorded (ok true s) status = status ≢ some SyncStatus.failed
Recorded (err e s) status = status ≡ some SyncStatus.failed

finish-Recorded :
    (provider : Provider) (external i : ℕ) (r : Outcome Store (Unit {0}))
    → key_of (seen provider external (state_of r)) ≡ some i
    → Recorded (finish i r) (status_of (seen provider external (state_of (finish i r))))
finish-Recorded provider external i (ok a s) h = seen-finish provider external i (ok a s) h
finish-Recorded provider external i (err e s) h = seen-finish provider external i (err e s) h

processed-Recorded :
    (env : Env) (provider : Provider) (type : EventType) (p : Payload) (external i : ℕ) (s : Store)
    → key_of (seen provider external s) ≡ some i
    → let out = process_claimed env provider type p (i, true) s in
      Recorded out (status_of (seen provider external (state_of out)))
processed-Recorded env provider type p external i s h =
    finish-Recorded provider external i (apply_event env provider type p s)
      (rw ((apply_event-Steps env provider type p).at s) h)

seen-reclaimed :
    (provider : Provider) (external i : ℕ) (e : WebhookEvent) (t : Table WebhookEvent)
    → find_first (is_event provider external) t ≡ some (i, e)
    → key_of (find_first (is_event provider external) (update i (set_sync SyncStatus.pending) t))
      ≡ some i
seen-reclaimed provider external i e t h =
    ground (arith, first-update provider external i SyncStatus.pending t)

claimed-Recorded :
    (env : Env) (provider : Provider) (type : EventType) (p : Payload) (external : ℕ) (s : Store)
    (row : Option (ℕ × WebhookEvent))
    → seen provider external s ≡ row
    → let out =
        and_then (claim_event provider external row s) (process_claimed env provider type p) in
      Recorded out (status_of (seen provider external (state_of out)))
unfolding claim_event
claimed-Recorded env provider type p external s none h =
    processed-Recorded env provider type p external s.next_id _ (
      unfold insert find_first in
      ground (arith, ==_refl (provider_place provider), ==_refl external))
claimed-Recorded env provider type p external s (some (i, e)) h =
    elim (Bool-cases (same e.status SyncStatus.failed)) [
      | inl failed ↦ rw failed (
          processed-Recorded env provider type p external i _
            (seen-reclaimed provider external i e s.webhooks h))
      | inr other ↦ rw other (rw h (λ is_failed. ground arith))
    ]

-- After a delivery that was processed its event stands as SUCCESS, after one that threw as FAILED, and
-- one that was taken for a duplicate is not FAILED.
pub handle_webhook-Recorded :
    (env : Env) (provider : Provider) (type : EventType) (p : Payload) (s : Store)
    → let out = handle_webhook env provider type p s in
      Recorded out (status_of (seen provider (derive_webhook_event_id p) (state_of out)))
unfolding handle_webhook ◌>>=◌ record_webhook_event
handle_webhook-Recorded env provider type p s =
    claimed-Recorded env provider type p (derive_webhook_event_id p) s
      (seen provider (derive_webhook_event_id p) s) refl

-- An event that stands as SUCCESS is acknowledged as a duplicate and changes nothing.
duplicate-ignored :
    (env : Env) (provider : Provider) (type : EventType) (p : Payload) (s : Store)
    → status_of (seen provider (derive_webhook_event_id p) s) ≡ some SyncStatus.success
    → handle_webhook env provider type p s ≡ ok true s
unfolding handle_webhook ◌>>=◌ record_webhook_event
duplicate-ignored env provider type p s h =
    elim (Option-cases (seen provider (derive_webhook_event_id p) s)) [
      | inl new ↦ ground arith
      | inr ((i, e), old) ↦ ground arith
    ]

-- Once a delivery was processed, every later one with the same event id is acknowledged as a duplicate
-- and changes nothing: no second payment, sale or notification.
pub redelivery_ignored :
    (env later : Env) (provider : Provider) (type type' : EventType) (p p' : Payload) (s t : Store)
    → handle_webhook env provider type p s ≡ ok false t
    → derive_webhook_event_id p' ≡ derive_webhook_event_id p
    → handle_webhook later provider type' p' t ≡ ok true t
redelivery_ignored env later provider type type' p p' s t h same_event =
    duplicate-ignored later provider type' p' t
      (rw same_event (rw h at (handle_webhook-Recorded env provider type p s)))

-- An event that stands as FAILED is claimed by the next delivery.
failed-claimed :
    (provider : Provider) (external : ℕ) (row : Option (ℕ × WebhookEvent)) (s : Store)
    → status_of row ≡ some SyncStatus.failed
    → is_claimed (claim_event provider external row s) ≡ true
unfolding claim_event
failed-claimed provider external none s h = refl
failed-claimed provider external (some (i, e)) s h = ground arith

-- A delivery that threw leaves its event free: the gateway's retry is processed, not taken for a
-- duplicate.
pub retry_claimed :
    (env : Env) (provider : Provider) (type : EventType) (p : Payload) (s t : Store) (e : Error)
    → handle_webhook env provider type p s ≡ err e t
    → is_claimed (record_webhook_event provider (derive_webhook_event_id p) t) ≡ true
unfolding record_webhook_event
retry_claimed env provider type p s t e h =
    failed-claimed provider (derive_webhook_event_id p) _ t
      (rw h at (handle_webhook-Recorded env provider type p s))
