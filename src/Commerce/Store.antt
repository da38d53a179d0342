-- ===== src/Commerce/Store.antt =====
-- The commerce tables that the services of modules/commerce share, and what a request brings with it.
-- Ids are opaque and only compared, so they are numbers. Amounts are numbers of ten-thousandths of the
-- currency unit, the scale of the `Decimal(18, 4)` columns.
use Prim.Native.String.{String}
use all_in_one_v2_api.Base.{ℕ, ◌==◌, Bool, Option, none, some, List, ◌∷◌, if◌then◌else◌}
use all_in_one_v2_api.Base.{Table, Handler, thrown, ok, err}
use all_in_one_v2_api.Analytics.{Rollups}
use all_in_one_v2_api.Commerce.Status.{
  OrderStatus, PaymentStatus, ReturnStatus, RefundStatus, DisputeStatus, SyncStatus,
  SupplierOrderStatus, RequestType, CostCoveredBy, ActorRole, Gateway, Channel,
}

pub record OrderItem : Type 0 where
  pub item_id : ℕ
  pub product_variant_id : ℕ
  pub product_id : ℕ
  pub category_id : Option ℕ
  pub quantity : ℕ
  pub unit_price : ℕ
  pub supplier_cost : Option ℕ
  pub supplier_order_id : Option ℕ

pub record Order : Type 0 where
  pub tenant_id : ℕ
  pub status : OrderStatus
  pub customer_id : Option ℕ
  pub session_id : Option ℕ
  pub user_id : Option ℕ  -- customer.userId
  pub total_amount : ℕ
  pub has_shipping_address : Bool
  pub items : List OrderItem
  pub created_day : ℕ
  pub analytics_recorded : Bool  -- analyticsRecordedAt is set

pub record Payment : Type 0 where
  pub order_id : ℕ
  pub status : PaymentStatus
  pub gateway : Option Gateway
  pub transaction : Option ℕ  -- gatewayTransactionId
  pub amount : ℕ
  pub channel : Channel

pub data RequestState : Type 0 where
  in_progress : RequestState
  done : Bool → RequestState  -- whether the supplier was asked

pub record SupplierOrder : Type 0 where
  pub order_id : ℕ
  pub supplier_id : ℕ
  pub external_id : Option ℕ
  pub status : SupplierOrderStatus
  pub refund_requests : Table RequestState  -- rawResponse.supplierRefundRequests

pub record ReturnItem : Type 0 where
  pub order_item_id : ℕ
  pub quantity : ℕ
  pub unit_price_snapshot : ℕ
  pub supplier_cost_snapshot : Option ℕ

pub record HistoryEntry : Type 0 where
  pub from_status : Option ReturnStatus
  pub to_status : ReturnStatus
  pub actor_user_id : Option ℕ
  pub actor_role : ActorRole

pub record Financials : Type 0 where
  pub customer_refund_amount : Option ℕ
  pub cj_reimbursement_amount : Option ℕ
  pub replacement_product_cost : Option ℕ
  pub replacement_shipping_cost : Option ℕ
  pub cost_covered_by : Option CostCoveredBy

pub record Return : Type 0 where
  pub tenant_id : ℕ
  pub order_id : ℕ
  pub customer_id : Option ℕ
  pub user_id : Option ℕ  -- customer.userId
  pub status : ReturnStatus
  pub request_type : RequestType
  pub notes : Option String
  pub items : List ReturnItem
  pub evidence : List String
  pub history : List HistoryEntry  -- the newest entry first
  pub financials : Option Financials

pub record Dispute : Type 0 where
  pub return_id : ℕ
  pub cj_order_external_id : ℕ
  pub cj_dispute_id : Option ℕ
  pub expect_type : ℕ
  pub dispute_reason_id : Option ℕ
  pub status : DisputeStatus
  pub cj_raw_status : Option String
  pub cj_refund_amount : Option ℕ

pub record Refund : Type 0 where
  pub tenant_id : ℕ
  pub order_id : ℕ
  pub return_id : Option ℕ
  pub amount : ℕ
  pub status : RefundStatus
  pub transaction : Option ℕ

pub record WebhookEvent : Type 0 where
  pub provider : ℕ
  pub external_event_id : ℕ
  pub status : SyncStatus

pub data Notice : Type 0 where
  payment_confirmed order_rejected return_submitted return_status refund_complete : ℕ → Notice

-- A message of QUEUES.SUPPLIER_REFUND.
pub record RefundMessage : Type 0 where
  pub refund_id : ℕ
  pub supplier_order_id : ℕ
  pub supplier_id : ℕ
  pub external_id : ℕ

pub record Store : Type 0 where
  pub orders : Table Order
  pub payments : Table Payment
  pub payment_events : List (ℕ × PaymentStatus)
  pub supplier_orders : Table SupplierOrder
  pub returns : Table Return
  pub disputes : Table Dispute
  pub refunds : Table Refund
  pub webhooks : Table WebhookEvent
  pub notices : List (ℕ × Notice)  -- the AuthUser told, and what
  pub refund_queue : List RefundMessage
  pub gateway_refunds : List (ℕ × ℕ)  -- the refunds that Stripe was asked for: intent, cents
  pub analytics : ℕ → Rollups  -- by tenant
  pub next_id : ℕ  -- stands for the ids that the database draws

-- What a request runs in: the tenant that requireTenantId() returns, and the services it calls.
pub record Env : Type 0 where
  pub tenant : ℕ
  pub notifier_up : Bool
  -- stripe.refunds.create: the refund's id, or `none` if the call throws
  pub stripe_refund : ℕ → ℕ → Option ℕ
  pub sqs_accepts : RefundMessage → Bool  -- whether sqs.enqueue sends the message or throws

-- OrderViewer
pub record Viewer : Type 0 where
  pub customer_id : Option ℕ
  pub session_id : Option ℕ
  pub is_admin : Bool

-- A handler of the commerce services.
abbrev pub Action : Type 0 → Type 0
Action A = Handler Store A

-- Two ids that are both present and equal.
abbrev pub same_id : Option ℕ → Option ℕ → Bool
same_id (some a) (some b) = a == b
same_id (some a) none = Bool.false
same_id none b = Bool.false

-- `order.customerId !== customerId`: an absent id differs from every id.
abbrev pub owned_by : Option ℕ → ℕ → Bool
owned_by (some a) b = a == b
owned_by none b = Bool.false

-- NotificationRepository.createNotification
unfoldable pub create_notification : Env → ℕ → Notice → Action (Unit {0})
create_notification env user notice s =
    if env.notifier_up
    then ok tt (record s { notices = (user, notice) ∷ s.notices })
    else err thrown s
