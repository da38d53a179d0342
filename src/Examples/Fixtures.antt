-- ===== src/Examples/Fixtures.antt =====
-- A small shop: one order, its payment, one request and a stock row.
use all_in_one_v2_api.Base.{true, false, none, some, [], ◌∷◌}
use all_in_one_v2_api.Analytics.{Rollups}
use all_in_one_v2_api.Commerce.Status.{
  OrderStatus, PaymentStatus, ReturnStatus, DisputeStatus, RequestType, Gateway, Channel,
}
use all_in_one_v2_api.Commerce.Store.{OrderItem, Order, Payment, Return, Dispute, Store, Env}
use all_in_one_v2_api.Commerce.Payments.Webhook.{Payload}
use all_in_one_v2_api.Commerce.Returns.Requests.{submitted}
use all_in_one_v2_api.Commerce.Returns.Disputes.{CjDesk}

abbrev pub shirt : OrderItem
shirt = record {
  item_id = 31;
  product_variant_id = 41;
  product_id = 51;
  category_id = some 61;
  quantity = 2;
  unit_price = 100000;
  supplier_cost = none;
  supplier_order_id = none;
}

abbrev pub an_order : OrderStatus → Order
an_order status = record {
  tenant_id = 1;
  status = status;
  customer_id = some 11;
  session_id = none;
  user_id = some 21;
  total_amount = 200000;
  has_shipping_address = true;
  items = shirt ∷ [];
  created_day = 5;
  analytics_recorded = false;
}

abbrev pub a_payment : PaymentStatus → Payment
a_payment status = record {
  order_id = 2;
  status = status;
  gateway = some Gateway.stripe;
  transaction = some 71;
  amount = 200000;
  channel = Channel.card;
}

abbrev pub no_rollups : Rollups
no_rollups = record { product_sales = []; category_sales = []; customers = []; daily_sales = [] }

abbrev pub shop : OrderStatus → PaymentStatus → Store
shop order payment = record {
  orders = (2, an_order order) ∷ [];
  payments = (3, a_payment payment) ∷ [];
  payment_events = [];
  supplier_orders = [];
  returns = [];
  disputes = [];
  refunds = [];
  webhooks = [];
  notices = [];
  refund_queue = [];
  gateway_refunds = [];
  analytics = λ tenant. no_rollups;
  next_id = 100;
}

abbrev pub shop_env : Env
shop_env = record {
  tenant = 1;
  notifier_up = true;
  stripe_refund = λ intent cents. some 900;
  sqs_accepts = λ message. true;
}

-- an environment whose notifier is down
abbrev pub mute_env : Env
mute_env = record shop_env { notifier_up = false }

-- the payload of a Stripe event about the payment intent 71
abbrev pub intent_payload : Payload
intent_payload = record {
  data_id = none;
  id = some 81;
  event_id = none;
  event_id_camel = none;
  object_id = some 71;
  data_status = none;
  payment_intent = none;
  amount_refunded = none;
  digest = 0;
}

abbrev pub a_return : ReturnStatus → Return
a_return status = record {
  tenant_id = 1;
  order_id = 2;
  customer_id = some 11;
  user_id = none;
  status = status;
  request_type = RequestType.replacement;
  notes = none;
  items = [];
  evidence = [];
  history = submitted ∷ [];
  financials = none;
}

abbrev pub a_dispute : Dispute
a_dispute = record {
  return_id = 7;
  cj_order_external_id = 91;
  cj_dispute_id = some 92;
  expect_type = 2;
  dispute_reason_id = some 93;
  status = DisputeStatus.submitted;
  cj_raw_status = none;
  cj_refund_amount = none;
}

abbrev pub with_return : ReturnStatus → Store
with_return status = record (shop OrderStatus.fulfilled PaymentStatus.paid) {
  returns = (7, a_return status) ∷ [];
  disputes = (8, a_dispute) ∷ [];
}

abbrev pub silent_cj : CjDesk
silent_cj = record {
  dispute_products = λ external. [];
  dispute_reasons = λ external products. [];
  create_dispute = λ external reason expect products. false;
  dispute_list = λ external. [];
  dispute_detail = λ dispute. none;
  as_set = λ externals. externals;
}
