-- ===== src/Examples/Intents.antt =====
-- A guest pays an order of the shop by card, and comes back to the checkout page.
use all_in_one_v2_api.Base.{
  ◌≡◌, refl, true, false, none, some, [], ◌∷◌, Ends, state_of, find, find_first, insert, ◌>>=◌,
  gets, guard, or_throw, pure,
}
use all_in_one_v2_api.Commerce.Status.{OrderStatus, PaymentStatus, Gateway}
use all_in_one_v2_api.Commerce.Orders.Rows.{find_order}
use all_in_one_v2_api.Commerce.Orders.Service.{may_view}
use all_in_one_v2_api.Commerce.Payments.Intents.{
  IntentStatus, Till, Counter, IntentParams, create_payment_intent, pay_online, pay_by_stripe,
  open_intent, reuse, customer_for, check_method, create_intent, create_payment,
}
use all_in_one_v2_api.Commerce.Payments.Opening.{StoreStands}
use all_in_one_v2_api.Commerce.Payments.Opened.{IsOpened, create_payment_intent_effect}
use all_in_one_v2_api.Examples.Fixtures.{shop}

abbrev till : Till
till = record {
  tenant = 1;
  retrieve_intent =
      λ id. some (record { status = IntentStatus.requires_payment_method; only_cards = true });
  owner_of_method = λ m. none;
  new_customer = λ c. some 300;
  new_intent = λ order cents. some 500;
}

abbrev counter : Counter
counter = record {
  store = shop OrderStatus.pending PaymentStatus.failed;
  customers = (11, none) ∷ [];
  asked = [];
}

abbrev by_card : IntentParams
by_card = record {
  order_id = 2;
  gateway = some Gateway.stripe;
  channel = none;
  payment_method = none;
  save_payment_method = false;
  requester = record { customer_id = some 11; session_id = none; is_admin = false };
}

create_payment_intent_effect_example :
    Ends
      (λ n u. IsOpened till by_card counter n u)
      (StoreStands counter)
      (create_payment_intent till by_card counter)
create_payment_intent_effect_example = create_payment_intent_effect till by_card counter

-- the second visit asks Stripe for nothing
asked_once :
    (state_of (
      create_payment_intent till by_card
        (state_of (create_payment_intent till by_card counter)))).asked
    ≡ (2, 2000) ∷ []
unfolding create_payment_intent pay_online pay_by_stripe open_intent reuse customer_for check_method
    create_intent create_payment find_order may_view find find_first insert ◌>>=◌ gets guard
    or_throw pure
asked_once = refl
