-- ===== src/Commerce/Checkout/Shop.antt =====
-- The tables that a checkout reads and writes, and what it asks of other services. Amounts are numbers
-- of ten-thousandths, the scale of the columns.
use all_in_one_v2_api.Base.{ℕ, Bool, Option, List, Table, Handler, on}
use all_in_one_v2_api.Base.Int.{ℤ}
use all_in_one_v2_api.Promotion.{Rule, Target, Reward}
use all_in_one_v2_api.Inventory.{Warehouse}
use all_in_one_v2_api.Commerce.Status.{OrderStatus}
use all_in_one_v2_api.Commerce.Coupons.{Coupons}

-- CommerceCart
pub record Cart : Type 0 where
  pub tenant_id : ℕ
  pub customer_id : Option ℕ
  pub session_id : Option ℕ

-- CommerceCartItem
pub record CartItem : Type 0 where
  pub tenant_id : ℕ
  pub cart_id : ℕ
  pub product_variant_id : ℕ
  pub quantity : ℕ
  pub unit_price : ℕ

-- CartItemLike
pub record CartItemLike : Type 0 where
  pub product_variant_id : ℕ
  pub quantity : ℕ
  pub unit_price : ℕ

-- Promotion, its status and its dates included
pub record PromotionRow : Type 0 where
  pub tenant_id : ℕ
  pub deleted : Bool
  pub is_active : Bool
  pub starts : Option ℕ
  pub ends : Option ℕ
  pub usage_limit : Option ℕ
  pub usage_count : ℕ
  pub code : Option ℕ
  pub priority : ℕ
  pub rules : List Rule
  pub targets : List Target
  pub rewards : List Reward

-- the row that `tx.commerceOrder.create` makes
pub record PlacedOrder : Type 0 where
  pub tenant_id : ℕ
  pub subtotal : ℕ
  pub discount_amount : ℕ
  pub tax_amount : ℕ
  pub shipping_amount : ℕ
  pub total_amount : ℕ
  pub status : OrderStatus
  pub customer_id : Option ℕ
  pub session_id : Option ℕ
  pub shipping_address : Option ℕ
  pub coupon : Option ℕ
  pub promotion : Option ℕ
  pub items : List CartItemLike

-- ShippingQuoteOption; `aging` is the text of the carrier, as its character codes
pub record QuoteOption : Type 0 where
  pub logistic_name : ℕ
  pub price : ℕ
  pub aging : List ℕ

pub record Shop : Type 0 where
  pub carts : Table Cart
  pub cart_items : Table CartItem
  pub addresses : Table ℕ  -- the customer that each address belongs to
  pub coupons : Coupons
  pub promotions : Table PromotionRow
  pub warehouse : Warehouse
  pub orders : Table PlacedOrder
  pub quotes : Table (ℕ × List QuoteOption)  -- the cached quotes by tenant; one that expired is gone
  pub told : List (ℕ × ℕ)  -- the AuthUser told that an order was placed, and the order
  pub next_id : ℕ

-- what the catalogue says of a variant
pub record VariantMeta : Type 0 where
  pub product_id : ℕ
  pub category_id : Option ℕ
  pub collection_ids : List ℕ

-- an item of checkoutDirect
pub record DirectItem : Type 0 where
  pub product_id : ℕ
  pub size : Option ℕ
  pub color : Option ℕ
  pub quantity : ℕ

-- the variant that resolveDirectCheckoutItems finds
pub record Variant : Type 0 where
  pub id : ℕ
  pub price : ℕ

-- What a checkout runs in: the tenant, the time, the catalogue and the supplier's stock counts, and
-- whether the notifier and the cache are up.
pub record Desk : Type 0 where
  pub tenant : ℕ
  pub now : ℕ
  pub notifier_up : Bool
  pub variant_of : ℕ → Option VariantMeta
  pub variant_matching : ℕ → Option ℕ → Option ℕ → Option Variant
  pub price_of : ℕ → Option ℕ
  pub supplier_stock : ℕ → Option ℤ
  pub cache_up : Bool

-- the parameters of createOrderFromItems; a blank text is absent
pub record Params : Type 0 where
  pub customer_id : Option ℕ
  pub session_id : Option ℕ
  pub shipping_address_id : Option ℕ
  pub coupon_code : Option ℕ
  pub promotion_code : Option ℕ
  pub shipping_quote_id : Option ℕ
  pub shipping_logistic_name : Option ℕ

abbrev pub Desking : Type 0 → Type 0
Desking A = Handler Shop A

abbrev pub in_warehouse : {A : Type 0} → Handler Warehouse A → Desking A
in_warehouse m = on (λ (s : Shop). s.warehouse) (λ w s. record s { warehouse = w }) m

abbrev pub in_coupons : {A : Type 0} → Handler Coupons A → Desking A
in_coupons m = on (λ (s : Shop). s.coupons) (λ c s. record s { coupons = c }) m
