-- ===== src/Commerce/Coupons.antt =====
-- src/modules/commerce/coupon.service.ts and coupon.repository.ts. A code is a number, the same for equal
-- trimmed texts; a blank code is absent. Dates are numbers, read and compared as times.
pub mod Codes
use all_in_one_v2_api.Base.{
  any_row, thrown, ℕ, ◌+◌, ◌==◌, Bool, true, false, not, ◌&&◌, ◌||◌, Option, none, some, List, [],
  ◌∷◌, if◌then◌else◌, Table, find, find_first, insert, update, is_some, get_or, ltb, leb, http, ok,
  Handler, pure, ◌>>=◌, ◌>>◌, gets, guard, modify, or_throw,
}

pub data DiscountType : Type 0 where
  percentage fixed_amount free_shipping : DiscountType

-- Coupon
pub record Coupon : Type 0 where
  pub tenant_id : ℕ
  pub code : ℕ
  pub discount_type : DiscountType
  pub discount_value : ℕ
  pub min_order_value : Option ℕ
  pub max_discount : Option ℕ
  pub usage_limit : Option ℕ
  pub usage_count : ℕ
  pub expires_at : Option ℕ
  pub is_active : Bool
  pub deleted : Bool  -- deletedAt is set

-- CouponWriteBody of a creation, its dates valid
pub record CouponBody : Type 0 where
  pub code : Option ℕ
  pub discount_type : Option DiscountType
  pub discount_value : Option ℕ
  pub min_order_value : Option ℕ
  pub max_discount : Option ℕ
  pub usage_limit : Option ℕ
  pub expires_at : Option ℕ
  pub is_active : Option Bool

pub record Coupons : Type 0 where
  pub rows : Table Coupon
  pub next_id : ℕ

-- `where: { tenantId, code, deletedAt: null }`
abbrev pub has_code : ℕ → ℕ → ℕ → Coupon → Bool
has_code tenant code _ c = c.tenant_id == tenant && c.code == code && not c.deleted

-- findByCode
unfoldable pub find_by_code : ℕ → ℕ → Coupons → Option (ℕ × Coupon)
find_by_code tenant code s = find_first (has_code tenant code) s.rows

abbrev pub live_of : ℕ → Option Coupon → Option Coupon
live_of tenant none = none
live_of tenant (some c) = if c.tenant_id == tenant && not c.deleted then some c else none

-- CouponRepository.findById
unfoldable pub find_coupon : ℕ → ℕ → Coupons → Option Coupon
find_coupon tenant id s = live_of tenant (find id s.rows)

abbrev pub new_coupon : ℕ → ℕ → ℕ → CouponBody → Coupon
new_coupon tenant code value body = record {
  tenant_id = tenant;
  code = code;
  discount_type = get_or body.discount_type DiscountType.percentage;
  discount_value = value;
  min_order_value = body.min_order_value;
  max_discount = body.max_discount;
  usage_limit = body.usage_limit;
  usage_count = 0;
  expires_at = body.expires_at;
  is_active = get_or body.is_active true;
  deleted = false;
}

-- the unique index on (tenantId, code), which deleted coupons are in too
abbrev pub holds_code : ℕ → ℕ → ℕ → Coupon → Bool
holds_code tenant code _ c = c.tenant_id == tenant && c.code == code

-- createCoupon; the database refuses a code that a deleted coupon still holds
unfoldable pub create_coupon : ℕ → CouponBody → Handler Coupons (Unit {0})
create_coupon tenant body = do
  code ← or_throw body.code (http 400)
  value ← or_throw body.discount_value (http 400)
  clash ← gets (find_by_code tenant code)
  guard (not (is_some clash)) (http 400)
  held ← gets (λ (s : Coupons). any_row (holds_code tenant code) s.rows)
  guard (not held) thrown
  modify λ s. record s {
    rows = insert s.next_id (new_coupon tenant code value body) s.rows;
    next_id = s.next_id + 1;
  }

abbrev pub deleted_coupon : Coupon → Coupon
deleted_coupon c = record c { deleted = true; is_active = false }

-- deleteCoupon
unfoldable pub delete_coupon : ℕ → ℕ → Handler Coupons (Unit {0})
delete_coupon tenant id = do
  existing ← or_throw (← gets (find_coupon tenant id)) (http 404)
  modify λ s. record s { rows = update id deleted_coupon s.rows }

abbrev pub is_past : ℕ → Option ℕ → Bool
is_past now none = false
is_past now (some expires) = ltb expires now

abbrev pub is_used_up : Option ℕ → ℕ → Bool
is_used_up none used = false
is_used_up (some limit) used = leb limit used

abbrev pub is_below : Option ℕ → Option ℕ → Bool
is_below none least = false
is_below (some subtotal) none = false
is_below (some subtotal) (some least) = ltb subtotal least

-- the test of assertUsable, without the kind of the error
abbrev pub is_usable : ℕ → Coupon → Option ℕ → Bool
is_usable now c subtotal =
    c.is_active
    && not (is_past now c.expires_at)
    && not (is_used_up c.usage_limit c.usage_count)
    && not (is_below subtotal c.min_order_value)

-- assertUsable
unfoldable pub assert_usable : ℕ → Coupon → Option ℕ → Handler Coupons (Unit {0})
assert_usable now c subtotal = guard (is_usable now c subtotal) (http 400)

-- validateCoupon
unfoldable pub validate_coupon : ℕ → ℕ → ℕ → Handler Coupons Coupon
validate_coupon tenant now code = do
  found ← or_throw (← gets (find_by_code tenant code)) (http 404)
  assert_usable now found.1 none
  pure found.1

abbrev pub used_once_more : Coupon → Coupon
used_once_more c = record c { usage_count = c.usage_count + 1 }

-- incrementUsage
unfoldable pub increment_usage : ℕ → Coupons → Coupons
increment_usage id s = record s { rows = update id used_once_more s.rows }
