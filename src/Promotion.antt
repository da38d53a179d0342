-- ===== src/Promotion.antt =====
-- src/modules/promotion/promotion.engine.ts. Prices and the values of rules and rewards are numbers of
-- ten-thousandths, the scale of their columns. A percentage of a price has ten decimals, so discounts
-- are numbers of 10^-10: there the engine's decimal arithmetic is exact.
pub mod Bounds
pub mod Offered
use all_in_one_v2_api.Base.{
  ℕ, ◌+◌, ◌-◌, ◌*◌, ◌==◌, Bool, true, false, not, ◌&&◌, ◌||◌, Option, none, some, List, [], ◌∷◌,
  ◌++◌, map, any, every, is_empty, is_some, leb, ltb, if◌then◌else◌,
}

-- PromotionLineItem
pub record LineItem : Type 0 where
  pub variant_id : ℕ
  pub product_id : ℕ
  pub category_id : Option ℕ
  pub collection_ids : List ℕ
  pub quantity : ℕ
  pub unit_price : ℕ

-- A rule with the number that conditionNumber reads off its condition.
pub data Rule : Type 0 where
  min_cart_total : Option ℕ → Rule
  min_quantity : Option ℕ → Rule
  first_order : Rule
  customer_group : Rule
  other_rule : Rule

pub data Target : Type 0 where
  all_items : Target
  product : Option ℕ → Target
  variant : Option ℕ → Target
  collection : Option ℕ → Target
  category : Option ℕ → Target

pub data Reward : Type 0 where
  percentage_off : ℕ → Option ℕ → Reward
  fixed_amount_off : ℕ → Reward
  free_shipping : Reward
  buy_x_get_y : Reward
  other_reward : Reward

pub record Promo : Type 0 where
  pub id : ℕ
  pub rules : List Rule
  pub targets : List Target
  pub rewards : List Reward

-- PromotionContext
pub record Context : Type 0 where
  pub items : List LineItem
  pub subtotal : ℕ
  pub is_first_order : Bool

-- AppliedPromotion
pub record Applied : Type 0 where
  pub promotion_id : ℕ
  pub discount_amount : ℕ
  pub free_shipping : Bool

-- PromotionEvaluation
pub record Evaluation : Type 0 where
  pub applied : List Applied
  pub discount_amount : ℕ
  pub free_shipping : Bool
  pub promotion_id : Option ℕ

-- from ten-thousandths to 10^-10
abbrev pub fine : ℕ → ℕ
fine amount = amount * 1000000

abbrev pub line_total : LineItem → ℕ
line_total i = i.unit_price * i.quantity

unfoldable pub cart_quantity : List LineItem → ℕ
cart_quantity [] = 0
cart_quantity (i ∷ items) = i.quantity + cart_quantity items

abbrev pub reaches : Option ℕ → ℕ → Bool
reaches none actual = false
reaches (some least) actual = leb least actual

-- rulePasses
abbrev pub rule_passes : Context → Rule → Bool
rule_passes ctx (min_cart_total least) = reaches least ctx.subtotal
rule_passes ctx (min_quantity least) = reaches least (cart_quantity ctx.items * 10000)
rule_passes ctx first_order = ctx.is_first_order
rule_passes ctx customer_group = false
rule_passes ctx other_rule = false

abbrev pub is_all : Target → Bool
is_all all_items = true
is_all _ = false

abbrev pub is_id : Option ℕ → ℕ → Bool
is_id none i = false
is_id (some target) i = target == i

abbrev pub same_category : Option ℕ → Option ℕ → Bool
same_category target none = false
same_category target (some c) = is_id target c

-- `hit`, for one target
abbrev pub hits : LineItem → Target → Bool
hits i all_items = false
hits i (product target) = is_id target i.product_id
hits i (variant target) = is_id target i.variant_id
hits i (collection target) = any (is_id target) i.collection_ids
hits i (category target) = same_category target i.category_id

-- the `reduce` over the items that pass a test
unfoldable pub sum_where : (LineItem → Bool) → List LineItem → ℕ
sum_where p [] = 0
sum_where p (i ∷ items) = let rest = sum_where p items in if p i then line_total i + rest else rest

-- targetedSubtotal
abbrev pub targeted_subtotal : List LineItem → List Target → ℕ
targeted_subtotal items targets =
    if is_empty targets || any is_all targets
    then sum_where (λ i. true) items
    else sum_where (λ i. any (hits i) targets) items

abbrev pub capped : Option ℕ → ℕ → ℕ
capped none d = d
capped (some most) d = if ltb (fine most) d then fine most else d

-- the `discount` of rewardDiscount
abbrev pub reward_discount : Reward → ℕ → ℕ
reward_discount (percentage_off percent most) targeted = capped most (targeted * percent)
reward_discount (fixed_amount_off amount) targeted =
    if ltb targeted amount then fine targeted else fine amount
reward_discount _ targeted = 0

-- its `freeShipping`
abbrev pub is_free_shipping : Reward → Bool
is_free_shipping free_shipping = true
is_free_shipping _ = false

-- the loop over `promo.rewards`
unfoldable pub rewards_discount : List Reward → ℕ → ℕ
rewards_discount [] targeted = 0
rewards_discount (r ∷ rewards) targeted =
    reward_discount r targeted + rewards_discount rewards targeted

-- the state of the loop over the candidates
pub record Running : Type 0 where
  pub remaining : ℕ
  pub total : ℕ
  pub shipping : Bool
  pub stamp : Option ℕ
  pub so_far : List Applied  -- in the order of application

-- `if (promoDiscount.greaterThan(remaining)) promoDiscount = remaining`
abbrev pub at_most : ℕ → ℕ → ℕ
at_most remaining d = if ltb remaining d then remaining else d

-- the end of the loop's body, with the promotion's discount and free shipping
unfoldable pub apply_promo : ℕ → ℕ → Bool → Running → Running
apply_promo id discount free r = if leb discount 0 && not free then r else record r {
  remaining = r.remaining - discount;
  total = r.total + discount;
  shipping = r.shipping || free;
  stamp = if is_some r.stamp then r.stamp else some id;
  so_far =
      r.so_far
      ++ (record { promotion_id = id; discount_amount = discount; free_shipping = free } ∷ []);
}

-- the guards that skip a candidate
abbrev pub qualifies : Context → Promo → Bool
qualifies ctx p =
    every (rule_passes ctx) p.rules
    && not (leb (targeted_subtotal ctx.items p.targets) 0 && not (any is_free_shipping p.rewards))

-- one candidate
unfoldable pub consider : Context → Promo → Running → Running
unfolding apply_promo
consider ctx p r =
    if qualifies ctx p
    then apply_promo p.id
        (at_most r.remaining (rewards_discount p.rewards (targeted_subtotal ctx.items p.targets)))
        (any is_free_shipping p.rewards) r
    else r

-- the loop, which ends when nothing remains
unfoldable pub consider_all : Context → List Promo → Running → Running
unfolding consider
consider_all ctx [] r = r
consider_all ctx (p ∷ candidates) r =
    let rest = consider_all ctx candidates (consider ctx p r) in
    if leb r.remaining 0 then r else rest

abbrev pub started : Context → Running
started ctx = record {
  remaining = fine ctx.subtotal;
  total = 0;
  shipping = false;
  stamp = none;
  so_far = [];
}

abbrev pub evaluation_of : Running → Evaluation
evaluation_of r = record {
  applied = r.so_far;
  discount_amount = r.total;
  free_shipping = r.shipping;
  promotion_id = r.stamp;
}

abbrev pub no_evaluation : Evaluation
no_evaluation = record {
  applied = [];
  discount_amount = 0;
  free_shipping = false;
  promotion_id = none;
}

-- evaluate, on the candidates that findActiveCandidates returned
unfoldable pub evaluate : Context → List Promo → Evaluation
unfolding consider_all
evaluate ctx candidates =
    if is_empty ctx.items || leb ctx.subtotal 0
    then no_evaluation
    else evaluation_of (consider_all ctx candidates (started ctx))
