-- ===== src/Catalog/Defaults.antt =====
-- A tenant has at most one default rule.
use all_in_one_v2_api.Base.{
  ℕ, ◌+◌, ◌≤◌, ◌≡◌, refl, ◌∙◌, ◌==◌, Bool, true, false, ◌&&◌, ◌||◌, arith, if◌then◌else◌, Table,
  insert, update_many, delete_many, count_where, count_where-update_many, count_where-delete_many,
  Bool-cases, inl, inr, ==_iff,
}
use all_in_one_v2_api.Catalog.Prices.{PricingRule}
use all_in_one_v2_api.Catalog.Rules.{Clock, is_rule, is_default_of}
use all_in_one_v2_api.Catalog.Editing.{
  NewRule, RuleChange, created_rule, with_change, as_default, loses_default,
}

-- For every tenant at most one rule is the default; an id names at most one rule of a tenant, and none
-- that is still to be drawn.
pub record HasOneDefault (rules : Table PricingRule) (next_id : ℕ) : Type 0 where
  pub one_default : (tenant : ℕ) → count_where (is_default_of tenant) rules ≤ 1
  pub once : (tenant id : ℕ) → count_where (is_rule tenant id) rules ≤ 1
  pub undrawn : (tenant id : ℕ) → next_id ≤ id → count_where (is_rule tenant id) rules ≡ 0

pub created-HasOneDefault :
    (c : Clock) (input : NewRule) (rules : Table PricingRule) (next_id : ℕ)
    → HasOneDefault rules next_id
    → HasOneDefault (insert next_id (created_rule c input) rules) (next_id + 1)
unfolding count_where insert
created-HasOneDefault c input rules next_id h = record {
  one_default = λ tenant. ground (arith, h.one_default tenant);
  once = λ tenant id. ground (arith, h.once tenant id, h.undrawn tenant id, ==_iff next_id id);
  undrawn = λ tenant id far. ground (arith, h.undrawn tenant id, ==_iff next_id id);
}

-- an edit keeps the tenant and the flag
same_tenant : (input : RuleChange) (r : PricingRule) → (with_change input r).tenant_id ≡ r.tenant_id
same_tenant input r = ground arith

same_flag : (input : RuleChange) (r : PricingRule) → (with_change input r).is_default ≡ r.is_default
same_flag input r = ground arith

pub changed-HasOneDefault :
    (input : RuleChange) (p : ℕ → PricingRule → Bool) (rules : Table PricingRule) (next_id : ℕ)
    → HasOneDefault rules next_id
    → HasOneDefault (update_many p (with_change input) rules) next_id
changed-HasOneDefault input p rules next_id h = record {
  one_default = λ tenant.
      rw
        (count_where-update_many (is_default_of tenant) (is_default_of tenant) p (with_change input)
          rules (λ i r. ground (arith, same_tenant input r, same_flag input r)))
        (h.one_default tenant);
  once = λ tenant id.
      rw
        (count_where-update_many (is_rule tenant id) (is_rule tenant id) p (with_change input) rules
          (λ i r. ground (arith, same_tenant input r)))
        (h.once tenant id);
  undrawn = λ tenant id far.
      rw
        (count_where-update_many (is_rule tenant id) (is_rule tenant id) p (with_change input) rules
          (λ i r. ground (arith, same_tenant input r)))
        (h.undrawn tenant id far);
}

pub deleted-HasOneDefault :
    (p : ℕ → PricingRule → Bool) (rules : Table PricingRule) (next_id : ℕ)
    → HasOneDefault rules next_id
    → HasOneDefault (delete_many p rules) next_id
deleted-HasOneDefault p rules next_id h = record {
  one_default = λ tenant.
      ground (arith, h.one_default tenant, count_where-delete_many (is_default_of tenant) p rules);
  once = λ tenant id.
      ground (arith, h.once tenant id, count_where-delete_many (is_rule tenant id) p rules);
  undrawn = λ tenant id far.
      ground (arith, h.undrawn tenant id far, count_where-delete_many (is_rule tenant id) p rules);
}

-- the rules after the swap of the default
abbrev pub swapped : ℕ → ℕ → Table PricingRule → Table PricingRule
swapped tenant id rules =
    update_many (is_rule tenant id) (as_default true)
      (update_many (loses_default tenant id) (as_default false) rules)

-- the default of the tenant is the rule, and another tenant has the one that it had
pub count_where-swapped :
    (tenant id other : ℕ) (rules : Table PricingRule)
    → count_where (is_default_of other) (swapped tenant id rules) ≡ (
        if other == tenant
        then count_where (is_rule tenant id) rules
        else count_where (is_default_of other) rules)
count_where-swapped tenant id other rules =
    let either : ℕ → PricingRule → Bool =
      λ i r. is_rule tenant id i r && other == tenant || is_default_of other i r in
    count_where-update_many (is_default_of other) either (is_rule tenant id) (as_default true) _
      (λ i r.
        ground (arith, ==_iff r.tenant_id other, ==_iff r.tenant_id tenant, ==_iff other tenant))
    ∙ elim (Bool-cases (other == tenant)) [
      | inl own ↦
          count_where-update_many either (is_rule tenant id) (loses_default tenant id)
            (as_default false) rules
            (λ i r. ground (arith, own, ==_iff r.tenant_id other, ==_iff other tenant))
          ∙ rw own refl
      | inr foreign ↦
          count_where-update_many either (is_default_of other) (loses_default tenant id)
            (as_default false) rules
            (λ i r. ground (
              arith,
              foreign,
              ==_iff r.tenant_id tenant,
              ==_iff r.tenant_id other,
              ==_iff other tenant,
            ))
          ∙ rw foreign refl
    ]

-- a write of the flag leaves the ids
is_rule-swapped :
    (tenant id other k : ℕ) (rules : Table PricingRule)
    → count_where (is_rule other k) (swapped tenant id rules) ≡ count_where (is_rule other k) rules
is_rule-swapped tenant id other k rules =
    count_where-update_many (is_rule other k) (is_rule other k) (is_rule tenant id)
      (as_default true) _ (λ i r. ground arith)
    ∙ count_where-update_many (is_rule other k) (is_rule other k) (loses_default tenant id)
        (as_default false) rules (λ i r. ground arith)

pub swapped-HasOneDefault :
    (tenant id : ℕ) (rules : Table PricingRule) (next_id : ℕ)
    → HasOneDefault rules next_id
    → HasOneDefault (swapped tenant id rules) next_id
swapped-HasOneDefault tenant id rules next_id h = record {
  one_default = λ other.
      ground
        (arith, count_where-swapped tenant id other rules, h.once tenant id, h.one_default other);
  once = λ other k. rw (is_rule-swapped tenant id other k rules) (h.once other k);
  undrawn = λ other k far. rw (is_rule-swapped tenant id other k rules) (h.undrawn other k far);
}
