-- ===== src/Catalog/Swap.antt =====
-- What applyToAll does to the rules and the products.
use mathlib.Core.Option
use all_in_one_v2_api.Base.{
  ℕ, ◌≤◌, ◌≡◌, refl, ◌∙◌, ap, ◌==◌, Bool, true, false, ◌&&◌, Option, none, some, List, [], ◌∷◌,
  arith, length, if◌then◌else◌, Table, find, find_first, find-update_many, count_where,
  count_where-update_many, Option-cases, inl, inr, ==_refl, rows_where, http, ◌>>=◌, pure, gets,
  modify, or_throw, Ends,
}
use all_in_one_v2_api.Catalog.Prices.{PricingRule}
use all_in_one_v2_api.Catalog.Rules.{
  Product, ProductVariant, CatalogStore, Clock, is_rule, find_rule, is_default_of,
  recalculate_product_pricing, recalculate_all, recalculate_rule, price_product, price_found,
  is_product_of, ids_where, rule_of, is_variant_of,
}
use all_in_one_v2_api.Catalog.Editing.{
  as_default, loses_default, swap_default, apply_to_all, is_eligible, replaced, with_rule,
}
use all_in_one_v2_api.Catalog.Defaults.{HasOneDefault, count_where-swapped, swapped}

-- the rule that a product refers to, if there is that product
abbrev pub rule_ref : ℕ → Table Product → Option (Option ℕ)
rule_ref k t = Option.map (λ p. p.pricing_rule_id) (find k t)

-- what prices leave: the rules, and the rules that products refer to
pub record OnlyPrices (s t : CatalogStore) : Type 0 where
  pub same_rules : t.rules ≡ s.rules
  pub same_refs : (k : ℕ) → rule_ref k t.products ≡ rule_ref k s.products

ref-mapped :
    (b : ℕ → Product → Bool) (k : ℕ) (f : Product → Product) (x : Option Product)
    → ((p : Product) → (f p).pricing_rule_id ≡ p.pricing_rule_id)
    → Option.map (λ p. p.pricing_rule_id) (Option.map (λ p. if b k p then f p else p) x)
      ≡ Option.map (λ p. p.pricing_rule_id) x
ref-mapped b k f none h = refl
ref-mapped b k f (some p) h = ground (arith, h p)

price_product-OnlyPrices :
    (c : Clock) (id : ℕ) (rule : Option PricingRule) (variants : List ProductVariant)
    (s : CatalogStore)
    → OnlyPrices s (price_product c id rule variants s)
price_product-OnlyPrices c id rule [] s = record { same_rules = refl; same_refs = λ k. refl }
price_product-OnlyPrices c id rule (v ∷ variants) s = record {
  same_rules = refl;
  same_refs = λ k.
      ap (Option.map (λ p. p.pricing_rule_id)) (find-update_many k _ _ s.products)
      ∙ ref-mapped (is_product_of c.tenant id) k _ (find k s.products) (λ p. refl);
}

price_found-OnlyPrices :
    (c : Clock) (id : ℕ) (row : Option (ℕ × Product)) (s : CatalogStore)
    → OnlyPrices s (price_found c id row s)
price_found-OnlyPrices c id none s = record { same_rules = refl; same_refs = λ k. refl }
price_found-OnlyPrices c id (some (_, p)) s =
    price_product-OnlyPrices c id (rule_of p s) (rows_where (is_variant_of c.tenant id) s.variants)
      s

recalculate_all-OnlyPrices :
    (c : Clock) (ids : List ℕ) (s : CatalogStore) → OnlyPrices s (recalculate_all c ids s)
unfolding recalculate_all recalculate_product_pricing
recalculate_all-OnlyPrices c [] s = record { same_rules = refl; same_refs = λ k. refl }
recalculate_all-OnlyPrices c (id ∷ ids) s =
    let first = price_found-OnlyPrices c id (find_first (is_product_of c.tenant id) s.products) s in
    let rest = recalculate_all-OnlyPrices c ids (recalculate_product_pricing c id s) in
    record {
      same_rules = rest.same_rules ∙ first.same_rules;
      same_refs = λ k. rest.same_refs k ∙ first.same_refs k;
    }

length-ids_where :
    {A : Type 0} (p : ℕ → A → Bool) (t : Table A) → length (ids_where p t) ≡ count_where p t
unfolding ids_where count_where
length-ids_where p [] = refl
length-ids_where p ((i, a) ∷ t) = ground (arith, length-ids_where p t)

found-counts :
    {A : Type 0} (p : ℕ → A → Bool) (t : Table A) (row : ℕ × A)
    → find_first p t ≡ some row
    → 1 ≤ count_where p t
unfolding find_first count_where
found-counts p [] row h = ground arith
found-counts p ((i, a) ∷ t) row h = ground (arith, found-counts p t row)

-- the rule a product refers to after the move: the new default, where it had none or the old one
abbrev pub moved_ref : Clock → ℕ → Option ℕ → ℕ → Product → Option ℕ
moved_ref c id previous k p =
    if is_eligible c.tenant previous k p then some id else p.pricing_rule_id

swap-ref :
    (c : Clock) (id k : ℕ) (previous : Option ℕ) (s : CatalogStore)
    → rule_ref k (swap_default c id previous s).products
      ≡ Option.map (moved_ref c id previous k) (find k s.products)
unfolding swap_default
swap-ref c id k previous s =
    ap (Option.map (λ p. p.pricing_rule_id)) (find-update_many k _ _ s.products)
    ∙ mapped (find k s.products)
  where
    mapped :
        (x : Option Product)
        → Option.map
            (λ p. p.pricing_rule_id)
            (Option.map (λ p. if is_eligible c.tenant previous k p then with_rule id p else p) x)
          ≡ Option.map (moved_ref c id previous k) x
    mapped none = refl
    mapped (some p) = ground arith

abbrev pub is_chosen : ℕ → ℕ → ℕ → PricingRule → Bool
is_chosen tenant id i r = is_default_of tenant i r && i == id

-- the rule with the id is the default after the swap
chosen-swapped :
    (tenant id : ℕ) (rules : Table PricingRule)
    → count_where (is_chosen tenant id) (swapped tenant id rules)
      ≡ count_where (is_rule tenant id) rules
chosen-swapped tenant id rules =
    count_where-update_many (is_chosen tenant id) (is_rule tenant id) (is_rule tenant id)
      (as_default true) _ (λ i r. ground arith)
    ∙ count_where-update_many (is_rule tenant id) (is_rule tenant id) (loses_default tenant id)
        (as_default false) rules (λ i r. ground arith)

-- the rule of the tenant that was the default before, if another one was
abbrev pub previous_default : Clock → ℕ → CatalogStore → Option ℕ
previous_default c id s = replaced id (find_first (is_default_of c.tenant) s.rules)

pub record IsSwapped (c : Clock) (id : ℕ) (s : CatalogStore) (n : ℕ) (t : CatalogStore)
    : Type 0 where
  pub row : ℕ × PricingRule
  pub known : find_rule c.tenant id s ≡ some row
  pub single : count_where (is_default_of c.tenant) t.rules ≡ 1
  pub chosen : count_where (is_chosen c.tenant id) t.rules ≡ 1
  pub refs :
      (k : ℕ)
      → rule_ref k t.products
        ≡ Option.map (moved_ref c id (previous_default c id s) k) (find k s.products)
  pub counted : n ≡ count_where (is_eligible c.tenant (previous_default c id s)) s.products

swap-IsSwapped :
    (c : Clock) (id : ℕ) (s : CatalogStore) (row : ℕ × PricingRule)
    → HasOneDefault s.rules s.next_id
    → find_rule c.tenant id s ≡ some row
    → IsSwapped c id s
        (length (ids_where (is_eligible c.tenant (previous_default c id s)) s.products))
        (recalculate_rule c id (swap_default c id (previous_default c id s) s))
unfolding recalculate_rule swap_default
swap-IsSwapped c id s row h found =
    let u = swap_default c id (previous_default c id s) s in
    let there = found-counts (is_rule c.tenant id) s.rules row found in
    let single' : count_where (is_rule c.tenant id) s.rules ≡ 1 =
      ground (arith, there, h.once c.tenant id) in
    let kept = recalculate_all-OnlyPrices c _ u in
    record {
      row = row;
      known = found;
      single =
          ap (count_where (is_default_of c.tenant)) kept.same_rules
          ∙ count_where-swapped c.tenant id c.tenant s.rules
          ∙ rw (==_refl c.tenant) single';
      chosen =
          ap (count_where (is_chosen c.tenant id)) kept.same_rules
          ∙ chosen-swapped c.tenant id s.rules
          ∙ single';
      refs = λ k. kept.same_refs k ∙ swap-ref c id k (previous_default c id s) s;
      counted = length-ids_where _ s.products;
    }

-- Making a pricing rule the default, where a tenant has at most one default and ids are drawn once: the
-- rule is the tenant's own, it is the tenant's one default afterwards, and exactly the products of the
-- tenant that are not deleted and had no rule or the default before refer to it now, while every other
-- product refers to the rule it had; the answer counts them. An unknown rule is refused, and nothing has
-- changed.
pub apply_to_all_effect :
    (c : Clock) (id : ℕ) (s : CatalogStore)
    → HasOneDefault s.rules s.next_id
    → Ends (λ n t. IsSwapped c id s n t) (λ e t. (e ≡ http 404) × (t ≡ s)) (apply_to_all c id s)
unfolding apply_to_all or_throw gets modify pure ◌>>=◌
apply_to_all_effect c id s h = elim (Option-cases (find_rule c.tenant id s)) [
  | inl absent ↦ rw absent (refl, refl)
  | inr (row, found) ↦ rw found (swap-IsSwapped c id s row h found)
]
