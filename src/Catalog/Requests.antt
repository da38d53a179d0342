-- ===== src/Catalog/Requests.antt =====
-- Every request that writes rules keeps a tenant's default single.
use all_in_one_v2_api.Base.{
  ℕ, Option, none, some, List, [], ◌∷◌, Steps, Preorder, step_rules, find_first, rows_where,
}
use all_in_one_v2_api.Catalog.Prices.{PricingRule}
use all_in_one_v2_api.Catalog.Rules.{
  Product, ProductVariant, CatalogStore, Clock, recalculate_product_pricing, recalculate_all,
  recalculate_rule, price_product, price_found, rule_of, is_variant_of, is_product_of,
}
use all_in_one_v2_api.Catalog.Editing.{
  NewRule, RuleChange, swap_default, create_rule, update_rule, delete_rule, apply_to_all,
  RuleRequest, create, edit, remove, make_default, serve_rule, serve_rules,
}
use all_in_one_v2_api.Catalog.Defaults.{
  HasOneDefault, created-HasOneDefault, changed-HasOneDefault, deleted-HasOneDefault,
  swapped-HasOneDefault,
}

abbrev IsRuled : CatalogStore → Type 0
IsRuled s = HasOneDefault s.rules s.next_id

-- prices are no rules
priced-IsRuled :
    (c : Clock) (id : ℕ) (rule : Option PricingRule) (variants : List ProductVariant)
    (s : CatalogStore)
    → IsRuled s
    → IsRuled (price_product c id rule variants s)
priced-IsRuled c id rule [] s h = h
priced-IsRuled c id rule (v ∷ variants) s h = h

found-IsRuled :
    (c : Clock) (id : ℕ) (row : Option (ℕ × Product)) (s : CatalogStore)
    → IsRuled s
    → IsRuled (price_found c id row s)
found-IsRuled c id none s h = h
found-IsRuled c id (some (_, p)) s h =
    priced-IsRuled c id (rule_of p s) (rows_where (is_variant_of c.tenant id) s.variants) s h

recalculate_product-IsRuled :
    (c : Clock) (id : ℕ) (s : CatalogStore)
    → IsRuled s
    → IsRuled (recalculate_product_pricing c id s)
unfolding recalculate_product_pricing
recalculate_product-IsRuled c id s h =
    found-IsRuled c id (find_first (is_product_of c.tenant id) s.products) s h

recalculate_all-IsRuled :
    (c : Clock) (ids : List ℕ) (s : CatalogStore) → IsRuled s → IsRuled (recalculate_all c ids s)
unfolding recalculate_all
recalculate_all-IsRuled c [] s h = h
recalculate_all-IsRuled c (id ∷ ids) s h =
    recalculate_all-IsRuled c ids (recalculate_product_pricing c id s)
      (recalculate_product-IsRuled c id s h)

recalculate_rule-IsRuled :
    (c : Clock) (id : ℕ) (s : CatalogStore) → IsRuled s → IsRuled (recalculate_rule c id s)
unfolding recalculate_rule
recalculate_rule-IsRuled c id s h = recalculate_all-IsRuled c _ s h

swap_default-IsRuled :
    (c : Clock) (id : ℕ) (previous : Option ℕ) (s : CatalogStore)
    → IsRuled s
    → IsRuled (swap_default c id previous s)
unfolding swap_default
swap_default-IsRuled c id previous s h = swapped-HasOneDefault c.tenant id s.rules s.next_id h

abbrev KeepsRuled : CatalogStore → CatalogStore → Type 0
KeepsRuled s t = IsRuled s → IsRuled t

KeepsRuled-Preorder : Preorder KeepsRuled
KeepsRuled-Preorder = record { stay = λ s h. h; chain = λ s t u f g h. g (f h) }

ruleset ruled = (
  step_rules, KeepsRuled-Preorder, recalculate_rule-IsRuled, swap_default-IsRuled,
  created-HasOneDefault, changed-HasOneDefault, deleted-HasOneDefault,
)

create_rule-Steps : (c : Clock) (input : NewRule) → Steps KeepsRuled (create_rule c input)
unfolding create_rule
create_rule-Steps c input = search ruled depth 12

update_rule-Steps :
    (c : Clock) (id : ℕ) (input : RuleChange) → Steps KeepsRuled (update_rule c id input)
unfolding update_rule
update_rule-Steps c id input = search ruled depth 12

delete_rule-Steps : (c : Clock) (id : ℕ) → Steps KeepsRuled (delete_rule c id)
unfolding delete_rule
delete_rule-Steps c id = search ruled depth 12

apply_to_all-Steps : (c : Clock) (id : ℕ) → Steps KeepsRuled (apply_to_all c id)
unfolding apply_to_all
apply_to_all-Steps c id = search ruled depth 12

serve_rule-IsRuled : (r : RuleRequest) (s : CatalogStore) → IsRuled s → IsRuled (serve_rule r s)
unfolding serve_rule
serve_rule-IsRuled (create c input) s = (create_rule-Steps c input).at s
serve_rule-IsRuled (edit c id input) s = (update_rule-Steps c id input).at s
serve_rule-IsRuled (remove c id) s = (delete_rule-Steps c id).at s
serve_rule-IsRuled (make_default c id) s = (apply_to_all-Steps c id).at s

-- Whatever requests create, edit, delete pricing rules or make one the default, whether they succeed or
-- are refused: where every tenant has at most one default rule and ids are drawn once, that stays so.
pub serve_rules-HasOneDefault :
    (requests : List RuleRequest) (s : CatalogStore)
    → HasOneDefault s.rules s.next_id
    → HasOneDefault (serve_rules requests s).rules (serve_rules requests s).next_id
unfolding serve_rules
serve_rules-HasOneDefault [] s h = h
serve_rules-HasOneDefault (r ∷ requests) s h =
    serve_rules-HasOneDefault requests (serve_rule r s) (serve_rule-IsRuled r s h)
