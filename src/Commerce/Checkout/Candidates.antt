-- ===== src/Commerce/Checkout/Candidates.antt =====
-- src/modules/promotion/promotion.repository.ts: the promotions that a checkout considers, and the count
-- of their uses.
use all_in_one_v2_api.Base.{
  ℕ, ◌+◌, ◌==◌, Bool, true, false, not, ◌&&◌, ◌||◌, Option, none, some, List, [], ◌∷◌, map, any,
  if◌then◌else◌, Table, update_many, ltb, leb, sort_by,
}
use all_in_one_v2_api.Promotion.{Promo, Applied}
use all_in_one_v2_api.Commerce.Checkout.Shop.{PromotionRow}

abbrev pub has_started : ℕ → Option ℕ → Bool
has_started now none = true
has_started now (some start) = leb start now

abbrev pub has_not_ended : ℕ → Option ℕ → Bool
has_not_ended now none = true
has_not_ended now (some end) = leb now end

abbrev pub below_limit : ℕ → Option ℕ → Bool
below_limit used none = true
below_limit used (some limit) = ltb used limit

-- the `OR` on the code
abbrev pub code_matches : Option ℕ → Option ℕ → Bool
code_matches asked none = true
code_matches none (some code) = false
code_matches (some asked) (some code) = code == asked

-- the `where` of findActiveCandidates
abbrev pub is_candidate : ℕ → ℕ → Option ℕ → PromotionRow → Bool
is_candidate tenant now code p =
    p.tenant_id == tenant
    && not p.deleted
    && p.is_active
    && has_started now p.starts
    && has_not_ended now p.ends
    && below_limit p.usage_count p.usage_limit
    && code_matches code p.code

unfoldable pub candidate_rows : (PromotionRow → Bool) → Table PromotionRow → List (ℕ × PromotionRow)
candidate_rows p [] = []
candidate_rows p ((i, r) ∷ t) = let rest = candidate_rows p t in if p r then (i, r) ∷ rest else rest

-- `orderBy`: the higher priority first, among equals the row that was created first. Ids are drawn in
-- the order of creation.
abbrev pub ranks_before : ℕ × PromotionRow → ℕ × PromotionRow → Bool
ranks_before (i, p) (j, q) = ltb q.priority p.priority || (p.priority == q.priority && ltb i j)

abbrev pub promo_of : ℕ × PromotionRow → Promo
promo_of (i, p) = record { id = i; rules = p.rules; targets = p.targets; rewards = p.rewards }

-- findActiveCandidates
unfoldable pub find_active_candidates : ℕ → ℕ → Option ℕ → Table PromotionRow → List Promo
unfolding candidate_rows sort_by
find_active_candidates tenant now code t =
    map promo_of (sort_by ranks_before (candidate_rows (is_candidate tenant now code) t))

abbrev pub is_applied : List Applied → ℕ → Bool
is_applied applied id = any (λ (a : Applied). a.promotion_id == id) applied

abbrev pub used_again : PromotionRow → PromotionRow
used_again p = record p { usage_count = p.usage_count + 1 }

-- incrementUsage, on the ids of the promotions that were applied
unfoldable pub increment_promotions : List Applied → Table PromotionRow → Table PromotionRow
increment_promotions applied t = update_many (λ id _. is_applied applied id) used_again t
