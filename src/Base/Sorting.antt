-- ===== src/Base/Sorting.antt =====
-- `orderBy` of the database and `Array.prototype.sort`: both keep the order of equal elements.
use mathlib.Core.Path.{◌≡◌, refl, ap, ◌∙◌}
use mathlib.Core.Bool.{Bool, true, false, ◌||◌}
use native.Mathlib.Omega.{arith}
use mathlib.Core.List.{List, [], ◌∷◌}
use all_in_one_v2_api.Base.Tests.{if◌then◌else◌, Bool-cases}
use mathlib.Core.Logic.{inl, inr}
use all_in_one_v2_api.Base.Lists.{any, All}

module _ {A : Type 0} where
  -- `before a b`: `a` has to stand in front of `b`
  unfoldable pub place_in : (A → A → Bool) → A → List A → List A
  place_in before x [] = x ∷ []
  place_in before x (y ∷ ys) =
      let rest = place_in before x ys in if before y x then y ∷ rest else x ∷ y ∷ ys

  unfoldable pub sort_by : (A → A → Bool) → List A → List A
  unfolding place_in
  sort_by before [] = []
  sort_by before (x ∷ xs) = place_in before x (sort_by before xs)

  -- Sorting drops nothing and makes nothing up.
  any-place_in :
      (p : A → Bool) (before : A → A → Bool) (x : A) (xs : List A)
      → any p (place_in before x xs) ≡ (p x || any p xs)
  unfolding place_in
  any-place_in p before x [] = refl
  any-place_in p before x (y ∷ ys) = ground (arith, any-place_in p before x ys)

  pub any-sort_by :
      (p : A → Bool) (before : A → A → Bool) (xs : List A) → any p (sort_by before xs) ≡ any p xs
  unfolding sort_by
  any-sort_by p before [] = refl
  any-sort_by p before (x ∷ xs) =
      any-place_in p before x (sort_by before xs) ∙ ap (λ b. p x || b) (any-sort_by p before xs)

  All-place_in :
      (P : A → Type 0) (before : A → A → Bool) (x : A) (xs : List A)
      → P x
      → All P xs
      → All P (place_in before x xs)
  unfolding place_in
  All-place_in P before x [] h all = (h, tt)
  All-place_in P before x (y ∷ ys) h all = elim (Bool-cases (before y x)) [
    | inl back ↦ rw back (all.0, All-place_in P before x ys h all.1)
    | inr front ↦ rw front (h, all)
  ]

  -- nothing in the list has to stand in front of `x`
  abbrev pub IsFirst : (A → A → Bool) → A → List A → Type 0
  IsFirst before x xs = All (λ y. before y x ≡ false) xs

  abbrev pub IsSorted : (A → A → Bool) → List A → Type 0
  IsSorted before [] = Unit
  IsSorted before (x ∷ xs) = IsFirst before x xs × IsSorted before xs

  -- `before` behaves as a strict order by some rank
  pub record IsRanking (before : A → A → Bool) : Type 0 where
    pub not_both : (x y : A) → before x y ≡ true → before y x ≡ false
    pub through : (x y z : A) → before y x ≡ false → before z y ≡ false → before z x ≡ false

  module _ (before : A → A → Bool) (r : IsRanking before) where
    behind :
        (x y : A) (ys : List A) → before y x ≡ false → IsFirst before y ys → IsFirst before x ys
    behind x y [] h all = tt
    behind x y (z ∷ ys) h all = (r.through x y z h all.0, behind x y ys h all.1)

    place_in-IsSorted :
        (x : A) (xs : List A) → IsSorted before xs → IsSorted before (place_in before x xs)
    unfolding place_in
    place_in-IsSorted x [] h = (tt, tt)
    place_in-IsSorted x (y ∷ ys) h = elim (Bool-cases (before y x)) [
      | inl back ↦ rw back (
        All-place_in (λ z. before z y ≡ false) before x ys (r.not_both y x back) h.0,
        place_in-IsSorted x ys h.1,
      )
      | inr front ↦ rw front ((front, behind x y ys front h.0), h)
    ]

    pub sort_by-IsSorted : (xs : List A) → IsSorted before (sort_by before xs)
    unfolding sort_by
    sort_by-IsSorted [] = tt
    sort_by-IsSorted (x ∷ xs) = place_in-IsSorted x (sort_by before xs) (sort_by-IsSorted xs)
