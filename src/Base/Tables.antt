-- ===== src/Base/Tables.antt =====
-- A database table: rows under their primary keys, the newest first.
use Prim.Native.Nat.{ℕ, ◌+◌, ◌≤◌}
use mathlib.Core.Path.{◌≡◌, refl}
use mathlib.Core.Bool.{Bool, true, false}
use mathlib.Core.List.{List, [], ◌∷◌}
use mathlib.Core.Option
use mathlib.Core.Option.{Option, none, some}
use native.Mathlib.Omega.{arith}
use all_in_one_v2_api.Base.Tests.{◌==◌, if◌then◌else◌, ==_iff}

abbrev pub Table : Type 0 → Type 0
Table A = List (ℕ × A)

module _ {A : Type 0} where
  -- `findUnique({ where: { id } })`
  unfoldable pub find : ℕ → Table A → Option A
  find k [] = none
  find k ((i, a) ∷ t) = if k == i then some a else find k t

  -- `create`, under a key that the caller drew
  unfoldable pub insert : ℕ → A → Table A → Table A
  insert k a t = (k, a) ∷ t

  -- `updateMany({ where, data })`
  unfoldable pub update_many : (ℕ → A → Bool) → (A → A) → Table A → Table A
  update_many p f [] = []
  update_many p f ((i, a) ∷ t) = (i, (if p i a then f a else a)) ∷ update_many p f t

  -- `update({ where: { id }, data })`
  unfoldable pub update : ℕ → (A → A) → Table A → Table A
  update k f t = update_many (λ i a. i == k) f t

  -- `findFirst({ where, orderBy: { createdAt: 'desc' } })`
  unfoldable pub find_first : (ℕ → A → Bool) → Table A → Option (ℕ × A)
  find_first p [] = none
  find_first p ((i, a) ∷ t) = if p i a then some (i, a) else find_first p t

  -- `count > 0`
  unfoldable pub any_row : (ℕ → A → Bool) → Table A → Bool
  any_row p [] = false
  any_row p ((i, a) ∷ t) = if p i a then true else any_row p t

  -- `deleteMany({ where })`
  unfoldable pub delete_many : (ℕ → A → Bool) → Table A → Table A
  delete_many p [] = []
  delete_many p ((i, a) ∷ t) = let rest = delete_many p t in if p i a then rest else (i, a) ∷ rest

  -- `findMany({ where })`
  unfoldable pub rows_where : (ℕ → A → Bool) → Table A → List A
  rows_where p [] = []
  rows_where p ((i, a) ∷ t) = let rest = rows_where p t in if p i a then a ∷ rest else rest

  -- `count({ where })`
  unfoldable pub count_where : (ℕ → A → Bool) → Table A → ℕ
  count_where p [] = 0
  count_where p ((i, a) ∷ t) = let rest = count_where p t in if p i a then rest + 1 else rest

  -- Each key stands once.
  abbrev pub IsKeyed : Table A → Type 0
  IsKeyed [] = Unit
  IsKeyed ((i, a) ∷ t) = (find i t ≡ none) × IsKeyed t

  pub find-insert :
      (j k : ℕ) (a : A) (t : Table A)
      → find j (insert k a t) ≡ (if j == k then some a else find j t)
  unfolding find insert
  find-insert j k a t = refl

  pub find-update_many :
      (j : ℕ) (p : ℕ → A → Bool) (f : A → A) (t : Table A)
      → find j (update_many p f t) ≡ Option.map (λ a. if p j a then f a else a) (find j t)
  unfolding find update_many
  find-update_many j p f [] = refl
  find-update_many j p f ((i, a) ∷ t) = ground (arith, find-update_many j p f t)

  pub find-update :
      (j k : ℕ) (f : A → A) (t : Table A)
      → find j (update k f t) ≡ (if j == k then Option.map f (find j t) else find j t)
  unfolding find update update_many
  find-update j k f [] = ground arith
  find-update j k f ((i, a) ∷ t) = ground (arith, find-update j k f t)

  pub find_first-holds :
      (p : ℕ → A → Bool) (t : Table A) (k : ℕ) (a : A) → find_first p t ≡ some (k, a) → p k a ≡ true
  unfolding find_first
  find_first-holds p [] k a h = ground arith
  find_first-holds p ((i, b) ∷ t) k a h = ground (arith, find_first-holds p t k a)

  pub find-of-find_first :
      (p : ℕ → A → Bool) (t : Table A) (k : ℕ) (a : A)
      → IsKeyed t
      → find_first p t ≡ some (k, a)
      → find k t ≡ some a
  unfolding find find_first
  find-of-find_first p [] k a u h = ground arith
  find-of-find_first p ((i, b) ∷ t) k a u h =
      ground (arith, find-of-find_first p t k a u.1, ==_iff k i)

  pub update_many-IsKeyed :
      (p : ℕ → A → Bool) (f : A → A) (t : Table A) → IsKeyed t → IsKeyed (update_many p f t)
  unfolding update_many
  update_many-IsKeyed p f [] u = u
  update_many-IsKeyed p f ((i, a) ∷ t) u =
      (ground (arith, find-update_many i p f t), update_many-IsKeyed p f t u.1)

  pub find-update_many_matched :
      (k : ℕ) (p : ℕ → A → Bool) (f : A → A) (t : Table A) (a : A)
      → find k t ≡ some a
      → p k a ≡ true
      → find k (update_many p f t) ≡ some (f a)
  find-update_many_matched k p f t a h m = rw (find-update_many k p f t, h) (ground arith)

  pub find-update_many_unmatched :
      (k : ℕ) (p : ℕ → A → Bool) (f : A → A) (t : Table A) (a : A)
      → find k t ≡ some a
      → p k a ≡ false
      → find k (update_many p f t) ≡ some a
  find-update_many_unmatched k p f t a h m = rw (find-update_many k p f t, h) (ground arith)

  -- Where no row passes the test, none that can be found does.
  pub any_row-find :
      (p : ℕ → A → Bool) (t : Table A) (k : ℕ) (a : A)
      → any_row p t ≡ false
      → find k t ≡ some a
      → p k a ≡ false
  unfolding find any_row
  any_row-find p [] k a n h = ground arith
  any_row-find p ((i, b) ∷ t) k a n h = ground (arith, any_row-find p t k a, ==_iff k i)

  -- A write that leaves the test alone leaves the row that is found first.
  pub find_first-update_many :
      (p q : ℕ → A → Bool) (f : A → A) (t : Table A)
      → ((k : ℕ) (a : A) → p k (f a) ≡ p k a)
      → find_first p (update_many q f t)
        ≡ Option.map (λ r. (r.0, (if q r.0 r.1 then f r.1 else r.1))) (find_first p t)
  unfolding find_first update_many
  find_first-update_many p q f [] keep = refl
  find_first-update_many p q f ((i, a) ∷ t) keep =
      ground (arith, find_first-update_many p q f t keep, keep i a)

  -- Where the first row of one test passes another, some row passes that one.
  pub any_row-find_first :
      (p q : ℕ → A → Bool) (t : Table A) (k : ℕ) (a : A)
      → find_first p t ≡ some (k, a)
      → q k a ≡ true
      → any_row q t ≡ true
  unfolding find_first any_row
  any_row-find_first p q [] k a h m = ground arith
  any_row-find_first p q ((i, b) ∷ t) k a h m = ground (arith, any_row-find_first p q t k a)

  -- the rows that pass one test after a write are those that passed another before it
  pub count_where-update_many :
      (p q r : ℕ → A → Bool) (f : A → A) (t : Table A)
      → ((i : ℕ) (a : A) → p i (if r i a then f a else a) ≡ q i a)
      → count_where p (update_many r f t) ≡ count_where q t
  unfolding count_where update_many
  count_where-update_many p q r f [] h = refl
  count_where-update_many p q r f ((i, a) ∷ t) h =
      rw (h i a, count_where-update_many p q r f t h) refl

  pub count_where-delete_many :
      (p q : ℕ → A → Bool) (t : Table A) → count_where p (delete_many q t) ≤ count_where p t
  unfolding count_where delete_many
  count_where-delete_many p q [] = omega arith
  count_where-delete_many p q ((i, a) ∷ t) = ground (arith, count_where-delete_many p q t)
