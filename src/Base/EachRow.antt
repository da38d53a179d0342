-- ===== src/Base/EachRow.antt =====
-- A predicate that holds of every row that can be found.
use mathlib.Core.Path.{◌≡◌, refl, sym, ◌∙◌}
use mathlib.Core.Logic.{inl, inr}
use mathlib.Core.Option.{some}
use mathlib.Core.Bool.{Bool, true, false}
use mathlib.Core.List.{[]}
use Prim.Native.Nat.{ℕ}
use native.Mathlib.Omega.{arith}
use all_in_one_v2_api.Base.Tests.{◌==◌, Bool-cases, Option-cases, if◌then◌else◌}
use all_in_one_v2_api.Base.Tables.{Table, find, insert, update_many, find-update_many}

module _ {A : Type 0} where
  abbrev pub Everywhere : (A → Type 0) → Table A → Type 0
  Everywhere P t = (k : ℕ) (a : A) → find k t ≡ some a → P a

  chosen :
      (P : A → Type 0) (b : Bool) (x y a : A)
      → some (if b then x else y) ≡ some a
      → (b ≡ true → P x)
      → (b ≡ false → P y)
      → P a
  chosen P true x y a h p q = let same : x ≡ a = ground arith in rw same at (p refl)
  chosen P false x y a h p q = let same : y ≡ a = ground arith in rw same at (q refl)

  pub Everywhere-insert :
      (P : A → Type 0) (k : ℕ) (a : A) (t : Table A)
      → P a
      → Everywhere P t
      → Everywhere P (insert k a t)
  unfolding insert find
  Everywhere-insert P k a t new all j b h = elim (Bool-cases (j == k)) [
    | inl hit ↦ let same : a ≡ b = ground arith in rw same at new
    | inr miss ↦ all j b (rw miss at h)
  ]

  pub Everywhere-update_many :
      (P : A → Type 0) (p : ℕ → A → Bool) (f : A → A) (t : Table A)
      → ((k : ℕ) (a : A) → find k t ≡ some a → p k a ≡ true → P (f a))
      → Everywhere P t
      → Everywhere P (update_many p f t)
  Everywhere-update_many P p f t kept all j b h = elim (Option-cases (find j t)) [
    | inl absent ↦ ground (arith, find-update_many j p f t)
    | inr (a, found) ↦
        chosen P (p j a) (f a) a b (sym (rw found at (find-update_many j p f t)) ∙ h)
          (λ passes. kept j a found passes) (λ fails. all j a found)
  ]

  pub Everywhere-nil : (P : A → Type 0) → Everywhere P []
  unfolding find
  Everywhere-nil P k a h = ground arith
