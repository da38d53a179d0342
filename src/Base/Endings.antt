-- ===== src/Base/Endings.antt =====
-- What holds of the end of a handler: `Q` of the value and the state if it returns, `E` of the error
-- and the state if it throws. One rule for a sequence, and one for each test.
use mathlib.Core.Path.{◌≡◌, refl}
use mathlib.Core.Bool.{Bool, true, false}
use mathlib.Core.Option.{Option, none, some}
use all_in_one_v2_api.Base.Handlers.{
  Error, Outcome, ok, err, Handler, gets, guard, or_throw, ◌>>=◌, and_then, state_of,
}

abbrev pub Ends : {S A : Type 0} → (A → S → Type 0) → (Error → S → Type 0) → Outcome S A → Type 0
Ends Q E (ok a s) = Q a s
Ends Q E (err e s) = E e s

and_then-Ends :
    {S A B : Type 0} (Q : A → S → Type 0) (P : B → S → Type 0) (E : Error → S → Type 0)
    (r : Outcome S A) (f : A → Handler S B)
    → Ends Q E r
    → ((a : A) (t : S) → Q a t → Ends P E (f a t))
    → Ends P E (and_then r f)
and_then-Ends Q P E (ok a s) f h k = k a s h
and_then-Ends Q P E (err e s) f h k = h

module _ {S : Type 0} where
  pub bind-Ends :
      {A B : Type 0} (Q : A → S → Type 0) (P : B → S → Type 0) (E : Error → S → Type 0)
      (m : Handler S A) (f : A → Handler S B) (s : S)
      → Ends Q E (m s)
      → ((a : A) (t : S) → Q a t → Ends P E (f a t))
      → Ends P E ((m >>= f) s)
  unfolding ◌>>=◌
  bind-Ends Q P E m f s h k = and_then-Ends Q P E (m s) f h k

  pub gets-Ends :
      {A : Type 0} (f : S → A) (E : Error → S → Type 0) (s : S)
      → Ends (λ a t. (t ≡ s) × (a ≡ f s)) E (gets f s)
  unfolding gets
  gets-Ends f E s = (refl, refl)

  pub guard-Ends :
      (b : Bool) (e : Error) (E : Error → S → Type 0) (s : S)
      → E e s
      → Ends (λ _ t. (t ≡ s) × (b ≡ true)) E (guard b e s)
  unfolding guard
  guard-Ends true e E s h = (refl, refl)
  guard-Ends false e E s h = h

  pub or_throw-Ends :
      {A : Type 0} (x : Option A) (e : Error) (E : Error → S → Type 0) (s : S)
      → E e s
      → Ends (λ a t. (t ≡ s) × (x ≡ some a)) E (or_throw x e s)
  unfolding or_throw
  or_throw-Ends none e E s h = h
  or_throw-Ends (some a) e E s h = (refl, refl)

  pub Ends-weaken :
      {A : Type 0} (Q P : A → S → Type 0) (E F : Error → S → Type 0) (r : Outcome S A)
      → Ends Q E r
      → ((a : A) (t : S) → Q a t → P a t)
      → ((e : Error) (t : S) → E e t → F e t)
      → Ends P F r
  Ends-weaken Q P E F (ok a s) h p f = p a s h
  Ends-weaken Q P E F (err e s) h p f = f e s h

  pub Ends-state :
      {A : Type 0} (P : S → Type 0) (r : Outcome S A)
      → Ends (λ _ t. P t) (λ _ t. P t) r
      → P (state_of r)
  Ends-state P (ok a s) h = h
  Ends-state P (err e s) h = h

  pub Ends-any : {A : Type 0} (r : Outcome S A) → Ends (λ _ _. Unit {0}) (λ _ _. Unit {0}) r
  Ends-any (ok a s) = tt
  Ends-any (err e s) = tt

  -- from what holds of the state at the end, to the end itself
  pub state-Ends :
      {A : Type 0} (P : S → Type 0) (r : Outcome S A)
      → P (state_of r)
      → Ends (λ _ t. P t) (λ _ t. P t) r
  state-Ends P (ok a s) h = h
  state-Ends P (err e s) h = h
