-- ===== src/Base/Stepping.antt =====
-- A relation between the state before and after a handler, whether it returns or throws: one rule
-- for each way to build a handler.
use mathlib.Core.Path.{◌≡◌, refl, ◌∙◌}
use mathlib.Core.Bool.{Bool, true, false}
use mathlib.Core.Option.{Option, none, some}
use all_in_one_v2_api.Base.Tests.{if◌then◌else◌}
use all_in_one_v2_api.Base.Handlers.{
  Error, Outcome, ok, err, Handler, pure, gets, modify, guard, or_throw, when, attempt, ◌>>=◌,
  and_then, settled, state_of,
}

pub record Preorder {S : Type 0} (R : S → S → Type 0) : Type 0 where
  pub stay : (s : S) → R s s
  pub chain : (s t u : S) → R s t → R t u → R s u

pub record Steps {S A : Type 0} (R : S → S → Type 0) (m : Handler S A) : Type 0 where
  pub at : (s : S) → R s (state_of (m s))

settled-rule :
    {S : Type 0} (R : S → S → Type 0) (s : S) (r : Outcome S (Unit {0}))
    → R s (state_of r)
    → R s (state_of (settled r))
settled-rule R s (ok a t) h = h
settled-rule R s (err e t) h = h

module _ {S : Type 0} {R : S → S → Type 0} where
  pub Steps-pure : {A : Type 0} → Preorder R → (a : A) → Steps R (pure a)
  unfolding pure
  Steps-pure o a = record { at = o.stay }

  pub Steps-gets : {A : Type 0} → Preorder R → (f : S → A) → Steps R (gets f)
  unfolding gets
  Steps-gets o f = record { at = o.stay }

  pub Steps-modify : (f : S → S) → ((s : S) → R s (f s)) → Steps R (modify f)
  unfolding modify
  Steps-modify f h = record { at = h }

  pub Steps-guard : Preorder R → (b : Bool) (e : Error) → Steps R (guard b e)
  unfolding guard
  Steps-guard o true e = record { at = o.stay }
  Steps-guard o false e = record { at = o.stay }

  pub Steps-or_throw :
      {A : Type 0} → Preorder R → (x : Option A) (e : Error) → Steps R (or_throw x e)
  unfolding or_throw
  Steps-or_throw o none e = record { at = o.stay }
  Steps-or_throw o (some a) e = record { at = o.stay }

  pub Steps-when :
      Preorder R → (b : Bool) (m : Handler S (Unit {0})) → Steps R m → Steps R (when b m)
  unfolding when
  Steps-when o true m h = record { at = h.at }
  Steps-when o false m h = record { at = o.stay }

  pub Steps-if :
      {A : Type 0} (b : Bool) (m n : Handler S A)
      → Steps R m
      → Steps R n
      → Steps R (if b then m else n)
  Steps-if true m n h k = h
  Steps-if false m n h k = k

  pub Steps-attempt : (m : Handler S (Unit {0})) → Steps R m → Steps R (attempt m)
  unfolding attempt
  Steps-attempt m h = record { at = λ s. settled-rule R s (m s) (h.at s) }

  and_then-rule :
      {A B : Type 0} (o : Preorder R) (s : S) (r : Outcome S A) (f : A → Handler S B)
      → R s (state_of r)
      → ((a : A) → Steps R (f a))
      → R s (state_of (and_then r f))
  and_then-rule o s (ok a t) f h k = o.chain s t _ h ((k a).at t)
  and_then-rule o s (err e t) f h k = h

  pub Steps-bind :
      {A B : Type 0}
      → Preorder R
      → (m : Handler S A) (f : A → Handler S B) → Steps R m
      → ((a : A) → Steps R (f a))
      → Steps R (m >>= f)
  unfolding ◌>>=◌
  Steps-bind o m f h k = record { at = λ s. and_then-rule o s (m s) f (h.at s) k }

pub ruleset step_rules = (
  Steps-pure, Steps-gets, Steps-modify, Steps-guard, Steps-or_throw, Steps-when, Steps-attempt,
  Steps-bind,
)

-- The parts of the state that `f` shows stay as they are.
abbrev pub Keeps : {S B : Type 0} → (S → B) → S → S → Type 0
Keeps f s t = f t ≡ f s

pub Keeps-Preorder : {S B : Type 0} (f : S → B) → Preorder (Keeps f)
Keeps-Preorder f = record { stay = λ s. refl; chain = λ s t u p q. q ∙ p }
