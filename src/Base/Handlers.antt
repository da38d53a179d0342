-- ===== src/Base/Handlers.antt =====
-- An asynchronous handler: it reads and writes a state `S`, and returns or throws. What was written
-- before a throw stays written.
use Prim.Native.Nat.{ℕ}
use mathlib.Core.Bool.{Bool, true, false}
use mathlib.Core.Option.{Option, none, some}

-- `http n` is `throwResponse(n, …)`; `thrown` is any other exception.
pub data Error : Type 0 where
  http : ℕ → Error
  thrown : Error

pub data Outcome (S A : Type 0) : Type 0 where
  ok : A → S → Outcome S A
  err : Error → S → Outcome S A

abbrev pub Handler : Type 0 → Type 0 → Type 0
Handler S A = S → Outcome S A

module _ {S : Type 0} where
  unfoldable pub pure : {A : Type 0} → A → Handler S A
  pure a s = ok a s

  unfoldable pub throw : {A : Type 0} → Error → Handler S A
  throw e s = err e s

  unfoldable pub gets : {A : Type 0} → (S → A) → Handler S A
  gets f s = ok (f s) s

  unfoldable pub modify : (S → S) → Handler S (Unit {0})
  modify f s = ok tt (f s)

  unfoldable pub guard : Bool → Error → Handler S (Unit {0})
  guard true e s = ok tt s
  guard false e s = err e s

  unfoldable pub or_throw : {A : Type 0} → Option A → Error → Handler S A
  or_throw none e s = err e s
  or_throw (some a) e s = ok a s

  unfoldable pub when : Bool → Handler S (Unit {0}) → Handler S (Unit {0})
  when true m s = m s
  when false m s = ok tt s

  abbrev pub settled : Outcome S (Unit {0}) → Outcome S (Unit {0})
  settled (ok a s) = ok tt s
  settled (err e s) = ok tt s

  -- `try { … } catch { log }`
  unfoldable pub attempt : Handler S (Unit {0}) → Handler S (Unit {0})
  attempt m s = settled (m s)

abbrev pub and_then : {S A B : Type 0} → Outcome S A → (A → Handler S B) → Outcome S B
and_then (ok a s) f = f a s
and_then (err e s) f = err e s

-- Opening this opens the other handlers of this file too.
infixl 5 ◌>>=◌ ◌>>◌
unfoldable pub ◌>>=◌ : {S A B : Type 0} → Handler S A → (A → Handler S B) → Handler S B
unfolding pure throw gets modify guard or_throw when attempt
◌>>=◌ m f s = and_then (m s) f

abbrev pub ◌>>◌ : {S A B : Type 0} → Handler S A → Handler S B → Handler S B
m >> k = m >>= λ _. k

abbrev pub state_of : {S A : Type 0} → Outcome S A → S
state_of (ok a s) = s
state_of (err e s) = s

abbrev pub succeeds : {S A : Type 0} → Outcome S A → Bool
succeeds (ok a s) = true
succeeds (err e s) = false

abbrev pub put_back : {S T A : Type 0} → (T → S → S) → S → Outcome T A → Outcome S A
put_back put s (ok a t) = ok a (put t s)
put_back put s (err e t) = err e (put t s)

-- a handler of a part of the state
unfoldable pub on : {S T A : Type 0} → (S → T) → (T → S → S) → Handler T A → Handler S A
on get put m s = put_back put s (m (get s))
