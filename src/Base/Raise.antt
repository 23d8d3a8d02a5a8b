-- ===== src/Base/Raise.antt =====
-- Guards: a test that raises, a value that has to be there, and what a call that returned went
-- through.
use mathlib.Core.Bool.{Bool, true, false}
use mathlib.Core.Option.{Option, none, some}
use mathlib.Core.Path.{◌≡◌, refl}
use native.Mathlib.Omega.{arith}
use aletheia_onto.Base.Outcome.{Result, ok, err, ◌>>=◌}

-- `if test: raise error`
abbrev pub raise_if {κ} : {E : Type κ} → Bool → E → Result E (Unit {0})
raise_if true e = err e
raise_if false e = ok tt

-- `if row is None: raise error`
abbrev pub or_raise {ℓ κ} : {E : Type κ} {A : Type ℓ} → Option A → E → Result E A
or_raise none e = err e
or_raise (some a) e = ok a

module _ {E : Type 0} {A B : Type 0} where
  pub bind_returned :
      (m : Result E A) (f : A → Result E B) (b : B)
      → (m >>= f) ≡ ok b
      → (a : A) × (m ≡ ok a) × (f a ≡ ok b)
  bind_returned (ok a) f b h = (a, refl, h)
  bind_returned (err e) f b h = absurd (ground arith)

  pub or_raise_returned :
      (o : Option A) (e : E) (f : A → Result E B) (b : B)
      → (or_raise o e >>= f) ≡ ok b
      → (a : A) × (o ≡ some a) × (f a ≡ ok b)
  or_raise_returned none e f b h = absurd (ground arith)
  or_raise_returned (some a) e f b h = (a, refl, h)

module _ {E : Type 0} {B : Type 0} where
  pub raise_if_returned :
      (t : Bool) (e : E) (k : Result E B) (b : B)
      → (raise_if t e >>= λ _. k) ≡ ok b
      → (t ≡ false) × (k ≡ ok b)
  raise_if_returned true e k b h = absurd (ground arith)
  raise_if_returned false e k b h = (refl, h)
