-- ===== src/World/Calls.antt =====
-- Inversion of a chain of calls that returned: each call in it returned.
use fastapi_template.Prelude.{◌≡◌, refl, ap, Bool, false, Option, none, some, arith}
use fastapi_template.Error.{Error, Result, ok, err}
use fastapi_template.World.{World, Action, ◌>>=◌, raise_if, or_raise}

module _ {A B : Type 0} where
  continue : (A → Action B) → Result A → World → Result B × World
  continue f r w = elim r [ ok a ↦ f a w | err e ↦ (err e, w) ]

  continue-eq-ok :
      (f : A → Action B) (r : Result A) (w : World) (b : B)
      → (continue f r w).0 ≡ ok b
      → (a : A) × (r ≡ ok a) × ((f a w).0 ≡ ok b)
  unfolding continue
  continue-eq-ok f (ok a) w b h = (a, refl, h)
  continue-eq-ok f (err e) w b h = cc

  pub bind-eq-ok :
      (m : Action A) (f : A → Action B) (w : World) (b : B)
      → ((m >>= f) w).0 ≡ ok b
      → (a : A) × ((m w).0 ≡ ok a) × ((f a (m w).1).0 ≡ ok b)
  unfolding continue
  bind-eq-ok m f w b h = continue-eq-ok f (m w).0 (m w).1 b h

  -- The state after a chain is the state after its second call.
  pub bind-state :
      (m : Action A) (f : A → Action B) (w : World) (a : A)
      → (m w).0 ≡ ok a
      → (m >>= f) w ≡ f a (m w).1
  unfolding continue
  bind-state m f w a h = ap (λ r. continue f r (m w).1) h

pub raise_if-eq-ok :
    (c : Bool) (e : Error) (w : World) (t : Unit) → (raise_if c e w).0 ≡ ok t → c ≡ false
raise_if-eq-ok c e w t h = ground arith

pub or_raise-eq-ok :
    {A : Type 0} (o : Option A) (e : Error) (w : World) (a : A)
    → (or_raise o e w).0 ≡ ok a
    → o ≡ some a
or_raise-eq-ok none e w a h = cc
or_raise-eq-ok (some b) e w a h = cc
