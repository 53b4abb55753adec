-- ===== src/Outcome/Success.antt =====
-- What a call that succeeded did: the calls that it is made of succeeded.
use ipu_opi_plugins.Prelude.{◌≡◌, refl, Bool, true, false, Option, none, some, arith}
use ipu_opi_plugins.Outcome.{
  Outcome, ok, err, panic, Action, Attempt, or_throw, throw_if, attempt, wrapping, map_err, ◌>>=◌,
  ◌>>◌,
}

module _ {S E A B : Type 0} where
  continues :
      (q : Outcome E A × S) (f : A → Action S E B) (b : B) (s' : S)
      → ((λ s. q) >>= f) q.1 ≡ (ok b, s')
      → (a : A) × (t : S) × (q ≡ (ok a, t)) × (f a t ≡ (ok b, s'))
  continues (ok a, t) f b s' h = (a, t, refl, h)
  continues (err e, t) f b s' h = ground arith
  continues (panic, t) f b s' h = ground arith

  pub bind_ok :
      (m : Action S E A) (f : A → Action S E B) (s s' : S) (b : B)
      → (m >>= f) s ≡ (ok b, s')
      → (a : A) × (t : S) × (m s ≡ (ok a, t)) × (f a t ≡ (ok b, s'))
  bind_ok m f s s' b h = continues (m s) f b s' h

module _ {S D E A : Type 0} where
  unwraps :
      (f : D → E) (q : Outcome D A × S) (a : A) (s' : S)
      → ◌≡◌ {A = Outcome E A × S} (map_err f q.0, q.1) (ok a, s')
      → q ≡ (ok a, s')
  unwraps f (ok b, t) a s' h = ground arith
  unwraps f (err e, t) a s' h = ground arith
  unwraps f (panic, t) a s' h = ground arith

  pub wrapping_ok :
      (f : D → E) (m : Action S D A) (s s' : S) (a : A)
      → wrapping f m s ≡ (ok a, s')
      → m s ≡ (ok a, s')
  wrapping_ok f m s s' a h = unwraps f (m s) a s' h

module _ {S E : Type 0} where
  pub attempt_ok :
      (call : Attempt S) (e : E) (s s' : S) (u : Unit {0})
      → attempt call e s ≡ (ok u, s')
      → call s ≡ (true, s')
  attempt_ok call e s s' u h = ground arith

module _ {S E A B : Type 0} where
  pub or_throw_ok :
      (o : Option A) (e : E) (f : A → Action S E B) (s s' : S) (b : B)
      → (or_throw o e >>= f) s ≡ (ok b, s')
      → (a : A) × (o ≡ some a) × (f a s ≡ (ok b, s'))
  or_throw_ok none e f s s' b h = ground arith
  or_throw_ok (some a) e f s s' b h = (a, refl, h)

module _ {S E B : Type 0} where
  pub throw_if_ok :
      (c : Bool) (e : E) (m : Action S E B) (s s' : S) (b : B)
      → (throw_if c e >> m) s ≡ (ok b, s')
      → (c ≡ false) × (m s ≡ (ok b, s'))
  throw_if_ok true e m s s' b h = ground arith
  throw_if_ok false e m s s' b h = (refl, h)

module _ {E A : Type 0} where
  pub err-ne-ok : {e : E} {a : A} → ◌≡◌ {A = Outcome E A} (err e) (ok a) → ⊥
  err-ne-ok h = ground arith

  pub panic-ne-ok : {a : A} → ◌≡◌ {A = Outcome E A} panic (ok a) → ⊥
  panic-ne-ok h = ground arith
