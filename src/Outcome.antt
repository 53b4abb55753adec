-- ===== src/Outcome.antt =====
-- Calls of the Go code: a value, an error or a panic, beside the state that the call leaves.
-- The state comes back after an error too, since what was written stays written.
pub mod Success
use ipu_opi_plugins.Prelude.{◌⊎◌, inl, inr, ◌≡◌, ◌≢◌, refl, Bool, Option, none, some, if◌then◌else◌}

pub data Outcome (E A : Type 0) : Type 0 where
  ok : A → Outcome E A
  err : E → Outcome E A
  panic : Outcome E A

abbrev pub Action : Type 0 → Type 0 → Type 0 → Type 0
Action S E A = S → Outcome E A × S

-- A call into the system that succeeds or fails, where the program reads no more of its error.
abbrev pub Attempt : Type 0 → Type 0
Attempt S = S → Bool × S

module _ {S E A : Type 0} where
  abbrev pub pure : A → Action S E A
  pure a s = (ok a, s)

  abbrev pub throw : E → Action S E A
  throw e s = (err e, s)

  -- An index out of range, or a nil pointer followed.
  abbrev pub crash : Action S E A
  crash s = (panic, s)

  abbrev pub gets : (S → A) → Action S E A
  gets f s = (ok (f s), s)

  abbrev pub or_throw : Option A → E → Action S E A
  or_throw none e = throw e
  or_throw (some a) _ = pure a

  abbrev pub or_crash : Option A → Action S E A
  or_crash none = crash
  or_crash (some a) = pure a

  abbrev pub of_outcome : Outcome E A → Action S E A
  of_outcome r s = (r, s)

module _ {S E : Type 0} where
  abbrev pub throw_if : Bool → E → Action S E (Unit {0})
  throw_if c e s = (if c then err e else ok tt, s)

  abbrev pub modify : (S → S) → Action S E (Unit {0})
  modify f s = (ok tt, f s)

  abbrev pub attempt : Attempt S → E → Action S E (Unit {0})
  attempt call e s = let (done, s') = call s in (if done then ok tt else err e, s')

infixl 5 ◌>>=◌ ◌>>◌
abbrev pub ◌>>=◌ : {S E A B : Type 0} → Action S E A → (A → Action S E B) → Action S E B
◌>>=◌ m f s =
    let (r, s') = m s in elim r [ ok a ↦ f a s' | err e ↦ (err e, s') | panic ↦ (panic, s') ]

abbrev pub ◌>>◌ : {S E A B : Type 0} → Action S E A → Action S E B → Action S E B
m >> k = m >>= λ _. k

-- `fmt.Errorf("…: %v", err)`: an error that carries another.
abbrev pub map_err : {D E A : Type 0} → (D → E) → Outcome D A → Outcome E A
map_err f (ok a) = ok a
map_err f (err e) = err (f e)
map_err f panic = panic

abbrev pub wrapping : {S D E A : Type 0} → (D → E) → Action S D A → Action S E A
wrapping f m s = let (r, s') = m s in (map_err f r, s')

-- A call on a part of the state.
abbrev pub zoom : {S T E A : Type 0} → (S → T) → (T → S → S) → Action T E A → Action S E A
zoom get put m s = let (r, t) = m (get s) in (r, put t s)

-- `_ = call()`: the error is dropped, a panic is not.
abbrev pub ignore_error : {S D E A : Type 0} → Action S D A → Action S E (Unit {0})
ignore_error m s =
    let (r, s') = m s in elim r [ ok _ ↦ (ok tt, s') | err _ ↦ (ok tt, s') | panic ↦ (panic, s') ]

-- A result that is neither an error nor a panic has a value.
pub ok_of :
    {E A : Type 0} (r : Outcome E A) → ((e : E) → r ≢ err e) → r ≢ panic → (a : A) × (r ≡ ok a)
ok_of (ok a) f g = (a, refl)
ok_of (err e) f g = absurd (f e refl)
ok_of panic f g = absurd (g refl)

pub Outcome-cases :
    {E A : Type 0} (r : Outcome E A)
    → ((a : A) × (r ≡ ok a)) ⊎ (((e : E) × (r ≡ err e)) ⊎ (r ≡ panic))
Outcome-cases (ok a) = inl (a, refl)
Outcome-cases (err e) = inr (inl (e, refl))
Outcome-cases panic = inr (inr refl)
