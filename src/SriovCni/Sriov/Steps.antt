-- ===== src/SriovCni/Sriov/Steps.antt =====
-- Rules for the steps of the manager on one entry: a step that succeeds makes `b` of the entry `a`,
-- and one that fails leaves an entry that `I` holds of.
use ipu_opi_plugins.Prelude.{
  ◌≡◌, refl, sym, subst, Bool, true, false, some, String, if◌then◌else◌, string_eq,
}
use ipu_opi_plugins.Prelude.Int.{ℤ}
use ipu_opi_plugins.Outcome.{or_throw, Outcome, ok, err, panic, Attempt, attempt, ◌>>=◌, ◌>>◌}
use ipu_opi_plugins.SriovCni.Types.{VfInfo}
use ipu_opi_plugins.SriovCni.Host.{Host, CniError, VfLink}
use ipu_opi_plugins.SriovCni.Utils.{Cni}
use ipu_opi_plugins.SriovCni.Sriov.{get_vf_info, named, when}
use ipu_opi_plugins.SriovCni.Sriov.Lawful.{IsSetter, with_entry, Shows, setter-Shows}

module _ {K : Type 0} (host : Host K) (pf : String) (l : VfLink) (id : ℤ) (v : VfInfo)
    (found : get_vf_info l.vfs id ≡ some v) (I : VfInfo → Type 0) where
  abbrev pub At : K → VfInfo → Type 0
  At k w = Shows host pf l id v found k w × I w

  abbrev pub Lands : VfInfo → Outcome CniError (Unit {0}) → K → Type 0
  Lands b (ok _) k = At k b
  Lands b (err _) k = (w : VfInfo) × At k w
  Lands b panic k = (w : VfInfo) × At k w

  abbrev pub Takes : VfInfo → Cni host (Unit {0}) → VfInfo → Type 0
  Takes a m b = (k : K) → At k a → Lands b (m k).0 (m k).1

  -- Whatever the outcome, some entry is left.
  pub Lands-some :
      (b : VfInfo) (r : Outcome CniError (Unit {0})) (k : K) → Lands b r k → (w : VfInfo) × At k w
  Lands-some b (ok u) k h = (b, h)
  Lands-some b (err e) k h = h
  Lands-some b panic k h = h

  bind_by :
      (b c : VfInfo) (n : Cni host (Unit {0})) (q : Outcome CniError (Unit {0}) × K)
      → Lands b q.0 q.1
      → Takes b n c
      → let r = ((λ s. q) >>= λ _. n) q.1 in Lands c r.0 r.1
  bind_by b c n (ok u, k) h t = t k h
  bind_by b c n (err e, k) h t = h
  bind_by b c n (panic, k) h t = h

  pub Takes-bind :
      (a b c : VfInfo) (m n : Cni host (Unit {0})) → Takes a m b → Takes b n c → Takes a (m >> n) c
  Takes-bind a b c m n s t k h = bind_by b c n (m k) (s k h) t

  attempt_by :
      (a b : VfInfo) (e : CniError) (q : Bool × K)
      → At q.1 (if q.0 then b else a)
      → Lands b (attempt (λ _. q) e q.1).0 (attempt (λ _. q) e q.1).1
  attempt_by a b e (true, k) h = h
  attempt_by a b e (false, k) h = (a, h)

  pub Takes-setter :
      (now : VfLink) (f : VfInfo → VfInfo) (call : Attempt K) (e : CniError) (a : VfInfo)
      → IsSetter host pf now id f call
      → now.index ≡ l.index
      → a.id ≡ id
      → I (f a)
      → Takes a (attempt call e) (f a)
  Takes-setter now f call e a law same i keeps k (shows, h) =
      let kept : I (if (call k).0 then f a else a) =
        (elim (call k).0 as (λ d. I (if d then f a else a)) [ true ↦ keeps | false ↦ h ]) in
      attempt_by a (f a) e (call k)
        (setter-Shows host pf l id v found now f call a k law same i shows, kept)

  pub Takes-when :
      (c : Bool) (a b : VfInfo) (m : Cni host (Unit {0}))
      → (c ≡ true → Takes a m b)
      → (c ≡ false → a ≡ b)
      → Takes a (when host c m) b
  Takes-when true a b m t s k h = t refl k h
  Takes-when false a b m t s k h = subst (At k) (s refl) h

  pub Takes-named :
      (e : CniError) (a b : VfInfo) (m : VfLink → Cni host (Unit {0}))
      → Takes a (m (with_entry host pf l id v found a)) b
      → Takes a (named host pf e >>= m) b
  Takes-named e a b m t k h =
      subst (λ o. let r = (or_throw o e >>= m) k in Lands b r.0 r.1) (sym h.0) (t k h)

  still_by : (b : VfInfo) (r : Outcome CniError (Unit {0})) (k : K) → At k b → Lands b r k
  still_by b (ok u) k h = h
  still_by b (err e) k h = (b, h)
  still_by b panic k h = (b, h)

  -- A step that only reads.
  pub Takes-still : (b : VfInfo) (n : Cni host (Unit {0})) → ((k : K) → (n k).1 ≡ k) → Takes b n b
  Takes-still b n still k h = still_by b (n k).0 (n k).1 (subst (λ j. At j b) (sym (still k)) h)

  -- A call under a test, where `b` says what becomes of the entry by the test.
  pub Takes-guarded :
      (c : Bool) (now : VfLink) (f : VfInfo → VfInfo) (call : Attempt K) (e : CniError)
      (a b : VfInfo)
      → IsSetter host pf now id f call
      → now.index ≡ l.index
      → a.id ≡ id
      → (c ≡ true → I a → I (f a))
      → (c ≡ true → f a ≡ b)
      → (c ≡ false → a ≡ b)
      → Takes a (when host c (attempt call e)) b
  Takes-guarded c now f call e a b law same i keeps set unset =
      Takes-when c a b (attempt call e)
        (λ t.
          subst (λ w. Takes a (attempt call e) w) (set t)
            (λ k h. Takes-setter now f call e a law same i (keeps t h.1) k h))
        unset
