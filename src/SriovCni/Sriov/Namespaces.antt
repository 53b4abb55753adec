-- ===== src/SriovCni/Sriov/Namespaces.antt =====
-- What is relied on of the calls that rename and move a link between network namespaces, and the
-- rules by which a link is followed. A namespace is known by its descriptor.
use ipu_opi_plugins.Prelude.{
  ℕ, ◌≡◌, refl, sym, ap, ◌∙◌, subst, Bool, true, false, Option, some, String, List, ◌∷◌,
  if◌then◌else◌,
}
use ipu_opi_plugins.Outcome.{Outcome, ok, err, panic, Attempt, attempt, or_throw, ◌>>=◌, ◌>>◌}
use ipu_opi_plugins.SriovCni.Host.{namespace_failed, Host, CniError, VfLink, FilePath}
use ipu_opi_plugins.SriovCni.Utils.{Cni}
use ipu_opi_plugins.SriovCni.Sriov.{named, when, in_namespace}

-- The namespaces that the process has entered, the current one first, and the links by name.
pub record View : Type 0 where
  pub stack : List ℕ
  pub find : ℕ → String → Option VfLink

-- A link with its name and namespace, seen from the namespaces that the process is in.
pub record Place : Type 0 where
  pub stack : List ℕ
  pub ns : ℕ
  pub name : String
  pub link : VfLink

abbrev pub IsAt : View → Place → Type 0
IsAt w p = (w.stack ≡ p.stack) × (w.find p.ns p.name ≡ some p.link)

module _ {K : Type 0} (host : Host K) (view : K → View) where
  -- The documented effect of the calls, where nobody else changes the link: a link is known by
  -- its index, which it keeps when it is moved.
  pub record IsLawfulNode : Type 0 where
    pub looks_up :
        (k : K) (n : ℕ) (ns : List ℕ) (name : String)
        → (view k).stack ≡ n ∷ ns
        → host.link_by_name k name ≡ (view k).find n name
    pub current :
        (k : K) (n : ℕ) (ns : List ℕ) → (view k).stack ≡ n ∷ ns → host.current_ns k ≡ some n
    pub enters :
        (fd : ℕ) (k : K)
        → (host.enter fd k).0 ≡ true
        → view (host.enter fd k).1 ≡ record (view k) { stack = fd ∷ (view k).stack }
    pub leaves :
        (k : K) (n : ℕ) (ns : List ℕ)
        → (view k).stack ≡ n ∷ ns
        → view (host.leave k) ≡ record (view k) { stack = ns }
    pub sleeps : (k : K) → view (host.sleep k) ≡ view k
    pub writes : (f : FilePath) (t : String) (k : K) → view (host.write_file f t k).1 ≡ view k
    pub downs : (l : VfLink) (k : K) → view (host.link_set_down l k).1 ≡ view k
    pub ups : (l : VfLink) (k : K) → view (host.link_set_up l k).1 ≡ view k
    pub renames :
        (l : VfLink) (new : String) (k : K) (p : Place) (ns : List ℕ)
        → p.stack ≡ p.ns ∷ ns
        → p.link.index ≡ l.index
        → IsAt (view k) p
        → (host.link_set_name l new k).0 ≡ true
        → IsAt
            (view (host.link_set_name l new k).1)
            (record p { name = new; link = record p.link { name = new } })
    pub moves :
        (l : VfLink) (fd : ℕ) (k : K) (p : Place) (ns : List ℕ)
        → p.stack ≡ p.ns ∷ ns
        → p.link.index ≡ l.index
        → IsAt (view k) p
        → (host.link_set_ns_fd l fd k).0 ≡ true
        → IsAt (view (host.link_set_ns_fd l fd k).1) (record p { ns = fd })
    pub sets_address :
        (l : VfLink) (hw : List ℕ) (k : K) (p : Place) (ns : List ℕ)
        → p.stack ≡ p.ns ∷ ns
        → p.link.index ≡ l.index
        → IsAt (view k) p
        → IsAt (view (host.link_set_hardware_addr l hw k).1) (
            if (host.link_set_hardware_addr l hw k).0
            then record p { link = record p.link { hardware_addr = hw } }
            else p)

  module _ (lawful : IsLawfulNode) where
    abbrev pub Ends : Place → Outcome CniError (Unit {0}) → K → Type 0
    Ends q (ok _) k = IsAt (view k) q
    Ends q (err _) k = Unit {0}
    Ends q panic k = Unit {0}

    -- A step that succeeds takes the link from `p` to `q`.
    abbrev pub Takes : Place → Cni host (Unit {0}) → Place → Type 0
    Takes p m q = (k : K) → IsAt (view k) p → Ends q (m k).0 (m k).1

    bind_by :
        (q r : Place) (n : Cni host (Unit {0})) (o : Outcome CniError (Unit {0}) × K)
        → Ends q o.0 o.1
        → Takes q n r
        → let s = ((λ _. o) >>= λ _. n) o.1 in Ends r s.0 s.1
    bind_by q r n (ok u, k) h t = t k h
    bind_by q r n (err e, k) h t = tt
    bind_by q r n (panic, k) h t = tt

    pub Takes-bind :
        (p q r : Place) (m n : Cni host (Unit {0})) → Takes p m q → Takes q n r → Takes p (m >> n) r
    Takes-bind p q r m n s t k h = bind_by q r n (m k) (s k h) t

    attempt_by :
        (q : Place) (e : CniError) (o : Bool × K)
        → (o.0 ≡ true → IsAt (view o.1) q)
        → Ends q (attempt (λ _. o) e o.1).0 (attempt (λ _. o) e o.1).1
    attempt_by q e (true, k) h = h refl
    attempt_by q e (false, k) h = tt

    pub Takes-attempt :
        (p q : Place) (call : Attempt K) (e : CniError)
        → ((k : K) → IsAt (view k) p → (call k).0 ≡ true → IsAt (view (call k).1) q)
        → Takes p (attempt call e) q
    Takes-attempt p q call e t k h = attempt_by q e (call k) (t k h)

    -- A call that changes no link.
    pub Takes-still :
        (p : Place) (call : Attempt K) (e : CniError)
        → ((k : K) → view (call k).1 ≡ view k)
        → Takes p (attempt call e) p
    Takes-still p call e still =
        Takes-attempt p p call e (λ k h _. subst (λ w. IsAt w p) (sym (still k)) h)

    pub Takes-when :
        (c : Bool) (p q : Place) (m : Cni host (Unit {0}))
        → (c ≡ true → Takes p m q)
        → (c ≡ false → p ≡ q)
        → Takes p (when host c m) q
    Takes-when true p q m t s k h = t refl k h
    Takes-when false p q m t s k h = subst (IsAt (view k)) (s refl) h

    -- The link that a lookup finds in the current namespace.
    pub Takes-named :
        (p q : Place) (ns : List ℕ) (e : CniError) (m : VfLink → Cni host (Unit {0}))
        → p.stack ≡ p.ns ∷ ns
        → Takes p (m p.link) q
        → Takes p (named host p.name e >>= m) q
    Takes-named p q ns e m here t k h =
        subst (λ o. let r = (or_throw o e >>= m) k in Ends q r.0 r.1)
          (sym (lawful.looks_up k p.ns ns p.name (h.0 ∙ here) ∙ h.1)) (t k h)

    abbrev pub inside : ℕ → Place → Place
    inside fd p = record p { stack = fd ∷ p.stack }

    leave_by :
        (fd : ℕ) (q : Place) (o : Outcome CniError (Unit {0}) × K)
        → Ends (inside fd q) o.0 o.1
        → Ends q o.0 (host.leave o.1)
    leave_by fd q (ok u, k) h =
        let e = lawful.leaves k fd q.stack h.0 in subst (λ w. IsAt w q) (sym e) (refl, h.1)
    leave_by fd q (err e, k) h = tt
    leave_by fd q (panic, k) h = tt

    enter_by :
        (fd : ℕ) (p q : Place) (f : Cni host (Unit {0})) (o : Bool × K)
        → (o.0 ≡ true → IsAt (view o.1) (inside fd p))
        → Takes (inside fd p) f (inside fd q)
        → let r : Outcome CniError (Unit {0}) × K =
            (if o.0 then ((f o.1).0, host.leave (f o.1).1) else (err namespace_failed, o.1)) in
          Ends q r.0 r.1
    enter_by fd p q f (true, k) h t = leave_by fd q (f k) (t k (h refl))
    enter_by fd p q f (false, k) h t = tt

    pub Takes-inside :
        (fd : ℕ) (p q : Place) (f : Cni host (Unit {0}))
        → Takes (inside fd p) f (inside fd q)
        → Takes p (in_namespace host fd f) q
    Takes-inside fd p q f t k h =
        enter_by fd p q f (host.enter fd k)
          (λ entered.
            subst (λ w. IsAt w (inside fd p)) (sym (lawful.enters fd k entered))
              (ap (λ s. fd ∷ s) h.0, h.1))
          t
