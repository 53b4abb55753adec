-- ===== src/IpuPlugin/LifeCycle/Channel.antt =====
-- What `set_ip` and `init` do to the links.
use ipu_opi_plugins.Prelude.{
  ℕ, ◌≡◌, refl, ◌≢◌, ◌∙◌, ap, Bool, true, false, some, String, List, [], ◌∷◌, length, arith, ◌==◌,
  string_eq, if◌then◌else◌, some_of, ltb,
}
use ipu_opi_plugins.Prelude.Int.{to_int32}
use ipu_opi_plugins.Outcome.{ok, err, ok_of}
use ipu_opi_plugins.Netlink.{Link}
use ipu_opi_plugins.IpuPlugin.LifeCycle.{
  System, IpPort, LifeCycleService, running_in_mode, get_filtered_pfs, get_comm_pf, set_ip,
  configure_channel, init,
}
use ipu_opi_plugins.IpuPlugin.LifeCycle.Selection.{Tests, get_comm_pf_found}

module _ {K : Type 0} (sys : System K) where
  -- `link` had no address, and `ip` with a mask of 24 bits is the one address that is added.
  abbrev pub Assigns : Link → String → K → K → Type 0
  Assigns link ip k k' =
      (a : List ℕ) × (sys.parse_ip4 ip ≡ some a)
      × (sys.addr_list k link ≡ some [])
      × (sys.addr_add link (record { ip = a; prefix = 24 }) k ≡ (true, k'))

  nil_of : {A : Type 0} (xs : List A) → ltb (length xs) 1 ≡ true → xs ≡ []
  nil_of [] h = refl
  nil_of (x ∷ xs) h = ground arith

  set_ip-Assigns :
      (link : Link) (ip : String) (k k' : K) (u : Unit {0})
      → set_ip sys link ip k ≡ (ok u, k')
      → Assigns link ip k k'
  unfolding set_ip
  set_ip-Assigns link ip k k' u h =
      let (list, f) = some_of (sys.addr_list k link) (λ e. ground arith) in
      let empty = nil_of list (ground arith) in
      let (a, e) = some_of (sys.parse_ip4 ip) (λ e. ground arith) in
      (a, e, f ∙ ap some empty, ground arith)

  -- A request of `Init` for the mode that the plugin does not run in is answered with an error
  -- that names the mode, and changes nothing.
  pub init_wrong_mode :
      (s : LifeCycleService) (dpu_mode : Bool) (k : K)
      → s.mode ≢ (if dpu_mode then "ipu" else "host")
      → init sys s dpu_mode k ≡ (err (running_in_mode s.mode), k)
  unfolding init
  init_wrong_mode s true k h = ground arith
  init_wrong_mode s false k h = ground arith

  init_mode :
      (s : LifeCycleService) (dpu_mode : Bool) (k k' : K) (r : IpPort)
      → init sys s dpu_mode k ≡ (ok r, k')
      → s.mode ≡ (if dpu_mode then "ipu" else "host")
  unfolding init
  init_mode s true k k' r h = ground arith
  init_mode s false k k' r h = ground arith

  host-ne-ipu : ◌≢◌ {A = String} "host" "ipu"
  unfolding string_eq
  host-ne-ipu e = let f : ◌≡◌ {A = Bool} false true = ap (λ s. s == "ipu") e in ground arith

  init-set_ip :
      (s : LifeCycleService) (dpu_mode : Bool) (k k' : K) (r : IpPort) (pfs : List Link)
      (link : Link)
      → init sys s dpu_mode k ≡ (ok r, k')
      → get_filtered_pfs sys k ≡ ok pfs
      → get_comm_pf sys s.mode k pfs ≡ ok link
      → set_ip sys link (if dpu_mode then s.daemon_host_ip else s.daemon_ipu_ip) k ≡ (ok tt, k')
  unfolding init configure_channel
  init-set_ip s true k k' r pfs link h e f = ground arith
  init-set_ip s false k k' r pfs link h e f =
      let m = init_mode s false k k' r h in let n = host-ne-ipu in ground arith

  -- When `Init` succeeds, the plugin runs in the mode asked for, and there is a link that passes
  -- the test of the mode: it had no address, and the state left is that of the one call that
  -- gives it an address with a mask of 24 bits. That address is `daemon_host_ip` in the mode
  -- "ipu" and `daemon_ipu_ip` in the mode "host". The answer names `daemon_ipu_ip` in both modes,
  -- and the port as an int32.
  pub init-Assigns :
      (s : LifeCycleService) (dpu_mode : Bool) (k k' : K) (r : IpPort)
      → init sys s dpu_mode k ≡ (ok r, k')
      → (r ≡ record { ip = s.daemon_ipu_ip; port = to_int32 s.daemon_port })
        × (s.mode ≡ (if dpu_mode then "ipu" else "host"))
        × ((link : Link) × Tests sys true s.mode k link
            × Assigns link (if dpu_mode then s.daemon_host_ip else s.daemon_ipu_ip) k k')
  unfolding init configure_channel
  init-Assigns s dpu_mode k k' r h =
      let (pfs, e) = ok_of (get_filtered_pfs sys k) (λ e f. ground arith) (λ f. ground arith) in
      let (link, f) =
        ok_of (get_comm_pf sys s.mode k pfs) (λ e f. ground arith) (λ f. ground arith) in
      let tests = (get_comm_pf_found sys s.mode k pfs link f).1 in
      let set = init-set_ip s dpu_mode k k' r pfs link h e f in
      (
        ground arith,
        init_mode s dpu_mode k k' r h,
        (link, tests, set_ip-Assigns link _ k k' tt set),
      )
