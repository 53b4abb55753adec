-- ===== src/IpuPlugin/LifeCycle.antt =====
-- The life cycle service of ipu-plugin/pkg/ipuplugin/lifecycleservice.go: `Init` finds the
-- physical function that leads to the daemon and gives it an address.
-- The handlers of the source (`NetworkHandler`, `FileSystemHandler`) are the parameter `System`.
pub mod Selection
pub mod Channel
use ipu_opi_plugins.Prelude.{
  ℕ, ◌≡◌, ◌&&◌, ◌||◌, not, Bool, true, false, Option, none, some, String, List, [], ◌∷◌, ltb,
  length, get_elem?, ◌==◌, string_eq, if◌then◌else◌,
}
use ipu_opi_plugins.Prelude.Int.{ℤ, to_int32}
use ipu_opi_plugins.Outcome.{
  Outcome, ok, err, panic, Action, Attempt, pure, throw, throw_if, gets, or_throw, attempt,
  of_outcome, ◌>>=◌, ◌>>◌,
}
use ipu_opi_plugins.Text.Space.{trim_space, split}
use ipu_opi_plugins.Text.Hardware.{hardware_string}
use ipu_opi_plugins.Netlink.{Link}

-- `netlink.Addr` with its mask in bits.
pub record Addr : Type 0 where
  pub ip : List ℕ
  pub prefix : ℕ

-- The lists are those of IPv4 addresses and of all links; the files are those below
-- /sys/class/net/<name>/device. `none` is an error. `parse_ip4` is `net.ParseIP(ip).To4()`.
pub record System (K : Type 0) : Type 0 where
  pub link_list : K → Option (List Link)
  pub addr_list : K → Link → Option (List Addr)
  pub addr_add : Link → Addr → Attempt K
  pub get_device : K → String → Option String
  pub get_vendor : K → String → Option String
  pub parse_ip4 : String → Option (List ℕ)

pub data LifeCycleError : Type 0 where
  unknown_device unknown_vendor no_links no_pf : LifeCycleError
  addr_list_failed not_an_ipv4_address addr_add_failed address_already_set : LifeCycleError
  running_in_mode : String → LifeCycleError

pub record LifeCycleService : Type 0 where
  pub daemon_host_ip : String
  pub daemon_ipu_ip : String
  pub daemon_port : ℤ
  pub mode : String

pub record IpPort : Type 0 where
  pub ip : String
  pub port : ℤ

module _ {K : Type 0} (sys : System K) where
  unfoldable pub is_pf : K → String → Outcome LifeCycleError Bool
  is_pf k iface = elim (sys.get_device k iface) [
    | none ↦ err unknown_device
    | some device ↦ elim (sys.get_vendor k iface) [
      | none ↦ err unknown_vendor
      | some vendor ↦ ok (trim_space device == "0x1452" && trim_space vendor == "0x8086")
    ]
  ]

  -- The loop of `getFilteredPFs`, which appends to `pf_list` and stops at an error.
  filter_pfs : K → List Link → Outcome LifeCycleError (List Link)
  filter_pfs k [] = ok []
  filter_pfs k (l ∷ links) =
      let rest = filter_pfs k links in
      elim (is_pf k l.name) [
        | err e ↦ err e
        | panic ↦ panic
        | ok result ↦ elim rest [
          | ok pfs ↦ ok (if result then l ∷ pfs else pfs)
          | err e ↦ err e
          | panic ↦ panic
        ]
      ]

  unfoldable pub get_filtered_pfs : K → Outcome LifeCycleError (List Link)
  unfolding filter_pfs
  get_filtered_pfs k = elim (sys.link_list k) [
    | none ↦ err no_links
    | some links ↦ if ltb (length links) 1 then err no_links else filter_pfs k links
  ]

  -- The fourth octet of the address; `octets[3]` panics on a shorter address.
  abbrev pub fourth_octet : Link → Option String
  fourth_octet l = get_elem? (split b':' (hardware_string l.hardware_addr)) 3

  -- An error of `AddrList` is dropped and leaves an empty list.
  abbrev pub has_no_address : K → Link → Bool
  has_no_address k l = elim (sys.addr_list k l) [ none ↦ true | some list ↦ ltb (length list) 1 ]

  -- The test of one round of the loop in `getCommPf`.
  abbrev pub selects : String → K → Link → String → Bool
  selects mode k l octet =
      if mode == "ipu" then octet == "02" && has_no_address k l else octet == "03"

  unfoldable pub get_comm_pf : String → K → List Link → Outcome LifeCycleError Link
  get_comm_pf mode k [] = err no_pf
  get_comm_pf mode k (l ∷ links) =
      let rest = get_comm_pf mode k links in
      elim (fourth_octet l) [
        | none ↦ panic
        | some octet ↦ if selects mode k l octet then ok l else rest
      ]

  unfoldable pub set_ip : Link → String → Action K LifeCycleError (Unit {0})
  set_ip link ip = do
    list ← or_throw (← gets (λ k. sys.addr_list k link)) addr_list_failed
    throw_if (not (ltb (length list) 1)) address_already_set
    ip_addr ← or_throw (sys.parse_ip4 ip) not_an_ipv4_address
    attempt (sys.addr_add link (record { ip = ip_addr; prefix = 24 })) addr_add_failed

  unfoldable pub configure_channel : String → String → String → Action K LifeCycleError (Unit {0})
  configure_channel mode daemon_host_ip daemon_ipu_ip = do
    pf_list ← (gets get_filtered_pfs >>= of_outcome)
    pf ← (gets (λ k. get_comm_pf mode k pf_list) >>= of_outcome)
    set_ip pf (if mode == "ipu" then daemon_host_ip else daemon_ipu_ip)

  unfoldable pub init : LifeCycleService → Bool → Action K LifeCycleError IpPort
  init s dpu_mode = do
    throw_if (dpu_mode && not (s.mode == "ipu") || not dpu_mode && not (s.mode == "host"))
        (running_in_mode s.mode)
    configure_channel s.mode s.daemon_host_ip s.daemon_ipu_ip
    pure (record { ip = s.daemon_ipu_ip; port = to_int32 s.daemon_port })
