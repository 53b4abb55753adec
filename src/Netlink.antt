-- ===== src/Netlink.antt =====
-- The kernel's network links as `github.com/vishvananda/netlink` shows them. That package is not
-- part of the repository: its calls are the fields of `Netlink`, over an unknown kernel state
-- `K`, and `IsLawful` says what is relied on of its documented behaviour.
pub mod Memory
use mathlib.Core.Option
use ipu_opi_plugins.Prelude.{
  ℕ, ◌≡◌, Bool, true, false, Option, none, some, String, List, [], ◌==◌, string_eq, if◌then◌else◌,
}
use ipu_opi_plugins.Prelude.Int.{ℤ, pos}
use ipu_opi_plugins.Outcome.{Attempt}

-- The dynamic type of a `netlink.Link`, as far as the program tells links apart.
pub data LinkType : Type 0 where
  bridge vlan plain : LinkType

-- The attributes that the program reads. `vlan_id` is that of a `netlink.Vlan`.
pub record Link : Type 0 where
  pub name : String
  pub index : ℕ
  pub link_type : LinkType
  pub hardware_addr : List ℕ
  pub parent_index : ℕ
  pub vlan_id : ℤ

-- `netlink.Bridge{}` and `netlink.Vlan{}` before their fields are set.
abbrev pub new_link : LinkType → String → Link
new_link t n = record {
  name = n;
  index = 0;
  link_type = t;
  hardware_addr = [];
  parent_index = 0;
  vlan_id = pos 0;
}

-- `linkByNameFn` and the other variables of linuxbridge.go. A lookup changes nothing, and its
-- error is read as "not there".
pub record Netlink (K : Type 0) : Type 0 where
  pub link_by_name : K → String → Option Link
  pub link_add : Link → Attempt K
  pub link_del : Link → Attempt K
  pub link_set_up : Link → Attempt K
  pub link_set_down : Link → Attempt K
  pub link_set_master : Link → Link → Attempt K
  pub link_set_no_master : Link → Attempt K

-- What the kernel knows of a link: its attributes, the bridge it belongs to, and whether it is up.
pub record Device : Type 0 where
  pub link : Link
  pub master : Option String
  pub up : Bool

abbrev pub with_up : Bool → Device → Device
with_up b d = record d { up = b }

abbrev pub with_master : Option String → Device → Device
with_master m d = record d { master = m }

-- A successful call has changed the one device that it names, and nothing else.
abbrev pub Changes :
    {K : Type 0}
    → (K → String → Option Device)
    → String
    → (Option Device → Option Device)
    → K
    → Bool × K
    → Type 0
Changes dev n f k (done, k') =
    done ≡ true → (j : String) → dev k' j ≡ (if n == j then f (dev k j) else dev k j)

pub record IsLawful {K : Type 0} (N : Netlink K) (dev : K → String → Option Device) : Type 0 where
  pub link_by_name_lem :
      (k : K) (n : String) → N.link_by_name k n ≡ Option.map (λ d. d.link) (dev k n)
  pub named : (k : K) (n : String) (d : Device) → dev k n ≡ some d → d.link.name ≡ n
  -- The kernel chooses the index.
  pub link_add_lem :
      (l : Link) (k : K)
      → (i : ℕ) × Changes dev l.name
          (λ _. some (record { link = record l { index = i }; master = none; up = false }))
          k
          (N.link_add l k)
  pub link_del_lem :
      (l : Link) (k : K) → l.link_type ≡ vlan → Changes dev l.name (λ _. none) k (N.link_del l k)
  pub link_set_up_lem :
      (l : Link) (k : K) → Changes dev l.name (Option.map (with_up true)) k (N.link_set_up l k)
  pub link_set_down_lem :
      (l : Link) (k : K) → Changes dev l.name (Option.map (with_up false)) k (N.link_set_down l k)
  pub link_set_master_lem :
      (l b : Link) (k : K)
      → Changes dev l.name (Option.map (with_master (some b.name))) k (N.link_set_master l b k)
  pub link_set_no_master_lem :
      (l : Link) (k : K)
      → Changes dev l.name (Option.map (with_master none)) k (N.link_set_no_master l k)
