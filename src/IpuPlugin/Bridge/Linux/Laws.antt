-- ===== src/IpuPlugin/Bridge/Linux/Laws.antt =====
-- What the Linux bridge leaves in a lawful kernel.
use ipu_opi_plugins.Prelude.{
  ◌≡◌, refl, true, false, Option, none, some, String, arith, ◌==◌, string_eq, if◌then◌else◌,
  some_of, Option-cases, inl, inr,
}
use ipu_opi_plugins.Outcome.{ok}
use ipu_opi_plugins.Netlink.{bridge, vlan, Link, new_link, Netlink, Device, IsLawful}
use ipu_opi_plugins.IpuPlugin.Bridge.Linux.{is_vlan, add_port, delete_port, ensure_bridge_exists}

module _ {K : Type 0} (N : Netlink K) (br_name port_name : String) (k : K) where
  add_port_link :
      (add_port N br_name port_name k).0 ≡ ok tt
      → (l : Link) × (N.link_by_name k port_name ≡ some l)
  unfolding add_port
  add_port_link h = some_of (N.link_by_name k port_name) (λ e. ground arith)

  add_port_bridge :
      (add_port N br_name port_name k).0 ≡ ok tt
      → (br : Link) × (N.link_by_name k br_name ≡ some br)
  unfolding add_port
  add_port_bridge h = some_of (N.link_by_name k br_name) (λ e. ground arith)

  add_port_calls :
      (l br : Link)
      → N.link_by_name k port_name ≡ some l
      → N.link_by_name k br_name ≡ some br
      → (add_port N br_name port_name k).0 ≡ ok tt
      → (l.link_type ≡ vlan)
        × ((N.link_set_master l br k).0 ≡ true)
        × ((N.link_set_up l (N.link_set_master l br k).1).0 ≡ true)
        × ((add_port N br_name port_name k).1 ≡ (N.link_set_up l (N.link_set_master l br k).1).1)
  unfolding add_port
  add_port_calls l br e e' h = ground arith

  delete_port_link :
      (delete_port N br_name port_name k).0 ≡ ok tt
      → (l : Link) × (N.link_by_name k port_name ≡ some l)
  unfolding delete_port
  delete_port_link h = some_of (N.link_by_name k port_name) (λ e. ground arith)

  delete_port_calls :
      (l : Link)
      → N.link_by_name k port_name ≡ some l
      → (delete_port N br_name port_name k).0 ≡ ok tt
      → (l.link_type ≡ vlan)
        × ((N.link_set_no_master l k).0 ≡ true)
        × ((N.link_set_down l (N.link_set_no_master l k).1).0 ≡ true)
        × ((delete_port N br_name port_name k).1
            ≡ (N.link_set_down l (N.link_set_no_master l k).1).1)
  unfolding delete_port
  delete_port_calls l e h = ground arith

module _ {K : Type 0} {N : Netlink K} {dev : K → String → Option Device} (L : IsLawful N dev) where
  -- A link that is found is that of the device with the name.
  pub link-device :
      (k : K) (n : String) (l : Link)
      → N.link_by_name k n ≡ some l
      → (d : Device) × (dev k n ≡ some d) × (d.link ≡ l) × (l.name ≡ n)
  link-device k n l e =
      let found = some_of (dev k n) (λ gone. ground (arith, L.link_by_name_lem k n)) in
      (
        found.0,
        found.1,
        ground (arith, L.link_by_name_lem k n),
        ground (arith, L.link_by_name_lem k n, L.named k n found.0),
      )

  -- In a lawful kernel: when `AddPort` of the Linux bridge succeeds, the port was there as a vlan
  -- interface, it has the bridge as its master and is up, and no other device has changed.
  pub add_port_joins :
      (br_name port_name : String) (k : K)
      → (add_port N br_name port_name k).0 ≡ ok tt
      → (d : Device) × (dev k port_name ≡ some d)
        × (d.link.link_type ≡ vlan)
        × ((j : String)
            → dev (add_port N br_name port_name k).1 j ≡ (
                if port_name == j
                then some (record d { master = some br_name; up = true })
                else dev k j))
  add_port_joins br_name port_name k h =
      let (l, found) = add_port_link N br_name port_name k h in
      let (br, found_br) = add_port_bridge N br_name port_name k h in
      let (is_vlan, mastered, upped, after) =
        add_port_calls N br_name port_name k l br found found_br h in
      let (d, there, same, name) = link-device k port_name l found in
      let (_, _, _, br_is) = link-device k br_name br found_br in
      (
        d,
        there,
        cc,
        λ j. ground (
          arith,
          L.link_set_master_lem l br k mastered j,
          L.link_set_up_lem l (N.link_set_master l br k).1 upped j,
        ),
      )

  -- In a lawful kernel: when `DeletePort` of the Linux bridge succeeds, the port was there as a
  -- vlan interface, it has no master and is down, and no other device has changed.
  pub delete_port_leaves :
      (br_name port_name : String) (k : K)
      → (delete_port N br_name port_name k).0 ≡ ok tt
      → (d : Device) × (dev k port_name ≡ some d)
        × (d.link.link_type ≡ vlan)
        × ((j : String)
            → dev (delete_port N br_name port_name k).1 j
              ≡ (if port_name == j then some (record d { master = none; up = false }) else dev k j))
  delete_port_leaves br_name port_name k h =
      let (l, found) = delete_port_link N br_name port_name k h in
      let (is_vlan, freed, downed, after) = delete_port_calls N br_name port_name k l found h in
      let (d, there, same, name) = link-device k port_name l found in
      let k' = (N.link_set_no_master l k).1 in
      (
        d,
        there,
        cc,
        λ j.
            ground (arith, L.link_set_no_master_lem l k freed j, L.link_set_down_lem l k' downed j),
      )

  -- In a lawful kernel: when `EnsureBridgeExists` of the Linux bridge succeeds, a bridge of the
  -- name is there, and no other device has changed.
  pub ensure_bridge_exists_lem :
      (br_name : String) (k : K)
      → (ensure_bridge_exists N br_name k).0 ≡ ok tt
      → (d : Device) × (dev (ensure_bridge_exists N br_name k).1 br_name ≡ some d)
        × (d.link.link_type ≡ bridge)
        × ((j : String)
            → (br_name == j) ≡ false
            → dev (ensure_bridge_exists N br_name k).1 j ≡ dev k j)
  unfolding ensure_bridge_exists
  ensure_bridge_exists_lem br_name k h = elim (Option-cases (N.link_by_name k br_name)) [
    | inl absent ↦
        let br = new_link bridge br_name in
        let k' = (N.link_add br k).1 in
        let (i, added) = L.link_add_lem br k in
        (
          record { link = record br { index = i }; master = none; up = true },
          ground
              (arith, added (ground arith) br_name, L.link_set_up_lem br k' (ground arith) br_name),
          refl,
          λ j other.
              ground (arith, added (ground arith) j, L.link_set_up_lem br k' (ground arith) j),
        )
    | inr (l, found) ↦
        let (d, there, same, name) = link-device k br_name l found in
        (d, ground arith, ground arith, λ j other. ground arith)
  ]
