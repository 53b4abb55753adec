-- ===== src/Netlink/Memory.antt =====
-- A kernel in memory, which meets `IsLawful`: the theorems are tried on it.
use mathlib.Core.Option
use ipu_opi_plugins.Prelude.{
  ℕ, ◌+◌, ◌≡◌, refl, true, false, Option, none, some, String, arith, Option-cases, inl, inr,
  string_eq,
}
use ipu_opi_plugins.Outcome.{Attempt}
use ipu_opi_plugins.Dict.{Dict, lookup, insert, erase, lookup-insert, lookup-erase}
use ipu_opi_plugins.Netlink.{Link, Device, Netlink, IsLawful, Changes, with_up, with_master}

pub record Kernel : Type 0 where
  pub devices : Dict Device
  pub next_index : ℕ

-- A device has the name under which it is kept.
abbrev rename : String → Device → Device
rename n d = record d { link = record d.link { name = n } }

abbrev pub device_of : Kernel → String → Option Device
device_of k n = Option.map (rename n) (lookup n k.devices)

-- A name that is taken is refused.
add : Link → Attempt Kernel
add l k = elim (lookup l.name k.devices) [
  | some _ ↦ (false, k)
  | none ↦ (
    true,
    record {
      devices =
          insert l.name
            (record { link = record l { index = k.next_index }; master = none; up = false })
            k.devices;
      next_index = k.next_index + 1;
    },
  )
]

-- A call on a link that is not there is refused.
update : (Device → Device) → Link → Attempt Kernel
update f l k = elim (lookup l.name k.devices) [
  | none ↦ (false, k)
  | some d ↦ (true, record k { devices = insert l.name (f d) k.devices })
]

remove : Link → Attempt Kernel
remove l k = elim (lookup l.name k.devices) [
  | none ↦ (false, k)
  | some _ ↦ (true, record k { devices = erase l.name k.devices })
]

unfoldable pub memory : Netlink Kernel
unfolding add update remove lookup insert erase string_eq
memory = record {
  link_by_name = λ k n. Option.map (λ d. d.link) (device_of k n);
  link_add = add;
  link_del = remove;
  link_set_up = update (with_up true);
  link_set_down = update (with_up false);
  link_set_master = λ l b. update (with_master (some b.name)) l;
  link_set_no_master = update (with_master none);
}

update-Changes :
    (f : Device → Device) (l : Link) (k : Kernel)
    → ((n : String) (d : Device) → rename n (f d) ≡ f (rename n d))
    → Changes device_of l.name (Option.map f) k (update f l k)
unfolding update
update-Changes f l k natural done j = elim (Option-cases (lookup l.name k.devices)) [
  | inl absent ↦ ground arith
  | inr (d, there) ↦ ground (arith, lookup-insert j l.name (f d) k.devices, natural j d)
]

add-Changes :
    (l : Link) (k : Kernel)
    → Changes device_of l.name
        (λ _. some (record { link = record l { index = k.next_index }; master = none; up = false }))
        k
        (add l k)
unfolding add
add-Changes l k done j = ground (
  arith,
  lookup-insert j l.name
      (record { link = record l { index = k.next_index }; master = none; up = false }) k.devices,
)

remove-Changes : (l : Link) (k : Kernel) → Changes device_of l.name (λ _. none) k (remove l k)
unfolding remove
remove-Changes l k done j = ground (arith, lookup-erase j l.name k.devices)

pub memory-IsLawful : IsLawful memory device_of
unfolding memory
memory-IsLawful = record {
  link_by_name_lem = λ k n. refl;
  named = λ k n d h. ground arith;
  link_add_lem = λ l k. (k.next_index, add-Changes l k);
  link_del_lem = λ l k _. remove-Changes l k;
  link_set_up_lem = λ l k. update-Changes (with_up true) l k (λ n d. refl);
  link_set_down_lem = λ l k. update-Changes (with_up false) l k (λ n d. refl);
  link_set_master_lem = λ l b k. update-Changes (with_master (some b.name)) l k (λ n d. refl);
  link_set_no_master_lem = λ l k. update-Changes (with_master none) l k (λ n d. refl);
}
