-- ===== src/SriovCni/Allocator.antt =====
-- The PCI allocator of sriov_cni/pkg/utils/pci_allocator.go: one file for each address in use,
-- named by the address, that holds the path of the pod's network namespace.
pub mod Reserve
use ipu_opi_plugins.Prelude.{ℕ, Bool, true, false, Option, none, some, String, List, [], ◌∷◌, ◌++◌}
use ipu_opi_plugins.Outcome.{
  Outcome, ok, err, panic, Action, pure, throw, gets, or_throw, attempt, ◌>>=◌, ◌>>◌,
}
use ipu_opi_plugins.SriovCni.Host.{
  read_failed, stat_error, write_failed, mkdir_failed, remove_failed, Host, FilePath, CniError,
  Stat, there, not_exist, stat_failed, NsResult, opened, ns_not_exist, ns_failed,
}
use ipu_opi_plugins.SriovCni.Utils.{Cni}

pub record PciAllocator : Type 0 where
  pub data_dir : FilePath

abbrev pub new_pci_allocator : FilePath → PciAllocator
new_pci_allocator data_dir = record { data_dir = data_dir ++ "pci" ∷ [] }

abbrev pub lock_path : PciAllocator → String → FilePath
lock_path p pci_address = p.data_dir ++ pci_address ∷ []

module _ {K : Type 0} (host : Host K) (p : PciAllocator) where
  unfoldable pub save_allocated_pci : String → String → Cni host (Unit {0})
  save_allocated_pci pci_address ns = do
    attempt (host.mkdir_all p.data_dir) mkdir_failed
    attempt (host.write_file (lock_path p pci_address) ns) write_failed

  unfoldable pub delete_allocated_pci : String → Cni host (Unit {0})
  delete_allocated_pci pci_address = attempt (host.remove (lock_path p pci_address)) remove_failed

  -- What `IsAllocated` does once it has the namespace path of the file.
  abbrev pub check_namespace : String → NsResult → Cni host Bool
  check_namespace pci_address (opened _) = pure true
  check_namespace pci_address ns_not_exist = do delete_allocated_pci pci_address; pure false
  check_namespace pci_address ns_failed = do delete_allocated_pci pci_address; pure false

  unfoldable pub is_allocated : String → Cni host Bool
  is_allocated pci_address k = elim (host.stat k (lock_path p pci_address)) [
    | not_exist ↦ (ok false, k)
    | stat_failed ↦ (err stat_error, k)
    | there ↦ elim (host.read_file k (lock_path p pci_address)) [
      | none ↦ (err read_failed, k)
      | some dat ↦ check_namespace pci_address (host.get_ns k dat) k
    ]
  ]
