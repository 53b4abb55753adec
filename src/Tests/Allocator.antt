-- ===== src/Tests/Allocator.antt =====
-- The lock file of a device that is saved and deleted.
use ipu_opi_plugins.Prelude.{◌≡◌, refl, true, false, none, string_eq, nat_eq}
use ipu_opi_plugins.Outcome.{ok}
use ipu_opi_plugins.SriovCni.Allocator.{
  PciAllocator, new_pci_allocator, lock_path, save_allocated_pci, delete_allocated_pci,
  is_allocated,
}
use ipu_opi_plugins.SriovCni.Allocator.Reserve.{is_allocated-save, is_allocated_free}
use ipu_opi_plugins.SriovCni.Config.{default_cni_dir}
use ipu_opi_plugins.Tests.SriovCni.{
  Node, host, node, path_dec, host-KeepsFiles, host-ReportsAbsence,
}

abbrev allocator : PciAllocator
allocator = new_pci_allocator default_cni_dir

abbrev saved : Node
saved = (save_allocated_pci host allocator "0000:03:00.5" "/run/netns/a" node).1

abbrev freed : Node
freed = (delete_allocated_pci host allocator "0000:03:00.5" saved).1

saves : save_allocated_pci host allocator "0000:03:00.5" "/run/netns/a" node ≡ (ok tt, saved)
unfolding save_allocated_pci
saves = refl

frees : delete_allocated_pci host allocator "0000:03:00.5" saved ≡ (ok tt, freed)
unfolding delete_allocated_pci save_allocated_pci
frees = refl

is_allocated-save_example : is_allocated host allocator "0000:03:00.5" saved ≡ (ok true, saved)
is_allocated-save_example =
    is_allocated-save host (λ k f. k.file f) host-KeepsFiles allocator "0000:03:00.5" "/run/netns/a"
      4 node saved saves refl

asks : is_allocated host allocator "0000:03:00.5" freed ≡ (ok false, freed)
unfolding is_allocated delete_allocated_pci save_allocated_pci path_dec string_eq
asks = refl

is_allocated_free_example : freed.file (lock_path allocator "0000:03:00.5") ≡ none
is_allocated_free_example =
    is_allocated_free host (λ k f. k.file f) host-ReportsAbsence allocator "0000:03:00.5" freed
      freed asks
