-- ===== src/SriovCni/Allocator/Reserve.antt =====
-- What the allocator promises, of files that keep what is written to them.
use ipu_opi_plugins.Prelude.{ℕ, ◌≡◌, refl, true, false, Option, none, some, String, some_of, arith}
use ipu_opi_plugins.Outcome.{ok}
use ipu_opi_plugins.SriovCni.Host.{
  not_exist, there, Host, FilePath, there, not_exist, stat_failed, NsResult, opened, ns_not_exist,
  ns_failed,
}
use ipu_opi_plugins.SriovCni.Allocator.{
  PciAllocator, lock_path, save_allocated_pci, delete_allocated_pci, check_namespace, is_allocated,
}

-- Of the documented behaviour of `os`: where a file is told not to exist it has no text, and a
-- removal that succeeds leaves none. Nothing is said of a file whose `os.Stat` fails.
pub record ReportsAbsence {K : Type 0} (host : Host K) (content : K → FilePath → Option String)
    : Type 0 where
  pub stat_not_exist : (k : K) (f : FilePath) → host.stat k f ≡ not_exist → content k f ≡ none
  pub remove_leaves : (f : FilePath) (k k' : K) → host.remove f k ≡ (true, k') → content k' f ≡ none

-- Besides, a file with a text can be found and read, one without cannot be read, and a write that
-- succeeds leaves the file with its text. `content` is the text that can be read: a directory, or a
-- file whose `os.Stat` fails, has none.
pub record KeepsFiles {K : Type 0} (host : Host K) (content : K → FilePath → Option String)
    : Type 0 where
  pub absence : ReportsAbsence host content
  pub stat_there :
      (k : K) (f : FilePath) (t : String) → content k f ≡ some t → host.stat k f ≡ there
  pub read_there :
      (k : K) (f : FilePath) (t : String) → content k f ≡ some t → host.read_file k f ≡ some t
  pub read_absent : (k : K) (f : FilePath) → content k f ≡ none → host.read_file k f ≡ none
  pub write_leaves :
      (f : FilePath) (t : String) (k k' : K)
      → host.write_file f t k ≡ (true, k')
      → content k' f ≡ some t

module _ {K : Type 0} (host : Host K) (content : K → FilePath → Option String)
    (keeps : KeepsFiles host content) (p : PciAllocator) where
  save_allocated_pci_leaves :
      (pci ns : String) (k k' : K)
      → save_allocated_pci host p pci ns k ≡ (ok tt, k')
      → content k' (lock_path p pci) ≡ some ns
  unfolding save_allocated_pci
  save_allocated_pci_leaves pci ns k k' h =
      keeps.write_leaves _ _ (host.mkdir_all p.data_dir k).1 k' (ground arith)

  -- Of files that keep what is written: an address that was saved with a namespace is allocated
  -- in the state left, where that namespace can be opened, and asking changes nothing.
  pub is_allocated-save :
      (pci ns : String) (fd : ℕ) (k k' : K)
      → save_allocated_pci host p pci ns k ≡ (ok tt, k')
      → host.get_ns k' ns ≡ opened fd
      → is_allocated host p pci k' ≡ (ok true, k')
  unfolding is_allocated
  is_allocated-save pci ns fd k k' h g =
      let c = save_allocated_pci_leaves pci ns k k' h in
      let s = keeps.stat_there k' _ ns c in let r = keeps.read_there k' _ ns c in ground arith

module _ {K : Type 0} (host : Host K) (content : K → FilePath → Option String)
    (absence : ReportsAbsence host content) (p : PciAllocator) where
  pub delete_allocated_pci_leaves :
      (pci : String) (k k' : K)
      → delete_allocated_pci host p pci k ≡ (ok tt, k')
      → content k' (lock_path p pci) ≡ none
  unfolding delete_allocated_pci
  delete_allocated_pci_leaves pci k k' h = absence.remove_leaves _ k k' (ground arith)

  check_namespace_free :
      (pci : String) (ns : NsResult) (k k' : K)
      → check_namespace host p pci ns k ≡ (ok false, k')
      → delete_allocated_pci host p pci k ≡ (ok tt, k')
  check_namespace_free pci (opened fd) k k' h = ground arith
  check_namespace_free pci ns_not_exist k k' h = ground arith
  check_namespace_free pci ns_failed k k' h = ground arith

  -- Of files whose absence is reported as it is, and where asking for a file may fail: where the
  -- answer is that an address is not allocated, no lock file of it is left.
  pub is_allocated_free :
      (pci : String) (k k' : K)
      → is_allocated host p pci k ≡ (ok false, k')
      → content k' (lock_path p pci) ≡ none
  unfolding is_allocated
  is_allocated_free pci k k' h =
      elim (host.stat k (lock_path p pci))
          as (λ s. host.stat k (lock_path p pci) ≡ s → content k' (lock_path p pci) ≡ none) [
            | not_exist ↦ λ e. let c = absence.stat_not_exist k _ e in ground arith
            | stat_failed ↦ λ e. ground arith
            | there ↦ λ e.
                let (dat, r) = some_of (host.read_file k (lock_path p pci)) (λ f. ground arith) in
                delete_allocated_pci_leaves pci k k'
                  (check_namespace_free pci (host.get_ns k dat) k k' (ground arith))
          ]
        refl
