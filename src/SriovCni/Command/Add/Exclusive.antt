-- ===== src/SriovCni/Command/Add/Exclusive.antt =====
-- A device that a pod has is not given to another.
use ipu_opi_plugins.Prelude.{
  ℕ, ◌≡◌, ◌≢◌, sym, ap, ◌∙◌, true, false, Bool, Option, some, String, arith, ◌==◌, string_eq,
}
use ipu_opi_plugins.Outcome.{◌>>=◌, ◌>>◌, throw_if, Outcome, ok}
use ipu_opi_plugins.Outcome.Success.{throw_if_ok, bind_ok, or_throw_ok}
use ipu_opi_plugins.SriovCni.Types.{NetConf}
use ipu_opi_plugins.SriovCni.Host.{already_allocated, no_pci_address, Host, FilePath, bad_json}
use ipu_opi_plugins.SriovCni.Packets.{Sockets}
use ipu_opi_plugins.SriovCni.Allocator.{PciAllocator, is_allocated, new_pci_allocator, lock_path}
use ipu_opi_plugins.SriovCni.Allocator.Reserve.{KeepsFiles}
use ipu_opi_plugins.SriovCni.Config.{
  with_address, settle, get_vf_info, take_device, Json, CmdArgs, load_conf, default_cni_dir,
}
use ipu_opi_plugins.SriovCni.Command.{Cni, opened, ℤ, CniError, Remote}
use ipu_opi_plugins.SriovCni.Command.Add.{Adding}
use ipu_opi_plugins.SriovCni.Command.Add.Deferred.{cmd_add}
use ipu_opi_plugins.SriovCni.Command.Add.Whole.{cmd_add-IsAdded}
use ipu_opi_plugins.SriovCni.Command.Add.Caching.{ReadsBack, LeavesFiles, locks}
use ipu_opi_plugins.SriovCni.Command.Add.Loaded.{recorded_device}

some_injective : {A : Type 0} {a b : A} → ◌≡◌ {A = Option A} (some a) (some b) → a ≡ b
some_injective h = ground arith

module _ {K : Type 0} (host : Host K) (json : Json) where
  abbrev allocator : PciAllocator
  allocator = new_pci_allocator default_cni_dir

  abbrev with_place : NetConf → String × ℤ → NetConf
  with_place m place = record m { master = place.0; vf_id = place.1 }

  -- What `LoadConf` does with an answer of `IsAllocated`.
  abbrev go_on : NetConf → Bool → Cni host NetConf
  go_on m allocated = throw_if allocated already_allocated >> settle host json m

  abbrev go_ask : NetConf → String × ℤ → Cni host NetConf
  go_ask m place = is_allocated host allocator m.device_id >>= go_on (with_place m place)

  true-ne-false : true ≢ false
  true-ne-false e = ground arith

  answer : Outcome CniError Bool → Bool
  answer (ok b) = b
  answer _ = false

  -- A device that is in use is not taken.
  take_device_locked :
      (k k2 : K) (m c : NetConf)
      → is_allocated host allocator m.device_id k ≡ (ok true, k)
      → take_device host json m k ≢ (ok c, k2)
  unfolding take_device answer
  take_device_locked k k2 m c locked h =
      let (place, t, found, asking) =
        bind_ok (λ k. (get_vf_info host json k m.device_id, k)) (go_ask m) k k2 c h in
      let (allocated, t2, asked, rest) =
        bind_ok (is_allocated host allocator m.device_id) (go_on (with_place m place)) t k2 c
          asking in
      let (is_false, _) =
        throw_if_ok allocated already_allocated (settle host json (with_place m place)) t2 k2 c
          rest in
      let same_state : k ≡ t = ap (λ q. q.1) found in
      let answers = sym locked ∙ ap (is_allocated host allocator m.device_id) same_state ∙ asked in
      true-ne-false (ap (λ q. answer q.0) answers ∙ is_false)

  -- A text whose device is in use answers no configuration.
  load_conf_locked :
      (k k2 : K) (t : String) (n c : NetConf)
      → json.unmarshal t ≡ some n
      → is_allocated host allocator n.device_id k ≡ (ok true, k)
      → load_conf host json t k ≢ (ok c, k2)
  unfolding load_conf
  load_conf_locked k k2 t n c parsed locked h =
      let begin : NetConf → Cni host NetConf =
        λ m. throw_if (m.device_id == "") no_pci_address >> take_device host json m in
      let (n', parsed', started) =
        or_throw_ok (json.unmarshal t) bad_json (λ m. begin (with_address m)) k k2 c h in
      let (_, taken) =
        throw_if_ok (n'.device_id == "") no_pci_address (take_device host json (with_address n')) k
          k2 c started in
      let same : n ≡ n' = some_injective (sym parsed ∙ parsed') in
      take_device_locked k k2 (with_address n') c
        (ap (λ m. is_allocated host allocator m.device_id k) (sym same) ∙ locked) taken

module _ {K : Type 0} (host : Host K) (json : Json) (remote : Remote K) (adding : Adding K)
    (sockets : Sockets K) (content : K → FilePath → Option String) (keeps : KeepsFiles host content)
    (reads : ReadsBack json) (args : CmdArgs) where
  holds :
      (k : K) (pci : String) (fd : ℕ)
      → content k (lock_path (new_pci_allocator default_cni_dir) pci) ≡ some args.netns
      → host.get_ns k args.netns ≡ opened fd
      → is_allocated host (new_pci_allocator default_cni_dir) pci k ≡ (ok true, k)
  unfolding is_allocated
  holds k pci fd locked opens =
      let s = keeps.stat_there k _ args.netns locked in
      let r = keeps.read_there k _ args.netns locked in ground arith

  -- Of files that keep what is written, of a JSON library that reads back what it wrote but for
  -- the mode, and of steps that leave files alone that they do not name: when a `cmdAdd`, whose
  -- `LoadConf` answered a configuration, has succeeded, and the pod's namespace can be opened in
  -- the state left, a `cmdAdd` whose input names the same device does not succeed there.
  pub cmd_add_exclusive :
      (leaves : LeavesFiles host json remote adding sockets content keeps reads args)
      (other : CmdArgs) (k k1 k' k2 : K) (conf n : NetConf) (fd : ℕ)
      → load_conf host json args.stdin_data k ≡ (ok conf, k1)
      → cmd_add host json remote adding sockets args k ≡ (ok tt, k')
      → host.get_ns k' args.netns ≡ opened fd
      → json.unmarshal other.stdin_data ≡ some n
      → n.device_id ≡ conf.device_id
      → cmd_add host json remote adding sockets other k' ≢ (ok tt, k2)
  cmd_add_exclusive leaves other k k1 k' k2 conf n fd loads added opens parsed same h =
      let first = cmd_add-IsAdded host json remote adding sockets args k k' added in
      let second = cmd_add-IsAdded host json remote adding sockets other k' k2 h in
      let device = recorded_device host json remote adding sockets args k k1 k' conf loads first in
      let locked =
        locks host json remote adding sockets content keeps reads args leaves first.runs.0 k'
          first.runs.2 in
      let allocated = holds k' first.runs.0.device_id fd locked opens in
      load_conf_locked host json k' second.k1 other.stdin_data n second.loaded parsed
        (ap (λ d. is_allocated host (new_pci_allocator default_cni_dir) d k') (same ∙ sym device)
          ∙ allocated)
        second.loads
