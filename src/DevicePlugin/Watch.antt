-- ===== src/DevicePlugin/Watch.antt =====
-- The stream of device states of `ListAndWatch`, and what it sends.
use ipu_opi_plugins.Prelude.{
  ◌≡◌, refl, Bool, true, false, not, Option, none, some, List, [], ◌∷◌, ◌==◌, string_eq,
  if◌then◌else◌, arith, ap, ℕ, zero, suc, map,
}
use ipu_opi_plugins.Outcome.{Outcome, err, panic, Attempt}
use ipu_opi_plugins.Dict.{Dict}
use ipu_opi_plugins.DevicePlugin.{
  Device, ApfManager, DeviceError, DeviceHost, Plugin, healthy, get_device_state, send_failed,
}

-- The loop over the devices of the manager: each key of the map is visited once, and its entry is
-- written where the state has changed.
unfoldable pub refresh : Bool → Dict Device → Bool × Dict Device
refresh changed [] = (changed, [])
refresh changed ((id, dev) ∷ devices) =
    let state = get_device_state id in
    if not (dev.health == state)
    then (let (c, rest) = refresh true devices in (c, (id, record dev { health = state }) ∷ rest))
    else (let (c, rest) = refresh changed devices in (c, (id, dev) ∷ rest))

-- The devices of a response, in the order in which the map is gone through.
unfoldable pub response : Dict Device → List Device
response [] = []
response ((id, dev) ∷ devices) = record { id = dev.id; health = dev.health } ∷ response devices

module _ {K : Type 0} (host : DeviceHost K) (send : List Device → Attempt K) where
  -- A response that cannot be sent ends the loop, after `Stop` on the server, a nil pointer
  -- before there is one.
  abbrev pub break_off :
      ApfManager → Option ℕ → K → Option (Outcome DeviceError (Unit {0})) × Plugin K
  break_off sm none k = (some panic, record { manager = sm; node = k })
  break_off sm (some server) k =
      (some (err send_failed), record { manager = sm; node = host.stop_server server k })

  -- `fuel` rounds of the loop of `ListAndWatch`, which ends with an error or not at all: `none`
  -- where the fuel is used up.
  unfoldable pub watch : ℕ → Bool → Plugin K → Option (Outcome DeviceError (Unit {0})) × Plugin K
  watch zero changed p = (none, p)
  watch (suc fuel) changed p =
      let (changed, devices) = refresh changed p.manager.devices in
      let sm = record p.manager { devices = devices } in
      if changed
      then (let (sent, k) = send (response devices) p.node in
          if sent
          then watch fuel false (record { manager = sm; node = host.sleep k })
          else break_off sm sm.grpc_server k)
      else watch fuel false (record { manager = sm; node = host.sleep p.node })

  unfoldable pub list_and_watch : ℕ → Plugin K → Option (Outcome DeviceError (Unit {0})) × Plugin K
  list_and_watch fuel p = watch fuel true p

-- What the devices are after a round.
abbrev pub healed : Dict Device → Dict Device
healed = map (λ e. (e.0, record e.1 { health = healthy }))

abbrev pub offered : Dict Device → List Device
offered = map (λ e. record { id = e.1.id; health = healthy })

cons_entry : {V : Type 0} (e : V) (r : Bool × List V) → Bool × List V
cons_entry e r = (r.0, e ∷ r.1)

refresh_changed : (devices : Dict Device) → refresh true devices ≡ (true, healed devices)
unfolding refresh get_device_state
refresh_changed [] = refl
refresh_changed ((id, dev) ∷ devices) = let rest = refresh_changed devices in ground arith

refresh-healed : (devices : Dict Device) → refresh false (healed devices) ≡ (false, healed devices)
unfolding refresh get_device_state string_eq cons_entry
refresh-healed [] = refl
refresh-healed ((id, dev) ∷ devices) =
    ap (cons_entry (id, record dev { health = healthy })) (refresh-healed devices)

response-healed : (devices : Dict Device) → response (healed devices) ≡ offered devices
unfolding response
response-healed [] = refl
response-healed ((id, dev) ∷ devices) =
    ap (λ r. record { id = dev.id; health = healthy } ∷ r) (response-healed devices)

module _ {K : Type 0} (host : DeviceHost K) (send : List Device → Attempt K) where
  abbrev pub sleeps : ℕ → K → K
  sleeps zero k = k
  sleeps (suc n) k = sleeps n (host.sleep k)

  abbrev pub with_healed : ApfManager → ApfManager
  with_healed sm = record sm { devices = healed sm.devices }

  watch_idle :
      (n : ℕ) (sm : ApfManager) (k : K)
      → watch host send n false (record { manager = with_healed sm; node = k })
        ≡ (none, record { manager = with_healed sm; node = sleeps n k })
  unfolding watch
  watch_idle zero sm k = refl
  watch_idle (suc n) sm k = rw (refresh-healed sm.devices) (watch_idle n sm (host.sleep k))

  -- In any positive number of rounds `ListAndWatch` sends one response, which lists every device
  -- of the manager as healthy. Where it is sent, the loop goes on and only sleeps once in each
  -- round, and every device is healthy; where it is not, the loop ends with an error after the
  -- server was stopped, or with a panic where there is no server.
  pub list_and_watch_lem :
      (n : ℕ) (p : Plugin K)
      → list_and_watch host send (suc n) p ≡ (
          let (sent, k) = send (offered p.manager.devices) p.node in
          if sent
          then (none, record { manager = with_healed p.manager; node = sleeps (suc n) k })
          else break_off host send (with_healed p.manager) p.manager.grpc_server k)
  unfolding list_and_watch watch
  list_and_watch_lem n p =
      let (sent, k) = send (offered p.manager.devices) p.node in
      rw (refresh_changed p.manager.devices, response-healed p.manager.devices)
        (ap
          (λ w.
            if sent then w else break_off host send (with_healed p.manager) p.manager.grpc_server k)
          (watch_idle n p.manager (host.sleep k)))
