-- ===== src/DevicePlugin/Allocation.antt =====
-- `Allocate`: the names of the devices in the environment of the containers.
use ipu_opi_plugins.Prelude.{
  ◌≡◌, refl, Bool, true, false, not, Option, none, some, String, ◌<>◌, List, [], ◌∷◌, ◌++◌, ◌==◌,
  string_eq, if◌then◌else◌, ap, sym, ◌∙◌, ℕ, zero, suc, get_elem?,
}
use text.Mathlib.TextLemmas.{append_assoc, append-nil, nil-append}
use ipu_opi_plugins.Dict.{Dict, lookup, insert}
use ipu_opi_plugins.DevicePlugin.{Device, ApfManager, healthy}

-- What is printed.
pub data Notice : Type 0 where
  device_id no_such_device unhealthy_device allocated : String → Notice

-- The zero value stands for a device that is not there.
abbrev pub device_or_zero : Option Device → Device
device_or_zero none = record { id = ""; health = "" }
device_or_zero (some dev) = dev

abbrev pub is_missing : Option Device → Bool
is_missing none = true
is_missing (some _) = false

abbrev pub notice_if : Bool → Notice → List Notice
notice_if c n = if c then n ∷ [] else []

unfoldable pub notices_of : ApfManager → String → List Notice
notices_of sm id =
    let found = lookup id sm.devices in
    device_id id ∷ notice_if (is_missing found) (no_such_device id)
    ++ notice_if (not ((device_or_zero found).health == healthy)) (unhealthy_device id)

-- The inner loop, over the devices of a container: it appends to the name.
unfoldable pub allocate_devices : ApfManager → String → List String → String × List Notice
allocate_devices sm dev_name [] = (dev_name, [])
allocate_devices sm dev_name (id ∷ ids) =
    let (name, notices) = allocate_devices sm (dev_name <> id <> ",") ids in
    (name, notices_of sm id ++ notices)

-- The environment of one container.
abbrev pub envs_of : String → Dict String
envs_of dev_name = insert "APF-DEV" dev_name []

-- The outer loop, over the containers.
unfoldable pub allocate_containers :
    ApfManager → String → List (List String) → List (Dict String) × List Notice
allocate_containers sm dev_name [] = ([], [])
allocate_containers sm dev_name (ids ∷ requests) =
    let (name, notices) = allocate_devices sm dev_name ids in
    let (responses, later) = allocate_containers sm name requests in
    (envs_of name ∷ responses, notices ++ allocated name ∷ later)

-- The answer is never an error.
unfoldable pub allocate : ApfManager → List (List String) → List (Dict String) × List Notice
allocate sm requests = allocate_containers sm "" requests

-- The devices with a comma behind each.
abbrev pub comma_list : List String → String
comma_list [] = ""
comma_list (id ∷ ids) = id <> "," <> comma_list ids

-- The devices of the container at an index and of all containers before it.
abbrev pub up_to : ℕ → List (List String) → Option (List String)
up_to i [] = none
up_to zero (ids ∷ requests) = some ids
up_to (suc i) (ids ∷ requests) = elim (up_to i requests) [
  | none ↦ none
  | some later ↦ some (ids ++ later)
]

comma_list-append : (xs ys : List String) → comma_list (xs ++ ys) ≡ comma_list xs <> comma_list ys
comma_list-append [] ys = sym (nil-append (comma_list ys))
comma_list-append (x ∷ xs) ys =
    ap (λ t. x <> "," <> t) (comma_list-append xs ys)
    ∙ ap (λ t. x <> t) (sym (append_assoc "," (comma_list xs) (comma_list ys)))
    ∙ sym (append_assoc x ("," <> comma_list xs) (comma_list ys))

allocate_devices-name :
    (sm : ApfManager) (dev_name : String) (ids : List String)
    → (allocate_devices sm dev_name ids).0 ≡ dev_name <> comma_list ids
unfolding allocate_devices
allocate_devices-name sm dev_name [] = sym (append-nil dev_name)
allocate_devices-name sm dev_name (id ∷ ids) =
    allocate_devices-name sm (dev_name <> id <> ",") ids
    ∙ append_assoc dev_name (id <> ",") (comma_list ids)
    ∙ ap (λ t. dev_name <> t) (append_assoc id "," (comma_list ids))

abbrev pub env_after : String → Option (List String) → Option (Dict String)
env_after dev_name none = none
env_after dev_name (some ids) = some (envs_of (dev_name <> comma_list ids))

later_env :
    (dev_name name : String) (ids : List String) (o : Option (List String))
    → name ≡ dev_name <> comma_list ids
    → env_after name o
      ≡ env_after dev_name (elim o [ none ↦ none | some later ↦ some (ids ++ later) ])
later_env dev_name name ids none e = refl
later_env dev_name name ids (some later) e =
    ap (λ t. some (envs_of t))
      (ap (λ n. n <> comma_list later) e
        ∙ append_assoc dev_name (comma_list ids) (comma_list later)
        ∙ ap (λ t. dev_name <> t) (sym (comma_list-append ids later)))

allocate_containers-envs :
    (sm : ApfManager) (dev_name : String) (requests : List (List String)) (i : ℕ)
    → get_elem? (allocate_containers sm dev_name requests).0 i
      ≡ env_after dev_name (up_to i requests)
unfolding allocate_containers
allocate_containers-envs sm dev_name [] i = refl
allocate_containers-envs sm dev_name (ids ∷ requests) zero =
    ap (λ t. some (envs_of t)) (allocate_devices-name sm dev_name ids)
allocate_containers-envs sm dev_name (ids ∷ requests) (suc i) =
    let name = (allocate_devices sm dev_name ids).0 in
    allocate_containers-envs sm name requests i
    ∙ later_env dev_name name ids (up_to i requests) (allocate_devices-name sm dev_name ids)

-- The answer of `Allocate` has one environment for each container of the request: its variable
-- APF-DEV lists, with a comma behind each, the devices of the container and of all containers
-- before it.
pub allocate-envs :
    (sm : ApfManager) (requests : List (List String)) (i : ℕ)
    → get_elem? (allocate sm requests).0 i ≡ env_after "" (up_to i requests)
unfolding allocate
allocate-envs sm requests i = allocate_containers-envs sm "" requests i
