-- ===== src/SriovCni/Logging.antt =====
-- The wrapper of sriov_cni/pkg/logging/logging.go, with its global variables as a record. The
-- package `cnilog` is the parameter `CniLog`: its levels are numbers, and a message is a list of
-- texts behind its title.
use ipu_opi_plugins.Outcome.{Attempt}
use ipu_opi_plugins.Prelude.{
  ℕ, ◌≡◌, Bool, true, false, not, Option, none, some, String, List, [], ◌∷◌, ◌++◌, ◌==◌, string_eq,
  if◌then◌else◌, arith,
}

pub record CniLog (K : Type 0) : Type 0 where
  -- No number for `InvalidLevel`.
  pub string_to_level : String → Option ℕ
  pub info_level : ℕ
  pub set_log_level : ℕ → K → K
  pub set_log_stderr : Bool → K → K
  pub set_log_file : String → K → K
  pub debug_structured : String → List String → K → K
  pub info_structured : String → List String → K → K
  pub warning_structured : String → List String → K → K
  pub error_structured : String → List String → Attempt K
  pub panic_structured : String → List String → K → K

-- The variables of the package.
pub record Labels : Type 0 where
  pub container_id : String
  pub net_ns : String
  pub if_name : String

-- `prependArgs`: a label that is empty is left out.
unfoldable pub prepend_args : Labels → List String → List String
prepend_args l args =
    let args = if not (l.if_name == "") then "ifname" ∷ l.if_name ∷ args else args in
    let args = if not (l.net_ns == "") then "netns" ∷ l.net_ns ∷ args else args in
    let args = if not (l.container_id == "") then "containerID" ∷ l.container_id ∷ args else args in
    "cniName" ∷ "sriov-cni" ∷ args

module _ {K : Type 0} (log : CniLog K) where
  -- A text that is no level stands for that of information.
  unfoldable pub set_log_level : String → K → K
  set_log_level l k = elim (log.string_to_level l) [
    | none ↦ log.set_log_level log.info_level k
    | some ll ↦ log.set_log_level ll k
  ]

  unfoldable pub set_log_file : String → K → K
  set_log_file file_name k =
      if file_name == ""
      then log.set_log_file "" (log.set_log_stderr true k)
      else log.set_log_stderr false (log.set_log_file file_name k)

  unfoldable pub init_logging : String → String → String → String → String → K → Labels × K
  init_logging log_level log_file container_id net_ns if_name k = (
    record { container_id = container_id; net_ns = net_ns; if_name = if_name },
    set_log_file log_file (set_log_level log_level k),
  )

  unfoldable pub debug : Labels → String → List String → K → K
  debug l msg args = log.debug_structured msg (prepend_args l args)

  unfoldable pub info : Labels → String → List String → K → K
  info l msg args = log.info_structured msg (prepend_args l args)

  unfoldable pub warning : Labels → String → List String → K → K
  warning l msg args = log.warning_structured msg (prepend_args l args)

  -- The answer of the package is dropped.
  unfoldable pub error : Labels → String → List String → K → K
  error l msg args k = (log.error_structured msg (prepend_args l args) k).1

  unfoldable pub panic_log : Labels → String → List String → K → K
  panic_log l msg args = log.panic_structured msg (prepend_args l args)

  -- `config.SetLogging`; `levels` reads the level and the file of the log from a JSON text.
  unfoldable pub set_logging :
      (String → Option (String × String))
      → String
      → String
      → String
      → String
      → K
      → Option (Labels × K)
  set_logging levels stdin_data container_id net_ns if_name k = elim (levels stdin_data) [
    | none ↦ none
    | some (log_level, log_file) ↦
        some (init_logging log_level log_file container_id net_ns if_name k)
  ]

-- The labels stand in front of the arguments, which stay as they are.
pub prepend_args-append :
    (l : Labels) (args : List String) → prepend_args l args ≡ prepend_args l [] ++ args
unfolding prepend_args
prepend_args-append l args = ground arith
