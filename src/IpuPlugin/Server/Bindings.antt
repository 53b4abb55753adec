-- ===== src/IpuPlugin/Server/Bindings.antt =====
-- Which settings the program runs with, of the flags that are given to it.
use ipu_opi_plugins.Prelude.{
  ◌≡◌, ◌≢◌, ap, ◌∙◌, subst, Bool, Bool-cases, true, false, inl, inr, Option, none, some, String,
  List, [], ◌∷◌, ◌==◌, string_eq, if◌then◌else◌, All, All-map, arith,
}
use ipu_opi_plugins.Prelude.Int.{ℤ, pos}
use ipu_opi_plugins.Outcome.{ok, attempt}
use ipu_opi_plugins.Outcome.Success.{bind_ok, attempt_ok}
use ipu_opi_plugins.IpuPlugin.Server.{Settings, failed}
use ipu_opi_plugins.IpuPlugin.Server.Flags.{
  Flag, Value, text, number, Viper, flags, flag_list, lookup_flag, bind_flags, init_flags,
  init_config, read_settings,
}

-- The flags that stand on the command line, with what is given for them.
pub record CommandLine : Type 0 where
  pub given_text : String → Option String
  pub given_number : String → Option ℤ

abbrev pub or_else : {A : Type 0} → Option A → A → A
or_else none a = a
or_else (some b) a = b

-- The usage of the program: the settings with their flags and what they are where the flag is not given.
abbrev pub settings_of : CommandLine → Settings
settings_of cl = record {
  log_dir = or_else (cl.given_text "logDir") "/var/log/ipuplugin";
  verbosity = or_else (cl.given_text "verbosity") "info";
  serving_addr = or_else (cl.given_text "servingAddr") "/var/run/vendor-plugin.sock";
  serving_proto = or_else (cl.given_text "servingProto") "unix";
  port = or_else (cl.given_number "port") (pos 50152);
  bridge = or_else (cl.given_text "bridge") "br-tenant";
  interface = or_else (cl.given_text "interface") "";
  ovs_cli_dir = or_else (cl.given_text "ovsCliDir") "/opt/p4/p4-cp-nws/bin";
  bridge_type = or_else (cl.given_text "bridgeType") "linux";
  p4rtbin = or_else (cl.given_text "p4rtbin") "/opt/p4/p4-cp-nws/bin/p4rt-ctl";
  port_mux_vsi = or_else (cl.given_number "portMuxVsi") (pos 10);
  mode = or_else (cl.given_text "mode") "";
  daemon_host_ip = or_else (cl.given_text "daemonHostIp") "192.168.1.1";
  daemon_ipu_ip = or_else (cl.given_text "daemonIpuIp") "192.168.1.2";
  daemon_port = or_else (cl.given_number "daemonPort") (pos 50151);
}

module _ {K : Type 0} (viper : Viper K) (cl : CommandLine) where
  -- The value of a key is that of a flag: what is given for it, or else its default.
  abbrev pub Gives : K → String → String → Value → Type 0
  Gives k key name (text d) = viper.get_string k key ≡ or_else (cl.given_text name) d
  Gives k key name (number d) = viper.get_int k key ≡ or_else (cl.given_number name) d

  abbrev pub SameAt : K → K → String → Type 0
  SameAt k k' key =
      (viper.get_string k' key ≡ viper.get_string k key)
      × (viper.get_int k' key ≡ viper.get_int k key)

  -- Of the documented behaviour of `viper`, of a process whose configuration file and environment
  -- give no setting: a key that is bound has the value of its flag, and no call changes another
  -- key.
  pub record IsLawful : Type 0 where
    pub binds :
        (key : String) (f : Flag) (k k' : K)
        → viper.bind_p_flag key (some f) k ≡ (true, k')
        → Gives k' key f.name f.default
    pub keeps :
        (key other : String) (flag : Option Flag) (k k' : K)
        → key ≢ other
        → viper.bind_p_flag key flag k ≡ (true, k')
        → SameAt k k' other
    pub by_file : (file key : String) (k : K) → SameAt k (viper.set_config_file file k) key
    pub by_path : (path key : String) (k : K) → SameAt k (viper.add_config_path path k) key
    pub by_type : (ty key : String) (k : K) → SameAt k (viper.set_config_type ty k) key
    pub by_name : (name key : String) (k : K) → SameAt k (viper.set_config_name name k) key
    pub by_env : (key : String) (k : K) → SameAt k (viper.automatic_env k) key
    pub by_config : (key : String) (k : K) → SameAt k (viper.read_in_config k).1 key

  module _ (lawful : IsLawful) where
    Gives-SameAt :
        (k k' : K) (key name : String) (v : Value)
        → SameAt k k' key
        → Gives k key name v
        → Gives k' key name v
    Gives-SameAt k k' key name (text d) same g = same.0 ∙ g
    Gives-SameAt k k' key name (number d) same g = same.1 ∙ g

    SameAt-trans :
        (k1 k2 k3 : K) (key : String) → SameAt k1 k2 key → SameAt k2 k3 key → SameAt k1 k3 key
    SameAt-trans k1 k2 k3 key a b = (b.0 ∙ a.0, b.1 ∙ a.1)

    abbrev IsBound : K → String → Option Flag → Type 0
    IsBound k key none = Unit {0}
    IsBound k key (some f) = Gives k key f.name f.default

    bind_one :
        (key : String) (flag : Option Flag) (k k' : K)
        → viper.bind_p_flag key flag k ≡ (true, k')
        → IsBound k' key flag
    bind_one key none k k' h = tt
    bind_one key (some f) k k' h = lawful.binds key f k k' h

    IsBound-SameAt :
        (k k' : K) (key : String) (flag : Option Flag)
        → SameAt k k' key
        → IsBound k key flag
        → IsBound k' key flag
    IsBound-SameAt k k' key none same b = tt
    IsBound-SameAt k k' key (some f) same b = Gives-SameAt k k' key f.name f.default same b

    -- The first call of the loop.
    bind_first :
        (key : String) (keys : List String) (k k' : K)
        → bind_flags viper (key ∷ keys) k ≡ (ok tt, k')
        → (k1 : K) × (viper.bind_p_flag key (lookup_flag key flags) k ≡ (true, k1))
          × (bind_flags viper keys k1 ≡ (ok tt, k'))
    unfolding bind_flags
    bind_first key keys k k' h =
        let call = viper.bind_p_flag key (lookup_flag key flags) in
        let (_, k1, first, rest) =
          bind_ok (attempt call failed) (λ _. bind_flags viper keys) k k' tt h in
        (k1, attempt_ok call failed k k1 tt first, rest)

    -- The calls behind it keep a key bound.
    bind_stays :
        (keys : List String) (key : String) (k k' : K)
        → IsBound k key (lookup_flag key flags)
        → bind_flags viper keys k ≡ (ok tt, k')
        → IsBound k' key (lookup_flag key flags)
    unfolding bind_flags
    bind_stays [] key k k' b h =
        subst (λ j. IsBound j key (lookup_flag key flags)) (ap (λ q. q.1) h) b
    bind_stays (next ∷ keys) key k k' b h =
        let (k1, bound, rest) = bind_first next keys k k' h in
        let again : IsBound k1 key (lookup_flag key flags) = elim (Bool-cases (next == key)) [
          | inl t ↦
              let e : next ≡ key = ground arith in
              subst (λ x. IsBound k1 x (lookup_flag x flags)) e
                (bind_one next (lookup_flag next flags) k k1 bound)
          | inr f ↦
              let d : next ≢ key = ground arith in
              IsBound-SameAt k k1 key (lookup_flag key flags)
                (lawful.keeps next key (lookup_flag next flags) k k1 d bound) b
        ] in
        bind_stays keys key k1 k' again rest

    bind_each :
        (keys : List String) (k k' : K)
        → bind_flags viper keys k ≡ (ok tt, k')
        → All (λ key. IsBound k' key (lookup_flag key flags)) keys
    bind_each [] k k' h = tt
    bind_each (key ∷ keys) k k' h =
        let (k1, bound, rest) = bind_first key keys k k' h in
        (
          bind_stays keys key k1 k' (bind_one key (lookup_flag key flags) k k1 bound) rest,
          bind_each keys k1 k' rest,
        )

    -- Where the file is not given, and where it is.
    located_same :
        (not_given : Bool) (cfg_file key : String) (k : K)
        → SameAt k
            (if not_given
              then viper.set_config_name "ipuplugin.yaml"
                  (viper.set_config_type "yaml" (viper.add_config_path "/etc/ipu/" k))
              else viper.set_config_file cfg_file k)
            key
    located_same true cfg_file key k =
        let path = viper.add_config_path "/etc/ipu/" k in
        let ty = viper.set_config_type "yaml" path in
        SameAt-trans k path (viper.set_config_name "ipuplugin.yaml" ty) key
          (lawful.by_path "/etc/ipu/" key k)
          (SameAt-trans path ty (viper.set_config_name "ipuplugin.yaml" ty) key
            (lawful.by_type "yaml" key path) (lawful.by_name "ipuplugin.yaml" key ty))
    located_same false cfg_file key k = lawful.by_file cfg_file key k

    init_config_same : (cfg_file key : String) (k : K) → SameAt k (init_config viper cfg_file k) key
    unfolding init_config
    init_config_same cfg_file key k =
        let located =
          (if cfg_file == ""
            then viper.set_config_name "ipuplugin.yaml"
                (viper.set_config_type "yaml" (viper.add_config_path "/etc/ipu/" k))
            else viper.set_config_file cfg_file k) in
        let env = viper.automatic_env located in
        SameAt-trans k located (viper.read_in_config env).1 key
          (located_same (cfg_file == "") cfg_file key k)
          (SameAt-trans located env (viper.read_in_config env).1 key (lawful.by_env key located)
            (lawful.by_config key env))

    read_from_bound :
        (k : K)
        → All (λ key. IsBound k key (lookup_flag key flags)) flag_list
        → read_settings viper k ≡ settings_of cl
    unfolding read_settings flag_list flags lookup_flag string_eq
    read_from_bound k h = cc

    -- Of a `viper` in which a key that is bound has the value of its flag, in a process whose
    -- configuration file and environment give no setting: when `init` succeeds, the settings that
    -- are read behind `initConfig` are those of the command line: each is what is given for the
    -- flag of its name, or its default in the usage of the program.
    pub read_settings-init_flags :
        (cfg_file : String) (k k' : K)
        → init_flags viper k ≡ (ok tt, k')
        → read_settings viper (init_config viper cfg_file k') ≡ settings_of cl
    unfolding init_flags
    read_settings-init_flags cfg_file k k' h =
        let (_, k1, _, rest) =
          bind_ok (attempt (viper.mark_required "mode") failed) (λ _. bind_flags viper flag_list) k
            k' tt h in
        read_from_bound (init_config viper cfg_file k') (
          All-map flag_list
            (λ key.
              IsBound-SameAt k' (init_config viper cfg_file k') key (lookup_flag key flags)
                (init_config_same cfg_file key k'))
            (bind_each flag_list k1 k' rest))
