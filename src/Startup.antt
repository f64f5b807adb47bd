-- ===== src/Startup.antt =====
-- The start of the process: cmd/main.go, and `SetupWithManager` of both controllers.
pub mod Order
use pluma_opeartor.Base.{ℕ, String, Bool, true, false, ◌⊎◌, inl, inr, Option}
use pluma_opeartor.Effects.{GoError, Result, Action, pure, panic, call, ◌>>=◌, if_error, if_err}

-- The variables that the flags set; `profiles_dir` is that of `config.GlobalConfig`.
pub record StartFlags : Type 0 where
  pub metrics_addr : String
  pub probe_addr : String
  pub enable_leader_election : Bool
  pub profiles_dir : String

abbrev pub default_flags : StartFlags
default_flags = record {
  metrics_addr = ":9090";
  probe_addr = ":8081";
  enable_leader_election = false;
  profiles_dir = "./istio/profiles";
}

-- What `ctrl.Options` gets.
pub record ManagerOptions : Type 0 where
  pub metrics_bind_address : String
  pub health_probe_bind_address : String
  pub leader_election : Bool
  pub leader_election_id : String

-- The types that `init` registers in the scheme.
pub data SchemePart : Type 0 where
  client_go_types helm_app_types istio_operator_types : SchemePart

-- A reconciler, with the directory of the profiles where it has one.
pub data Reconciler : Type 0 where
  helm_app_reconciler : Reconciler
  istio_operator_reconciler : String → Reconciler

-- What the start takes from the flags and from controller-runtime. `flag.Parse` and
-- `GetConfigOrDie` may end the process with an exit code instead. `complete` is `For` and `Complete`
-- on a new controller of a manager.
pub record Runtime (W : Type 0) : Type 1 where
  pub RestConfig : Type 0
  pub Manager : Type 0
  pub add_to_scheme : SchemePart → W → Option GoError × W
  pub parse_flags : StartFlags → W → (ℕ ⊎ StartFlags) × W
  pub get_config_or_die : W → (ℕ ⊎ RestConfig) × W
  pub new_manager : RestConfig → ManagerOptions → W → Result Manager × W
  pub complete : Manager → Reconciler → W → Option GoError × W
  pub add_healthz_check : Manager → String → W → Option GoError × W
  pub add_readyz_check : Manager → String → W → Option GoError × W
  pub start_manager : Manager → W → Option GoError × W

-- The process ends with `os.Exit` or since `main` returns.
pub data End : Type 0 where
  exited : ℕ → End
  returned : End

-- `if err := f(); err != nil { …; os.Exit(1) }`, and what comes behind it
unfoldable pub or_exit : {W : Type 0} → (W → Option GoError × W) → Action W End → Action W End
or_exit f rest = call f >>= λ e. if_error e (λ x. pure (exited 1)) rest

module _ {W : Type 0} (r : Runtime W) where
  -- `utilruntime.Must(….AddToScheme(scheme))`, and what comes behind it
  unfoldable pub must_add : SchemePart → Action W End → Action W End
  must_add part rest = call (r.add_to_scheme part) >>= λ e. if_error e (λ x. panic) rest

  unfoldable pub helm_app_setup : r.Manager → W → Option GoError × W
  helm_app_setup mgr = r.complete mgr helm_app_reconciler

  unfoldable pub istio_operator_setup : r.Manager → String → W → Option GoError × W
  istio_operator_setup mgr profiles_dir = r.complete mgr (istio_operator_reconciler profiles_dir)

  -- What `main` does with its manager.
  unfoldable pub run_manager : StartFlags → r.Manager → Action W End
  unfolding helm_app_setup istio_operator_setup
  run_manager flags mgr = or_exit (helm_app_setup mgr) (
      or_exit (istio_operator_setup mgr flags.profiles_dir) (
        or_exit (r.add_healthz_check mgr "healthz") (
          or_exit (r.add_readyz_check mgr "readyz")
            (or_exit (r.start_manager mgr) (pure returned)))))

  abbrev pub manager_options : StartFlags → ManagerOptions
  manager_options flags = record {
    metrics_bind_address = flags.metrics_addr;
    health_probe_bind_address = flags.probe_addr;
    leader_election = flags.enable_leader_election;
    leader_election_id = "pluma-operator-leader-election";
  }

  unfoldable pub with_config : StartFlags → ℕ ⊎ r.RestConfig → Action W End
  with_config flags (inl code) = pure (exited code)
  with_config flags (inr config) = call (r.new_manager config (manager_options flags)) >>= λ made.
      if_err made (λ e. pure (exited 1)) (run_manager flags)

  unfoldable pub with_flags : ℕ ⊎ StartFlags → Action W End
  unfolding with_config
  with_flags (inl code) = pure (exited code)
  with_flags (inr flags) = call r.get_config_or_die >>= with_config flags

  unfoldable pub main : Action W End
  unfolding with_flags
  main = call (r.parse_flags default_flags) >>= with_flags

  -- `init`, and `main` behind it
  unfoldable pub process : Action W End
  unfolding must_add main
  process = must_add client_go_types (must_add helm_app_types (must_add istio_operator_types main))
