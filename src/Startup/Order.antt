-- ===== src/Startup/Order.antt =====
-- The order of the start.
use pluma_opeartor.Base.{ℕ, String, ◌≡◌, refl, ◌⊎◌, inl, inr, Option, none, some, Option-cases}
use pluma_opeartor.Effects.{
  GoError, ok, Outcome, done, panicked, panic, if_error, Action, pure, ◌>>=◌, Returns,
  if_error-Returns, if_err-Returns,
}
use pluma_opeartor.Startup.{
  StartFlags, default_flags, manager_options, SchemePart, client_go_types, helm_app_types,
  istio_operator_types, must_add, process, Reconciler, helm_app_reconciler,
  istio_operator_reconciler, Runtime, End, exited, returned, or_exit, helm_app_setup,
  istio_operator_setup, run_manager, with_config, with_flags, main,
}

-- What a manager can be given before it starts.
pub data Part : Type 0 where
  controller : Reconciler → Part
  health_check ready_check : String → Part

-- What is documented of a manager: a call that succeeds adds its part, a part stays while others
-- are added, and `GetConfigOrDie` exits with 1.
pub record ManagerLaws {W : Type 0} (r : Runtime W) : Type 1 where
  pub Has : r.Manager → Part → W → Type 0
  pub complete-Has :
      (m : r.Manager) (k : Reconciler) (w : W)
      → (r.complete m k w).0 ≡ none
      → Has m (controller k) (r.complete m k w).1
  pub health-Has :
      (m : r.Manager) (s : String) (w : W)
      → (r.add_healthz_check m s w).0 ≡ none
      → Has m (health_check s) (r.add_healthz_check m s w).1
  pub ready-Has :
      (m : r.Manager) (s : String) (w : W)
      → (r.add_readyz_check m s w).0 ≡ none
      → Has m (ready_check s) (r.add_readyz_check m s w).1
  pub complete-keeps :
      (m : r.Manager) (k : Reconciler) (p : Part) (w : W) → Has m p w → Has m p (r.complete m k w).1
  pub health-keeps :
      (m : r.Manager) (s : String) (p : Part) (w : W)
      → Has m p w
      → Has m p (r.add_healthz_check m s w).1
  pub ready-keeps :
      (m : r.Manager) (s : String) (p : Part) (w : W)
      → Has m p w
      → Has m p (r.add_readyz_check m s w).1
  -- The scheme has the types.
  pub Knows : SchemePart → W → Type 0
  pub add-Knows :
      (p : SchemePart) (w : W) → (r.add_to_scheme p w).0 ≡ none → Knows p (r.add_to_scheme p w).1
  pub add-keeps : (p q : SchemePart) (w : W) → Knows q w → Knows q (r.add_to_scheme p w).1
  pub flags-keep :
      (flags : StartFlags) (p : SchemePart) (w : W) → Knows p w → Knows p (r.parse_flags flags w).1
  pub config-keep : (p : SchemePart) (w : W) → Knows p w → Knows p (r.get_config_or_die w).1
  pub config-exit : (w : W) (code : ℕ) → (r.get_config_or_die w).0 ≡ inl code → code ≡ 1

module _ {W : Type 0} (r : Runtime W) (L : ManagerLaws r) where
  -- The world in which a manager that has both controllers and both probes is started.
  abbrev pub Ready : String → r.Manager → W → Type 0
  Ready profiles_dir m w =
      L.Has m (controller helm_app_reconciler) w
      × L.Has m (controller (istio_operator_reconciler profiles_dir)) w
      × L.Has m (health_check "healthz") w
      × L.Has m (ready_check "readyz") w

  -- The scheme has what `init` registers.
  abbrev pub Registered : W → Type 0
  Registered w =
      L.Knows client_go_types w × L.Knows helm_app_types w × L.Knows istio_operator_types w

  -- The manager was made for these flags, in a world whose scheme has the types.
  abbrev pub Made : StartFlags → r.Manager → Type 0
  Made flags m =
      (config : r.RestConfig) × (u : W) × Registered u
      × ((r.new_manager config (manager_options r flags) u).0 ≡ ok m)

  -- The process has served: the flags were parsed, a manager was made for them, was started in a world in which it was ready, and its
  -- start left the world `v` with no error.
  abbrev pub Served : W → W → Type 0
  Served w v =
      (flags : StartFlags) × ((r.parse_flags default_flags w).0 ≡ inr flags)
      × (m : r.Manager) × (u : W) × Made flags m
      × Ready flags.profiles_dir m u
      × ((r.start_manager m u).0 ≡ none)
      × (v ≡ (r.start_manager m u).1)

  abbrev pub Ended : W → End → W → Type 0
  Ended w (exited code) v = (code ≡ 1) ⊎ ((r.parse_flags default_flags w).0 ≡ inl code)
  Ended w returned v = Served w v

  or_exit-Ended :
      (w : W) (f : W → Option GoError × W) (rest : Action W End) (u : W)
      → ((f u).0 ≡ none → Returns (rest (f u).1) (Ended w))
      → Returns (or_exit f rest u) (Ended w)
  unfolding or_exit ◌>>=◌
  or_exit-Ended w f rest u h = if_error-Returns (Ended w) _ _ _ _ (λ x e. inl refl) h

  run_manager-Ended :
      (w : W) (flags : StartFlags) (m : r.Manager) (u : W)
      → (r.parse_flags default_flags w).0 ≡ inr flags
      → Made flags m
      → Returns (run_manager r flags m u) (Ended w)
  unfolding run_manager helm_app_setup istio_operator_setup pure
  run_manager-Ended w flags m u parsed made = or_exit-Ended w _ _ _ (λ e1.
      or_exit-Ended w _ _ _ (λ e2. or_exit-Ended w _ _ _ (λ e3. or_exit-Ended w _ _ _ (λ e4.
        or_exit-Ended w _ _ _ (λ e5.
          let helm =
            L.ready-keeps m _ _ _
              (L.health-keeps m _ _ _ (L.complete-keeps m _ _ _ (L.complete-Has m _ _ e1))) in
          let istio = L.ready-keeps m _ _ _ (L.health-keeps m _ _ _ (L.complete-Has m _ _ e2)) in
          let health = L.ready-keeps m _ _ _ (L.health-Has m _ _ e3) in
          (flags, parsed, m, _, made, (helm, istio, health, L.ready-Has m _ _ e4), e5, refl))))))

  with_config-Ended :
      (w : W) (flags : StartFlags) (config : ℕ ⊎ r.RestConfig) (u : W)
      → ((code : ℕ) → config ≡ inl code → code ≡ 1)
      → (r.parse_flags default_flags w).0 ≡ inr flags
      → Registered u
      → Returns (with_config r flags config u) (Ended w)
  unfolding with_config ◌>>=◌
  with_config-Ended w flags (inl code) u h q k = inl (h code refl)
  with_config-Ended w flags (inr config) u h q k =
      if_err-Returns (Ended w) _ _ _ _ (λ x e. inl refl)
        (λ m e. run_manager-Ended w flags m _ q (config, u, k, e))

  with_flags-Ended :
      (w : W) (parsed : ℕ ⊎ StartFlags) (u : W)
      → (r.parse_flags default_flags w).0 ≡ parsed
      → Registered u
      → Returns (with_flags r parsed u) (Ended w)
  unfolding with_flags ◌>>=◌
  with_flags-Ended w (inl code) u e k = inr e
  with_flags-Ended w (inr flags) u e (a, b, c) =
      with_config-Ended w flags _ _ (L.config-exit u) e
        (L.config-keep _ u a, L.config-keep _ u b, L.config-keep _ u c)

  main-Ended : (w : W) → Registered w → Returns (main r w) (Ended w)
  unfolding main ◌>>=◌
  main-Ended w (a, b, c) =
      with_flags-Ended w _ _ refl (L.flags-keep _ _ w a, L.flags-keep _ _ w b, L.flags-keep _ _ w c)

  -- The end of the process: a panic has a registration that failed behind it, and what ended otherwise
  -- is `main`, called in a world whose scheme has the types.
  abbrev pub ProcessEnded : Outcome End × W → Type 0
  ProcessEnded (done end, v) = (w : W) × Registered w × Ended w end v
  ProcessEnded (panicked, v) =
      (p : SchemePart) × (u : W) × (e : GoError) × ((r.add_to_scheme p u).0 ≡ some e)

  Ended-ProcessEnded :
      (w : W) (o : Outcome End × W) → Registered w → Returns o (Ended w) → ProcessEnded o
  Ended-ProcessEnded w (done end, v) k h = (w, k, h)
  Ended-ProcessEnded w (panicked, v) k h = absurd h

  main-ProcessEnded : (w : W) → Registered w → ProcessEnded (main r w)
  main-ProcessEnded w k = Ended-ProcessEnded w (main r w) k (main-Ended w k)

  must_add-ProcessEnded :
      (p : SchemePart) (rest : Action W End) (u : W)
      → ((r.add_to_scheme p u).0 ≡ none → ProcessEnded (rest (r.add_to_scheme p u).1))
      → ProcessEnded (must_add r p rest u)
  unfolding must_add ◌>>=◌ panic if_error
  must_add-ProcessEnded p rest u h = elim (Option-cases (r.add_to_scheme p u).0) [
    | inl e ↦ rw e (h e)
    | inr (x, e) ↦ rw e (p, u, x, e)
  ]

  -- The process panics only if a registration in `init` fails. Otherwise it ends normally only if a
  -- manager was made with the options that the parsed flags ask for, when the scheme had all three groups
  -- of types, had both controllers and both probes when it was started, and ran without an error. If the
  -- process exits instead, then with 1, or with what the parsing of the flags exits with. The
  -- documented laws of the scheme and the manager are assumed.
  pub process-ProcessEnded : (w : W) → ProcessEnded (process r w)
  unfolding process
  process-ProcessEnded w = must_add-ProcessEnded _ _ _ (λ a. must_add-ProcessEnded _ _ _ (λ b.
      must_add-ProcessEnded _ _ _ (λ c. main-ProcessEnded _ (
        L.add-keeps _ _ _ (L.add-keeps _ _ _ (L.add-Knows _ _ a)),
        L.add-keeps _ _ _ (L.add-Knows _ _ b),
        L.add-Knows _ _ c,
      ))))
