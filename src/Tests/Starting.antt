-- ===== src/Tests/Starting.antt =====
-- A start in which the manager notes what it is given.
use pluma_opeartor.Base.{ℕ, ◌≡◌, refl, ◌⊎◌, inl, inr, none, List, [], ◌∷◌}
use pluma_opeartor.Effects.{ok}
use pluma_opeartor.Startup.{SchemePart, Runtime, process}
use pluma_opeartor.Startup.Order.{
  Part, controller, health_check, ready_check, ManagerLaws, ProcessEnded, process-ProcessEnded,
}

-- What was registered, and what the manager was given.
data Note : Type 0 where
  types : SchemePart → Note
  part : Part → Note

abbrev In : Note → List Note → Type 0
In p [] = ⊥
In p (q ∷ qs) = (p ≡ q) ⊎ In p qs

abbrev runtime : Runtime (List Note)
runtime = record {
  RestConfig = Unit {0};
  Manager = Unit {0};
  add_to_scheme = λ p w. (none, types p ∷ w);
  parse_flags = λ flags w. (inr flags, w);
  get_config_or_die = λ w. (inr tt, w);
  new_manager = λ config options w. (ok tt, w);
  complete = λ m k w. (none, part (controller k) ∷ w);
  add_healthz_check = λ m name w. (none, part (health_check name) ∷ w);
  add_readyz_check = λ m name w. (none, part (ready_check name) ∷ w);
  start_manager = λ m w. (none, w);
}

never_exits : (w : List Note) (code : ℕ) → (runtime.get_config_or_die w).0 ≡ inl code → code ≡ 1
never_exits w code e = cc

manager_laws : ManagerLaws runtime
manager_laws = record {
  Has = λ m p w. In (part p) w;
  complete-Has = λ m k w e. inl refl;
  health-Has = λ m name w e. inl refl;
  ready-Has = λ m name w e. inl refl;
  complete-keeps = λ m k p w h. inr h;
  health-keeps = λ m name p w h. inr h;
  ready-keeps = λ m name p w h. inr h;
  Knows = λ p w. In (types p) w;
  add-Knows = λ p w e. inl refl;
  add-keeps = λ p q w h. inr h;
  flags-keep = λ flags p w h. h;
  config-keep = λ p w h. h;
  config-exit = λ w code e. never_exits w code e;
}

process-ProcessEnded_example : ProcessEnded runtime manager_laws (process runtime [])
process-ProcessEnded_example = process-ProcessEnded runtime manager_laws []
