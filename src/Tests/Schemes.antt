-- ===== src/Tests/Schemes.antt =====
-- Schemes and builders that are read from a log of what was done.
use pluma_opeartor.Base.{ℕ, suc, ◌≡◌, refl, ◌⊎◌, inl, inr, Option, none, some, List, [], ◌∷◌, All}
use pluma_opeartor.Effects.{GoError, done, Action, pure, ◌>>=◌, if_error, Returns}
use pluma_opeartor.Scheme.{GroupVersion, ObjectType, SchemeLibrary, packages}
use pluma_opeartor.Scheme.Known.{SchemeFacts, SchemeLaws, KnowBoth, packages-KnowBoth}

data Event : Type 0 where
  scheme_made : Event
  builder_made : GroupVersion → Event
  registered : GroupVersion → List ObjectType → Event
  added : GroupVersion → ℕ → Event
  version_added : ℕ → GroupVersion → Event

unfoldable schemes : List Event → ℕ
schemes [] = 0
schemes (scheme_made ∷ w) = suc (schemes w)
schemes (_ ∷ w) = schemes w

abbrev Among : ObjectType → List ObjectType → Type 0
Among k [] = ⊥
Among k (t ∷ ts) = (k ≡ t) ⊎ Among k ts

-- A builder is its group version.
abbrev Held : GroupVersion → ObjectType → List Event → Type 0
Held b k [] = ⊥
Held b k (registered c ts ∷ w) = ((b ≡ c) × Among k ts) ⊎ Held b k w
Held b k (_ ∷ w) = Held b k w

abbrev Known : ℕ → GroupVersion → ObjectType → List Event → Type 0
Known s gv k [] = ⊥
Known s gv k (added b t ∷ w) = ((s ≡ t) × (b ≡ gv) × Held b k w) ⊎ Known s gv k w
Known s gv k (_ ∷ w) = Known s gv k w

unfoldable run_all :
    List (ℕ → Action (List Event) (Option GoError)) → ℕ → Action (List Event) (Option GoError)
run_all [] s = pure none
run_all (f ∷ fs) s = let rest = run_all fs s in f s >>= λ e. if_error e (λ x. pure (some x)) rest

abbrev logged : SchemeLibrary (List Event)
logged = record {
  Scheme = ℕ;
  Builder = GroupVersion;
  new_scheme = λ w. (schemes w, scheme_made ∷ w);
  new_builder = λ gv w. (gv, builder_made gv ∷ w);
  register = λ b ts w. (tt, registered b ts ∷ w);
  add_to_scheme = λ b s w. (done none, added b s ∷ w);
  run = run_all;
  add_to_group_version = λ s gv w. (done tt, version_added s gv ∷ w);
}

abbrev facts : SchemeFacts logged
facts = record {
  Versioned = λ b gv. b ≡ gv;
  Holds = Held;
  Knows = Known;
  Free = λ s gv w. Unit {0};
}

own_types :
    (b : GroupVersion) (ts us : List ObjectType) (w : List Event)
    → ((k : ObjectType) → Among k us → Among k ts)
    → All (λ k. Held b k (registered b ts ∷ w)) us
own_types b ts [] w h = tt
own_types b ts (k ∷ us) w h = (inl (refl, h k (inl refl)), own_types b ts us w (λ j m. h j (inr m)))

laws : SchemeLaws logged facts
unfolding pure run_all
laws = record {
  scheme-Free = λ gv w. tt;
  scheme-Extends = λ w. ((λ b k h. h), (λ s gv k h. h));
  builder-Versioned = λ gv w. refl;
  register-Holds = λ b ts w. own_types b ts ts w (λ k m. m);
  version-Free = λ s gv other w n h. (tt, ((λ b k p. p), (λ t v k p. p)));
  add-Knows = λ b s gv w e h. (refl, (λ k p. inl (refl, e, p)), ((λ c k p. p), (λ t v k p. inr p)));
  run-nil = λ s. refl;
  run-cons = λ f fs s. refl;
}

packages-KnowBoth_example : Returns (packages logged []) (KnowBoth logged facts laws)
packages-KnowBoth_example = packages-KnowBoth logged facts laws []
