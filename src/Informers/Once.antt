-- ===== src/Informers/Once.antt =====
-- An informer of the factory runs once, however often `Start` and `InformerFor` are called.
use pluma_opeartor.Base.{
  ℕ, ◌+◌, String, ◌≡◌, refl, sym, ap, ◌∙◌, Bool, true, false, some, List, [], ◌∷◌, ◌++◌, ◌==◌,
  arith, eq_iff, eq_refl, Bool-cases, inl, inr, if◌then◌else◌, All,
}
use pluma_opeartor.Base.Dict
use pluma_opeartor.Base.Dict.{Dict, lookup-insert}
use pluma_opeartor.Informers.{
  Cache, Factory, flag, SharedInformerOption, apply_option, apply_options, new_factory_with_options,
  start_one, start, informer_for, resync_period, with_custom_resync_config, with_tweak_list_options,
  with_namespace,
}

abbrev pub indicator : Bool → ℕ
indicator b = if b then 1 else 0

module _ {A : Type 0} where
  -- How often an informer of the type was set running.
  unfoldable pub count : String → Dict A → ℕ
  count t [] = 0
  count t ((j, informer) ∷ runs) = indicator (j == t) + count t runs

  count-append : (t : String) (xs ys : Dict A) → count t (xs ++ ys) ≡ count t xs + count t ys
  unfolding count
  count-append t [] ys = omega arith
  count-append t ((j, x) ∷ xs) ys = omega (arith, count-append t xs ys)

module _ {A : Type 0} {P Q : A → Type 0} where
  All-map : (xs : List A) → ((x : A) → P x → Q x) → All P xs → All Q xs
  All-map [] f h = tt
  All-map (x ∷ xs) f h = (f x h.0, All-map xs f h.1)

module _ {A : Type 0} (P : A → Type 0) where
  All-append : (xs ys : List A) → All P xs → All P ys → All P (xs ++ ys)
  All-append [] ys h k = k
  All-append (x ∷ xs) ys h k = (h.0, All-append xs ys h.1 k)

module _ {c : Cache} where
  abbrev pub is_started : String → Factory c → Bool
  is_started t f = flag (Dict.lookup t f.started_informers)

  -- The run is of the informer that the factory hands out for its type.
  abbrev pub IsShared : Factory c → String × c.Informer → Type 0
  IsShared f (t, informer) = Dict.lookup t f.informers ≡ some informer

  -- The factories that the methods lead to, with the informers set running on the way. `Start` goes
  -- through entries of the map in any order.
  pub data Reached : Factory c → Dict c.Informer → Type 0 where
    made :
        (client : c.Client) (resync : ℕ) (options : List (SharedInformerOption c))
        → Reached (new_factory_with_options client resync options) []
    asked :
        {f : Factory c} {runs : Dict c.Informer} (t : String) (new_func : c.Client → ℕ → c.Informer)
        → Reached f runs
        → Reached (informer_for t new_func f).1 runs
    started :
        {f : Factory c} {runs : Dict c.Informer} (order : Dict c.Informer)
        → All (IsShared f) order
        → Reached f runs
        → Reached (start order f).1 (runs ++ (start order f).0)

  count-start_one :
      (j t : String) (x : c.Informer) (f : Factory c)
      → count j (start_one t x f).0 + indicator (is_started j f)
        ≡ indicator (is_started j (start_one t x f).1)
  unfolding count start_one
  count-start_one j t x f = grind (arith, lookup-insert t j true f.started_informers, eq_iff t j)

  count-start :
      (j : String) (order : Dict c.Informer) (f : Factory c)
      → count j (start order f).0 + indicator (is_started j f)
        ≡ indicator (is_started j (start order f).1)
  unfolding count start
  count-start j [] f = omega arith
  count-start j ((t, x) ∷ order) f = omega (
    arith,
    count-append j (start_one t x f).0 (start order (start_one t x f).1).0,
    count-start_one j t x f,
    count-start j order (start_one t x f).1,
  )

  informer_for-started :
      (j t : String) (g : c.Client → ℕ → c.Informer) (f : Factory c)
      → is_started j (informer_for t g f).1 ≡ is_started j f
  unfolding informer_for
  informer_for-started j t g f = ground arith

  kept-IsShared :
      (t : String) (g : c.Client → ℕ → c.Informer) (f : Factory c) (run : String × c.Informer)
      → IsShared f run
      → IsShared (informer_for t g f).1 run
  unfolding informer_for
  kept-IsShared t g f (j, x) h =
      ground (arith, lookup-insert t j (g f.client (resync_period t f)) f.informers, eq_iff t j)

  start_one-informers :
      (t : String) (x : c.Informer) (f : Factory c) → (start_one t x f).1.informers ≡ f.informers
  unfolding start_one
  start_one-informers t x f = ground arith

  start-informers :
      (order : Dict c.Informer) (f : Factory c) → (start order f).1.informers ≡ f.informers
  unfolding start
  start-informers [] f = refl
  start-informers ((t, x) ∷ order) f =
      start-informers order (start_one t x f).1 ∙ start_one-informers t x f

  All-start_one :
      (P : String × c.Informer → Type 0) (t : String) (x : c.Informer) (f : Factory c)
      → P (t, x)
      → All P (start_one t x f).0
  unfolding start_one
  All-start_one P t x f h = elim (Bool-cases (is_started t f)) [
    | inl e ↦ rw (e, start_one) tt
    | inr e ↦ rw (e, start_one) (h, tt)
  ]

  All-start :
      (P : String × c.Informer → Type 0) (order : Dict c.Informer) (f : Factory c)
      → All P order
      → All P (start order f).0
  unfolding start
  All-start P [] f h = tt
  All-start P ((t, x) ∷ order) f h =
      All-append P (start_one t x f).0 (start order (start_one t x f).1).0
        (All-start_one P t x f h.0) (All-start P order (start_one t x f).1 h.1)

  -- No informer, and none started.
  abbrev IsFresh : Factory c → Type 0
  IsFresh f = (f.informers ≡ []) × (f.started_informers ≡ [])

  apply_option-IsFresh :
      (option : SharedInformerOption c) (f : Factory c)
      → IsFresh f
      → IsFresh (apply_option option f)
  unfolding apply_option
  apply_option-IsFresh (with_custom_resync_config config) f h = h
  apply_option-IsFresh (with_tweak_list_options tweak) f h = h
  apply_option-IsFresh (with_namespace namespace) f h = h

  apply_options-IsFresh :
      (options : List (SharedInformerOption c)) (f : Factory c)
      → IsFresh f
      → IsFresh (apply_options options f)
  unfolding apply_options
  apply_options-IsFresh [] f h = h
  apply_options-IsFresh (option ∷ options) f h =
      apply_options-IsFresh options (apply_option option f) (apply_option-IsFresh option f h)

  new_factory-IsFresh :
      (client : c.Client) (resync : ℕ) (options : List (SharedInformerOption c))
      → IsFresh (new_factory_with_options client resync options)
  unfolding new_factory_with_options
  new_factory-IsFresh client resync options = apply_options-IsFresh options _ (refl, refl)

  fresh_started : (t : String) (f : Factory c) → IsFresh f → is_started t f ≡ false
  unfolding Dict.lookup
  fresh_started t f h = ap (λ (d : Dict Bool). flag (Dict.lookup t d)) h.1

  -- Whatever sequence of `InformerFor` and `Start` has run on a new factory, an informer type has
  -- been set running once if it is marked as started, and otherwise never.
  pub runs_once :
      {f : Factory c} {runs : Dict c.Informer}
      → Reached f runs
      → (t : String) → count t runs ≡ indicator (is_started t f)
  unfolding count
  runs_once (made client resync options) t = sym (
      ap indicator (
        fresh_started t (new_factory_with_options client resync options)
          (new_factory-IsFresh client resync options)))
  runs_once (asked {f} {runs} j g h) t =
      runs_once h t ∙ sym (ap indicator (informer_for-started t j g f))
  runs_once (started {f} {runs} order s h) t =
      omega (arith, count-append t runs (start order f).0, count-start t order f, runs_once h t)

  -- Every informer that has been set running is the one that `InformerFor` hands out for its type.
  pub runs-IsShared :
      {f : Factory c} {runs : Dict c.Informer} → Reached f runs → All (IsShared f) runs
  runs-IsShared (made client resync options) = tt
  runs-IsShared (asked {f} {runs} j g h) =
      All-map runs (λ r. kept-IsShared j g f r) (runs-IsShared h)
  runs-IsShared (started {f} {runs} order s h) =
      All-map (runs ++ (start order f).0)
        (λ r e. ap (Dict.lookup r.0) (start-informers order f) ∙ e)
        (All-append (IsShared f) runs (start order f).0 (runs-IsShared h)
          (All-start (IsShared f) order f s))

  monotone_one :
      (j t : String) (x : c.Informer) (f : Factory c)
      → is_started j f ≡ true
      → is_started j (start_one t x f).1 ≡ true
  unfolding start_one
  monotone_one j t x f h = ground (arith, lookup-insert t j true f.started_informers)

  monotone :
      (j : String) (order : Dict c.Informer) (f : Factory c)
      → is_started j f ≡ true
      → is_started j (start order f).1 ≡ true
  unfolding start
  monotone j [] f h = h
  monotone j ((t, x) ∷ order) f h = monotone j order (start_one t x f).1 (monotone_one j t x f h)

  start_one-started :
      (t : String) (x : c.Informer) (f : Factory c) → is_started t (start_one t x f).1 ≡ true
  unfolding start_one
  start_one-started t x f = ground (arith, lookup-insert t t true f.started_informers, eq_refl t)

  start-started :
      (order : Dict c.Informer) (f : Factory c)
      → All (λ r. is_started r.0 (start order f).1 ≡ true) order
  unfolding start
  start-started [] f = tt
  start-started ((t, x) ∷ order) f = (
    monotone t order (start_one t x f).1 (start_one-started t x f),
    start-started order (start_one t x f).1,
  )

  start_nothing :
      (order : Dict c.Informer) (f : Factory c)
      → All (λ r. is_started r.0 f ≡ true) order
      → start order f ≡ ([], f)
  unfolding start start_one
  start_nothing [] f h = refl
  start_nothing ((t, x) ∷ order) f h = rw (h.0, start_one, start_nothing order f h.1) refl

  -- A second `Start` over the same entries sets nothing running and leaves the factory as it is.
  pub start_again :
      (order : Dict c.Informer) (f : Factory c)
      → start order (start order f).1 ≡ ([], (start order f).1)
  start_again order f = start_nothing order (start order f).1 (start-started order f)

  -- A second `InformerFor` of a type gives the first one's informer, whatever function it is handed,
  -- and leaves the factory as it is.
  pub informer_for_again :
      (t : String) (g h : c.Client → ℕ → c.Informer) (f : Factory c)
      → informer_for t h (informer_for t g f).1 ≡ informer_for t g f
  unfolding informer_for
  informer_for_again t g h f =
      ground (arith, lookup-insert t t (g f.client (resync_period t f)) f.informers, eq_refl t)
