-- ===== src/Effects.antt =====
-- Go code that acts on the world around it: state passing with a panic, and error values.
pub mod Total
use pluma_opeartor.Base.{String, ◌<>◌, ◌≡◌, refl, Option, none, some, Bool}

-- What a test such as `errors.Is` or `IsNotFound` sees of an error.
pub data Kind : Type 0 where
  api_not_found release_not_found plain : Kind

pub record GoError : Type 0 where
  pub kind : Kind
  pub message : String

abbrev pub is_api_not_found : GoError → Bool
is_api_not_found e = elim e.kind [ api_not_found ↦ Bool.true | _ ↦ Bool.false ]

abbrev pub is_release_not_found : GoError → Bool
is_release_not_found e = elim e.kind [ release_not_found ↦ Bool.true | _ ↦ Bool.false ]

-- `fmt.Errorf(prefix + "%w", err)` keeps what the tests see, and with `%v` only the text stays.
abbrev pub wrap : String → GoError → GoError
wrap prefix e = record { kind = e.kind; message = prefix <> e.message }

abbrev pub errorf : String → GoError → GoError
errorf prefix e = record { kind = plain; message = prefix <> e.message }

-- A value and a nil error, or an error.
pub data Result {ℓ} (A : Type ℓ) : Type ℓ where
  ok : A → Result A
  err : GoError → Result A

-- A call returns, or panics: what was written before a panic stays written.
pub data Outcome {ℓ} (A : Type ℓ) : Type ℓ where
  done : A → Outcome A
  panicked : Outcome A

abbrev pub Action : Type 0 → Type 0 → Type 0
Action W A = W → Outcome A × W

module _ {W A : Type 0} where
  unfoldable pub pure : A → Action W A
  pure a w = (done a, w)

  unfoldable pub panic : Action W A
  panic w = (panicked, w)

  -- A call that does not panic.
  unfoldable pub call : (W → A × W) → Action W A
  call f w = let (a, w') = f w in (done a, w')

module _ {W A B : Type 0} where
  abbrev pub continue : Outcome A → (A → Action W B) → Action W B
  continue (done a) f w = f a w
  continue panicked f w = (panicked, w)

  infixl 10 ◌>>=◌
  -- Opening this opens `pure`, `panic` and `call` too.
  unfoldable pub ◌>>=◌ : Action W A → (A → Action W B) → Action W B
  unfolding pure panic call
  ◌>>=◌ m f w = let (r, w') = m w in continue r f w'

  continue_cong :
      (o : Outcome A) (f g : A → Action W B) (w : W)
      → ((a : A) (v : W) → f a v ≡ g a v)
      → continue o f w ≡ continue o g w
  continue_cong (done a) f g w h = h a w
  continue_cong panicked f g w h = refl

  -- Two blocks agree if they do after their first call.
  pub bind_cong :
      (m : Action W A) {f g : A → Action W B} (w : W)
      → ((a : A) (v : W) → f a v ≡ g a v)
      → (m >>= f) w ≡ (m >>= g) w
  unfolding ◌>>=◌
  bind_cong m {f} {g} w h = let (o, v) = m w in continue_cong o f g v h

-- The call returns, with a value and a world of which `P` holds.
abbrev pub Returns : {W A : Type 0} → Outcome A × W → (A → W → Type 0) → Type 0
Returns (done a, w) P = P a w
Returns (panicked, w) P = ⊥

module _ {W A B : Type 0} (P : A → W → Type 0) (Q : B → W → Type 0) where
  continue-Returns :
      (o : Outcome A) (f : A → Action W B) (v : W)
      → Returns (o, v) P
      → ((a : A) (u : W) → P a u → Returns (f a u) Q)
      → Returns (continue o f v) Q
  continue-Returns (done a) f v r h = h a v r
  continue-Returns panicked f v r h = absurd r

  -- The rule for a block.
  pub bind-Returns :
      (m : Action W A) (f : A → Action W B) (w : W)
      → Returns (m w) P
      → ((a : A) (u : W) → P a u → Returns (f a u) Q)
      → Returns ((m >>= f) w) Q
  unfolding ◌>>=◌
  bind-Returns m f w r h = let (o, v) = m w in continue-Returns o f v r h

module _ {W A : Type 0} (P Q : A → W → Type 0) where
  pub Returns_map :
      (r : Outcome A × W) → Returns r P → ((a : A) (v : W) → P a v → Q a v) → Returns r Q
  Returns_map (done a, w) r h = h a w r
  Returns_map (panicked, w) r h = r

module _ {W B : Type 0} where
  -- `if err != nil { … }`, and what comes behind it
  unfoldable pub if_error : Option GoError → (GoError → Action W B) → Action W B → Action W B
  if_error (some e) fail rest = fail e
  if_error none fail rest = rest

  pub if_error-Returns :
      (P : B → W → Type 0) (e : Option GoError) (fail : GoError → Action W B) (rest : Action W B)
      (w : W)
      → ((x : GoError) → e ≡ some x → Returns (fail x w) P)
      → (e ≡ none → Returns (rest w) P)
      → Returns (if_error e fail rest w) P
  unfolding if_error
  if_error-Returns P (some x) fail rest w h k = h x refl
  if_error-Returns P none fail rest w h k = k refl

module _ {W A B : Type 0} where
  -- The same where the call gives a value.
  unfoldable pub if_err : Result A → (GoError → Action W B) → (A → Action W B) → Action W B
  if_err (err e) fail rest = fail e
  if_err (ok a) fail rest = rest a

  pub if_err-Returns :
      (P : B → W → Type 0) (r : Result A) (fail : GoError → Action W B) (rest : A → Action W B)
      (w : W)
      → ((x : GoError) → r ≡ err x → Returns (fail x w) P)
      → ((a : A) → r ≡ ok a → Returns (rest a w) P)
      → Returns (if_err r fail rest w) P
  unfolding if_err
  if_err-Returns P (err x) fail rest w h k = h x refl
  if_err-Returns P (ok a) fail rest w h k = k a refl

-- A property of the world that a call keeps, whether it returns or panics.
pub record Keeps {W A : Type 0} (P : W → Type 0) (m : Action W A) : Type 0 where
  pub at : (w : W) → P w → P (m w).1

module _ {W A : Type 0} {P : W → Type 0} where
  pub Keeps-pure : (a : A) → Keeps P (pure a)
  unfolding pure
  Keeps-pure a = record { at = λ w h. h }

  pub Keeps-panic : Keeps P (panic {W = W} {A = A})
  unfolding panic
  Keeps-panic = record { at = λ w h. h }

  pub Keeps-call : (f : W → A × W) → ((w : W) → P w → P (f w).1) → Keeps P (call f)
  unfolding call
  Keeps-call f h = record { at = h }

  pub Keeps-if_error :
      (e : Option GoError) (fail : GoError → Action W A) (rest : Action W A)
      → ((x : GoError) → Keeps P (fail x))
      → Keeps P rest
      → Keeps P (if_error e fail rest)
  unfolding if_error
  Keeps-if_error none fail rest h k = k
  Keeps-if_error (some x) fail rest h k = h x

module _ {W A B : Type 0} {P : W → Type 0} where
  pub Keeps-if_err :
      (r : Result A) (fail : GoError → Action W B) (rest : A → Action W B)
      → ((x : GoError) → Keeps P (fail x))
      → ((a : A) → Keeps P (rest a))
      → Keeps P (if_err r fail rest)
  unfolding if_err
  Keeps-if_err (ok a) fail rest h k = k a
  Keeps-if_err (err x) fail rest h k = h x

  Keeps-continue :
      (o : Outcome A) (f : A → Action W B) (w : W)
      → P w
      → ((a : A) → Keeps P (f a))
      → P (continue o f w).1
  Keeps-continue (done a) f w p h = (h a).at w p
  Keeps-continue panicked f w p h = p

  pub Keeps-bind :
      (m : Action W A) (f : A → Action W B)
      → Keeps P m
      → ((a : A) → Keeps P (f a))
      → Keeps P (m >>= f)
  unfolding ◌>>=◌
  Keeps-bind m f km kf = record {
    at = λ w h. let (o, v) = m w in Keeps-continue o f v (km.at w h) kf;
  }

pub ruleset keeps_rules =
    (Keeps-pure, Keeps-panic, Keeps-call, Keeps-if_error, Keeps-if_err, Keeps-bind)
