-- ===== src/Effects/Total.antt =====
-- Calls that return in every world, so do not panic.
use pluma_opeartor.Base.{Option, none, some}
use pluma_opeartor.Effects.{
  GoError, Result, ok, err, Outcome, done, panicked, continue, Action, pure, call, ◌>>=◌, if_error,
  if_err, Returns,
}

pub record Total {W A : Type 0} (m : Action W A) : Type 0 where
  pub at : (w : W) → Returns (m w) (λ a v. Unit {0})

module _ {W A : Type 0} where
  pub Total-pure : (a : A) → Total (pure {W = W} a)
  unfolding pure
  Total-pure a = record { at = λ w. tt }

  pub Total-call : (f : W → A × W) → Total (call f)
  unfolding call
  Total-call f = record { at = λ w. tt }

  pub Total-if_error :
      (e : Option GoError) (fail : GoError → Action W A) (rest : Action W A)
      → ((x : GoError) → Total (fail x))
      → Total rest
      → Total (if_error e fail rest)
  unfolding if_error
  Total-if_error none fail rest h k = k
  Total-if_error (some x) fail rest h k = h x

module _ {W A B : Type 0} where
  pub Total-if_err :
      (r : Result A) (fail : GoError → Action W B) (rest : A → Action W B)
      → ((x : GoError) → Total (fail x))
      → ((a : A) → Total (rest a))
      → Total (if_err r fail rest)
  unfolding if_err
  Total-if_err (ok a) fail rest h k = k a
  Total-if_err (err x) fail rest h k = h x

  continue-Total :
      (o : Outcome A) (f : A → Action W B) (v : W)
      → Returns (o, v) (λ a u. Unit {0})
      → ((a : A) → Total (f a))
      → Returns (continue o f v) (λ b u. Unit {0})
  continue-Total (done a) f v r h = (h a).at v
  continue-Total panicked f v r h = absurd r

  pub Total-bind :
      (m : Action W A) (f : A → Action W B) → Total m → ((a : A) → Total (f a)) → Total (m >>= f)
  unfolding ◌>>=◌
  Total-bind m f t h = record { at = λ w. let (o, v) = m w in continue-Total o f v (t.at w) h }

pub ruleset total_rules = (Total-pure, Total-call, Total-if_error, Total-if_err, Total-bind)
