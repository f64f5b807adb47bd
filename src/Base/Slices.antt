-- ===== src/Base/Slices.antt =====
-- Slicing a list at an index: Go's `xs[:i]`, `xs[i+1:]` and writes to `xs[i]`.
use Prim.Native.Nat.{ℕ, zero, suc, ◌≤◌, ◌<◌}
use mathlib.Core.Path.{◌≡◌, refl, ap}
use mathlib.Core.Option.{some}
use mathlib.Core.List.{List, [], ◌∷◌, ◌++◌}
use native.Mathlib.Omega.{arith}
use pluma_opeartor.Base.Lists.{length, get_elem?, set, take, drop}

module _ {ℓ} {A : Type ℓ} where
  pub get_elem?-some : (xs : List A) (i : ℕ) → i < length xs → (a : A) × (get_elem? xs i ≡ some a)
  get_elem?-some [] i h = absurd (omega arith)
  get_elem?-some (x ∷ xs) zero h = (x, refl)
  get_elem?-some (x ∷ xs) (suc i) h = get_elem?-some xs i (omega arith)

  pub take-suc :
      (xs : List A) (i : ℕ) {a : A}
      → get_elem? xs i ≡ some a
      → take (suc i) xs ≡ take i xs ++ a ∷ []
  take-suc [] i h = cc
  take-suc (x ∷ xs) zero h = cc
  take-suc (x ∷ xs) (suc i) h = ap (λ ys. x ∷ ys) (take-suc xs i h)

  pub take-set : (xs : List A) (i : ℕ) (v : A) → take i (set xs i v) ≡ take i xs
  take-set [] zero v = refl
  take-set [] (suc i) v = refl
  take-set (x ∷ xs) zero v = refl
  take-set (x ∷ xs) (suc i) v = ap (λ ys. x ∷ ys) (take-set xs i v)

  pub drop-set :
      (xs : List A) (i : ℕ) (v : A) → i < length xs → drop i (set xs i v) ≡ v ∷ drop (suc i) xs
  drop-set [] i v h = absurd (omega arith)
  drop-set (x ∷ xs) zero v h = refl
  drop-set (x ∷ xs) (suc i) v h = drop-set xs i v (omega arith)

  pub drop-suc-set : (xs : List A) (i : ℕ) (v : A) → drop (suc i) (set xs i v) ≡ drop (suc i) xs
  drop-suc-set [] i v = refl
  drop-suc-set (x ∷ xs) zero v = refl
  drop-suc-set (x ∷ xs) (suc i) v = drop-suc-set xs i v

  pub take-take-append :
      (xs ys : List A) (i : ℕ) → i ≤ length xs → take i (take i xs ++ ys) ≡ take i xs
  take-take-append xs ys zero h = refl
  take-take-append [] ys (suc i) h = absurd (omega arith)
  take-take-append (x ∷ xs) ys (suc i) h =
      ap (λ zs. x ∷ zs) (take-take-append xs ys i (omega arith))

  pub drop-take-append : (xs ys : List A) (i : ℕ) → i ≤ length xs → drop i (take i xs ++ ys) ≡ ys
  drop-take-append xs ys zero h = refl
  drop-take-append [] ys (suc i) h = absurd (omega arith)
  drop-take-append (x ∷ xs) ys (suc i) h = drop-take-append xs ys i (omega arith)

  pub take-length : (xs : List A) → take (length xs) xs ≡ xs
  take-length [] = refl
  take-length (x ∷ xs) = ap (λ ys. x ∷ ys) (take-length xs)

  pub drop-length : (xs : List A) → drop (length xs) xs ≡ []
  drop-length [] = refl
  drop-length (x ∷ xs) = drop-length xs

  pub length-set : (xs : List A) (i : ℕ) (v : A) → length (set xs i v) ≡ length xs
  length-set [] i v = refl
  length-set (x ∷ xs) zero v = refl
  length-set (x ∷ xs) (suc i) v = ap suc (length-set xs i v)

  pub le-length-take-append :
      (xs ys : List A) (i : ℕ) → i ≤ length xs → i ≤ length (take i xs ++ ys)
  le-length-take-append xs ys zero h = omega arith
  le-length-take-append [] ys (suc i) h = absurd (omega arith)
  le-length-take-append (x ∷ xs) ys (suc i) h =
      omega (arith, le-length-take-append xs ys i (omega arith))
