-- ===== src/Base/Programs.antt =====
-- Command-line code: it ends with a value or an error, or panics, and a loop of which the end depends on the
-- world runs on fuel. `W` is the state of the world.
use mathlib.Core.Path.{◌≡◌, refl}
use hackrf_proxy.Base.Results.{Error, Result, ok, err}

pub data Run (W A : Type 0) : Type 0 where
  out_of_fuel : Run W A
  failed : Error → W → Run W A
  done : A → W → Run W A
  panicked : W → Run W A

module _ {W A B : Type 0} where
  -- `?`, and what follows.
  unfoldable pub and_then : Run W A → (A → W → Run W B) → Run W B
  and_then out_of_fuel next = out_of_fuel
  and_then (failed e w) next = failed e w
  and_then (done a w) next = next a w
  and_then (panicked w) next = panicked w

module _ {W A : Type 0} where
  -- A call that may fail.
  unfoldable pub call : Result Error A × W → Run W A
  call (ok a, w) = done a w
  call (err e, w) = failed e w

  -- It ends, with no panic, and what holds of the value, if there is one.
  abbrev pub EndsIn : (A → W → Type 0) → Run W A → Type 0
  EndsIn Q out_of_fuel = ⊥
  EndsIn Q (failed e w) = Unit
  EndsIn Q (done a w) = Q a w
  EndsIn Q (panicked w) = ⊥

  pub call-EndsIn :
      (Q : A → W → Type 0) (c : Result Error A × W)
      → ((a : A) → c.0 ≡ ok a → Q a c.1)
      → EndsIn Q (call c)
  unfolding call
  call-EndsIn Q (ok a, w) h = h a refl
  call-EndsIn Q (err e, w) h = tt

module _ {W A B : Type 0} where
  pub and_then-EndsIn :
      (P : A → W → Type 0) (Q : B → W → Type 0) (r : Run W A) (next : A → W → Run W B)
      → EndsIn P r
      → ((a : A) (w : W) → P a w → EndsIn Q (next a w))
      → EndsIn Q (and_then r next)
  unfolding and_then
  and_then-EndsIn P Q out_of_fuel next h k = h
  and_then-EndsIn P Q (failed e w) next h k = tt
  and_then-EndsIn P Q (done a w) next h k = k a w h
  and_then-EndsIn P Q (panicked w) next h k = h

  -- A call, and what follows it.
  pub called-EndsIn :
      (Q : B → W → Type 0) (c : Result Error A × W) (next : A → W → Run W B)
      → ((a : A) → c.0 ≡ ok a → EndsIn Q (next a c.1))
      → EndsIn Q (and_then (call c) next)
  unfolding and_then call
  called-EndsIn Q (ok a, w) next h = h a refl
  called-EndsIn Q (err e, w) next h = tt
