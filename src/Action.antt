-- ===== src/Action.antt =====
-- Code that changes a state and may raise: what was written before a raise stays written, so the
-- state comes back beside an error too. Every component with a state of its own is written in it.
pub mod Runs
pub mod Ensures
use ckdb_aws.Base.{Option, Result, err, none, ok, some}
use ckdb_aws.Domain.{Error, key_error}

-- A call that changes a state `W`, and may raise.
abbrev pub Action : Type 0 → Type 0 → Type 0
Action W A = W → Result Error A × W

module _ {W A : Type 0} where
  abbrev pub then_with : {B : Type 0} → Result Error A × W → (A → Action W B) → Result Error B × W
  then_with (ok a, w) f = f a w
  then_with (err e, w) f = (err e, w)

  abbrev pub return : A → Action W A
  return a w = (ok a, w)

  -- A call that may raise and changes nothing.
  abbrev pub lift : Result Error A → Action W A
  lift r w = (r, w)

  abbrev pub raise : Error → Action W A
  raise e w = (err e, w)

  -- A value that is read from the state.
  abbrev pub gets : (W → A) → Action W A
  gets f w = (ok (f w), w)

  -- `if value is None: raise`
  abbrev pub demand : Error → Option A → Action W A
  demand e none w = (err e, w)
  demand e (some a) w = (ok a, w)

  -- `d[k]`, which raises on a missing key.
  abbrev pub found : Option A → Action W A
  found = demand key_error

  infixl 5 ◌>>=◌
  unfoldable pub ◌>>=◌ : {B : Type 0} → Action W A → (A → Action W B) → Action W B
  (m >>= f) w = then_with (m w) f

abbrev pub modify : {W : Type 0} → (W → W) → Action W (Unit {0})
modify f w = (ok tt, f w)

module _ {W B : Type 0} where
  infixl 5 ◌>>◌
  abbrev pub ◌>>◌ : Action W (Unit {0}) → Action W B → Action W B
  m >> k = m >>= λ _. k
