-- ===== src/Prelude/Effects.antt =====
-- Code that changes a store: a function from the store to a result and the store afterwards.
-- A call that can return a Go `error` has a result of type `Option A`, with `none` for the error.
use mathlib.Core.Option.{Option, none, some}

abbrev pub Effect {ℓ κ} : Type ℓ → Type κ → Type (ℓ ⊔ κ)
Effect S A = S → A × S

module _ {ℓ κ} {S : Type ℓ} {A : Type κ} where
  abbrev pub pure : A → Effect S A
  pure a s = (a, s)

  infixl 5 ◌>>=◌ ◌>>◌
  abbrev pub ◌>>=◌ {ι} : {B : Type ι} → Effect S A → (A → Effect S B) → Effect S B
  ◌>>=◌ m f s = f (m s).0 (m s).1

  abbrev pub ◌>>◌ {ι} : {B : Type ι} → Effect S A → Effect S B → Effect S B
  ◌>>◌ m n s = n (m s).1

-- Runs the handler of an error, or goes on with the value.
abbrev pub on_error {ℓ κ ι} :
    {S : Type ℓ} {A : Type κ} {B : Type ι} → Option A → Effect S B → (A → Effect S B) → Effect S B
on_error none failed next = failed
on_error (some a) failed next = next a
