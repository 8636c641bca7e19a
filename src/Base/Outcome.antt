-- ===== src/Base/Outcome.antt =====
-- A Python call returns a value or raises; which exception it is matters nowhere in the program
-- but for the ones that a caller catches by class, which get constructors of their own there.
use mathlib.Core.Path.{◌≡◌, refl}
use mathlib.Core.Option.{Option, none, some}
use mathlib.Core.Logic.{◌⊎◌, inl, inr}

pub data Result {ℓ} (A : Type ℓ) : Type ℓ where
  ok : A → Result A
  raised : Result A

infixl 5 ◌>>=◌ ◌>>◌
abbrev pub ◌>>=◌ {ℓ κ} : {A : Type ℓ} {B : Type κ} → Result A → (A → Result B) → Result B
ok a >>= f = f a
raised >>= f = raised

abbrev pub ◌>>◌ {ℓ κ} : {A : Type ℓ} {B : Type κ} → Result A → Result B → Result B
m >> k = m >>= λ _. k

-- The value under a key of a JSON object: the key may be missing, or its value may be null.
pub data Field {ℓ} (A : Type ℓ) : Type ℓ where
  missing null : Field A
  value : A → Field A

module _ {ℓ} {A : Type ℓ} where
  -- the ways to read a field of a dictionary d: d.get(k)
  abbrev pub get_opt : Field A → Option A
  get_opt missing = none
  get_opt null = none
  get_opt (value a) = some a

  -- d.get(k) or default, where no value of the program but None and the default is false
  abbrev pub get_or_default : Field A → A → A
  get_or_default missing d = d
  get_or_default null d = d
  get_or_default (value a) d = a

  -- d.get(k, default) under an operation that raises TypeError on None
  abbrev pub get_default : Field A → A → Result A
  get_default missing d = ok d
  get_default null d = raised
  get_default (value a) d = ok a

  -- d[k] under an operation that raises TypeError on None
  abbrev pub require : Field A → Result A
  require (value a) = ok a
  require _ = raised

  -- d[k]: KeyError if the key is missing, and None if it is null
  abbrev pub require_key : Field A → Result (Option A)
  require_key missing = raised
  require_key null = ok none
  require_key (value a) = ok (some a)

pub Result-cases {ℓ} : {A : Type ℓ} (r : Result A) → (r ≡ raised) ⊎ ((a : A) × (r ≡ ok a))
Result-cases raised = inl refl
Result-cases (ok a) = inr (a, refl)
