-- ===== src/Outcome.antt =====
-- A call that may throw: the exceptions that the engine's code raises, as values.
use smartmet_engine_sputnik.Prelude.{◌≡◌, ap, refl, ◌⊎◌, inl, inr}

pub data Error : Type 0 where
  -- `Fmi::Exception("No backends available!")`
  no_backends : Error
  -- `std::out_of_range` of `vector::at`
  out_of_range : Error
  -- `Fmi::Exception("Unknown backend forwarding mode")`
  unknown_mode : Error
  -- `boost::numeric::negative_overflow` and `positive_overflow` of `numeric_cast`
  negative_overflow : Error
  positive_overflow : Error
  -- `Fmi::Exception` of `launch` and what it calls
  bind_failed : Error
  option_failed : Error
  hook_refused : Error
  -- of the constructor of the engine: the socket cannot be opened, the file cannot be read, there is
  -- no reactor, a setting is of the wrong type, or the address is none
  not_opened : Error
  bad_file : Error
  bad_setting : Error
  no_reactor : Error
  bad_address : Error
  -- of `Fmi::stoi`
  bad_port : Error

pub data Result {ℓ} (A : Type ℓ) : Type ℓ where
  ok : A → Result A
  err : Error → Result A

infixl 5 ◌>>=◌
abbrev pub ◌>>=◌ {ℓ κ} : {A : Type ℓ} {B : Type κ} → Result A → (A → Result B) → Result B
ok a >>= f = f a
err e >>= f = err e

-- The call returns, and what it returns satisfies `Q`.
abbrev pub Returns {ℓ κ} : {A : Type ℓ} → Result A → (A → Type κ) → Type (ℓ ⊔ κ)
Returns {A} r Q = (a : A) × (r ≡ ok a) × Q a

pub Result-cases {ℓ} :
    {A : Type ℓ} (r : Result A) → ((a : A) × (r ≡ ok a)) ⊎ ((e : Error) × (r ≡ err e))
Result-cases (ok a) = inl (a, refl)
Result-cases (err e) = inr (e, refl)

pub bind-ok {ℓ κ} :
    {A : Type ℓ} {B : Type κ} (f : A → Result B) {r : Result A} {a : A} → r ≡ ok a → (r >>= f) ≡ f a
bind-ok f e = ap (λ x. x >>= f) e
