-- ===== src/Prelude/Fallible.antt =====
-- What a Go call comes back with: a value, an error value, or a run-time panic. The value that
-- stands beside a non-nil error in Go's result list is not kept: every caller tests the error first.
use Prim.Native.Nat.{ℕ}
use mathlib.Core.Option.{Option, none, some}
use mathlib.Core.Logic.{◌⊎◌, inl, inr}
use mathlib.Core.Path.{◌≡◌, refl}

-- The errors that the program makes or passes on. A number is the row that the text names.
pub data Error : Type 0 where
  key_not_found bad_number not_enough_digits no_unique_row : Error
  bad_pair no_bucket missing_key reverse_missing put_failed : Error
  row_missing row_taken real_missing : ℕ → Error
  virtual_missing pair_missing pair_taken : Error
  send_failed decode_failed server_error bad_response no_value : Error
  cookie_not_found cookie_expired : Error

pub data Outcome {ℓ} (A : Type ℓ) : Type ℓ where
  ok : A → Outcome A
  err : Error → Outcome A
  panicked : Outcome A

infixl 5 ◌>>=◌ ◌>>◌
abbrev pub ◌>>=◌ {ℓ κ} :
    {First : Type ℓ} {Last : Type κ} → Outcome First → (First → Outcome Last) → Outcome Last
ok first >>= rest = rest first
err why >>= rest = err why
panicked >>= rest = panicked

abbrev pub ◌>>◌ {ℓ κ} :
    {First : Type ℓ} {Last : Type κ} → Outcome First → Outcome Last → Outcome Last
step >> rest = step >>= λ _. rest

-- A lookup that must succeed.
abbrev pub some_or {ℓ} : {A : Type ℓ} → Option A → Error → Outcome A
some_or none e = err e
some_or (some a) e = ok a

-- What returns has returned at each of its steps.
pub returns_through {ℓ κ} :
    {First : Type ℓ} {Last : Type κ} {last : Last} (step : Outcome First)
    (rest : First → Outcome Last)
    → (step >>= rest) ≡ ok last
    → (first : First) × (step ≡ ok first) × (rest first ≡ ok last)
returns_through (ok first) rest e = (first, refl, e)
returns_through (err why) rest e = cc
returns_through panicked rest e = cc

pub ok-injective {ℓ} : {A : Type ℓ} {a b : A} → ◌≡◌ {A = Outcome A} (ok a) (ok b) → a ≡ b
ok-injective h = cc

pub ok_pair {ℓ κ} :
    {A : Type ℓ} {B : Type κ} {a a' : A} {b b' : B}
    → ◌≡◌ {A = Outcome (A × B)} (ok (a, b)) (ok (a', b'))
    → (a ≡ a') × (b ≡ b')
ok_pair h = (cc, cc)

-- To split on a result and keep the equation.
pub Outcome-cases {ℓ} :
    {A : Type ℓ} (m : Outcome A)
    → ((a : A) × (m ≡ ok a)) ⊎ ((e : Error) × (m ≡ err e)) ⊎ (m ≡ panicked)
Outcome-cases (ok a) = inl (a, refl)
Outcome-cases (err e) = inr (inl (e, refl))
Outcome-cases panicked = inr (inr refl)

-- What holds of each branch holds of the case distinction.
pub on_outcome {ℓ κ μ} :
    {A : Type ℓ} {B : Type κ} (P : B → Type μ) (o : Outcome A) {f : A → B} {g : Error → B} {b : B}
    → ((a : A) → P (f a))
    → ((e : Error) → P (g e))
    → P b
    → P (elim o as (λ _. B) [ ok a ↦ f a | err e ↦ g e | panicked ↦ b ])
on_outcome P (ok a) h k l = h a
on_outcome P (err e) h k l = k e
on_outcome P panicked h k l = l
