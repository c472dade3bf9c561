-- ===== src/Base/Failure.antt =====
-- The `code` of the errors that the program raises, and the result of a call that may throw.
use mathlib.Core.Path.{◌≡◌, refl, subst}
use mathlib.Core.Logic.{◌⊎◌, inl, inr}
use mathlib.Core.Bool.{Bool, true, false}
use mathlib.Core.Option.{Option, none, some}
use native.Mathlib.Omega.{arith}

pub data Code : Type 0 where
  invalid_torrent invalid_range enoent storage_closed storage_error storage_full : Code
  invalid_publication publication_conflict publication_unavailable no_publication : Code
  invalid_profile invalid_state transport_error cancelled operation_failed read_only : Code
  io_error analysis_incomplete no_profile profile_mismatch prefetch_timeout : Code
  invalid_size invalid_read_key no_published_state transport_timeout other_code : Code

pub data Result {ℓ} (A : Type ℓ) : Type ℓ where
  ok : A → Result A
  err : Code → Result A

module _ {ℓ κ} {A : Type ℓ} {B : Type κ} where
  infixl 5 ◌>>=◌
  abbrev pub ◌>>=◌ : Result A → (A → Result B) → Result B
  err code >>= next = err code
  ok value >>= next = next value

  -- A chain that succeeds has passed through each of its steps.
  pub >>=-eq_ok :
      (call : Result A) (next : A → Result B) {b : B}
      → (call >>= next) ≡ ok b
      → (a : A) × (call ≡ ok a) × (next a ≡ ok b)
  >>=-eq_ok (err code) next h = cc
  >>=-eq_ok (ok value) next h = (value, refl, h)

infixl 5 ◌>>◌
abbrev pub ◌>>◌ {ℓ} : {B : Type ℓ} → Result (Unit {0}) → Result B → Result B
check >> rest = check >>= λ _. rest

-- `if(!test)throw fail(code)`
abbrev pub require : Bool → Code → Result (Unit {0})
require true c = ok tt
require false c = err c

-- The value of `x`, or a throw where there is none.
abbrev pub or_throw {ℓ} : {A : Type ℓ} → Option A → Code → Result A
or_throw none c = err c
or_throw (some a) c = ok a

-- `x ?? d`
abbrev pub or_default {ℓ} : {A : Type ℓ} → Option A → A → A
or_default none d = d
or_default (some a) d = a

-- To split on a computed result and keep the equation.
pub Result-cases {ℓ} :
    {A : Type ℓ} (r : Result A) → ((c : Code) × (r ≡ err c)) ⊎ ((a : A) × (r ≡ ok a))
Result-cases (err c) = inl (c, refl)
Result-cases (ok a) = inr (a, refl)

pub ok-injective {ℓ} : {A : Type ℓ} (a b : A) → ok a ≡ ok b → a ≡ b
ok-injective a b h = ground arith

-- What holds of the value, if there is one.
abbrev pub Yields {ℓ κ} : {A : Type ℓ} → (A → Type κ) → Result A → Type κ
Yields P (ok a) = P a
Yields P (err c) = Unit

pub Yields-ok {ℓ κ} :
    {A : Type ℓ} (P : A → Type κ) (m : Result A) (a : A) → m ≡ ok a → Yields P m → P a
Yields-ok P m a e h = subst (Yields P) e h
