-- ===== src/Publication/Decimal.antt =====
-- The decimal of a number: its digits, and the number that they make up.
use my.Base.{
  ℕ, zero, suc, ◌+◌, ◌-◌, ◌*◌, ◌/◌, ◌%◌, ◌≤◌, ◌<◌, ◌≡◌, refl, ◌∙◌, true, false, ◌||◌, [], ◌∷◌, ◌++◌,
  leb, if_cases, length, length-append, All, All-append, all, arith,
}
use my.Base.Text.{Text, text_eq}
use my.Publication.{digits}
use my.Bencode.{value_from, is_positive, is_natural, is_digit}

abbrev pub IsDigit : ℕ → Type 0
IsDigit c = (48 ≤ c) × (c ≤ 57)

pub digits-IsDigit : (n x : ℕ) → All IsDigit (digits n x)
unfolding digits
digits-IsDigit zero x = tt
digits-IsDigit (suc n) x =
    if_cases (All IsDigit) (leb x 9) _ _ (λ e. ((omega arith, ground arith), tt))
      (λ e.
        All-append IsDigit (digits n (x / 10)) _ (digits-IsDigit n (x / 10))
          ((omega arith, omega arith), tt))

value_last :
    (acc c : ℕ) (cs : Text) → value_from acc (cs ++ c ∷ []) ≡ 10 * value_from acc cs + (c - 48)
unfolding value_from
value_last acc c [] = refl
value_last acc c (d ∷ cs) = value_last (10 * acc + (d - 48)) c cs

-- The first number of more than `n` digits.
abbrev pub limit : ℕ → ℕ
limit zero = 1
limit (suc n) = 10 * limit n

pub value_digits : (n x : ℕ) → x < limit n → value_from 0 (digits n x) ≡ x
unfolding digits
value_digits zero x h = unfold value_from in omega arith
value_digits (suc n) x h =
    if_cases (λ t. value_from 0 t ≡ x) (leb x 9) _ _ (λ e. unfold value_from in omega arith)
      (λ e.
        value_last 0 (48 + x % 10) (digits n (x / 10))
        ∙ omega (arith, value_digits n (x / 10) (omega arith)))

pub length-digits : (n x : ℕ) → length (digits n x) ≤ n
unfolding digits
length-digits zero x = omega arith
length-digits (suc n) x =
    ground
      (arith, length-append (digits n (x / 10)) ((b'0' + x % 10) ∷ []), length-digits n (x / 10))

all-snoc :
    (xs : Text) (c : ℕ) → all is_digit xs ≡ true → IsDigit c → all is_digit (xs ++ c ∷ []) ≡ true
all-snoc [] c h d = ground arith
all-snoc (b ∷ xs) c h d = ground (arith, all-snoc xs c)

positive-snoc :
    (xs : Text) (c : ℕ) → is_positive xs ≡ true → IsDigit c → is_positive (xs ++ c ∷ []) ≡ true
unfolding is_positive
positive-snoc [] c h d = cc
positive-snoc (b ∷ xs) c h d = ground (arith, all-snoc xs c)

pub digits-positive : (n x : ℕ) → 1 ≤ x → x < limit n → is_positive (digits n x) ≡ true
unfolding digits
digits-positive zero x p h = absurd (omega arith)
digits-positive (suc n) x p h =
    if_cases (λ t. is_positive t ≡ true) (leb x 9) _ _ (λ e. unfold is_positive in ground arith)
      (λ e.
        positive-snoc (digits n (x / 10)) (b'0' + x % 10)
          (digits-positive n (x / 10) (ground arith) (omega arith)) (omega arith, omega arith))

-- The decimal of a number is in canonical form.
pub digits-natural : (n x : ℕ) → x < limit (suc n) → is_natural (digits (suc n) x) ≡ true
digits-natural n zero h = unfold digits text_eq in refl
digits-natural n (suc x) h =
    rw (digits-positive (suc n) (suc x) (omega arith) h)
      (elim (text_eq (digits (suc n) (suc x)) (b'0' ∷ [])) as (λ b. (b || true) ≡ true) [
        | true ↦ refl
        | false ↦ refl
      ])
