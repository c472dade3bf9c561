-- ===== src/Bencode/Ensures.antt =====
-- torrent-protocol.js: parses that do not lack fuel, and how `bdecode` reads a number.
use my.Base.{
  ℕ, ◌≡◌, ◌≢◌, refl, ap, Bool, Option, List, [], ◌∷◌, ◌++◌, if_cases, ◌==◌, ==_iff, arith,
}
use mathlib.Core.Path.{subst}
use my.Base.Int.{ℤ}
use my.Base.Text.{Text}
use my.Bencode.{Parse, parsed, refused, out_of_fuel, ◌>>=◌, before, digits_value, number_at}

-- A parse that is refused, or has a result of which `P` holds; so one that has fuel enough.
pub data Ensures {ℓ κ} {A : Type ℓ} (P : A → Type κ) : Parse A → Type (ℓ ⊔ κ) where
  holds : {a : A} → P a → Ensures P (parsed a)
  rejected : Ensures P refused

pub Ensures-bind {ℓ κ} :
    {A B : Type ℓ} {P : A → Type κ} {Q : B → Type κ} {m : Parse A} {k : A → Parse B}
    → Ensures P m
    → ((a : A) → P a → Ensures Q (k a))
    → Ensures Q (m >>= k)
Ensures-bind (holds {a = a} p) f = f a p
Ensures-bind rejected f = rejected

pub Ensures-parsed {ℓ κ} :
    {A : Type ℓ} (P : A → Type κ) (m : Parse A) (a : A) → Ensures P m → m ≡ parsed a → P a
Ensures-parsed P _ a (holds {a = b} p) e = subst P (let q : b ≡ a = cc in q) p
Ensures-parsed P _ a rejected e = cc

pub Ensures-ne-out_of_fuel {ℓ κ} :
    {A : Type ℓ} (P : A → Type κ) (m : Parse A) → Ensures P m → m ≢ out_of_fuel
Ensures-ne-out_of_fuel P _ (holds p) e = cc
Ensures-ne-out_of_fuel P _ rejected e = cc

pub Ensures-self {ℓ} : {A : Type ℓ} (m : Parse A) → m ≢ out_of_fuel → Ensures (λ a. m ≡ parsed a) m
Ensures-self (parsed a) h = holds refl
Ensures-self refused h = rejected
Ensures-self out_of_fuel h = absurd (h refl)

pub record Stops (last : ℕ) (s xs rest : List ℕ) : Type 0 where
  pub split : s ≡ xs ++ last ∷ rest
  pub again : (r : List ℕ) → before last (xs ++ last ∷ r) ≡ parsed (xs, r)

pub before-Ensures :
    (last : ℕ) (s : List ℕ) → Ensures (λ (xs, rest). Stops last s xs rest) (before last s)
unfolding before
before-Ensures last [] = rejected
before-Ensures last (b ∷ bs) =
    if_cases (Ensures (λ (xs, rest). Stops last (b ∷ bs) xs rest)) (b == last) _ _
      (λ e. holds (record {
        split = ap (λ c. c ∷ bs) ((==_iff b last).0 e);
        again = λ r. rw ((==_iff last last).1 refl);
      }))
      (λ e. Ensures-bind (before-Ensures last bs) λ (xs, rest) h.
        holds (record { split = ap (λ t. b ∷ t) h.split; again = λ r. rw (e, h.again r) }))

module _ (decode : List ℕ → Option Text) where
  pub record Counts (last : ℕ) (negative : Bool) (s : List ℕ) (z : ℤ) (rest : List ℕ) : Type 0 where
    pub used : List ℕ
    pub split : s ≡ used ++ last ∷ rest
    pub again : (r : List ℕ) → number_at decode last negative (used ++ last ∷ r) ≡ parsed (z, r)

  pub value-ne-out_of_fuel :
      (negative : Bool) (xs : List ℕ) → digits_value decode negative xs ≢ out_of_fuel
  unfolding digits_value
  value-ne-out_of_fuel negative xs = ground arith

  pub value-Ensures :
      (negative : Bool) (xs : List ℕ)
      → Ensures (λ z. digits_value decode negative xs ≡ parsed z) (digits_value decode negative xs)
  value-Ensures negative xs =
      Ensures-self (digits_value decode negative xs) (value-ne-out_of_fuel negative xs)

  pub number_at-Ensures :
      (last : ℕ) (negative : Bool) (s : List ℕ)
      → Ensures (λ (z, rest). Counts last negative s z rest) (number_at decode last negative s)
  unfolding number_at
  number_at-Ensures last negative s = Ensures-bind (before-Ensures last s) λ (xs, rest) h.
      Ensures-bind (value-Ensures negative xs)
        λ z q. holds (record { used = xs; split = h.split; again = λ r. rw (h.again r, q) })
