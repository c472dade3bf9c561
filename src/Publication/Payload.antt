-- ===== src/Publication/Payload.antt =====
-- torrent-protocol.js: what a signature of a record binds.
use my.Base.{ℕ, ◌≤◌, ◌≡◌, refl, sym, ap, ◌∙◌, List, [], ◌∷◌, ◌++◌, All, arith}
use mathlib.Core.List.{append_cancel_left, append_cancel_right}
use my.Base.Num.{max_safe}
use my.Base.Text.{Text}
use my.Bencode.{value_from}
use my.Publication.Decimal.{IsDigit, digits-IsDigit, value_digits}
use my.Publication.{decimal, prefix, middle, payload}

head_tail : (c d : ℕ) (cs ds : Text) → c ∷ cs ≡ d ∷ ds → (c ≡ d) × (cs ≡ ds)
head_tail c d cs ds e = (cc, cc)

-- Two texts that each end where a digit does not follow.
split_digits :
    (a b xs ys : Text)
    → All IsDigit a
    → All IsDigit b
    → a ++ b'e' ∷ xs ≡ b ++ b'e' ∷ ys
    → (a ≡ b) × (xs ≡ ys)
split_digits [] [] xs ys h k e = (refl, (head_tail b'e' b'e' xs ys e).1)
split_digits [] (d ∷ b) xs ys h k e =
    absurd (omega (arith, k.0, (head_tail b'e' d xs (b ++ b'e' ∷ ys) e).0))
split_digits (c ∷ a) [] xs ys h k e =
    absurd (omega (arith, h.0, (head_tail c b'e' (a ++ b'e' ∷ xs) ys e).0))
split_digits (c ∷ a) (d ∷ b) xs ys h k e =
    let first = head_tail c d (a ++ b'e' ∷ xs) (b ++ b'e' ∷ ys) e in
    let rest = split_digits a b xs ys h.1 k.1 first.1 in (cc, rest.1)

decimal-injective : (x y : ℕ) → x ≤ max_safe → y ≤ max_safe → decimal x ≡ decimal y → x ≡ y
decimal-injective x y h k e =
    sym (value_digits 16 x (omega arith)) ∙ ap (value_from 0) e ∙ value_digits 16 y (omega arith)

abbrev after_e : List ℕ → Text
after_e ih = middle ++ (ih ++ b'e' ∷ [])

-- Two records with safe sequences whose signed payloads are the same have the same sequence and the
-- same infohash.
pub payload-injective :
    (x y : ℕ) (ih jh : List ℕ)
    → x ≤ max_safe
    → y ≤ max_safe
    → payload x ih ≡ payload y jh
    → (x ≡ y) × (ih ≡ jh)
unfolding payload
payload-injective x y ih jh h k e =
    let rest : decimal x ++ b'e' ∷ after_e ih ≡ decimal y ++ b'e' ∷ after_e jh =
      append_cancel_left prefix (decimal x ++ b'e' ∷ after_e ih) (decimal y ++ b'e' ∷ after_e jh)
        e in
    let split =
      split_digits (decimal x) (decimal y) (after_e ih) (after_e jh) (digits-IsDigit 16 x)
        (digits-IsDigit 16 y) rest in
    (
      decimal-injective x y h k split.0,
      append_cancel_right ih jh (b'e' ∷ [])
          (append_cancel_left middle (ih ++ b'e' ∷ []) (jh ++ b'e' ∷ []) split.1),
    )
