-- ===== src/Bencode/Numbers.antt =====
-- torrent-protocol.js: how `bdecode` reads the numbers and strings of the canonical encoding.
use my.Base.{
  ℕ, zero, suc, ◌+◌, ◌/◌, ◌%◌, ◌≤◌, ◌<◌, ◌≡◌, refl, sym, ap, ◌∙◌, Bool, true, false, Option, some,
  List, [], ◌∷◌, ◌++◌, length, All, leb, ltb, ◌==◌, if_cases, arith,
}
use mathlib.Core.List.{append_assoc}
use my.Base.Int.{ℤ, pos, negsuc, abs, ◌-ℤ◌}
use my.Base.Num.{max_safe}
use my.Base.Text.{Text, text_eq}
use my.Publication.{digits, decimal}
use my.Publication.Decimal.{
  IsDigit, digits-IsDigit, value_digits, length-digits, digits-positive, digits-natural,
}
use my.Bencode
use my.Bencode.{
  ◌>>=◌, string_at, Parse, parsed, Node, Value, Nodes, Fields, number, string, list, dictionary,
  nil, cons, end, field, follows, before, integer, is_positive, is_natural, value_from,
  digits_value, number_at, Kind, strings, kind, value_at, parse, at_end,
}
use my.Bencode.Reparse.{is_refused, reparse}
use my.Bencode.Values.{string_at-take}
use my.Bencode.Encode.{encode_integer, encode_string, encode, int}

module _ (decode : List ℕ → Option Text)
    (ascii : (b : List ℕ) → All (λ c. c < 128) b → decode b ≡ some b) where
  before-digits :
      (last : ℕ) (xs r : List ℕ)
      → 57 < last
      → All IsDigit xs
      → before last (xs ++ last ∷ r) ≡ parsed (xs, r)
  unfolding before
  before-digits last [] r h d = ground arith
  before-digits last (c ∷ xs) r h d =
      let t : (c == last) ≡ false = ground (arith, d.0) in rw (t, before-digits last xs r h d.1)

  digits-ascii : (xs : List ℕ) → All IsDigit xs → All (λ c. c < 128) xs
  digits-ascii [] d = tt
  digits-ascii (c ∷ xs) d = (omega (arith, d.0), digits-ascii xs d.1)

  integer-natural :
      (negative : Bool) (t : Text) (x : ℕ)
      → is_natural t ≡ true
      → value_from 0 t ≡ x
      → integer negative t ≡ some (pos x)
  unfolding integer text_eq is_positive
  integer-natural negative [] x h e = cc
  integer-natural negative (c ∷ cs) x h e = rw (h, e)

  -- What `number` makes of the decimal of a safe integer.
  digits_value-decimal :
      (negative : Bool) (x : ℕ)
      → x ≤ max_safe
      → digits_value decode negative (decimal x) ≡ parsed (pos x)
  unfolding digits_value
  digits_value-decimal negative x h =
      let short : ltb 17 (length (decimal x)) ≡ false = ground (arith, length-digits 16 x) in
      let safe : leb x max_safe ≡ true = ground arith in
      rw (
        short,
        ascii (decimal x) (digits-ascii (decimal x) (digits-IsDigit 16 x)),
        integer-natural negative (decimal x) x (digits-natural 15 x (omega arith))
            (value_digits 16 x (omega arith)),
        safe,
      )

  number_at-decimal :
      (last : ℕ) (negative : Bool) (x : ℕ) (r : List ℕ)
      → 57 < last
      → x ≤ max_safe
      → number_at decode last negative (decimal x ++ last ∷ r) ≡ parsed (pos x, r)
  unfolding number_at
  number_at-decimal last negative x r l h =
      rw (
        before-digits last (decimal x) r l (digits-IsDigit 16 x),
        digits_value-decimal negative x h,
      )

  integer-negative :
      (t : Text) (x : ℕ)
      → is_positive t ≡ true
      → value_from 0 t ≡ suc x
      → integer true (b'-' ∷ t) ≡ some (negsuc x)
  unfolding integer text_eq is_positive ◌-ℤ◌
  integer-negative t x h e = rw (h, e) (ground arith)

  number_at-negative :
      (x : ℕ) (r : List ℕ)
      → suc x ≤ max_safe
      → number_at decode b'e' true (b'-' ∷ decimal (suc x) ++ b'e' ∷ r) ≡ parsed (negsuc x, r)
  unfolding number_at before digits_value
  number_at-negative x r h =
      let short : ltb 17 (suc (length (decimal (suc x)))) ≡ false =
        ground (arith, length-digits 16 (suc x)) in
      let safe : leb (suc x) max_safe ≡ true = ground arith in
      rw (
        before-digits b'e' (decimal (suc x)) r (omega arith) (digits-IsDigit 16 (suc x)),
        short,
        ascii (b'-' ∷ decimal (suc x))
            (omega arith, digits-ascii (decimal (suc x)) (digits-IsDigit 16 (suc x))),
        integer-negative (decimal (suc x)) x
            (digits-positive 16 (suc x) (omega arith) (omega arith))
            (value_digits 16 (suc x) (omega arith)),
        safe,
      )

  number_at-integer :
      (z : ℤ) (r : List ℕ)
      → abs z ≤ max_safe
      → number_at decode b'e' true (encode_integer z ++ b'e' ∷ r) ≡ parsed (z, r)
  number_at-integer (pos x) r h = number_at-decimal b'e' true x r (omega arith) h
  number_at-integer (negsuc x) r h = number_at-negative x r h

  pub parse-int :
      (f depth n : ℕ) (z : ℤ) (r : List ℕ)
      → is_refused decode n depth ≡ false
      → abs z ≤ max_safe
      → parse decode (suc f) depth (encode (int z) ++ r) n
        ≡ parsed (Bencode.node (number z) (encode (int z)), r, n + 1)
  unfolding encode kind value_at
  parse-int f depth n z r c h =
      reparse decode (suc f) f depth b'i' n n 0 (encode_integer z ++ b'e' ∷ []) r (encode (int z))
        (number z) (omega arith) (omega arith) c refl
        (λ j l.
          rw (append_assoc (encode_integer z) (b'e' ∷ []) r, number_at-integer z r h)
            (let e : suc n ≡ suc n + 0 = omega arith in ap (λ k. parsed (number z, r, k)) e))

  -- The first digit of a decimal.
  pub record Head (xs : List ℕ) : Type 0 where
    pub first : ℕ
    pub others : List ℕ
    pub split : xs ≡ first ∷ others
    pub digit : kind first ≡ strings

  pub digits-Head : (n x : ℕ) → Head (digits (suc n) x)
  unfolding digits kind
  digits-Head zero x =
      if_cases Head (leb x 9) _ _
        (λ e. record { first = b'0' + x; others = []; split = refl; digit = ground arith })
        (λ e. record { first = b'0' + x % 10; others = []; split = refl; digit = ground arith })
  digits-Head (suc n) x =
      if_cases Head (leb x 9) _ _
        (λ e. record { first = b'0' + x; others = []; split = refl; digit = ground arith })
        (λ e.
          let h = digits-Head n (x / 10) in
          record {
            first = h.first;
            others = h.others ++ (b'0' + x % 10) ∷ [];
            split = ap (λ t. t ++ (b'0' + x % 10) ∷ []) h.split;
            digit = h.digit;
          })

  pub parse-str :
      (f depth n : ℕ) (b r : List ℕ)
      → is_refused decode n depth ≡ false
      → length b ≤ max_safe
      → parse decode (suc f) depth (encode_string b ++ r) n
        ≡ parsed (Bencode.node (string b) (encode_string b), r, n + 1)
  unfolding value_at
  parse-str f depth n b r c h =
      let d = digits-Head 15 (length b) in
      let whole : encode_string b ≡ d.first ∷ (d.others ++ b':' ∷ b) =
        ap (λ t. t ++ b':' ∷ b) d.split in
      ap (λ t. parse decode (suc f) depth (t ++ r) n) whole
      ∙ reparse decode (suc f) f depth d.first n n 0 (d.others ++ b':' ∷ b) r (encode_string b)
          (string b) (omega arith) (omega arith) c whole
          (λ j l. rw d.digit (
            ap (λ t. number_at decode b':' false t >>= λ (z, rest). string_at z rest (suc n))
              (append_assoc (d.first ∷ d.others) (b':' ∷ b) r
                ∙ ap (λ t. t ++ b':' ∷ (b ++ r)) (sym d.split))
            ∙ rw (number_at-decimal b':' false (length b) (b ++ r) (omega arith) h) (
                string_at-take decode (pos (length b)) b r (suc n) refl
                ∙ (let e : suc n ≡ suc n + 0 = omega arith in
                    ap (λ k. parsed (string b, r, k)) e))))
