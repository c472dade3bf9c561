-- ===== src/Bencode/Values.antt =====
-- torrent-protocol.js: what `bdecode` reads of a value that is no node yet.
use my.Base.{
  ℕ, ◌+◌, ◌≤◌, ◌≡◌, refl, sym, ap, ◌∙◌, true, false, Option, none, List, [], ◌∷◌, ◌++◌, length,
  take, drop, length-append, length-take, take-append_length, drop-append_length, take-append-drop,
  if_cases, ltb, ◌==◌, ltb→le, arith,
}
use mathlib.Core.Path.{subst}
use mathlib.Core.List.{append_assoc}
use my.Base.Int.{ℤ, abs}
use my.Base.Text.{Text}
use my.Bencode.{
  parsed, number, string, Kind, integers, dictionaries, lists, strings, others, kind, string_at,
  number_at, value_at, parse_items, parse_fields,
}
use my.Bencode.Ensures.{Ensures, holds, rejected, Ensures-bind, number_at-Ensures}
use my.Bencode.Frame.{Frame, Framed, Fits, FieldsFit, read_value}

module _ (decode : List ℕ → Option Text) where
  pub string_at-take :
      (z : ℤ) (t r : List ℕ) (m : ℕ)
      → abs z ≡ length t
      → string_at z (t ++ r) m ≡ parsed (string t, r, m)
  unfolding string_at
  string_at-take z t r m e =
      ground (arith, e, length-append t r, take-append_length t r, drop-append_length t r)

  pub integer-Framed :
      (f depth b n : ℕ) (s : List ℕ)
      → n ≤ 256
      → Framed decode 0 (read_value decode depth b integers) (Fits decode f n depth) f s n
  unfolding value_at
  integer-Framed f depth b n s lim =
      Ensures-bind (number_at-Ensures decode b'e' true s) λ (z, rest) h. holds (record {
        used = h.used ++ b'e' ∷ [];
        more = 0;
        split = h.split ∙ sym (append_assoc h.used (b'e' ∷ []) rest);
        count = omega arith;
        least = omega arith;
        most = lim;
        good = tt;
        again = λ g m r p q.
            rw (append_assoc h.used (b'e' ∷ []) r, h.again r)
              (let e : m ≡ m + 0 = omega arith in ap (λ k. parsed (number z, r, k)) e);
      })

  pub dictionary-Framed :
      (f depth b n : ℕ) (s : List ℕ)
      → Framed decode 0
          (λ g t m. parse_fields decode g depth none t m)
          (FieldsFit decode f n depth)
          f
          s
          n
      → n ≤ 256
      → Framed decode 0 (read_value decode depth b dictionaries) (Fits decode f n depth) f s n
  unfolding value_at
  dictionary-Framed f depth b n s d lim = Ensures-bind d λ (fs, rest, k) h. holds (record {
    used = h.used;
    more = h.more;
    split = h.split;
    count = h.count;
    least = h.least;
    most = h.most;
    good = h.good.1;
    again = λ g m r p q. rw (h.again g m r p q);
  })

  pub list-Framed :
      (f depth b n : ℕ) (s : List ℕ)
      → Framed decode 0 (λ g t m. parse_items decode g depth t m) (λ xs used. Unit) f s n
      → n ≤ 256
      → Framed decode 0 (read_value decode depth b lists) (Fits decode f n depth) f s n
  unfolding value_at
  list-Framed f depth b n s d lim = Ensures-bind d λ (xs, rest, k) h. holds (record {
    used = h.used;
    more = h.more;
    split = h.split;
    count = h.count;
    least = h.least;
    most = h.most;
    good = tt;
    again = λ g m r p q. rw (h.again g m r p q);
  })

  -- The digits of a length, of which the first is read when its kind is known.
  pub record Length (b : ℕ) (s : List ℕ) (z : ℤ) (rest : List ℕ) : Type 0 where
    pub digits : List ℕ
    pub split : s ≡ digits ++ b':' ∷ rest
    pub again : (r : List ℕ) → number_at decode b':' false (b ∷ digits ++ b':' ∷ r) ≡ parsed (z, r)

  pub take_digits :
      (b : ℕ) (s used : List ℕ) (z : ℤ) (rest : List ℕ)
      → (b == b':') ≡ false
      → b ∷ s ≡ used ++ b':' ∷ rest
      → ((r : List ℕ) → number_at decode b':' false (used ++ b':' ∷ r) ≡ parsed (z, r))
      → Length b s z rest
  take_digits b s [] z rest t e h = absurd (ground (arith, e))
  take_digits b s (c ∷ used) z rest t e h = record {
    digits = used;
    split = cc;
    again = λ r.
        let q : b ≡ c = cc in
        subst (λ a. number_at decode b':' false (a ∷ used ++ b':' ∷ r) ≡ parsed (z, r)) (sym q)
          (h r);
  }

  pub string-Framed :
      (f depth b n : ℕ) (s : List ℕ)
      → (b == b':') ≡ false
      → n ≤ 256
      → Framed decode 0 (read_value decode depth b strings) (Fits decode f n depth) f s n
  unfolding value_at
  string-Framed f depth b n s t lim =
      Ensures-bind (number_at-Ensures decode b':' false (b ∷ s)) λ (z, rest) c.
        let h = take_digits b s c.used z rest t c.split c.again in
        unfold string_at in
        if_cases
          (Ensures (λ (a, r, k).
            Frame decode 0 (read_value decode depth b strings) (Fits decode f n depth) f s n a r k))
          (ltb (length rest) (abs z)) _ _ (λ e. rejected)
          (λ e.
            let short : abs z ≡ length (take (abs z) rest) =
              ground (arith, length-take (abs z) rest, ltb→le (length rest) (abs z)) in
            holds (record {
              used = h.digits ++ b':' ∷ take (abs z) rest;
              more = 0;
              split =
                  h.split
                  ∙ ap (λ r. h.digits ++ b':' ∷ r) (sym (take-append-drop (abs z) rest))
                  ∙ sym (append_assoc h.digits (b':' ∷ take (abs z) rest) (drop (abs z) rest));
              count = omega arith;
              least = omega arith;
              most = lim;
              good = omega (arith, length-append h.digits (b':' ∷ take (abs z) rest));
              again = λ g m r p q.
                  rw
                    (
                      append_assoc h.digits (b':' ∷ take (abs z) rest) r,
                      h.again (take (abs z) rest ++ r),
                    )
                    (string_at-take z (take (abs z) rest) r m short
                      ∙ (let e : m ≡ m + 0 = omega arith in
                          ap (λ k. parsed (string (take (abs z) rest), r, k)) e));
            }))

  pub value-Framed :
      (kd : Kind) (f depth b n : ℕ) (s : List ℕ)
      → (kd ≡ strings → (b == b':') ≡ false)
      → Framed decode 0
          (λ g t m. parse_fields decode g depth none t m)
          (FieldsFit decode f n depth)
          f
          s
          n
      → Framed decode 0 (λ g t m. parse_items decode g depth t m) (λ xs used. Unit) f s n
      → n ≤ 256
      → Framed decode 0 (read_value decode depth b kd) (Fits decode f n depth) f s n
  value-Framed integers f depth b n s t d l lim = integer-Framed f depth b n s lim
  value-Framed dictionaries f depth b n s t d l lim = dictionary-Framed f depth b n s d lim
  value-Framed lists f depth b n s t d l lim = list-Framed f depth b n s l lim
  value-Framed strings f depth b n s t d l lim = string-Framed f depth b n s (t refl) lim
  value-Framed others f depth b n s t d l lim = unfold value_at in rejected

  pub kind-strings : (b : ℕ) → kind b ≡ strings → (b == b':') ≡ false
  unfolding kind
  kind-strings b h = ground arith
