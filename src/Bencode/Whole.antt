-- ===== src/Bencode/Whole.antt =====
-- torrent-protocol.js: what is known of all that `bdecode` reads; its fuel is enough.
use my.Base.{
  ℕ, zero, suc, ◌-◌, ◌*◌, ◌≤◌, ◌<◌, ◌≡◌, inl, inr, ap, ◌∙◌, Option, none, some, List, [], ◌∷◌, ◌++◌,
  length, Bool-cases, arith,
}
use mathlib.Core.List.{append-nil}
use my.Base.Text.{Text}
use my.Bencode.{
  parsed, Node, Value, node, dictionary, value_of, at_end, kind, parse, bdecode, finish,
  parse_items, parse_fields,
}
use my.Bencode.Ensures.{Ensures, holds, rejected, Ensures-bind}
use my.Bencode.Frame.{Framed, Entries, Entries-weaken, FieldsFit, NodeFits}
use my.Bencode.Values.{value-Framed, kind-strings}
use my.Bencode.Reparse.{is_refused, node-Framed}
use my.Bencode.Loops.{nil-Frame, cons-Frame}
use my.Bencode.Dictionary.{end-Frame, field-Frame, key-Ensures}

module _ (decode : List ℕ → Option Text) where
  -- One induction on the fuel, of which there are two units for each node that may still come.
  mutual
    unfolding parse

    pub parse-Framed :
        (f depth n : ℕ) (s : List ℕ)
        → n ≤ 256
        → 2 * (256 - n) < f
        → Framed decode 1 (λ g t m. parse decode g depth t m) (NodeFits decode f n depth) f s n
    parse-Framed zero depth n s lim h = absurd (omega arith)
    parse-Framed (suc f) depth n [] lim h = rejected
    parse-Framed (suc f) depth n (b ∷ bs) lim h = elim (Bool-cases (is_refused decode n depth)) [
      | inl e ↦ rw e rejected
      | inr e ↦
          let room : suc n ≤ 256 = ground arith in
          node-Framed decode f depth b n bs e (
            value-Framed decode (kind b) f depth b (suc n) bs (kind-strings decode b)
              (fields-Framed f depth (suc n) none bs room (omega arith))
              (items-Framed f depth (suc n) bs room (omega arith)) room)
    ]

    pub items-Framed :
        (f depth n : ℕ) (s : List ℕ)
        → n ≤ 256
        → suc (2 * (256 - n)) < f
        → Framed decode 0 (λ g t m. parse_items decode g depth t m) (λ _ _. Unit) f s n
    items-Framed zero depth n s lim h = absurd (omega arith)
    items-Framed (suc f) depth n s lim h = elim (Bool-cases (at_end s)) [
      | inl e ↦ rw e (holds (nil-Frame decode f depth n s e lim))
      | inr e ↦ rw e (
          Ensures-bind (parse-Framed f (suc depth) n s lim (omega arith)) λ (x, s1, n1) a.
            Ensures-bind
              (items-Framed f depth n1 s1 a.most (omega (arith, a.count, a.least, a.most)))
              λ (xs, s2, n2) b. holds (cons-Frame decode f depth n s a e b))
    ]

    pub fields-Framed :
        (f depth n : ℕ) (previous : Option Text) (s : List ℕ)
        → n ≤ 256
        → suc (2 * (256 - n)) < f
        → Framed decode 0
            (λ g t m. parse_fields decode g depth previous t m)
            (FieldsFit decode f n depth)
            f
            s
            n
    fields-Framed zero depth n previous s lim h = absurd (omega arith)
    fields-Framed (suc f) depth n previous s lim h = elim (Bool-cases (at_end s)) [
      | inl e ↦ rw e (holds (end-Frame decode f depth n previous s e lim))
      | inr e ↦ rw e (
          Ensures-bind (parse-Framed f (suc depth) n s lim (omega arith)) λ (y, s1, n1) a.
            Ensures-bind (key-Ensures decode previous (value_of y)) λ name k.
              Ensures-bind
                (parse-Framed f (suc depth) n1 s1 a.most (omega (arith, a.count, a.least, a.most)))
                λ (x, s2, n2) b.
                  Ensures-bind
                    (fields-Framed f depth n2 (some name) s2 b.most
                      (omega (arith, a.count, a.least, b.count, b.least, b.most)))
                    λ (fs, s3, n3) c.
                      holds (field-Frame decode f depth n previous s name a k b e c))
    ]

  -- What a byte string is decoded to: it is never left for lack of fuel, and what a dictionary holds
  -- is parsed again wherever its bytes stand.
  abbrev pub Decoded : List ℕ → Value → Type 0
  Decoded bytes (dictionary fs) = Entries decode 512 2 1 (length bytes - 1) fs
  Decoded bytes _ = Unit

  pub entries-Decoded :
      (bytes : List ℕ) (x : Node) (used : List ℕ)
      → bytes ≡ used
      → NodeFits decode 514 0 0 x used
      → Decoded bytes (value_of x)
  entries-Decoded bytes x [] e h = absurd h
  entries-Decoded bytes (node (dictionary fs) raw) (b ∷ used) e h =
      Entries-weaken decode 512 512 2 2 1 (length used) (length bytes - 1) fs (omega arith)
        (omega arith) (omega (arith, ap length e)) h.1
  entries-Decoded bytes (node _ raw) (b ∷ used) e h = tt

  pub finish-Ensures :
      (bytes : List ℕ) (x : Node) (used rest : List ℕ) (k : ℕ)
      → bytes ≡ used ++ rest
      → NodeFits decode 514 0 0 x used
      → Ensures (Decoded bytes) (finish decode (x, rest, k))
  finish-Ensures bytes x used [] k e h =
      holds (entries-Decoded bytes x used (e ∙ append-nil used) h)
  finish-Ensures bytes x used (c ∷ rest) k e h = rejected

  pub bdecode-Ensures : (bytes : List ℕ) → Ensures (Decoded bytes) (bdecode decode bytes)
  unfolding bdecode
  bdecode-Ensures bytes =
      Ensures-bind (parse-Framed 514 0 0 bytes (omega arith) (omega arith))
        λ (x, rest, k) h. finish-Ensures bytes x h.used rest k h.split h.good

  pub bdecode-parsed :
      (bytes : List ℕ) (x : Node) (k : ℕ)
      → parse decode 514 0 bytes 0 ≡ parsed (x, [], k)
      → bdecode decode bytes ≡ parsed (value_of x)
  unfolding bdecode
  bdecode-parsed bytes x k e = rw e
