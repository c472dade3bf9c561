-- ===== src/Bencode/Reparse.antt =====
-- torrent-protocol.js: a node of `bdecode` is read again wherever its bytes stand.
use my.Base.{
  ℕ, zero, suc, ◌+◌, ◌-◌, ◌≤◌, ◌≡◌, refl, sym, ap, ◌∙◌, Bool, false, Option, List, ◌∷◌, ◌++◌,
  length, take, length-append, take-append_length, ltb, ◌||◌, arith,
}
use my.Base.Text.{Text}
use my.Bencode.{parsed, Value, node, between, kind, parse}
use my.Bencode.Ensures.{holds, Ensures-bind}
use my.Bencode.Frame.{Framed, Fits, NodeFits, read_value}

module _ (decode : List ℕ → Option Text) where
  pub between-eq : (s rest used : List ℕ) → s ≡ used ++ rest → between s rest ≡ used
  between-eq s rest used e =
      ap (λ t. take (length t - length rest) t) e
      ∙ ap (λ j. take j (used ++ rest)) (omega (arith, length-append used rest))
      ∙ take-append_length used rest

  -- The guard of `parse` lets a value through that has as many nodes before it, or less.
  abbrev pub is_refused : ℕ → ℕ → Bool
  is_refused n depth = ltb 256 (suc n) || ltb 8 depth

  pub reparse :
      (g f depth b n m more : ℕ) (used r whole : List ℕ) (v : Value)
      → suc f ≤ g
      → m ≤ n
      → is_refused n depth ≡ false
      → whole ≡ b ∷ used
      → ((j : ℕ)
          → f ≤ j
          → read_value decode depth b (kind b) j (used ++ r) (suc m) ≡ parsed (v, r, suc m + more))
      → parse decode g depth (b ∷ used ++ r) m ≡ parsed (node v whole, r, m + suc more)
  unfolding parse
  reparse zero f depth b n m more used r whole v p q c w h = absurd (omega arith)
  reparse (suc g) f depth b n m more used r whole v p q c w h =
      let t : is_refused m depth ≡ false = ground arith in
      let e : suc m + more ≡ m + suc more = omega arith in
      rw (t, h g (omega arith))
        (ap (λ x. parsed (node v x, r, suc m + more))
            (between-eq (b ∷ used ++ r) r (b ∷ used) refl ∙ sym w)
          ∙ ap (λ k. parsed (node v whole, r, k)) e)

  pub node-Framed :
      (f depth b n : ℕ) (s : List ℕ)
      → is_refused n depth ≡ false
      → Framed decode 0
          (read_value decode depth b (kind b))
          (Fits decode f (suc n) depth)
          f
          s
          (suc n)
      → Framed decode 1
          (λ g t m. parse decode g depth t m)
          (NodeFits decode (suc f) n depth)
          (suc f)
          (b ∷ s)
          n
  unfolding parse
  node-Framed f depth b n s c d = rw c (
      Ensures-bind d λ (v, rest, k) h.
        let w = between-eq (b ∷ s) rest (b ∷ h.used) (ap (λ t. b ∷ t) h.split) in
        holds (record {
          used = b ∷ h.used;
          more = suc h.more;
          split = ap (λ t. b ∷ t) h.split;
          count = omega (arith, h.count);
          least = omega arith;
          most = h.most;
          good = (w, h.good);
          again = λ g m r p q.
              reparse g f depth b n m h.more h.used r (between (b ∷ s) rest) v p q c w
                (λ j l. h.again j (suc m) r l (omega arith));
        }))
