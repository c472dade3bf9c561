-- ===== src/Bencode/Loops.antt =====
-- torrent-protocol.js: the loop of `bdecode` over the items of a list.
use my.Base.{
  ℕ, zero, suc, ◌+◌, ◌≤◌, ◌≡◌, sym, ap, ◌∙◌, true, false, Option, List, [], ◌∷◌, ◌++◌, drop, ==_iff,
  arith,
}
use mathlib.Core.List.{append_assoc}
use my.Base.Text.{Text}
use my.Bencode.{parsed, Node, Nodes, nil, cons, at_end, parse, parse_items}
use my.Bencode.Frame.{Frame, NodeFits}

module _ (decode : List ℕ → Option Text) where
  pub at_end→eq : (s : List ℕ) → at_end s ≡ true → s ≡ b'e' ∷ drop 1 s
  at_end→eq [] h = cc
  at_end→eq (b ∷ bs) h = ap (λ c. c ∷ bs) ((==_iff b b'e').0 h)

  -- Whether a loop ends is seen from the first byte of what it reads next.
  pub at_end-again :
      (f n depth : ℕ) (x : Node) (s used rest r : List ℕ)
      → NodeFits decode f n depth x used
      → s ≡ used ++ rest
      → at_end s ≡ false
      → at_end (used ++ r) ≡ false
  at_end-again f n depth x s [] rest r q e h = absurd q
  at_end-again f n depth x s (b ∷ used) rest r q e h = rw e at h

  module _ (f depth n : ℕ) (s : List ℕ) where
    abbrev pub Items : Nodes → List ℕ → ℕ → Type 0
    Items xs rest k =
        Frame decode 0 (λ g t m. parse_items decode g depth t m) (λ _ _. Unit) (suc f) s n xs rest k

    pub items_end :
        (g m : ℕ) (r : List ℕ)
        → suc f ≤ g
        → parse_items decode g depth (b'e' ∷ r) m ≡ parsed (nil, r, m + 0)
    unfolding parse_items
    items_end zero m r p = absurd (omega arith)
    items_end (suc g) m r p = let e : m ≡ m + 0 = omega arith in ap (λ k. parsed (nil, r, k)) e

    pub nil-Frame : at_end s ≡ true → n ≤ 256 → Items nil (drop 1 s) n
    nil-Frame e lim = record {
      used = b'e' ∷ [];
      more = 0;
      split = at_end→eq s e;
      count = omega arith;
      least = omega arith;
      most = lim;
      good = tt;
      again = λ g m r p q. items_end g m r p;
    }

    module _ {x : Node} {s1 : List ℕ} {n1 : ℕ}
        (a : Frame decode 1
          (λ g t m. parse decode g (suc depth) t m)
          (NodeFits decode f n (suc depth))
          f
          s
          n
          x
          s1
          n1) where
      pub items_cons :
          (u : List ℕ) (more : ℕ) (xs : Nodes)
          → at_end s ≡ false
          → ((g m : ℕ) (r : List ℕ)
              → f ≤ g
              → m ≤ n1
              → parse_items decode g depth (u ++ r) m ≡ parsed (xs, r, m + more))
          → (g m : ℕ) (r : List ℕ) → suc f ≤ g
          → m ≤ n
          → parse_items decode g depth ((a.used ++ u) ++ r) m
            ≡ parsed (cons x xs, r, m + (a.more + more))
      unfolding parse_items
      items_cons u more xs t h zero m r p q = absurd (omega arith)
      items_cons u more xs t h (suc g) m r p q =
          rw
            (
              append_assoc a.used u r,
              at_end-again f n (suc depth) x s a.used s1 (u ++ r) a.good a.split t,
              a.again g m (u ++ r) (omega arith) q,
              h g (m + a.more) r (omega arith) (omega (arith, a.count)),
            )
            (let e : m + a.more + more ≡ m + (a.more + more) = omega arith in
              ap (λ k. parsed (cons x xs, r, k)) e)

      pub cons-Frame :
          {xs : Nodes} {s2 : List ℕ} {n2 : ℕ}
          → at_end s ≡ false
          → Frame decode 0 (λ g t m. parse_items decode g depth t m) (λ _ _. Unit) f s1 n1 xs s2 n2
          → Items (cons x xs) s2 n2
      cons-Frame {xs} {s2} {n2} t b = record {
        used = a.used ++ b.used;
        more = a.more + b.more;
        split = a.split ∙ ap (λ r. a.used ++ r) b.split ∙ sym (append_assoc a.used b.used s2);
        count = omega (arith, a.count, b.count);
        least = omega arith;
        most = b.most;
        good = tt;
        again = items_cons b.used b.more xs t b.again;
      }
