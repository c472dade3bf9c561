-- ===== src/Bencode/Dictionary.antt =====
-- torrent-protocol.js: the loop of `bdecode` over the fields of a dictionary.
use my.Base.{
  ℕ, zero, suc, ◌+◌, ◌≤◌, ◌≡◌, ◌≢◌, refl, sym, ap, ◌∙◌, true, false, Option, none, some, List, [],
  ◌∷◌, ◌++◌, length, drop, length-append, arith,
}
use mathlib.Core.Path.{subst}
use mathlib.Core.List.{append_assoc}
use my.Base.Text.{Text}
use my.Bencode.{
  parsed, out_of_fuel, Node, Value, Fields, string, end, field, value_of, raw_of, at_end, key_name,
  parse, parse_fields, named,
}
use my.Bencode.Ensures.{Ensures, Ensures-self}
use my.Bencode.Frame.{Frame, pred, pred-le, Entry, Entries-weaken, Fits, FieldsFit, NodeFits}
use my.Bencode.Loops.{at_end→eq, at_end-again}

module _ (decode : List ℕ → Option Text) where
  pub key_string :
      (previous : Option Text) (v : Value) (name : Text)
      → key_name decode previous v ≡ parsed name
      → (key : List ℕ) × (v ≡ string key) × (decode key ≡ some name)
  key_string previous (string key) name h = (key, refl, named_some previous (decode key) name h)
    where
      named_some :
          (previous o : Option Text) (name : Text)
          → named decode previous o ≡ parsed name
          → o ≡ some name
      named_some previous none name h = cc
      named_some previous (some t) name h = ground arith
  key_string previous _ name h = cc

  pub key_space :
      (f n depth : ℕ) (x : Node) (used key : List ℕ)
      → NodeFits decode f n depth x used
      → value_of x ≡ string key
      → length key + 2 ≤ length used
  key_space f n depth x [] key h e = absurd h
  key_space f n depth x (b ∷ used) key h e =
      let q : length key + 1 ≤ length used =
        subst (λ v. Fits decode (pred decode f) (suc n) depth v used) e h.1 in
      omega arith

  pub raw-eq :
      (f n depth : ℕ) (x : Node) (used : List ℕ)
      → NodeFits decode f n depth x used
      → raw_of x ≡ used
  raw-eq f n depth x [] h = absurd h
  raw-eq f n depth x (b ∷ used) h = h.0

  module _ (f depth n : ℕ) (previous : Option Text) (s : List ℕ) where
    abbrev pub Pairs : Fields → List ℕ → ℕ → Type 0
    Pairs fs rest k =
        Frame decode 0 (λ g t m. parse_fields decode g depth previous t m)
          (FieldsFit decode (suc f) n depth) (suc f) s n fs rest k

    pub fields_end :
        (g m : ℕ) (r : List ℕ)
        → suc f ≤ g
        → parse_fields decode g depth previous (b'e' ∷ r) m ≡ parsed (end, r, m + 0)
    unfolding parse_fields
    fields_end zero m r p = absurd (omega arith)
    fields_end (suc g) m r p = let e : m ≡ m + 0 = omega arith in ap (λ k. parsed (end, r, k)) e

    pub end-Frame : at_end s ≡ true → n ≤ 256 → Pairs end (drop 1 s) n
    end-Frame e lim = record {
      used = b'e' ∷ [];
      more = 0;
      split = at_end→eq decode s e;
      count = omega arith;
      least = omega arith;
      most = lim;
      good = (omega arith, tt);
      again = λ g m r p q. fields_end g m r p;
    }

    module _ {y x : Node} {s1 s2 : List ℕ} {n1 n2 : ℕ} (name : Text)
        (a : Frame decode 1
          (λ g t m. parse decode g (suc depth) t m)
          (NodeFits decode f n (suc depth))
          f
          s
          n
          y
          s1
          n1)
        (key : key_name decode previous (value_of y) ≡ parsed name)
        (b : Frame decode 1
          (λ g t m. parse decode g (suc depth) t m)
          (NodeFits decode f n1 (suc depth))
          f
          s1
          n1
          x
          s2
          n2) where
      pub fields_cons :
          (u : List ℕ) (more : ℕ) (fs : Fields)
          → at_end s ≡ false
          → ((g m : ℕ) (r : List ℕ)
              → f ≤ g
              → m ≤ n2
              → parse_fields decode g depth (some name) (u ++ r) m ≡ parsed (fs, r, m + more))
          → (g m : ℕ) (r : List ℕ) → suc f ≤ g
          → m ≤ n
          → parse_fields decode g depth previous ((a.used ++ (b.used ++ u)) ++ r) m
            ≡ parsed (field name x fs, r, m + (a.more + b.more + more))
      unfolding parse_fields
      fields_cons u more fs t h zero m r p q = absurd (omega arith)
      fields_cons u more fs t h (suc g) m r p q =
          rw
            (
              append_assoc a.used (b.used ++ u) r,
              append_assoc b.used u r,
              at_end-again decode f n (suc depth) y s a.used s1 (b.used ++ (u ++ r)) a.good a.split
                  t,
              a.again g m (b.used ++ (u ++ r)) (omega arith) q,
              key,
              b.again g (m + a.more) (u ++ r) (omega arith) (omega (arith, a.count)),
              h g (m + a.more + b.more) r (omega arith) (omega (arith, a.count, b.count)),
            )
            (let e : m + a.more + b.more + more ≡ m + (a.more + b.more + more) = omega arith in
              ap (λ k. parsed (field name x fs, r, k)) e)

      pub entry :
          (room : ℕ)
          → length a.used + length b.used + 1 ≤ room
          → Entry decode f (suc n) (suc depth) room name x
      entry room h =
          let k = key_string previous (value_of y) name key in
          let raw = raw-eq f n1 (suc depth) x b.used b.good in
          record {
            key = k.0;
            more = b.more;
            decoded = k.2;
            space =
                omega (arith, key_space f n (suc depth) y a.used k.0 a.good k.1, ap length raw, h);
            again = λ g m r p q.
                subst (λ t. parse decode g (suc depth) (t ++ r) m ≡ parsed (x, r, m + b.more))
                  (sym raw) (b.again g m r p (omega (arith, a.count, a.least)));
          }

      pub field-Frame :
          {fs : Fields} {s3 : List ℕ} {n3 : ℕ}
          → at_end s ≡ false
          → Frame decode 0
              (λ g t m. parse_fields decode g depth (some name) t m)
              (FieldsFit decode f n2 depth)
              f
              s2
              n2
              fs
              s3
              n3
          → Pairs (field name x fs) s3 n3
      field-Frame {fs} {s3} {n3} t c =
          let size = length-append a.used (b.used ++ c.used) in
          let size2 = length-append b.used c.used in
          record {
            used = a.used ++ (b.used ++ c.used);
            more = a.more + b.more + c.more;
            split =
                a.split
                ∙ ap (λ r. a.used ++ r)
                    (b.split ∙ ap (λ r. b.used ++ r) c.split ∙ sym (append_assoc b.used c.used s3))
                ∙ sym (append_assoc a.used (b.used ++ c.used) s3);
            count = omega (arith, a.count, b.count, c.count);
            least = omega arith;
            most = c.most;
            good = (
              omega (arith, size, size2, c.good.0),
              (
                entry (length (a.used ++ (b.used ++ c.used)))
                    (omega (arith, size, size2, c.good.0)),
                Entries-weaken decode (pred decode f) f (suc n2) (suc n) (suc depth) (length c.used)
                    (length (a.used ++ (b.used ++ c.used))) fs (pred-le decode f)
                    (omega (arith, a.count, b.count)) (omega (arith, size, size2)) c.good.1,
              ),
            );
            again = fields_cons c.used c.more fs t c.again;
          }

  pub key-ne-out_of_fuel :
      (previous : Option Text) (v : Value) → key_name decode previous v ≢ out_of_fuel
  key-ne-out_of_fuel previous (string b) = named-ne-out_of_fuel previous (decode b)
    where
      named-ne-out_of_fuel : (previous o : Option Text) → named decode previous o ≢ out_of_fuel
      named-ne-out_of_fuel previous none = ground arith
      named-ne-out_of_fuel previous (some t) = ground arith
  key-ne-out_of_fuel previous _ = ground arith

  pub key-Ensures :
      (previous : Option Text) (v : Value)
      → Ensures (λ name. key_name decode previous v ≡ parsed name) (key_name decode previous v)
  key-Ensures previous v = Ensures-self (key_name decode previous v) (key-ne-out_of_fuel previous v)
