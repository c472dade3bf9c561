-- ===== src/Bencode/RoundTrip.antt =====
-- torrent-protocol.js: `bdecode` reads back what is bencoded, and it ends.
use my.Base.{
  ℕ, zero, suc, ◌+◌, ◌*◌, ◌≤◌, ◌<◌, ◌≡◌, ◌≢◌, refl, sym, ap, ◌∙◌, true, false, Option, none, some,
  List, [], ◌++◌, ◌==◌, length, All, arith,
}
use mathlib.Core.List.{append_assoc, append-nil}
use my.Base.Int.{abs}
use my.Base.Num.{max_safe}
use my.Base.Text.{Text}
use my.Bencode
use my.Bencode.{
  Parse, parsed, out_of_fuel, Node, Value, nil, cons, end, field, string, list, dictionary, follows,
  strings, kind, value_at, at_end, key_name, parse, parse_items, parse_fields, bdecode,
}
use my.Bencode.Ensures.{Ensures-ne-out_of_fuel}
use my.Bencode.Reparse.{reparse}
use my.Bencode.Whole.{Decoded, bdecode-Ensures, bdecode-parsed}
use my.Bencode.Encode.{
  Tree, int, str, seq, dict, Trees, none_left, tree, Pairs, no_pair, pair, encode_string, encode,
  encode_items, encode_pairs, value, nodes, fields, count, count_items, count_pairs,
}
use my.Bencode.Numbers.{digits-Head, parse-int, parse-str}

-- Whatever its bytes and the decoder, `bdecode` ends: it has a value or throws, and the fuel of the model
-- is enough.
pub bdecode-ne-out_of_fuel :
    (decode : List ℕ → Option Text) (bytes : List ℕ) → bdecode decode bytes ≢ out_of_fuel
bdecode-ne-out_of_fuel decode bytes =
    Ensures-ne-out_of_fuel (Decoded decode bytes) (bdecode decode bytes)
      (bdecode-Ensures decode bytes)

module _ (decode : List ℕ → Option Text)
    (ascii : (b : List ℕ) → All (λ c. c < 128) b → decode b ≡ some b) where
  -- Numbers are safe, keys are texts that rise, and no value lies deeper than 8.
  unfoldable mutual
    pub IsGood : ℕ → Tree → Type 0
    IsGood depth (int z) = (depth ≤ 8) × (abs z ≤ max_safe)
    IsGood depth (str b) = (depth ≤ 8) × (length b ≤ max_safe)
    IsGood depth (seq ts) = (depth ≤ 8) × AreGood (suc depth) ts
    IsGood depth (dict ps) = (depth ≤ 8) × RiseGood (suc depth) none ps

    pub AreGood : ℕ → Trees → Type 0
    AreGood depth none_left = Unit
    AreGood depth (tree t ts) = IsGood depth t × AreGood depth ts

    pub RiseGood : ℕ → Option Text → Pairs → Type 0
    RiseGood depth previous no_pair = Unit
    RiseGood depth previous (pair key name t ps) =
        (depth ≤ 8)
        × (length key ≤ max_safe)
        × (decode key ≡ some name)
        × (follows previous name ≡ true)
        × IsGood depth t
        × RiseGood depth (some name) ps

  count_pos : (t : Tree) → 1 ≤ count t
  unfolding count
  count_pos (int z) = omega arith
  count_pos (str b) = omega arith
  count_pos (seq ts) = omega arith
  count_pos (dict ps) = omega arith

  strings-start : (b : ℕ) → kind b ≡ strings → (b == b'e') ≡ false
  unfolding kind
  strings-start b h = ground arith

  string-starts : (b r : List ℕ) → at_end (encode_string b ++ r) ≡ false
  string-starts b r =
      let d = digits-Head decode ascii 15 (length b) in rw d.split (strings-start d.first d.digit)

  encode-starts : (t : Tree) (r : List ℕ) → at_end (encode t ++ r) ≡ false
  unfolding encode
  encode-starts (int z) r = refl
  encode-starts (str b) r = string-starts b r
  encode-starts (seq ts) r = refl
  encode-starts (dict ps) r = refl

  -- One induction on the trees: each is read back from its bytes, whatever follows them.
  mutual
    unfolding IsGood count encode value parse value_at kind

    parse-encode :
        (t : Tree) (g depth n : ℕ) (r : List ℕ)
        → IsGood depth t
        → n + count t ≤ 256
        → 2 * count t ≤ g
        → parse decode g depth (encode t ++ r) n
          ≡ parsed (Bencode.node (value t) (encode t), r, n + count t)
    parse-encode t zero depth n r h room fuel = absurd (omega (arith, count_pos t))
    parse-encode (int z) (suc f) depth n r h room fuel =
        parse-int decode ascii f depth n z r (ground (arith, h.0)) h.1
    parse-encode (str b) (suc f) depth n r h room fuel =
        parse-str decode ascii f depth n b r (ground (arith, h.0)) h.1
    parse-encode (seq ts) (suc f) depth n r h room fuel =
        reparse decode (suc f) f depth b'l' n n (count_items ts) (encode_items ts) r
          (encode (seq ts)) (list (nodes ts)) (omega arith) (omega arith) (ground (arith, h.0)) refl
          (λ j l. rw (items-encode ts j depth (suc n) r h.1 (omega arith) (omega arith)))
    parse-encode (dict ps) (suc f) depth n r h room fuel =
        reparse decode (suc f) f depth b'd' n n (count_pairs ps) (encode_pairs ps) r
          (encode (dict ps)) (dictionary (fields ps)) (omega arith) (omega arith)
          (ground (arith, h.0)) refl
          (λ j l. rw (pairs-encode ps j depth (suc n) none r h.1 (omega arith) (omega arith)))

    items-encode :
        (ts : Trees) (g depth n : ℕ) (r : List ℕ)
        → AreGood (suc depth) ts
        → n + count_items ts ≤ 256
        → suc (2 * count_items ts) ≤ g
        → parse_items decode g depth (encode_items ts ++ r) n
          ≡ parsed (nodes ts, r, n + count_items ts)
    items-encode ts zero depth n r h room fuel = absurd (omega arith)
    items-encode none_left (suc f) depth n r h room fuel =
        let e : n ≡ n + 0 = omega arith in ap (λ k. parsed (nil, r, k)) e
    items-encode (tree t ts) (suc f) depth n r h room fuel =
        rw
          (
            append_assoc (encode t) (encode_items ts) r,
            encode-starts t (encode_items ts ++ r),
            parse-encode t f (suc depth) n (encode_items ts ++ r) h.0 (omega arith)
                (omega (arith, count_pos t)),
            items-encode ts f depth (n + count t) r h.1 (omega arith) (omega (arith, count_pos t)),
          )
          (let e : n + count t + count_items ts ≡ n + (count t + count_items ts) = omega arith in
            ap (λ k. parsed (nodes (tree t ts), r, k)) e)

    pairs-encode :
        (ps : Pairs) (g depth n : ℕ) (previous : Option Text) (r : List ℕ)
        → RiseGood (suc depth) previous ps
        → n + count_pairs ps ≤ 256
        → suc (2 * count_pairs ps) ≤ g
        → parse_fields decode g depth previous (encode_pairs ps ++ r) n
          ≡ parsed (fields ps, r, n + count_pairs ps)
    pairs-encode ps zero depth n previous r h room fuel = absurd (omega arith)
    pairs-encode no_pair (suc f) depth n previous r h room fuel =
        let e : n ≡ n + 0 = omega arith in ap (λ k. parsed (end, r, k)) e
    pairs-encode (pair key name t ps) (suc zero) depth n previous r h room fuel =
        absurd (omega arith)
    pairs-encode (pair key name t ps) (suc (suc f)) depth n previous r h room fuel =
        rw
          (
            append_assoc (encode_string key) (encode t ++ encode_pairs ps) r,
            append_assoc (encode t) (encode_pairs ps) r,
            string-starts key (encode t ++ (encode_pairs ps ++ r)),
            parse-str decode ascii f (suc depth) n key (encode t ++ (encode_pairs ps ++ r))
                (ground (arith, h.0)) h.1,
            h.2,
            h.3,
            parse-encode t (suc f) (suc depth) (n + 1) (encode_pairs ps ++ r) h.4 (omega arith)
                (omega (arith, count_pos t)),
            pairs-encode ps (suc f) depth (n + 1 + count t) (some name) r h.5 (omega arith)
                (omega (arith, count_pos t)),
          )
          (let e : n + 1 + count t + count_pairs ps ≡ n + suc (count t + count_pairs ps) =
              omega arith in
            ap (λ k. parsed (fields (pair key name t ps), r, k)) e)

  -- Data of at most 256 values, none deeper than 8, with dictionaries whose keys are decoded and rise, and
  -- with numbers and lengths that are safe, is read back from its bencoding as it is, each part with its
  -- bytes; by a decoder that leaves ASCII as it is.
  pub bdecode-encode :
      (t : Tree) → IsGood 0 t → count t ≤ 256 → bdecode decode (encode t) ≡ parsed (value t)
  bdecode-encode t h room =
      bdecode-parsed decode (encode t) (Bencode.node (value t) (encode t)) (count t) (
        ap (λ s. parse decode 514 0 s 0) (sym (append-nil (encode t)))
        ∙ parse-encode t 514 0 0 [] h (omega arith) (omega arith)
        ∙ (let e : 0 + count t ≡ count t = omega arith in
            ap (λ k. parsed (Bencode.node (value t) (encode t), [], k)) e))
