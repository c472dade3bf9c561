-- ===== src/Bencode/Frame.antt =====
-- torrent-protocol.js: what `bdecode` reads does not depend on what stands about it.
use my.Base.{ℕ, zero, suc, ◌+◌, ◌≤◌, ◌≡◌, Option, none, some, List, [], ◌∷◌, ◌++◌, length, arith}
use my.Base.Text.{Text}
use my.Bencode.{
  Parse, parsed, Node, Value, Fields, string, dictionary, end, field, value_of, raw_of, Kind,
  value_at, parse, parse_items, parse_fields,
}
use my.Bencode.Ensures.{Ensures}

module _ (decode : List ℕ → Option Text) where
  -- From `s`, with `n` nodes before, `p` reads `used` and counts `more` nodes, `l` at least; and it does so whatever
  -- follows, with as much fuel or more, and with as many nodes before or less.
  pub record Frame {A : Type 0} (l : ℕ) (p : ℕ → List ℕ → ℕ → Parse (A × List ℕ × ℕ))
      (Q : A → List ℕ → Type 0) (f : ℕ) (s : List ℕ) (n : ℕ) (a : A) (rest : List ℕ) (k : ℕ)
      : Type 0 where
    pub used : List ℕ
    pub more : ℕ
    pub split : s ≡ used ++ rest
    pub count : k ≡ n + more
    pub least : l ≤ more
    pub most : k ≤ 256
    pub good : Q a used
    pub again : (g m : ℕ) (r : List ℕ) → f ≤ g → m ≤ n → p g (used ++ r) m ≡ parsed (a, r, m + more)

  abbrev pub Framed :
      {A : Type 0}
      → ℕ
      → (ℕ → List ℕ → ℕ → Parse (A × List ℕ × ℕ))
      → (A → List ℕ → Type 0)
      → ℕ
      → List ℕ
      → ℕ
      → Type 0
  Framed l p Q f s n = Ensures (λ (a, rest, k). Frame l p Q f s n a rest k) (p f s n)

  abbrev pub pred : ℕ → ℕ
  pred zero = zero
  pred (suc n) = n

  pub pred-le : (n : ℕ) → pred n ≤ n
  pred-le zero = omega arith
  pred-le (suc n) = omega arith

  -- A value of a dictionary, of whose bytes there are `room`.
  pub record Entry (f n depth room : ℕ) (name : Text) (x : Node) : Type 0 where
    pub key : List ℕ
    pub more : ℕ
    pub decoded : decode key ≡ some name
    pub space : length key + length (raw_of x) + 3 ≤ room
    pub again :
        (g m : ℕ) (r : List ℕ)
        → f ≤ g
        → m ≤ n
        → parse decode g depth (raw_of x ++ r) m ≡ parsed (x, r, m + more)

  abbrev pub Entries : ℕ → ℕ → ℕ → ℕ → Fields → Type 0
  Entries f n depth room end = Unit
  Entries f n depth room (field name x fs) = Entry f n depth room name x × Entries f n depth room fs

  pub Entries-weaken :
      (f g n m depth room more : ℕ) (fs : Fields)
      → f ≤ g
      → m ≤ n
      → room ≤ more
      → Entries f n depth room fs
      → Entries g m depth more fs
  Entries-weaken f g n m depth room more end p q t h = tt
  Entries-weaken f g n m depth room more (field name x fs) p q t h = (
    record {
      key = h.0.key;
      more = h.0.more;
      decoded = h.0.decoded;
      space = omega (arith, h.0.space);
      again = λ l j r u v. h.0.again l j r (omega arith) (omega arith);
    },
    Entries-weaken f g n m depth room more fs p q t h.1,
  )

  -- What is known of a value with the bytes after its first.
  abbrev pub Fits : ℕ → ℕ → ℕ → Value → List ℕ → Type 0
  Fits f n depth (string t) used = length t + 1 ≤ length used
  Fits f n depth (dictionary fs) used = Entries (pred f) (suc n) (suc depth) (length used) fs
  Fits f n depth _ used = Unit

  abbrev pub FieldsFit : ℕ → ℕ → ℕ → Fields → List ℕ → Type 0
  FieldsFit f n depth fs used =
      (1 ≤ length used) × Entries (pred f) (suc n) (suc depth) (length used) fs

  abbrev pub NodeFits : ℕ → ℕ → ℕ → Node → List ℕ → Type 0
  NodeFits f n depth x [] = ⊥
  NodeFits f n depth x (b ∷ used) =
      (raw_of x ≡ b ∷ used) × Fits (pred f) (suc n) depth (value_of x) used

  abbrev pub read_value : ℕ → ℕ → Kind → ℕ → List ℕ → ℕ → Parse (Value × List ℕ × ℕ)
  read_value depth b kd g s m =
      value_at decode kd (parse_fields decode g depth none s m) (parse_items decode g depth s m) b s
        m
