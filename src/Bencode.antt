-- ===== src/Bencode.antt =====
-- `bdecode` of src/disk/web/torrent-protocol.js, the parser of torrent metadata. What is left of
-- `bytes` stands for `offset`. The fatal TextDecoder is a parameter, which has no text for bytes that
-- it throws at.
pub mod Ascii
pub mod Ensures
pub mod Frame
pub mod Values
pub mod Reparse
pub mod Loops
pub mod Dictionary
pub mod Whole
pub mod Encode
pub mod Numbers
pub mod RoundTrip
mod Tests
use my.Base.{
  ℕ, zero, suc, ◌+◌, ◌-◌, ◌*◌, Bool, true, false, not, ◌&&◌, ◌||◌, Option, none, some, List, [],
  ◌∷◌, ◌++◌, length, take, drop, all, ltb, leb, ◌==◌, if◌then◌else◌,
}
use my.Base.Int.{ℤ, pos, neg_ℤ, abs}
use my.Base.Num.{max_safe}
use my.Base.Text.{Text, text_eq}

-- A parse that throws is `refused`; `out_of_fuel` is the model's own.
pub data Parse {ℓ} (A : Type ℓ) : Type ℓ where
  parsed : A → Parse A
  refused out_of_fuel : Parse A

module _ {ℓ κ} {A : Type ℓ} {B : Type κ} where
  infixl 5 ◌>>=◌
  abbrev pub ◌>>=◌ : Parse A → (A → Parse B) → Parse B
  parsed a >>= f = f a
  refused >>= f = refused
  out_of_fuel >>= f = out_of_fuel

-- `{value,start,end}`, with the bytes from `start` to `end`.
mutual
  pub data Node : Type 0 where
    node : Value → List ℕ → Node

  pub data Value : Type 0 where
    number : ℤ → Value
    string : List ℕ → Value
    list : Nodes → Value
    dictionary : Fields → Value

  pub data Nodes : Type 0 where
    nil : Nodes
    cons : Node → Nodes → Nodes

  pub data Fields : Type 0 where
    end : Fields
    field : Text → Node → Fields → Fields

abbrev pub value_of : Node → Value
value_of (node v raw) = v

abbrev pub raw_of : Node → List ℕ
raw_of (node v raw) = raw

abbrev pub is_digit : ℕ → Bool
is_digit c = leb b'0' c && leb c b'9'

-- /^[1-9][0-9]*$/
unfoldable pub is_positive : Text → Bool
is_positive [] = false
is_positive (c ∷ cs) = leb b'1' c && leb c b'9' && all is_digit cs

abbrev pub is_natural : Text → Bool
is_natural t = text_eq t (b'0' ∷ []) || is_positive t

-- The value of decimal digits, after those that make up `acc`.
unfoldable pub value_from : ℕ → Text → ℕ
value_from acc [] = acc
value_from acc (c ∷ cs) = value_from (10 * acc + (c - b'0')) cs

-- The number of a text in canonical form, with a sign if `negative` allows it.
unfoldable pub integer : Bool → Text → Option ℤ
integer negative [] = none
integer negative (c ∷ cs) =
    if is_natural (c ∷ cs)
    then some (pos (value_from 0 (c ∷ cs)))
    else if negative && c == b'-' && is_positive cs
    then some (neg_ℤ (pos (value_from 0 cs)))
    else none

-- The loop of `number`: the bytes before the first `last`, and those after it.
unfoldable pub before : ℕ → List ℕ → Parse (List ℕ × List ℕ)
before last [] = refused
before last (b ∷ bs) =
    let rest = before last bs >>= λ (xs, more). parsed (b ∷ xs, more) in
    if b == last then parsed ([], bs) else rest

abbrev pub safe_integer : Option ℤ → Parse ℤ
safe_integer none = refused
safe_integer (some z) = if leb (abs z) max_safe then parsed z else refused

-- `bytes[offset]===101`
abbrev pub at_end : List ℕ → Bool
at_end [] = false
at_end (b ∷ bs) = b == b'e'

-- The bytes from where `s` starts to where `rest` does.
abbrev pub between : List ℕ → List ℕ → List ℕ
between s rest = take (length s - length rest) s

-- `a<=b` of texts.
unfoldable pub text_leb : Text → Text → Bool
text_leb [] ds = true
text_leb (c ∷ cs) [] = false
text_leb (c ∷ cs) (d ∷ ds) = ltb c d || (c == d && text_leb cs ds)

-- Whether a key may come after the previous one.
abbrev pub follows : Option Text → Text → Bool
follows none name = true
follows (some previous) name = not (text_leb name previous)

-- The kinds of values, by the byte with which one starts.
pub data Kind : Type 0 where
  integers dictionaries lists strings others : Kind

unfoldable pub kind : ℕ → Kind
kind b =
    if b == b'i'
    then integers
    else if b == b'd'
    then dictionaries
    else if b == b'l'
    then lists
    else if is_digit b
    then strings
    else others

-- The string of a length, which is not negative where it has been read without a sign.
unfoldable pub string_at : ℤ → List ℕ → ℕ → Parse (Value × List ℕ × ℕ)
string_at z s n =
    if ltb (length s) (abs z) then refused else parsed (string (take (abs z) s), drop (abs z) s, n)

abbrev pub enclose : List ℕ → Value × List ℕ × ℕ → Parse (Node × List ℕ × ℕ)
enclose s (v, rest, n) = parsed (node v (between s rest), rest, n)

module _ (decode : List ℕ → Option Text) where
  abbrev pub text_integer : Bool → Option Text → Parse ℤ
  text_integer negative none = refused
  text_integer negative (some t) = safe_integer (integer negative t)

  unfoldable pub digits_value : Bool → List ℕ → Parse ℤ
  digits_value negative xs =
      if ltb 17 (length xs) then refused else text_integer negative (decode xs)

  -- number(end,negative)
  unfoldable pub number_at : ℕ → Bool → List ℕ → Parse (ℤ × List ℕ)
  number_at last negative s =
      before last s >>= λ (xs, rest). digits_value negative xs >>= λ z. parsed (z, rest)

  abbrev pub named : Option Text → Option Text → Parse Text
  named previous none = refused
  named previous (some name) = if follows previous name then parsed name else refused

  abbrev pub key_name : Option Text → Value → Parse Text
  key_name previous (string b) = named previous (decode b)
  key_name previous _ = refused

  -- The value that starts with the byte `b`; a list or a dictionary has been parsed by its loop.
  unfoldable pub value_at :
      Kind
      → Parse (Fields × List ℕ × ℕ)
      → Parse (Nodes × List ℕ × ℕ)
      → ℕ
      → List ℕ
      → ℕ
      → Parse (Value × List ℕ × ℕ)
  value_at integers entries items b s n =
      number_at b'e' true s >>= λ (z, rest). parsed (number z, rest, n)
  value_at dictionaries entries items b s n =
      entries >>= λ (fs, rest, k). parsed (dictionary fs, rest, k)
  value_at lists entries items b s n = items >>= λ (xs, rest, k). parsed (list xs, rest, k)
  value_at strings entries items b s n =
      number_at b':' false (b ∷ s) >>= λ (z, rest). string_at z rest n
  value_at others entries items b s n = refused

  -- parse(depth), with `n` nodes so far; and its two loops.
  unfoldable mutual
    pub parse : ℕ → ℕ → List ℕ → ℕ → Parse (Node × List ℕ × ℕ)
    parse zero depth s n = out_of_fuel
    parse (suc f) depth [] n = refused
    parse (suc f) depth (b ∷ bs) n =
        let entries = parse_fields f depth none bs (suc n) in
        let items = parse_items f depth bs (suc n) in
        if ltb 256 (suc n) || ltb 8 depth
        then refused
        else value_at (kind b) entries items b bs (suc n) >>= enclose (b ∷ bs)

    pub parse_items : ℕ → ℕ → List ℕ → ℕ → Parse (Nodes × List ℕ × ℕ)
    parse_items zero depth s n = out_of_fuel
    parse_items (suc f) depth s n =
        let more = parse f (suc depth) s n >>= λ (x, s1, n1).
        parse_items f depth s1 n1 >>= λ (xs, s2, n2). parsed (cons x xs, s2, n2) in
        if at_end s then parsed (nil, drop 1 s, n) else more

    pub parse_fields : ℕ → ℕ → Option Text → List ℕ → ℕ → Parse (Fields × List ℕ × ℕ)
    parse_fields zero depth previous s n = out_of_fuel
    parse_fields (suc f) depth previous s n =
        let more = parse f (suc depth) s n >>= λ (key, s1, n1).
        key_name previous (value_of key) >>= λ name. parse f (suc depth) s1 n1 >>= λ (x, s2, n2).
        parse_fields f depth (some name) s2 n2 >>= λ (fs, s3, n3).
        parsed (field name x fs, s3, n3) in
        if at_end s then parsed (end, drop 1 s, n) else more

  abbrev pub finish : Node × List ℕ × ℕ → Parse Value
  finish (x, [], n) = parsed (value_of x)
  finish (x, b ∷ bs, n) = refused

  -- bdecode(bytes). A node costs at most two units of fuel, and there are at most 256.
  unfoldable pub bdecode : List ℕ → Parse Value
  bdecode bytes = parse 514 0 bytes 0 >>= finish
