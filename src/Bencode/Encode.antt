-- ===== src/Bencode/Encode.antt =====
-- The canonical bencoding, against which `bdecode` of torrent-protocol.js is held, and how `bdecode`
-- reads its numbers and strings.
use my.Base.{ℕ, suc, ◌+◌, List, [], ◌∷◌, ◌++◌, length}
use my.Base.Int.{ℤ, pos, negsuc}
use my.Base.Text.{Text}
use my.Publication.{decimal}
use my.Bencode
use my.Bencode.{
  ◌>>=◌, string_at, Parse, parsed, Node, Value, Nodes, Fields, number, string, list, dictionary,
  nil, cons, end, field, follows, before, integer, is_positive, is_natural, value_from,
  digits_value, number_at, Kind, strings, kind, value_at, parse, at_end,
}

-- What a torrent may say. A key is its bytes and the text that they are decoded to.
mutual
  pub data Tree : Type 0 where
    int : ℤ → Tree
    str : List ℕ → Tree
    seq : Trees → Tree
    dict : Pairs → Tree

  pub data Trees : Type 0 where
    none_left : Trees
    tree : Tree → Trees → Trees

  pub data Pairs : Type 0 where
    no_pair : Pairs
    pair : List ℕ → Text → Tree → Pairs → Pairs

abbrev pub encode_integer : ℤ → List ℕ
encode_integer (pos x) = decimal x
encode_integer (negsuc x) = b'-' ∷ decimal (suc x)

abbrev pub encode_string : List ℕ → List ℕ
encode_string b = decimal (length b) ++ b':' ∷ b

unfoldable mutual
  pub encode : Tree → List ℕ
  encode (int z) = b'i' ∷ (encode_integer z ++ b'e' ∷ [])
  encode (str b) = encode_string b
  encode (seq ts) = b'l' ∷ encode_items ts
  encode (dict ps) = b'd' ∷ encode_pairs ps

  pub encode_items : Trees → List ℕ
  encode_items none_left = b'e' ∷ []
  encode_items (tree t ts) = encode t ++ encode_items ts

  pub encode_pairs : Pairs → List ℕ
  encode_pairs no_pair = b'e' ∷ []
  encode_pairs (pair key name t ps) = encode_string key ++ (encode t ++ encode_pairs ps)

-- The value that a tree stands for, with the bytes of its parts.
unfoldable mutual
  pub value : Tree → Value
  value (int z) = number z
  value (str b) = string b
  value (seq ts) = list (nodes ts)
  value (dict ps) = dictionary (fields ps)

  pub nodes : Trees → Nodes
  nodes none_left = nil
  nodes (tree t ts) = cons (Bencode.node (value t) (encode t)) (nodes ts)

  pub fields : Pairs → Fields
  fields no_pair = end
  fields (pair key name t ps) = field name (Bencode.node (value t) (encode t)) (fields ps)

unfoldable mutual
  pub count : Tree → ℕ
  count (int z) = 1
  count (str b) = 1
  count (seq ts) = suc (count_items ts)
  count (dict ps) = suc (count_pairs ps)

  pub count_items : Trees → ℕ
  count_items none_left = 0
  count_items (tree t ts) = count t + count_items ts

  pub count_pairs : Pairs → ℕ
  count_pairs no_pair = 0
  count_pairs (pair key name t ps) = suc (count t + count_pairs ps)
