-- ===== src/Bencode/Tests.antt =====
-- Small torrents.
use my.Base.{◌≡◌, ◌≢◌, refl, [], ◌∷◌, arith}
use my.Base.Int.{negsuc}
use my.Base.Text.{text_eq}
use my.Bencode.{
  parsed, refused, out_of_fuel, is_positive, value_from, integer, before, text_leb, kind, string_at,
  digits_value, number_at, value_at, parse, bdecode,
}
use my.Bencode.Ascii.{decode_ascii, decode_ascii-all}
use my.Bencode.Encode.{
  Tree, int, str, seq, dict, none_left, tree, no_pair, pair, encode, value, count,
}
use my.Bencode.RoundTrip.{bdecode-ne-out_of_fuel, bdecode-encode, IsGood}

-- { "a": -5, "b": [ "x" ] }
abbrev sample : Tree
sample = dict (
    pair (b'a' ∷ []) (b'a' ∷ []) (int (negsuc 4))
      (pair (b'b' ∷ []) (b'b' ∷ []) (seq (tree (str (b'x' ∷ [])) none_left)) no_pair))

unsorted :
    bdecode decode_ascii (
      b'd' ∷ b'1' ∷ b':' ∷ b'b' ∷ b'i' ∷ b'1' ∷ b'e' ∷ b'1' ∷ b':' ∷ b'a' ∷ b'i' ∷ b'2' ∷ b'e'
      ∷ b'e' ∷ [])
    ≡ refused
unfolding bdecode parse kind value_at number_at before digits_value integer is_positive value_from
    text_eq text_leb string_at
unsorted = refl

leading_zero : bdecode decode_ascii (b'i' ∷ b'0' ∷ b'5' ∷ b'e' ∷ []) ≡ refused
unfolding bdecode parse kind value_at number_at before digits_value integer is_positive value_from
    text_eq text_leb string_at
leading_zero = refl

bdecode-ne-out_of_fuel_example : bdecode decode_ascii (b'd' ∷ b'i' ∷ []) ≢ out_of_fuel
bdecode-ne-out_of_fuel_example = bdecode-ne-out_of_fuel decode_ascii (b'd' ∷ b'i' ∷ [])

sample-IsGood : IsGood decode_ascii decode_ascii-all 0 sample
unfolding IsGood text_leb
sample-IsGood = (
  omega arith,
  (
    omega arith,
    omega arith,
    refl,
    refl,
    (omega arith, omega arith),
    (omega arith, omega arith, refl, refl, (omega arith, ((omega arith, omega arith), tt)), tt),
  ),
)

bdecode-encode_example : bdecode decode_ascii (encode sample) ≡ parsed (value sample)
bdecode-encode_example =
    bdecode-encode decode_ascii decode_ascii-all sample sample-IsGood (unfold count in omega arith)
