-- ===== src/Metadata/Tests.antt =====
-- The metadata of a small descriptor, with a digest that is always the same.
use my.Base.{ℕ, ◌≡◌, refl, some, List, replicate}
use my.Base.Text.{Text, text_eq, is_hex}
use my.Base.Failure.{ok, err, invalid_publication}
use my.Publication.{hex}
use my.Bencode.{
  is_positive, value_from, integer, before, text_leb, kind, string_at, digits_value, number_at,
  value_at, parse, bdecode,
}
use my.Bencode.Ascii.{decode_ascii, decode_ascii-all, decode_ascii-short}
use my.Metadata.{
  codes, Metadata, descriptor, disk, component_of, same_component, lookup, count, member, keys_are,
  size_of, check_info, verify_metadata, enclosed,
}
use my.Metadata.Again.{verify_metadata-again}

abbrev digest : List ℕ → List ℕ
digest raw = replicate 20 0

abbrev zeros : Text
zeros = replicate 40 b'0'

abbrev info : List ℕ
info =
    codes
      "d6:lengthi5e4:name16:publication.json12:piece lengthi262144e6:pieces20:aaaaaaaaaaaaaaaaaaaae"

-- A tracker beside the dictionary, which is not kept.
abbrev torrent : List ℕ
torrent =
    codes
      "d8:announce3:abc4:infod6:lengthi5e4:name16:publication.json12:piece lengthi262144e6:pieces20:aaaaaaaaaaaaaaaaaaaaee"

abbrev metadata : Metadata
metadata = record {
  info_hash = zeros;
  kind = descriptor;
  size = 5;
  pieces = 1;
  metadata = enclosed info;
}

torrent_verifies : verify_metadata decode_ascii digest torrent zeros (some descriptor) ≡ ok metadata
unfolding verify_metadata check_info bdecode parse kind value_at number_at before digits_value
    integer is_positive value_from text_eq text_leb string_at is_hex hex component_of same_component
    lookup count member keys_are size_of
torrent_verifies = refl

wrong_kind : verify_metadata decode_ascii digest torrent zeros (some disk) ≡ err invalid_publication
unfolding verify_metadata check_info bdecode parse kind value_at number_at before digits_value
    integer is_positive value_from text_eq text_leb string_at is_hex hex component_of same_component
    lookup count member keys_are size_of
wrong_kind = refl

verify_metadata-again_example :
    verify_metadata decode_ascii digest (enclosed info) zeros (some descriptor) ≡ ok metadata
verify_metadata-again_example =
    verify_metadata-again decode_ascii decode_ascii-all decode_ascii-short digest torrent zeros
      (some descriptor) metadata torrent_verifies
