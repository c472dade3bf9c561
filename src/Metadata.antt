-- ===== src/Metadata.antt =====
-- `verifyMetadata` of src/disk/web/torrent-protocol.js: what the Worker accepts as the description of a
-- torrent. SHA-1 and the fatal TextDecoder are parameters.
pub mod Again
mod Tests
use Prim.Native.String.{String}
use Prim.Native.Char.{code}
use my.Base.{
  ℕ, zero, suc, ◌+◌, ◌-◌, ◌*◌, ◌/◌, ◌^◌, Bool, true, false, not, ◌&&◌, ◌||◌, Option, none, some,
  List, [], ◌∷◌, ◌++◌, length, ltb, leb, ◌==◌, if◌then◌else◌,
}
use my.Base.Int.{ℤ, pos, negsuc}
use my.Base.Text.{Text, text_eq, is_hex}
use my.Base.Failure.{
  Result, ok, err, ◌>>=◌, ◌>>◌, require, or_throw, invalid_publication, other_code,
}
use my.Publication.{hex}
use my.Bencode
use my.Bencode.{
  Parse, parsed, refused, out_of_fuel, Node, Value, Fields, number, string, dictionary, end, field,
  value_of, raw_of, bdecode,
}

abbrev pub codes : String → Text
codes String.[] = []
codes (String.◌∷◌ c s) = code c ∷ codes s

-- The keys of COMPONENT_NAMES.
pub data Component : Type 0 where
  descriptor disk state profile : Component

abbrev pub component_name : Component → Text
component_name descriptor = codes "publication.json"
component_name disk = codes "disk.my98"
component_name state = codes "state.my98state"
component_name profile = codes "profile.json"

unfoldable pub same_component : Component → Component → Bool
same_component descriptor descriptor = true
same_component disk disk = true
same_component state state = true
same_component profile profile = true
same_component _ _ = false

-- Object.keys(COMPONENT_NAMES).find(key=>COMPONENT_NAMES[key]===filename)
unfoldable pub component_of : Text → Option Component
component_of name =
    if text_eq name (component_name descriptor)
    then some descriptor
    else if text_eq name (component_name disk)
    then some disk
    else if text_eq name (component_name state)
    then some state
    else if text_eq name (component_name profile)
    then some profile
    else none

-- `limits`
abbrev pub limit : Component → ℕ
limit descriptor = 4096
limit disk = 1100585369798
limit state = 1073807360
limit profile = 65536

abbrev pub metadata_limit : Option Component → ℕ
metadata_limit (some descriptor) = 16384
metadata_limit _ = 100663296

abbrev pub piece_length : ℕ
piece_length = 262144

-- Math.ceil(size/pieceLength)
abbrev pub pieces_of : ℕ → ℕ
pieces_of size = (size + (piece_length - 1)) / piece_length

unfoldable pub lookup : Text → Fields → Option Node
lookup name end = none
lookup name (field key x fs) = if text_eq key name then some x else lookup name fs

unfoldable pub count : Fields → ℕ
count end = 0
count (field key x fs) = suc (count fs)

-- `value[name]`, which is no node unless the value is a dictionary.
unfoldable pub member : Text → Value → Option Node
member name (dictionary fs) = lookup name fs
member name _ = none

abbrev pub is_some {ℓ} : {A : Type ℓ} → Option A → Bool
is_some none = false
is_some (some a) = true

-- keysAre(info.value,["name","length","piece length","pieces"])
unfoldable pub keys_are : Value → Bool
keys_are (dictionary fs) =
    count fs == 4
    && is_some (lookup (codes "name") fs)
    && is_some (lookup (codes "length") fs)
    && is_some (lookup (codes "piece length") fs)
    && is_some (lookup (codes "pieces") fs)
keys_are _ = false

pub record Metadata : Type 0 where
  pub info_hash : Text
  pub kind : Component
  pub size : ℕ
  pub pieces : ℕ
  pub metadata : List ℕ

abbrev pub bencoded : Parse Value → Result Value
bencoded (parsed v) = ok v
bencoded _ = err invalid_publication

abbrev pub natural : Option Node → Option ℕ
natural (some (Bencode.node (number (pos n)) raw)) = some n
natural _ = none

abbrev pub bytes_of : Option Node → Option (List ℕ)
bytes_of (some (Bencode.node (string b) raw)) = some b
bytes_of _ = none

-- The expected kind of the component, where there is one, is the actual one.
abbrev pub is_kind : Option Component → Component → Bool
is_kind none actual = true
is_kind (some kind) actual = same_component kind actual

-- The sizes and the hashes of the pieces of a component: its size if they are right.
unfoldable pub size_of : Component → Option ℕ → Option ℕ → Option (List ℕ) → Option ℕ
size_of actual (some size) (some piece) (some hashes) =
    if leb 1 size
      && leb size (limit actual)
      && piece == piece_length
      && length hashes == 20 * pieces_of size
    then some size
    else none
size_of actual _ _ _ = none

-- "d4:info" and "e" about the bytes of the dictionary.
abbrev pub enclosed : List ℕ → List ℕ
enclosed raw = codes "d4:info" ++ (raw ++ b'e' ∷ [])

module _ (decode : List ℕ → Option Text) (sha1 : List ℕ → List ℕ) where
  -- The name of a file that is no string of bytes is "".
  abbrev pub filename : Option (List ℕ) → Result Text
  filename none = ok []
  filename (some b) = or_throw (decode b) other_code

  -- From the dictionary on.
  unfoldable pub check_info : Text → Option Component → Option Node → Result Metadata
  check_info expected kind none = err invalid_publication
  check_info expected kind (some info) = do
    let value = value_of info
    require (keys_are value) invalid_publication
    name ← filename (bytes_of (member (codes "name") value))
    actual ← or_throw (component_of name) invalid_publication
    require (is_kind kind actual) invalid_publication
    size ←
        or_throw
          (size_of actual (natural (member (codes "length") value))
            (natural (member (codes "piece length") value))
            (bytes_of (member (codes "pieces") value)))
          invalid_publication
    let actual_hash = hex (sha1 (raw_of info))
    require (text_eq actual_hash expected) invalid_publication
    ok (record {
      info_hash = actual_hash;
      kind = actual;
      size = size;
      pieces = pieces_of size;
      metadata = enclosed (raw_of info);
    })

  -- verifyMetadata(bytes,expected,kind)
  unfoldable pub verify_metadata : List ℕ → Text → Option Component → Result Metadata
  verify_metadata bytes expected kind = do
    require (is_hex 40 expected) invalid_publication
    require (leb 1 (length bytes) && leb (length bytes) (metadata_limit kind)) invalid_publication
    value ← bencoded (bdecode decode bytes)
    check_info expected kind (member (codes "info") value)
