-- ===== src/PieceStore.antt =====
-- src/disk/web/torrent-store.js: the pieces of one torrent, kept in IndexedDB and, within a budget,
-- in RAM. This file holds the object and its methods up to the database transaction; `World` runs
-- them with their transactions. A byte is a number and a `Uint8Array` the list of its bytes.
pub mod Cache
pub mod World
pub mod Sound
pub mod Traces
pub mod Direct
pub mod Replies
pub mod Shape
mod Tests
use my.Base.{
  ℕ, ◌+◌, ◌-◌, ◌*◌, ◌/◌, min, Bool, true, false, ◌&&◌, ◌||◌, Option, none, some, List, [], ◌∷◌,
  length, all, take, drop, ltb, leb, ◌==◌, if◌then◌else◌,
}
use my.Base.Num.{Num, nat, safe_nat}
use my.Base.Failure.{
  Code, invalid_torrent, invalid_range, storage_full, storage_error, Result, ok, err, ◌>>=◌, ◌>>◌,
  require, or_throw, or_default,
}
use my.Base.Text.{Text, is_hex}
use my.Base.JsMap
use my.Base.JsMap.{JsMap}

abbrev pub Bytes : Type 0
Bytes = List ℕ

abbrev pub piece_length : ℕ
piece_length = 262144

pub record Store : Type 0 where
  pub hash : Text
  pub length : ℕ
  pub count : ℕ
  pub budget : ℕ
  pub cache : JsMap Bytes
  pub memory_bytes : ℕ
  pub closed : Bool

-- A row of the object store `pieces`; `contents` is `none` where `data` is no `Uint8Array`.
pub record Row : Type 0 where
  pub length : ℕ
  pub chunk_length : ℕ
  pub contents : Option Bytes

-- The rows under the store's own infohash, which is the first part of every key it uses.
abbrev pub Rows : Type 0
Rows = JsMap Row

-- Why a transaction was aborted.
pub data Cause : Type 0 where
  quota unknown : Cause
  coded : Code → Cause

unfoldable pub failure_code : Cause → Code
failure_code quota = storage_full
failure_code (coded c) = c
failure_code unknown = storage_error

pub record Options : Type 0 where
  pub info_hash : Text
  pub length : Num
  pub ram_bytes : Option Num

-- The tests of the constructor, in order; the count of pieces is `Math.ceil(length/chunkLength)`.
unfoldable pub create : ℕ → Options → Result Store
unfolding is_hex
create chunk_length o = do
  require (is_hex 40 o.info_hash && chunk_length == piece_length) invalid_torrent
  n ← or_throw (safe_nat o.length) invalid_torrent
  require (leb 1 n) invalid_torrent
  budget ← or_throw (safe_nat (or_default o.ram_bytes (nat 2097152))) invalid_torrent
  require (leb budget 8388608) invalid_torrent
  ok (record {
    hash = o.info_hash;
    length = n;
    count = (n + piece_length - 1) / piece_length;
    budget = budget;
    cache = [];
    memory_bytes = 0;
    closed = false;
  })

-- How long piece `i` of the torrent is.
abbrev pub size_at : ℕ → ℕ → ℕ
size_at total i = min piece_length (total - i * piece_length)

-- size(index), with the index as a number
unfoldable pub size : Store → Num → Result (ℕ × ℕ)
size s index = elim (safe_nat index) [
  | none ↦ err invalid_range
  | some i ↦ if ltb i s.count then ok (i, size_at s.length i) else err invalid_range
]

-- The loop over the oldest entries. A `Map` holds a key once, so deleting the first entry's key
-- leaves the others. The list is empty only where the loop has ended (`Cache.evict-total`).
unfoldable pub evict : ℕ → JsMap Bytes → ℕ → JsMap Bytes × ℕ
evict budget [] memory = ([], memory)
evict budget ((k, v) ∷ rest) memory =
    let next = evict budget rest (memory - length v) in
    if ltb budget memory then next else ((k, v) ∷ rest, memory)

-- remember(index,data)
unfoldable pub remember : ℕ → Bytes → Store → Store
remember index piece s =
    let previous = JsMap.get index s.cache in
    let cache : JsMap Bytes = elim previous [
      | none ↦ s.cache
      | some v ↦ JsMap.delete index s.cache
    ] in
    let memory : ℕ = elim previous [ none ↦ s.memory_bytes | some v ↦ s.memory_bytes - length v ] in
    let kept = evict s.budget (JsMap.set index piece cache) (memory + length piece) in
    if ltb s.budget (length piece)
    then record s { cache = cache; memory_bytes = memory }
    else record s { cache = kept.0; memory_bytes = kept.1 }

-- put(index,input) up to its transaction: the piece to write.
unfoldable pub put_begin : Store → Num → Option Bytes → Result (ℕ × Bytes)
unfolding size
put_begin s index none = size s index >>= λ _. err invalid_range
put_begin s index (some input) = do
  (i, n) ← size s index
  require (length input == n) invalid_range
  ok (i, input)

-- The checked range of get(index,{offset,length}): the piece, its size, the offset and the length.
unfoldable pub get_range : Store → Num → Option Num → Option Num → Result (ℕ × ℕ × ℕ × ℕ)
unfolding size
get_range s index offset count = do
  (i, n) ← size s index
  from ← or_throw (safe_nat (or_default offset (nat 0))) invalid_range
  let rest : Option ℕ = if leb from n then some (n - from) else none
  let wanted : Option ℕ = elim count [ none ↦ rest | some x ↦ safe_nat x ]
  len ← or_throw wanted invalid_range
  require (leb (from + len) n) invalid_range
  ok (i, n, from, len)

abbrev pub slice : ℕ → ℕ → Bytes → Bytes
slice offset len piece = take len (drop offset piece)

-- The hit of get: the entry is deleted and set again, and so moves to the end.
unfoldable pub touch : ℕ → Bytes → Store → Store
touch i piece s = record s { cache = JsMap.set i piece (JsMap.delete i s.cache) }

-- The row is taken only if it is a piece of `n` bytes of a torrent of `total` bytes.
unfoldable pub row_data : ℕ → ℕ → Option Row → Option Bytes
row_data total n none = none
row_data total n (some row) = elim row.contents [
  | none ↦ none
  | some d ↦
      if row.length == total && row.chunk_length == piece_length && length d == n
      then some d
      else none
]
