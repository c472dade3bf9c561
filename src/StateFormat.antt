-- ===== src/StateFormat.antt =====
-- `StateReader` of src/disk/web/state-format.js: reads of a saved state that cross the chunks in which
-- its stream comes.
pub mod Whole
pub mod Reads
mod Tests
use my.Base.{
  ℕ, zero, suc, ◌+◌, ◌-◌, ◌*◌, min, Bool, true, false, Option, none, some, List, [], ◌∷◌, ◌++◌,
  length, take, drop, ltb, leb, ◌==◌, if◌then◌else◌,
}
use my.Base.Failure.{Code, Result, ok, err, ◌>>=◌, invalid_state, cancelled}

-- A chunk that is no byte array is `none`. `chunk` has what is unread of the chunk at hand, and `checks`
-- how many calls of `check` succeed until the operation is cancelled, if it is.
pub record Reader : Type 0 where
  pub stream : List (Option (List ℕ))
  pub chunk : List ℕ
  pub max_size : ℕ
  pub received : ℕ
  pub copied : ℕ
  pub checks : Option ℕ

-- `8*CHUNK`
abbrev pub yield_bytes : ℕ
yield_bytes = 8388608

unfoldable pub check_with : Option ℕ → Reader → Result Reader
check_with none r = ok r
check_with (some zero) r = err cancelled
check_with (some (suc n)) r = ok (record r { checks = some n })

-- this.check()
abbrev pub check : Reader → Result Reader
check r = check_with r.checks r

-- The chunk that has been read, when the stream goes on with `rest`.
unfoldable pub take_chunk : Option (List ℕ) → List (Option (List ℕ)) → Reader → Result Reader
take_chunk none rest r = err invalid_state
take_chunk (some bytes) rest r =
    if ltb r.max_size (r.received + length bytes)
    then err invalid_state
    else ok (record r { stream = rest; chunk = bytes; received = r.received + length bytes })

abbrev pub is_empty : List ℕ → Bool
is_empty [] = true
is_empty (b ∷ bs) = false

-- The loop of `available`, over what is left of the stream.
unfoldable pub fill : List (Option (List ℕ)) → Reader → Result (Reader × Bool)
fill [] r = if is_empty r.chunk then (check r >>= λ k. ok (k, false)) else ok (r, true)
fill (c ∷ cs) r =
    let more = check r >>= λ k. take_chunk c cs k >>= λ k'. fill cs k' in
    if is_empty r.chunk then more else ok (r, true)

-- available()
unfoldable pub available : Reader → Result (Reader × Bool)
available r = check r >>= λ k. fill k.stream k

-- What is done with the bytes that have been copied: now and then a pause, and a check.
unfoldable pub pause : Reader → Result Reader
pause r = if leb yield_bytes r.copied then check (record r { copied = 0 }) else ok r

abbrev pub advance : ℕ → Reader → Reader
advance count r = record r { chunk = drop count r.chunk; copied = r.copied + count }

-- The body of the loop of `into`, once it is known whether there are bytes.
unfoldable pub copy_with :
    (ℕ → List ℕ → Reader → Result (List ℕ × Reader))
    → ℕ
    → List ℕ
    → Reader × Bool
    → Result (List ℕ × Reader)
copy_with go left out (r, false) = err invalid_state
copy_with go left out (r, true) =
    let count = min left (length r.chunk) in
    pause (advance count r) >>= λ k. go (left - count) (out ++ take count r.chunk) k

-- into(bytes), with `left` bytes to go after those of `out`. Each round copies one at least, so
-- as many rounds as bytes are enough.
unfoldable pub into : ℕ → ℕ → List ℕ → Reader → Result (List ℕ × Reader)
into fuel zero out r = ok (out, r)
into zero (suc left) out r = err invalid_state
into (suc fuel) (suc left) out r = available r >>= λ a. copy_with (into fuel) (suc left) out a

-- read(size)
unfoldable pub read : ℕ → Reader → Result (List ℕ × Reader)
read size r = check r >>= λ k. into size size [] k

-- end()
unfoldable pub end_with : Reader × Bool → Result Reader
end_with (r, true) = err invalid_state
end_with (r, false) = ok r

abbrev pub finish : Reader → Result Reader
finish r = available r >>= end_with

unfoldable pub create : List (Option (List ℕ)) → ℕ → Option ℕ → Reader
create stream max_size checks = record {
  stream = stream;
  chunk = [];
  max_size = max_size;
  received = 0;
  copied = 0;
  checks = checks;
}
