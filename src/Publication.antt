-- ===== src/Publication.antt =====
-- The signed name of a machine: `verifyRecord` and `compareRecords` of src/disk/web/torrent-protocol.js,
-- and what src/disk/web/torrent-records.js does with them. Ed25519 is a parameter.
pub mod Decimal
pub mod Payload
pub mod Bounded
pub mod Observe
pub mod Resolve
pub mod Loop
pub mod Newest
mod Tests
use my.Base.{
  ℕ, zero, suc, ◌+◌, ◌-◌, ◌*◌, ◌/◌, ◌%◌, Bool, true, false, not, ◌&&◌, Option, none, some, List, [],
  ◌∷◌, ◌++◌, ltb, leb, ◌==◌, if◌then◌else◌,
}
use my.Base.Num.{Num, safe_nat}
use my.Base.Failure.{Code, invalid_publication, publication_conflict, Result, ok, err}
use my.Base.Text.{Text, text_eq, is_hex}

-- A value from outside: whether it is an object with the keys of a record and no other, and those.
pub record Fields : Type 0 where
  pub keys_ok : Bool
  pub public_key : Text
  pub sequence : Num
  pub info_hash : Text
  pub signature : Text
  pub salt : Text

-- A record that has been verified, with its sequence as a number.
pub record Record : Type 0 where
  pub fields : Fields
  pub sequence : ℕ

-- The value of a digit of /[0-9a-f]/.
abbrev hex_value : ℕ → ℕ
hex_value c = if leb c b'9' then c - b'0' else c - 87

abbrev bytes_of : Text → List ℕ
bytes_of (a ∷ b ∷ cs) = (16 * hex_value a + hex_value b) ∷ bytes_of cs
bytes_of _ = []

-- unhex(value,length)
unfoldable pub unhex : Text → ℕ → Result (List ℕ)
unhex value n = if is_hex (n * 2) value then ok (bytes_of value) else err invalid_publication

abbrev hex_digit : ℕ → ℕ
hex_digit n = if leb n 9 then b'0' + n else 87 + n

-- hex(bytes)
unfoldable pub hex : List ℕ → Text
hex [] = []
hex (b ∷ bs) = hex_digit (b / 16) ∷ hex_digit (b % 16) ∷ hex bs

-- A number of up to `n` digits as a template literal writes it.
unfoldable pub digits : ℕ → ℕ → Text
digits zero x = []
digits (suc n) x =
    let rest = digits n (x / 10) in
    if leb x 9 then (b'0' + x) ∷ [] else rest ++ (b'0' + x % 10) ∷ []

-- A safe integer has 16 digits at most.
abbrev pub decimal : ℕ → Text
decimal x = digits 16 x

abbrev pub salt_text : Text
salt_text =
    b'm' ∷ b'y' ∷ b'9' ∷ b'8' ∷ b'/' ∷ b'p' ∷ b'u' ∷ b'b' ∷ b'l' ∷ b'i' ∷ b'c' ∷ b'a' ∷ b't' ∷ b'i'
    ∷ b'o' ∷ b'n' ∷ b'/' ∷ b'v' ∷ b'1' ∷ []

abbrev pub prefix : Text
prefix =
    b'4' ∷ b':' ∷ b's' ∷ b'a' ∷ b'l' ∷ b't' ∷ b'1' ∷ b'9' ∷ b':' ∷ []
    ++ salt_text
    ++ b'3' ∷ b':' ∷ b's' ∷ b'e' ∷ b'q' ∷ b'i' ∷ []

abbrev pub middle : Text
middle = b'1' ∷ b':' ∷ b'v' ∷ b'd' ∷ b'2' ∷ b':' ∷ b'i' ∷ b'h' ∷ b'2' ∷ b'0' ∷ b':' ∷ []

-- What is signed: the bencoding of the salt, the sequence and the infohash.
unfoldable pub payload : ℕ → List ℕ → List ℕ
payload sequence ih = prefix ++ (decimal sequence ++ b'e' ∷ (middle ++ (ih ++ b'e' ∷ [])))

module _ (verify_signature : List ℕ → List ℕ → List ℕ → Bool) where
  -- The end of verifyRecord, with the three values that `unhex` gave.
  unfoldable pub check_signature :
      Fields → ℕ → Result (List ℕ) → Result (List ℕ) → Result (List ℕ) → Result Record
  check_signature v sequence (ok key) (ok signature) (ok ih) =
      if verify_signature key (payload sequence ih) signature
      then ok (record { fields = v; sequence = sequence })
      else err invalid_publication
  check_signature v sequence _ _ _ = err invalid_publication

  unfoldable pub verify_sequence : Text → Fields → Option ℕ → Result Record
  verify_sequence expected v none = err invalid_publication
  verify_sequence expected v (some sequence) =
      if v.keys_ok
        && text_eq v.public_key expected
        && text_eq v.salt (hex salt_text)
        && leb 1 sequence
      then check_signature v sequence (unhex v.public_key 32) (unhex v.signature 64)
          (unhex v.info_hash 20)
      else err invalid_publication

  -- verifyRecord(value,expectedKey,verifySignature)
  unfoldable pub verify_record : Text → Fields → Result Record
  verify_record expected v = verify_sequence expected v (safe_nat v.sequence)

-- compareRecords(previous,candidate): whether the candidate is newer.
unfoldable pub compare_records : Option Record → Record → Result Bool
compare_records none c = ok true
compare_records (some p) c =
    if not (text_eq p.fields.public_key c.fields.public_key)
    then err invalid_publication
    else if ltb c.sequence p.sequence
    then err publication_conflict
    else if c.sequence == p.sequence
    then if text_eq c.fields.info_hash p.fields.info_hash
      then ok false
      else err publication_conflict
    else ok true
