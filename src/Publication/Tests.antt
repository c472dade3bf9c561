-- ===== src/Publication/Tests.antt =====
-- Two publications of one machine, with a verifier that accepts one signature.
use my.Base.{
  ℕ, ◌≤◌, ◌≡◌, ◌↔◌, refl, Bool, true, Option, none, some, List, [], ◌∷◌, All, replicate, length,
  ◌==◌, ◌&&◌, arith,
}
use my.Base.Num.{nat}
use my.Base.Failure.{ok, err, publication_conflict, invalid_publication, storage_full}
use my.Base.JsMap
use my.Base.Text.{Text, text_eq, is_hex}
use my.Publication.{
  Fields, Record, hex, unhex, payload, salt_text, verify_record, verify_sequence, check_signature,
  compare_records,
}
use my.Publication.Bounded.{
  absent, announced, Body, bounded_bytes, read_body, read_chunks, Exact, bounded_bytes_iff,
}
use my.Publication.Payload.{payload-injective}
use my.Publication.Observe.{
  End, complete, quota, observe_record, observe_all, observe_all-monotone, observe_verified,
  compare_row, end_observe, next_row, cached_record, row_record, Holds, IsNewer,
}
use my.Publication.Resolve.{
  Answer, resolve_record, resolve_cached, finish_resolve, choose_best, AllAgree,
}
use my.Publication.Newest.{resolve_record-newest}
use my.Publication.Loop.{IsOneOf, candidates}

abbrev key : Text
key = replicate 64 48

-- A verifier that looks at the length of what it is given.
abbrev verifier : List ℕ → List ℕ → List ℕ → Bool
verifier k p s = length k == 32 && length s == 64

abbrev fields : ℕ → ℕ → Fields
fields sequence digit = record {
  keys_ok = true;
  public_key = key;
  sequence = nat sequence;
  info_hash = replicate 40 digit;
  signature = replicate 128 48;
  salt = hex salt_text;
}

abbrev published : ℕ → ℕ → Record
published sequence digit = record { fields = fields sequence digit; sequence = sequence }

verified : verify_record verifier key (fields 7 97) ≡ ok (published 7 97)
unfolding verify_record verify_sequence check_signature unhex is_hex text_eq hex
verified = refl

held : Holds verifier key (some (fields 7 97)) (published 7 97)
unfolding row_record verify_record verify_sequence check_signature unhex is_hex text_eq hex
held = refl

abbrev attempts : List (Fields × End)
attempts =
    (fields 6 98, complete)
    ∷ (fields 8 98, quota)
    ∷ (fields 9 99, complete)
    ∷ (fields 9 98, complete)
    ∷ []

last_row : observe_all verifier key attempts (some (fields 7 97)) ≡ some (fields 9 99)
unfolding observe_all observe_record observe_verified compare_row end_observe next_row
    compare_records row_record verify_record verify_sequence check_signature unhex is_hex text_eq
    hex
last_row = refl

observe_all-monotone_example :
    (s : Record) × Holds verifier key (observe_all verifier key attempts (some (fields 7 97))) s
    × IsNewer (published 7 97) s
observe_all-monotone_example =
    observe_all-monotone verifier key attempts (some (fields 7 97)) (published 7 97) held

abbrev answers : List Answer
answers = ok (some (published 8 98)) ∷ err storage_full ∷ ok none ∷ ok (some (published 7 97)) ∷ []

newest :
    resolve_record verifier key answers complete (some (fields 7 97)) (some (fields 7 97))
    ≡ ok (some (published 8 98))
unfolding resolve_record resolve_cached finish_resolve choose_best observe_record observe_verified
    compare_row end_observe next_row compare_records cached_record row_record verify_record
    verify_sequence check_signature unhex is_hex text_eq hex JsMap.get JsMap.set
newest = refl

conflict :
    resolve_record verifier key (ok (some (published 7 98)) ∷ []) complete (some (fields 7 97)) none
    ≡ err publication_conflict
unfolding resolve_record resolve_cached finish_resolve choose_best observe_record observe_verified
    compare_row end_observe next_row compare_records cached_record row_record verify_record
    verify_sequence check_signature unhex is_hex text_eq hex JsMap.get JsMap.set
conflict = refl

verified_newer : verify_record verifier key (fields 8 98) ≡ ok (published 8 98)
unfolding verify_record verify_sequence check_signature unhex is_hex text_eq hex
verified_newer = refl

resolve_record-newest_example :
    (best : Option Record) × (cached_record verifier key (some (fields 7 97)) ≡ ok best)
    × IsOneOf (published 8 98) (candidates best answers)
    × All (λ c. c.sequence ≤ 8) (candidates best answers)
    × AllAgree (candidates best answers)
resolve_record-newest_example =
    resolve_record-newest verifier key answers complete (some (fields 7 97)) (some (fields 7 97))
      (published 8 98) (verified_newer, (verified, tt)) newest

abbrev ih : List ℕ
ih = replicate 20 170

same : payload 7 ih ≡ payload 7 ih
same = refl

payload-injective_example : ◌≡◌ {A = ℕ} 7 7 × (ih ≡ ih)
payload-injective_example = payload-injective 7 7 ih ih (omega arith) (omega arith) same

abbrev reply_body : Option Body
reply_body = some ((1 ∷ 2 ∷ []) ∷ (3 ∷ []) ∷ [], none)

read_whole : bounded_bytes (announced 3) reply_body 3 ≡ ok (1 ∷ 2 ∷ 3 ∷ [])
unfolding bounded_bytes read_body read_chunks
read_whole = refl

read_too_much : bounded_bytes absent reply_body 2 ≡ err invalid_publication
unfolding bounded_bytes read_body read_chunks
read_too_much = refl

bounded_bytes_iff_example :
    (bounded_bytes (announced 3) reply_body 3 ≡ ok (1 ∷ 2 ∷ 3 ∷ []))
    ↔ Exact (announced 3) reply_body 3 (1 ∷ 2 ∷ 3 ∷ [])
bounded_bytes_iff_example = bounded_bytes_iff (announced 3) reply_body 3 (1 ∷ 2 ∷ 3 ∷ [])
