-- ===== src/Publication/Observe.antt =====
-- torrent-records.js: `observeRecord` and `cachedRecord`, with the row of one key in the database.
-- IndexedDB runs the transactions on a row one after the other, whichever tab makes them.
use my.Base.{
  ℕ, ◌≤◌, ◌≡◌, refl, sym, ap, ◌∙◌, Bool, Option, none, some, List, [], ◌∷◌, if◌then◌else◌, ◌==◌,
  ltb, leb, not, ◌&&◌, if_cases, arith,
}
use mathlib.Core.Path.{subst}
use mathlib.Core.Logic.{inl, inr}
use my.Base.Failure.{
  Code, storage_full, storage_error, Result, ok, err, ◌>>=◌, Result-cases, Yields, Yields-ok,
}
use my.Base.Num.{safe_nat}
use my.Base.Text.{Text, text_eq, text_eq_iff}
use my.Publication.{
  Fields, Record, unhex, hex, salt_text, payload, check_signature, verify_sequence, verify_record,
  compare_records,
}

-- How the transaction ends: `abort` with its cause, QuotaExceededError, another error or none.
pub data End : Type 0 where
  complete quota unknown : End
  failed : Code → End

-- One call of `observeRecord` once its value is verified: the put, or no put, of its transaction.
unfoldable pub next_row : Option Fields → Record → Bool → Option Fields
next_row row r newer = if newer then some r.fields else row

-- What tx.oncomplete and tx.onabort leave in the row and give the caller.
unfoldable pub end_observe :
    End → Option Fields → Record → Result Bool → Option Fields × Result Record
end_observe end row r (err c) = (row, err c)
end_observe complete row r (ok newer) = (next_row row r newer, ok r)
end_observe quota row r (ok newer) = (row, err storage_full)
end_observe unknown row r (ok newer) = (row, err storage_error)
end_observe (failed c) row r (ok newer) = (row, err c)

module _ (verify_signature : List ℕ → List ℕ → List ℕ → Bool) (key : Text) where
  -- What a row holds: nothing, or a record that is verified as it is read.
  unfoldable pub row_record : Option Fields → Result (Option Record)
  row_record none = ok none
  row_record (some f) = verify_record verify_signature key f >>= λ r. ok (some r)

  -- cachedRecord(publicKey,verifySignature), of the row
  unfoldable pub cached_record : Option Fields → Result (Option Record)
  cached_record row = unhex key 32 >>= λ k. row_record row

  -- The handler of the read in the transaction.
  unfoldable pub compare_row : Option Fields → Record → Result Bool
  compare_row row r = row_record row >>= λ previous. compare_records previous r

  unfoldable pub observe_verified :
      End → Option Fields → Result Record → Option Fields × Result Record
  observe_verified end row (err c) = (row, err c)
  observe_verified end row (ok r) = end_observe end row r (compare_row row r)

  -- observeRecord(value,publicKey,verifySignature)
  unfoldable pub observe_record : Fields → End → Option Fields → Option Fields × Result Record
  observe_record v end row = observe_verified end row (verify_record verify_signature key v)

  -- Calls from any tabs, in the order of their transactions.
  unfoldable pub observe_all : List (Fields × End) → Option Fields → Option Fields
  observe_all [] row = row
  observe_all ((v, end) ∷ vs) row = observe_all vs (observe_record v end row).0

check_signature-Yields :
    (sig : List ℕ → List ℕ → List ℕ → Bool) (v : Fields) (n : ℕ) (k s i : Result (List ℕ))
    → Yields (λ r. r.fields ≡ v) (check_signature sig v n k s i)
unfolding check_signature
check_signature-Yields sig v n (ok k) (ok s) (ok i) =
    if_cases (Yields (λ (r : Record). r.fields ≡ v)) (sig k (payload n i) s) _ _ (λ _. refl)
      (λ _. tt)
check_signature-Yields sig v n (err c) s i = tt
check_signature-Yields sig v n (ok k) (err c) i = tt
check_signature-Yields sig v n (ok k) (ok s) (err c) = tt

verify_sequence-Yields :
    (sig : List ℕ → List ℕ → List ℕ → Bool) (key : Text) (v : Fields) (n : Option ℕ)
    → Yields (λ r. r.fields ≡ v) (verify_sequence sig key v n)
unfolding verify_sequence
verify_sequence-Yields sig key v none = tt
verify_sequence-Yields sig key v (some n) =
    let P : Result Record → Type 0 = Yields (λ (r : Record). r.fields ≡ v) in
    if_cases P (v.keys_ok && text_eq v.public_key key && text_eq v.salt (hex salt_text) && leb 1 n)
      _ _
      (λ _.
        check_signature-Yields sig v n (unhex v.public_key 32) (unhex v.signature 64)
          (unhex v.info_hash 20))
      (λ _. tt)

pub verify_record-fields :
    (sig : List ℕ → List ℕ → List ℕ → Bool) (key : Text) (v : Fields)
    → Yields (λ r. r.fields ≡ v) (verify_record sig key v)
unfolding verify_record
verify_record-fields sig key v = verify_sequence-Yields sig key v (safe_nat v.sequence)

-- `s` is at least as new as `r`, and the same publication if it has the same sequence.
pub record IsNewer (r s : Record) : Type 0 where
  pub le : r.sequence ≤ s.sequence
  pub same : r.sequence ≡ s.sequence → s.fields.info_hash ≡ r.fields.info_hash

IsNewer-compare : (p c : Record) → Yields (λ b. IsNewer p c) (compare_records (some p) c)
unfolding compare_records
IsNewer-compare p c =
    let P : Result Bool → Type 0 = Yields (λ b. IsNewer p c) in
    if_cases P (not (text_eq p.fields.public_key c.fields.public_key)) _ _ (λ _. tt)
      (λ _.
        if_cases P (ltb c.sequence p.sequence) _ _ (λ _. tt)
          (λ older.
            if_cases P (c.sequence == p.sequence) _ _
              (λ same.
                if_cases P (text_eq c.fields.info_hash p.fields.info_hash) _ _
                  (λ e. record {
                    le = ground arith;
                    same = λ _. (text_eq_iff c.fields.info_hash p.fields.info_hash).0 e;
                  })
                  (λ _. tt))
              (λ other. record { le = ground arith; same = λ e. absurd (ground arith) })))

IsNewer-refl : (r : Record) → IsNewer r r
IsNewer-refl r = record { le = omega arith; same = λ _. refl }

IsNewer-trans : (r s t : Record) → IsNewer r s → IsNewer s t → IsNewer r t
IsNewer-trans r s t p q = record {
  le = omega (arith, p.le, q.le);
  same = λ e. q.same (omega (arith, p.le, q.le)) ∙ p.same (omega (arith, p.le, q.le));
}

module _ (sig : List ℕ → List ℕ → List ℕ → Bool) (key : Text) where
  -- The row holds a record that verifies to `r`.
  abbrev pub Holds : Option Fields → Record → Type 0
  Holds row r = row_record sig key row ≡ ok (some r)

  Holds-verified :
      (v : Fields) (r : Record) → verify_record sig key v ≡ ok r → Holds (some r.fields) r
  unfolding row_record
  Holds-verified v r h =
      let same : r.fields ≡ v =
        Yields-ok (λ (x : Record). x.fields ≡ v) _ r h (verify_record-fields sig key v) in
      subst (λ f. (verify_record sig key f >>= λ x. ok (some x)) ≡ ok (some r)) (sym same)
        (ap (λ m. m >>= λ x. ok (some x)) h)

  abbrev Advanced : Option Fields → Record → Type 0
  Advanced row p = (s : Record) × Holds row s × IsNewer p s

  end_observe-Advanced :
      (end : End) (row : Option Fields) (p c : Record) (b : Result Bool)
      → Holds row p
      → Holds (some c.fields) c
      → Yields (λ _. IsNewer p c) b
      → Advanced (end_observe end row c b).0 p
  unfolding end_observe next_row
  end_observe-Advanced end row p c (err e) h k n = (p, h, IsNewer-refl p)
  end_observe-Advanced complete row p c (ok b) h k n =
      if_cases (λ r. Advanced r p) b _ _ (λ _. (c, k, n)) (λ _. (p, h, IsNewer-refl p))
  end_observe-Advanced quota row p c (ok b) h k n = (p, h, IsNewer-refl p)
  end_observe-Advanced unknown row p c (ok b) h k n = (p, h, IsNewer-refl p)
  end_observe-Advanced (failed e) row p c (ok b) h k n = (p, h, IsNewer-refl p)

  observe_record-Advanced :
      (v : Fields) (end : End) (row : Option Fields) (p : Record)
      → Holds row p
      → Advanced (observe_record sig key v end row).0 p
  unfolding observe_record observe_verified compare_row
  observe_record-Advanced v end row p h = elim (Result-cases (verify_record sig key v)) [
    | inl (c, e) ↦ rw e (p, h, IsNewer-refl p)
    | inr (c, e) ↦
        rw e
          (rw h (end_observe-Advanced end row p c _ h (Holds-verified v c e) (IsNewer-compare p c)))
  ]

  -- Once a verified record stands in the row of a key, then after any calls of `observeRecord`, with
  -- any values, from any tabs, ended by a commit or an abort, a verified record stands there that
  -- has no lower sequence, and the same infohash if it has the same sequence.
  pub observe_all-monotone :
      (vs : List (Fields × End)) (row : Option Fields) (p : Record)
      → Holds row p
      → (s : Record) × Holds (observe_all sig key vs row) s × IsNewer p s
  unfolding observe_all
  observe_all-monotone [] row p h = (p, h, IsNewer-refl p)
  observe_all-monotone ((v, end) ∷ vs) row p h =
      let first = observe_record-Advanced v end row p h in
      let rest = observe_all-monotone vs (observe_record sig key v end row).0 first.0 first.1 in
      (rest.0, rest.1, IsNewer-trans p first.0 rest.0 first.2 rest.2)
