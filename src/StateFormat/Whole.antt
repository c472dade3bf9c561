-- ===== src/StateFormat/Whole.antt =====
-- state-format.js: a read over any chunks is a read of the bytes that they make up together.
use my.Base.{
  ℕ, zero, suc, ◌+◌, ◌-◌, ◌≡◌, ◌≤◌, ◌<◌, refl, sym, ap, ◌∙◌, Bool, true, false, Option, none, some,
  List, [], ◌∷◌, ◌++◌, length, take, drop, length-append, ltb, leb, if_cases, arith,
}
use mathlib.Core.Path.{subst}
use my.Base.Failure.{Result, ok, ◌>>=◌}
use my.StateFormat.{
  Reader, yield_bytes, check_with, check, take_chunk, is_empty, fill, available, pause,
}

-- The bytes of some chunks.
abbrev pub bytes_of : List (Option (List ℕ)) → List ℕ
bytes_of [] = []
bytes_of (none ∷ cs) = bytes_of cs
bytes_of (some bytes ∷ cs) = bytes ++ bytes_of cs

abbrev pub AllBytes : List (Option (List ℕ)) → Type 0
AllBytes [] = Unit
AllBytes (none ∷ cs) = ⊥
AllBytes (some bytes ∷ cs) = AllBytes cs

-- What is left to be read.
abbrev pub rest : Reader → List ℕ
rest r = r.chunk ++ bytes_of r.stream

-- Not cancelled, with byte arrays for chunks, which are no more than the reader takes.
pub record IsIntact (r : Reader) : Type 0 where
  pub calm : r.checks ≡ none
  pub whole : AllBytes r.stream
  pub room : r.received + length (bytes_of r.stream) ≤ r.max_size

pub data Filled (r : Reader) : Result (Reader × Bool) → Type 0 where
  left_over :
      (k : Reader) → IsIntact k → 0 < length k.chunk → rest k ≡ rest r → Filled r (ok (k, true))
  at_end : (k : Reader) → IsIntact k → rest r ≡ [] → Filled r (ok (k, false))

pub check-none : (r : Reader) → r.checks ≡ none → check r ≡ ok r
unfolding check_with
check-none r e = ap (λ o. check_with o r) e

is_empty-eq : (xs : List ℕ) → is_empty xs ≡ true → xs ≡ []
is_empty-eq [] e = refl
is_empty-eq (x ∷ xs) e = cc

nonempty : (xs : List ℕ) → is_empty xs ≡ false → 0 < length xs
nonempty [] e = cc
nonempty (x ∷ xs) e = omega arith

refill : (r k : Reader) (x : Result (Reader × Bool)) → rest k ≡ rest r → Filled k x → Filled r x
refill r k x e (left_over j h n f) = left_over j h n (f ∙ e)
refill r k x e (at_end j h f) = at_end j h (sym e ∙ f)

fill-Filled :
    (cs : List (Option (List ℕ))) (r : Reader) → r.stream ≡ cs → IsIntact r → Filled r (fill cs r)
unfolding fill take_chunk
fill-Filled [] r s h =
    if_cases (Filled r) (is_empty r.chunk) _ _
      (λ e.
        subst (λ (m : Result Reader). Filled r (m >>= λ k. ok (k, false)))
          (sym (check-none r h.calm)) (at_end r h (rw (s, is_empty-eq r.chunk e) refl)))
      (λ f. left_over r h (nonempty r.chunk f) refl)
fill-Filled (none ∷ cs) r s h = absurd (subst AllBytes s h.whole)
fill-Filled (some bytes ∷ cs) r s h =
    let k : Reader = record r {
      stream = cs;
      chunk = bytes;
      received = r.received + length bytes;
    } in
    let room : r.received + length (bytes ++ bytes_of cs) ≤ r.max_size =
      subst (λ t. r.received + length (bytes_of t) ≤ r.max_size) s h.room in
    let ih : IsIntact k = record {
      calm = h.calm;
      whole = subst AllBytes s h.whole;
      room = omega (arith, length-append bytes (bytes_of cs));
    } in
    if_cases (Filled r) (is_empty r.chunk) _ _
      (λ e.
        subst
          (λ (m : Result Reader).
            Filled r (m >>= λ j. take_chunk (some bytes) cs j >>= λ i. fill cs i))
          (sym (check-none r h.calm))
          (if_cases (λ (m : Result Reader). Filled r (m >>= λ i. fill cs i))
            (ltb r.max_size (r.received + length bytes)) _ _
            (λ f. absurd (ground (arith, length-append bytes (bytes_of cs))))
            (λ f. refill r k _ (rw (s, is_empty-eq r.chunk e) refl) (fill-Filled cs k refl ih))))
      (λ f. left_over r h (nonempty r.chunk f) refl)

pub available-Filled : (r : Reader) → IsIntact r → Filled r (available r)
unfolding available
available-Filled r h =
    subst (λ (m : Result Reader). Filled r (m >>= λ k. fill k.stream k)) (sym (check-none r h.calm))
      (fill-Filled r.stream r refl h)

-- A read of `n` bytes in two, of which the first stays in the chunk.
pub take_split :
    (c n : ℕ) (xs ys : List ℕ)
    → c ≤ n
    → c ≤ length xs
    → take c xs ++ take (n - c) (drop c xs ++ ys) ≡ take n (xs ++ ys)
take_split zero n xs ys h k = ap (λ m. take m (xs ++ ys)) (omega arith)
take_split (suc c) n [] ys h k = absurd (omega arith)
take_split (suc c) zero (x ∷ xs) ys h k = absurd (omega arith)
take_split (suc c) (suc n) (x ∷ xs) ys h k =
    let e : suc n - suc c ≡ n - c = omega arith in
    ap (λ t. x ∷ t)
      (ap (λ m. take c xs ++ take m (drop c xs ++ ys)) e
        ∙ take_split c n xs ys (omega arith) (omega arith))

pub drop_split :
    (c n : ℕ) (xs ys : List ℕ)
    → c ≤ n
    → c ≤ length xs
    → drop (n - c) (drop c xs ++ ys) ≡ drop n (xs ++ ys)
drop_split zero n xs ys h k = ap (λ m. drop m (xs ++ ys)) (omega arith)
drop_split (suc c) n [] ys h k = absurd (omega arith)
drop_split (suc c) zero (x ∷ xs) ys h k = absurd (omega arith)
drop_split (suc c) (suc n) (x ∷ xs) ys h k =
    let e : suc n - suc c ≡ n - c = omega arith in
    ap (λ m. drop m (drop c xs ++ ys)) e ∙ drop_split c n xs ys (omega arith) (omega arith)

pub pause-eq : (r : Reader) → r.checks ≡ none → (c : ℕ) × (pause r ≡ ok (record r { copied = c }))
unfolding pause
pause-eq r e =
    if_cases (λ (m : Result Reader). (c : ℕ) × (m ≡ ok (record r { copied = c })))
      (leb yield_bytes r.copied) _ _ (λ _. (0, check-none (record r { copied = 0 }) e))
      (λ _. (r.copied, refl))
