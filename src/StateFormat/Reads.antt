-- ===== src/StateFormat/Reads.antt =====
-- state-format.js: a read over any chunks is a read of the bytes that they make up together.
use my.Base.{
  ℕ, zero, suc, ◌-◌, ◌≡◌, ◌≤◌, ◌<◌, refl, sym, ap, ◌∙◌, min, Bool, List, [], ◌++◌, length, take,
  drop, length-append, length-drop, arith,
}
use mathlib.Core.Path.{subst}
use mathlib.Core.List.{append_assoc, append-nil}
use my.Base.Failure.{Result, ok, err, ◌>>=◌, invalid_state}
use my.StateFormat.{Reader, advance, available, copy_with, into, read}
use my.StateFormat.Whole.{
  bytes_of, rest, IsIntact, Filled, left_over, at_end, check-none, available-Filled, take_split,
  drop_split, pause-eq,
}

-- What a read of `n` bytes from `r` after those of `out` comes to.
pub data Copies (n : ℕ) (out : List ℕ) (r : Reader) : Result (List ℕ × Reader) → Type 0 where
  done :
      (k : Reader) (bytes : List ℕ)
      → n ≤ length (rest r)
      → bytes ≡ out ++ take n (rest r)
      → rest k ≡ drop n (rest r)
      → IsIntact k
      → Copies n out r (ok (bytes, k))
  short : length (rest r) < n → Copies n out r (err invalid_state)

-- The first bytes of a read have been copied from the chunk of `k`, and the others follow.
copied :
    (c n : ℕ) (out : List ℕ) (r k j : Reader) (x : Result (List ℕ × Reader))
    → rest k ≡ rest r
    → c ≤ n
    → c ≤ length k.chunk
    → rest j ≡ drop c k.chunk ++ bytes_of k.stream
    → Copies (n - c) (out ++ take c k.chunk) j x
    → Copies n out r x
copied c n out r k j x e p q f (done i bytes m b d h) =
    done i bytes
      (omega (
        arith,
        ap length e,
        ap length f,
        length-append k.chunk (bytes_of k.stream),
        length-append (drop c k.chunk) (bytes_of k.stream),
        length-drop c k.chunk,
      ))
      (b
        ∙ append_assoc out (take c k.chunk) (take (n - c) (rest j))
        ∙ ap (λ t. out ++ t)
            (ap (λ t. take c k.chunk ++ take (n - c) t) f
              ∙ take_split c n k.chunk (bytes_of k.stream) p q
              ∙ ap (take n) e))
      (d ∙ ap (drop (n - c)) f ∙ drop_split c n k.chunk (bytes_of k.stream) p q ∙ ap (drop n) e) h
copied c n out r k j x e p q f (short l) = short (
    omega (
      arith,
      l,
      ap length e,
      ap length f,
      length-append k.chunk (bytes_of k.stream),
      length-append (drop c k.chunk) (bytes_of k.stream),
      length-drop c k.chunk,
    ))

-- A round of `into`, given what its other rounds do.
round :
    (fuel left : ℕ) (out : List ℕ) (r : Reader) (x : Result (Reader × Bool))
    → ((n : ℕ) (o : List ℕ) (j : Reader) → n ≤ fuel → IsIntact j → Copies n o j (into fuel n o j))
    → left ≤ fuel
    → Filled r x
    → Copies (suc left) out r (x >>= λ a. copy_with (into fuel) (suc left) out a)
unfolding copy_with
round fuel left out r x go h (at_end k i e) = short (omega (arith, ap length e))
round fuel left out r x go h (left_over k i n e) =
    let c = min (suc left) (length k.chunk) in
    let p = pause-eq (advance c k) i.calm in
    let j : Reader = record (advance c k) { copied = p.0 } in
    subst
      (λ (m : Result Reader).
        Copies (suc left) out r (m >>= λ t. into fuel (suc left - c) (out ++ take c k.chunk) t))
      (sym p.1)
      (copied c (suc left) out r k j _ e (omega arith) (omega arith) refl (
        go (suc left - c) (out ++ take c k.chunk) j (omega arith)
          (record { calm = i.calm; whole = i.whole; room = i.room })))

into-Copies :
    (fuel left : ℕ) (out : List ℕ) (r : Reader)
    → left ≤ fuel
    → IsIntact r
    → Copies left out r (into fuel left out r)
unfolding into
into-Copies fuel zero out r h i = done r out (omega arith) (sym (append-nil out)) refl i
into-Copies zero (suc left) out r h i = absurd (omega arith)
into-Copies (suc fuel) (suc left) out r h i =
    round fuel left out r (available r) (into-Copies fuel) (omega arith) (available-Filled r i)

-- A reader that is not cancelled and whose chunks are byte arrays, of no more bytes than it takes: a
-- read of `n` bytes, whatever the chunks, gives the next `n` bytes of all that is left, and leaves
-- the bytes after them, if there are so many, and fails with INVALID_STATE if there are fewer.
pub read-Copies : (n : ℕ) (r : Reader) → IsIntact r → Copies n [] r (read n r)
unfolding read
read-Copies n r i =
    subst (λ (m : Result Reader). Copies n [] r (m >>= λ k. into n n [] k))
      (sym (check-none r i.calm)) (into-Copies n n [] r (omega arith) i)
