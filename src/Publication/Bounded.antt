-- ===== src/Publication/Bounded.antt =====
-- torrent-records.js: `boundedBytes`, the body of a response up to a limit.
use my.Base.{
  ℕ, ◌+◌, ◌≤◌, ◌≡◌, ◌↔◌, refl, sym, ap, ◌∙◌, inl, inr, Bool, true, false, not, Option, none, some,
  List, [], ◌∷◌, ◌++◌, length, length-append, ltb, if◌then◌else◌, Bool-cases, if_cases, arith,
}
use mathlib.Core.Path.{subst₂}
use my.Base.Failure.{
  Code, invalid_publication, publication_unavailable, Result, ok, err, ◌>>=◌, >>=-eq_ok,
  ok-injective,
}

abbrev Bytes : Type 0
Bytes = List ℕ

-- The header Content-Length: absent, no row of digits, or a number.
pub data ContentLength : Type 0 where
  absent malformed : ContentLength
  announced : ℕ → ContentLength

-- What a reader gives: its chunks, and then its end or an error.
abbrev pub Body : Type 0
Body = List Bytes × Option Code

-- The loop over the chunks, with `size`, and the concatenation of the parts.
unfoldable pub read_chunks : ℕ → ℕ → List Bytes → Option Code → Result Bytes
read_chunks limit size [] none = ok []
read_chunks limit size [] (some c) = err c
read_chunks limit size (p ∷ ps) end =
    let rest = read_chunks limit (size + length p) ps end in
    if ltb limit (size + length p)
    then err invalid_publication
    else rest >>= λ bytes. ok (p ++ bytes)

abbrev pub length_ok : ContentLength → ℕ → Bool
length_ok absent limit = true
length_ok malformed limit = false
length_ok (announced n) limit = not (ltb limit n)

unfoldable pub read_body : ℕ → Option Body → Result Bytes
read_body limit none = err publication_unavailable
read_body limit (some (chunks, end)) = read_chunks limit 0 chunks end

-- boundedBytes(response,limit)
unfoldable pub bounded_bytes : ContentLength → Option Body → ℕ → Result Bytes
bounded_bytes len body limit =
    if length_ok len limit then read_body limit body else err invalid_publication

abbrev pub flatten : List Bytes → Bytes
flatten [] = []
flatten (p ∷ ps) = p ++ flatten ps

no_value : {A : Type 0} {e : Code} {a : A} → err e ≡ ok a → ⊥
no_value h = cc

read_chunks-flatten :
    (limit size : ℕ) (ps : List Bytes) (end : Option Code) (bytes : Bytes)
    → size ≤ limit
    → read_chunks limit size ps end ≡ ok bytes
    → (end ≡ none) × (bytes ≡ flatten ps) × (size + length bytes ≤ limit)
unfolding read_chunks
read_chunks-flatten limit size [] none bytes l h =
    let e : [] ≡ bytes = ok-injective [] bytes h in (refl, sym e, omega (arith, l, ap length e))
read_chunks-flatten limit size [] (some c) bytes l h = absurd (no_value h)
read_chunks-flatten limit size (p ∷ ps) end bytes l h =
    elim (Bool-cases (ltb limit (size + length p))) [
      | inl e ↦ absurd (no_value (rw e at h))
      | inr e ↦
          let made =
            >>=-eq_ok (read_chunks limit (size + length p) ps end) (λ b. ok (p ++ b)) (rw e at h) in
          let rest =
            read_chunks-flatten limit (size + length p) ps end made.0 (ground arith) made.1 in
          let same : p ++ made.0 ≡ bytes = ok-injective _ bytes made.2 in
          (
            rest.0,
            sym same ∙ ap (λ b. p ++ b) rest.1,
            omega (arith, rest.2, ap length same, length-append p made.0),
          )
    ]

flatten-read_chunks :
    (limit size : ℕ) (ps : List Bytes)
    → size + length (flatten ps) ≤ limit
    → read_chunks limit size ps none ≡ ok (flatten ps)
unfolding read_chunks
flatten-read_chunks limit size [] l = refl
flatten-read_chunks limit size (p ∷ ps) l =
    let n = length-append p (flatten ps) in
    let first : ltb limit (size + length p) ≡ false = ground (arith, n) in
    rw first (rw (flatten-read_chunks limit (size + length p) ps (omega (arith, n))) refl)

-- The response announces no more than the limit, if it announces a length, has a body that ends
-- without an error, and `bytes` are its chunks joined, within the limit.
abbrev pub Exact : ContentLength → Option Body → ℕ → Bytes → Type 0
Exact len body limit bytes =
    (length_ok len limit ≡ true)
    × (chunks : List Bytes) × (body ≡ some (chunks, none))
    × (bytes ≡ flatten chunks)
    × (length bytes ≤ limit)

body_of :
    (body : Option Body) (limit : ℕ) (bytes : Bytes)
    → read_body limit body ≡ ok bytes
    → (chunks : List Bytes) × (body ≡ some (chunks, none))
      × (bytes ≡ flatten chunks)
      × (length bytes ≤ limit)
unfolding read_body
body_of none limit bytes h = absurd (no_value h)
body_of (some (chunks, end)) limit bytes h =
    let r = read_chunks-flatten limit 0 chunks end bytes (omega arith) h in
    (chunks, ap (λ e. some (chunks, e)) r.0, r.1, omega (arith, r.2))

-- `boundedBytes` returns bytes exactly if the announced length, where there is one, is a number
-- within the limit, there is a body that ends without an error, the bytes are its chunks joined, and
-- their length is within the limit.
pub bounded_bytes_iff :
    (len : ContentLength) (body : Option Body) (limit : ℕ) (bytes : Bytes)
    → (bounded_bytes len body limit ≡ ok bytes) ↔ Exact len body limit bytes
unfolding bounded_bytes read_body
bounded_bytes_iff len body limit bytes = (
  if_cases (λ m. m ≡ ok bytes → Exact len body limit bytes) (length_ok len limit)
      (read_body limit body) (err invalid_publication)
      (λ e h. let r = body_of body limit bytes h in (e, r.0, r.1, r.2, r.3))
      (λ _ h. absurd (no_value h)),
  λ x. rw (x.0) (
      subst₂ (λ b t. read_body limit b ≡ ok t) (sym x.2) (sym x.3)
        (flatten-read_chunks limit 0 x.1 (omega (arith, x.4, ap length x.3)))),
)
