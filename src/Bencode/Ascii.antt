-- ===== src/Bencode/Ascii.antt =====
-- A decoder that knows ASCII only, by which what is assumed of a decoder is seen to be possible.
use my.Base.{
  ℕ, ◌≤◌, ◌<◌, ◌≡◌, refl, true, Option, none, some, List, [], ◌∷◌, length, All, all, ltb,
  if◌then◌else◌, arith,
}
use my.Base.Text.{Text}

abbrev pub decode_ascii : List ℕ → Option Text
decode_ascii b = if all (λ c. ltb c 128) b then some b else none

all-ascii : (b : List ℕ) → All (λ c. c < 128) b → all (λ c. ltb c 128) b ≡ true
all-ascii [] h = refl
all-ascii (c ∷ b) h = ground (arith, h.0, all-ascii b h.1)

pub decode_ascii-all : (b : List ℕ) → All (λ c. c < 128) b → decode_ascii b ≡ some b
decode_ascii-all b h = rw (all-ascii b h)

pub decode_ascii-short : (b : List ℕ) (t : Text) → decode_ascii b ≡ some t → length t ≤ length b
decode_ascii-short b t h = ground arith
