-- ===== src/PieceStore/Shape.antt =====
-- The constructor of torrent-store.js: how the torrent is cut into pieces.
use my.Base.{ℕ, zero, suc, ◌+◌, ◌*◌, ◌/◌, ◌≤◌, ◌<◌, ◌≡◌, [], min, arith}
use my.Base.Failure.{ok}
use my.Base.JsMap
use my.PieceStore.{Store, Rows, Options, piece_length, size_at, create}
use my.PieceStore.Cache.{total}
use my.PieceStore.World.{open_world}
use my.PieceStore.Sound.{IsSound-empty, IsValid}

pub sum_sizes : ℕ → ℕ → ℕ
sum_sizes total zero = 0
sum_sizes total (suc n) = sum_sizes total n + size_at total n

sum_sizes-eq : (total n : ℕ) → sum_sizes total n ≡ min total (n * piece_length)
unfolding sum_sizes
sum_sizes-eq total zero = omega arith
sum_sizes-eq total (suc n) = omega (arith, sum_sizes-eq total n)

-- A constructor that does not throw makes a store that satisfies the invariants over any rows, whose
-- pieces have from 1 to 256 Ki bytes and together the length of the torrent, and whose RAM budget is
-- at most 8 MiB.
pub create-IsValid :
    (chunk_length : ℕ) (o : Options) (s : Store) (rows : Rows)
    → create chunk_length o ≡ ok s
    → IsValid (open_world s rows)
      × ((i : ℕ) → i < s.count → (1 ≤ size_at s.length i) × (size_at s.length i ≤ piece_length))
      × (sum_sizes s.length s.count ≡ s.length)
      × (s.budget ≤ 8388608)
unfolding create
create-IsValid chunk_length o s rows h =
    let e : (s.cache ≡ [])
        × (s.memory_bytes ≡ 0)
        × (s.budget ≤ 8388608)
        × (1 ≤ s.length)
        × (s.count ≡ (s.length + 262143) / 262144) =
      ground arith in
    (
      record {
        sound = IsSound-empty s rows e.0 e.1;
        tasks = λ id t g. unfold JsMap.get in cc;
        quiet = λ f. cc;
      },
      λ i lt. omega arith,
      omega (arith, sum_sizes-eq s.length s.count),
      e.2,
    )
