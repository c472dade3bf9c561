-- ===== src/StateFormat/Tests.antt =====
-- Reads of a state that comes in three chunks.
use my.Base.{◌≡◌, refl, none, some, [], ◌∷◌, arith}
use my.Base.Failure.{ok, err, invalid_state}
use my.StateFormat.{Reader, check_with, take_chunk, fill, available, pause, copy_with, into, read}
use my.StateFormat.Reads.{Copies, read-Copies}

abbrev three : Reader
three = record {
  stream = some (1 ∷ 2 ∷ []) ∷ some [] ∷ some (3 ∷ 4 ∷ 5 ∷ []) ∷ [];
  chunk = [];
  max_size = 5;
  received = 0;
  copied = 0;
  checks = none;
}

read_across :
    read 4 three
    ≡ ok
        (1 ∷ 2 ∷ 3 ∷ 4 ∷ [], record three { stream = []; chunk = 5 ∷ []; received = 5; copied = 4 })
unfolding check_with take_chunk fill available pause copy_with into read
read_across = refl

read_short : read 6 three ≡ err invalid_state
unfolding check_with take_chunk fill available pause copy_with into read
read_short = refl

read-Copies_example : Copies 4 [] three (read 4 three)
read-Copies_example = read-Copies 4 three (record { calm = refl; whole = tt; room = omega arith })
