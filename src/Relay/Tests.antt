-- ===== src/Relay/Tests.antt =====
-- Runs of the relay's adapter.
use my.Base.{◌+◌, ◌≡◌, ◌≢◌, refl, true, none, List, [], ◌∷◌, ◌++◌, arith, replicate}
use my.Base.Num.{nat}
use my.Base.Text.{Text, is_hex, text_eq}
use my.Relay.{Event, frame, retry, connect, closing, aborting}
use my.Relay.Steps.{
  run, create, step, on_key_known, find_address, on_address_known, start_socket, on_opened,
  on_message, read_message, on_challenge, sign, on_signed, on_granted, send_frame_on,
}
use my.Relay.Stages.{stage, fresh, broken, live}
use my.Relay.Order.{run-ordered}
use my.Relay.Online.{answers, IsOnline, run-answers}

abbrev origin : Text
origin = b'o' ∷ []

abbrev url : Text
url = b'u' ∷ []

abbrev nonce : Text
nonce = replicate 64 b'7'

-- The first connection is answered, a frame of 60 bytes goes out, and one of 1515 does not.
abbrev session : List Event
session =
    answers 1 [] url origin nonce (nat 100) [] 95000 ++ (frame 60 true 0 ∷ frame 1515 true 0 ∷ [])

session_reaches_end : stage none fresh (run (create none origin) session).calls ≡ live
unfolding run step create connect stage on_key_known find_address on_address_known start_socket
    on_opened on_message read_message on_challenge sign on_signed on_granted send_frame_on closing
    aborting text_eq is_hex
session_reaches_end = refl

run-ordered_example : stage none fresh (run (create none origin) session).calls ≢ broken
run-ordered_example = run-ordered none origin session

run-answers_example : IsOnline ((create none origin).generation + 1) (
    run (create none origin) (
      retry
      ∷ answers
          ((create none origin).generation + 1)
          []
          url
          (create none origin).origin
          nonce
          (nat 100)
          []
          95000))
run-answers_example =
    run-answers (create none origin) [] url nonce [] 100 95000 (unfold create connect in refl)
      (unfold create connect in refl) (unfold is_hex in refl) (omega arith) (omega arith)
      (omega arith)
