-- ===== src/Relay/Online.antt =====
-- relay-network.js: a connection that is answered comes online.
use my.Base.{ℕ, ◌+◌, ◌*◌, ◌≤◌, ◌≡◌, true, false, none, some, List, [], ◌∷◌, arith}
use my.Base.Num.{Num, nat, max_safe}
use my.Base.Text.{Text, text_eq_refl, is_hex}
use my.Relay.{
  challenge, granted, Event, key_known, address_known, opened, message, signed, retry, Relay,
  connect,
}
use my.Relay.Steps.{
  start_socket, find_address, on_opened, sign, on_challenge, on_granted, read_message, on_message,
  on_signed, on_key_known, on_address_known, step, run,
}

-- The answers that a connection of generation `g` waits for.
abbrev pub answers : ℕ → Text → Text → Text → Text → Num → Text → ℕ → List Event
answers g key url origin nonce expires signature now =
    key_known g key true
    ∷ address_known g url true
    ∷ opened g true
    ∷ message g (challenge url origin nonce expires) now
    ∷ signed g signature true
    ∷ message g granted now
    ∷ []

-- Online with the socket of generation `g`, and the delay of a new attempt is the first again.
abbrev pub IsOnline : ℕ → Relay → Type 0
IsOnline g r = (r.is_ready ≡ true) × (r.socket ≡ some g) × (r.delay ≡ 1000)

-- An adapter that is not closed and finds its relay by a resolver, in whatever state its connection
-- is, comes online by a retry that is answered: the signer gives its key, the resolver the address, the
-- socket opens, the challenge names that address and the adapter's origin, has a nonce of 64
-- hexadecimal digits and expires at most a second ago and at most 11 seconds from now, the signer
-- signs it, and the relay grants. Its socket is then that of the new generation and its delay 1000.
pub run-answers :
    (r : Relay) (key url nonce signature : Text) (expires now : ℕ)
    → r.is_closed ≡ false
    → r.fixed_url ≡ none
    → is_hex 64 nonce ≡ true
    → expires ≤ max_safe
    → now ≤ expires * 1000 + 1000
    → expires * 1000 ≤ now + 11000
    → IsOnline (r.generation + 1) (
        run r
          (retry ∷ answers (r.generation + 1) key url r.origin nonce (nat expires) signature now))
unfolding run step connect on_key_known find_address on_address_known start_socket on_opened
    on_message read_message on_challenge sign on_signed on_granted
run-answers r key url nonce signature expires now c f n x y z =
    ground (arith, text_eq_refl url, text_eq_refl r.origin)
