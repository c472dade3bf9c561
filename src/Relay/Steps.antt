-- ===== src/Relay/Steps.antt =====
-- relay-network.js: the waits of `connect`, the handlers of a socket, and the runs of the adapter.
use my.Base.{
  ℕ, ◌+◌, ◌*◌, Bool, true, false, not, ◌&&◌, ◌||◌, Option, none, some, List, [], ◌∷◌, ltb, leb,
  ◌==◌, if◌then◌else◌,
}
use my.Base.Num.{Num, safe_nat}
use my.Base.Text.{Text, text_eq, is_hex}
use my.Relay.{
  online, rejected, closed, Phase, hello, signing, authenticated, ready, refused, Wait, nothing,
  key, address, register, clear_auth, told, ask_address, arm_auth, close_socket, open_socket,
  send_hello, send_authenticate, ask_signature, send_frame, receive_frame, Message, binary,
  challenge, granted, other, Event, key_known, key_failed, address_failed, address_known, opened,
  message, signed, sign_failed, socket_closed, retry_due, auth_due, frame, retry, destroy,
  signer_closed, Relay, emit, connect, destroy_with, close_identity, reconnect,
}

-- The socket is made, if its constructor succeeds.
unfoldable pub start_socket : Text → Bool → Relay → Relay
start_socket url true r =
    record (emit (arm_auth r.generation) (emit (open_socket r.generation url) r)) {
      url = url;
      socket = some r.generation;
      phase = hello;
    }
start_socket url false r = reconnect r.generation (record r { url = url })

unfoldable pub find_address : Option Text → Bool → Relay → Relay
find_address (some url) can_open r = start_socket url can_open r
find_address none can_open r = record (emit (ask_address r.generation) r) { waits = address }

abbrev pub is_waiting : Wait → Wait → Bool
is_waiting key key = true
is_waiting address address = true
is_waiting _ _ = false

abbrev pub is_socket : Option ℕ → ℕ → Bool
is_socket none g = false
is_socket (some k) g = k == g

-- current(), for the socket of generation `g`
abbrev pub current : ℕ → Relay → Bool
current g r = is_socket r.socket g && g == r.generation && not r.is_closed

-- `phase='rejected';this.state('rejected');socket.close();`
unfoldable pub refuse : ℕ → Relay → Relay
refuse g r = record (emit (close_socket g) (emit (told rejected) r)) { phase = refused }

unfoldable pub on_opened : ℕ → Bool → Relay → Relay
on_opened g same_protocol r =
    if not (current g r)
    then r
    else if same_protocol
    then emit (send_hello g r.key) r
    else refuse g r

unfoldable pub on_binary : ℕ → ℕ → Relay → Relay
on_binary g n r =
    if not r.is_ready || ltb n 14 || ltb 1514 n then refuse g r else emit (receive_frame n) r

-- Number.isSafeInteger(expires) and its two bounds, at the time `now`
abbrev pub expires_soon : Num → ℕ → Option ℕ
expires_soon n now = elim (safe_nat n) [
  | none ↦ none
  | some e ↦ if leb now (e * 1000 + 1000) && leb (e * 1000) (now + 11000) then some e else none
]

-- A challenge in phase `hello` that the other tests have passed, if it expires in time.
unfoldable pub sign : ℕ → Text → Option ℕ → Relay → Relay
sign g nonce none r = refuse g r
sign g nonce (some e) r =
    let r' = record r { phase = signing } in
    if is_hex 64 nonce
    then record (emit (ask_signature g r.url r.origin nonce e) r') { is_signing = true }
    else refuse g r'

unfoldable pub on_challenge : Phase → ℕ → Text → Text → Text → Option ℕ → Relay → Relay
on_challenge hello g url origin nonce expires r =
    if text_eq url r.url && text_eq origin r.origin then sign g nonce expires r else refuse g r
on_challenge _ g url origin nonce expires r = refuse g r

unfoldable pub on_granted : Phase → ℕ → Relay → Relay
on_granted authenticated g r = record (emit (told online) (emit clear_auth r)) {
  phase = ready;
  is_ready = true;
  delay = 1000;
}
on_granted _ g r = refuse g r

unfoldable pub read_message : Message → ℕ → ℕ → Relay → Relay
read_message (binary n) g now r = on_binary g n r
read_message (challenge url origin nonce expires) g now r =
    on_challenge r.phase g url origin nonce (expires_soon expires now) r
read_message granted g now r = on_granted r.phase g r
read_message other g now r = refuse g r

unfoldable pub on_message : ℕ → Message → ℕ → Relay → Relay
on_message g m now r = if current g r then read_message m g now r else r

unfoldable pub on_signed : ℕ → Text → Bool → Relay → Relay
on_signed g signature is_open r =
    let r' = record r { is_signing = false } in
    if not r.is_signing || not (current g r)
    then r
    else if is_open
    then record (emit (send_authenticate g signature) r') { phase = authenticated }
    else r'

unfoldable pub on_sign_failed : ℕ → Relay → Relay
on_sign_failed g r =
    if not r.is_signing || not (current g r) then r else refuse g (record r { is_signing = false })

abbrev is_refused : Phase → Bool
is_refused refused = true
is_refused _ = false

unfoldable pub on_socket_closed : ℕ → ℕ → Relay → Relay
on_socket_closed g code r =
    let r' = record (emit clear_auth r) { is_ready = false } in
    if not (current g r)
    then r
    else if code == 1008 || is_refused r.phase
    then emit (told rejected) r'
    else reconnect g r'

unfoldable pub send_frame_on : Option ℕ → ℕ → Bool → ℕ → Relay → Relay
send_frame_on none n is_open buffered r = r
send_frame_on (some g) n is_open buffered r =
    if not r.is_ready || not is_open || (ltb 1514 n || ltb 65536 buffered)
    then r
    else emit (send_frame g n) r

unfoldable pub on_key_known : ℕ → Text → Bool → Relay → Relay
on_key_known g k can_open r =
    if g == r.generation && not r.is_closed && is_waiting r.waits key
    then find_address r.fixed_url can_open
        (record r { key = k; waits = nothing; discovery = some g })
    else r

unfoldable pub on_key_failed : ℕ → Relay → Relay
on_key_failed g r =
    if g == r.generation && is_waiting r.waits key
    then close_identity (record r { waits = nothing })
    else r

unfoldable pub on_address_known : ℕ → Text → Bool → Relay → Relay
on_address_known g url can_open r =
    if g == r.generation && not r.is_closed && is_waiting r.waits address
    then start_socket url can_open (record r { waits = nothing })
    else r

unfoldable pub on_address_failed : ℕ → Relay → Relay
on_address_failed g r =
    if g == r.generation && is_waiting r.waits address
    then reconnect g (record r { waits = nothing })
    else r

unfoldable pub on_auth_due : ℕ → Relay → Relay
on_auth_due g r = if current g r && not r.is_ready then emit (close_socket g) r else r

unfoldable pub step : Relay → Event → Relay
step r (key_known g k can_open) = on_key_known g k can_open r
step r (key_failed g) = on_key_failed g r
step r (address_known g url can_open) = on_address_known g url can_open r
step r (address_failed g) = on_address_failed g r
step r (opened g same_protocol) = on_opened g same_protocol r
step r (message g m now) = on_message g m now r
step r (signed g signature is_open) = on_signed g signature is_open r
step r (sign_failed g) = on_sign_failed g r
step r (socket_closed g code) = on_socket_closed g code r
step r retry_due = connect r
step r (auth_due g) = on_auth_due g r
step r (frame n is_open buffered) = send_frame_on r.socket n is_open buffered r
step r retry = if r.is_closed then r else connect (record r { delay = 1000 })
step r destroy = destroy_with (some closed) r
step r signer_closed = if r.watching then close_identity r else r

unfoldable pub run : Relay → List Event → Relay
run r [] = r
run r (e ∷ es) = run (step r e) es

-- The constructor, with a signer that can be watched.
unfoldable pub create : Option Text → Text → Relay
create fixed_url origin = connect (record {
  fixed_url = fixed_url;
  origin = origin;
  url = [];
  delay = 1000;
  is_ready = false;
  is_closed = false;
  watching = true;
  generation = 0;
  socket = none;
  phase = hello;
  waits = nothing;
  is_signing = false;
  discovery = none;
  key = [];
  calls = register ∷ [];
})
