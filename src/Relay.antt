-- ===== src/Relay.antt =====
-- `RelayNetworkAdapter` of src/browser/relay-network.js, the Ethernet of a machine over a WebSocket.
-- A wait of `connect` ends in a later event, which names the generation that waited; so does an
-- event of a socket, which has the number of the generation that opened it. What the signer and
-- the resolver of addresses answer comes with their event.
pub mod Steps
pub mod Stages
mod Calls
mod Waits
pub mod Order
pub mod Online
mod Tests
use my.Base.{
  ℕ, ◌+◌, ◌*◌, min, Bool, true, false, not, ◌&&◌, ◌||◌, Option, none, some, List, [], ◌∷◌, ◌++◌,
  ltb, leb, ◌==◌, if◌then◌else◌,
}
use my.Base.Num.{Num, safe_nat}
use my.Base.Text.{Text, text_eq, is_hex}

pub data Status : Type 0 where
  connecting online offline rejected identity_closed closed : Status

pub data Phase : Type 0 where
  hello signing authenticated ready refused : Phase

-- What `connect` waits for.
pub data Wait : Type 0 where
  nothing key address : Wait

-- What the adapter asks of its surroundings. Sockets have their generation.
pub data Call : Type 0 where
  register unregister stop_watching clear_retry clear_auth : Call
  told : Status → Call
  ask_key ask_address abort_address arm_auth close_socket : ℕ → Call
  open_socket : ℕ → Text → Call
  send_hello send_authenticate : ℕ → Text → Call
  ask_signature : ℕ → Text → Text → Text → ℕ → Call
  send_frame : ℕ → ℕ → Call
  receive_frame : ℕ → Call
  arm_retry : ℕ → Call

pub data Message : Type 0 where
  binary : ℕ → Message
  challenge : Text → Text → Text → Num → Message
  granted : Message
  other : Message

pub data Event : Type 0 where
  -- with whether the constructor of the socket succeeds, if it is called at once
  key_known : ℕ → Text → Bool → Event
  key_failed address_failed : ℕ → Event
  address_known : ℕ → Text → Bool → Event
  -- with whether the server took the protocol
  opened : ℕ → Bool → Event
  -- with the time in milliseconds
  message : ℕ → Message → ℕ → Event
  -- with whether the socket is open
  signed : ℕ → Text → Bool → Event
  sign_failed : ℕ → Event
  socket_closed : ℕ → ℕ → Event
  -- the timers
  retry_due : Event
  auth_due : ℕ → Event
  -- a frame of the guest: its length, whether the socket is open, and what that has buffered
  frame : ℕ → Bool → ℕ → Event
  retry destroy signer_closed : Event

pub record Relay : Type 0 where
  pub fixed_url : Option Text
  pub origin : Text
  pub url : Text
  pub delay : ℕ
  pub is_ready : Bool
  pub is_closed : Bool
  pub watching : Bool
  pub generation : ℕ
  pub socket : Option ℕ
  -- Of the connection of this generation: the variable `phase`, what `connect` waits for, and
  -- whether a signature is awaited.
  pub phase : Phase
  pub waits : Wait
  pub is_signing : Bool
  -- The generation of the discovery that was begun last.
  pub discovery : Option ℕ
  pub key : Text
  pub calls : List Call

abbrev pub emit : Call → Relay → Relay
emit c r = record r { calls = r.calls ++ c ∷ [] }

unfoldable pub closing : Option ℕ → List Call
closing none = []
closing (some g) = close_socket g ∷ []

unfoldable pub aborting : Option ℕ → List Call
aborting none = []
aborting (some g) = abort_address g ∷ []

-- `this.socket?.close()`
abbrev pub close_last : Relay → Relay
close_last r = record r { calls = r.calls ++ closing r.socket }

-- `this.discoveryController?.abort()`
abbrev pub abort_last : Relay → Relay
abort_last r = record r { calls = r.calls ++ aborting r.discovery }

-- connect(), up to its first wait.
unfoldable pub connect : Relay → Relay
connect r =
    let r' = record (emit clear_auth (emit clear_retry r)) {
      generation = r.generation + 1;
      is_ready = false;
      waits = nothing;
      is_signing = false;
    } in
    let r'' = abort_last (close_last r') in
    if r.is_closed
    then r''
    else record (emit (ask_key (r.generation + 1)) (emit (told connecting) r'')) { waits = key }

-- destroy(), which ends with `status` if it has one.
abbrev told_last : Option Status → Relay → Relay
told_last none r = r
told_last (some s) r = emit (told s) r

unfoldable pub destroy_with : Option Status → Relay → Relay
destroy_with status r =
    let r' = record r {
      is_closed = true;
      is_ready = false;
      generation = r.generation + 1;
      waits = nothing;
      is_signing = false;
    } in
    let r'' = emit unregister (close_last (emit clear_auth (emit clear_retry r'))) in
    let k = abort_last r'' in
    if r.is_closed
    then r
    else told_last status
        (if r.watching then record (emit stop_watching k) { watching = false } else k)

-- The end of the connection by a signer that is closed.
abbrev pub close_identity : Relay → Relay
close_identity r = destroy_with none (emit (told identity_closed) r)

-- reconnect(generation)
unfoldable pub reconnect : ℕ → Relay → Relay
reconnect g r =
    if r.is_closed || not (g == r.generation)
    then r
    else record (emit (arm_retry r.delay) (emit (told offline) r)) {
      is_ready = false;
      delay = min 30000 (r.delay * 2);
    }
