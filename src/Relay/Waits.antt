-- ===== src/Relay/Waits.antt =====
-- relay-network.js: the waits of connect and the frames keep the order of the calls.
use my.Base.{
  ℕ, ◌≡◌, ◌≢◌, refl, Bool, true, false, not, ◌&&◌, ◌||◌, Option, none, some, List, ltb, leb, ◌==◌,
  if_cases, arith,
}
use my.Base.Text.{Text}
use my.Relay.{
  Phase, Wait, nothing, key, address, Call, ask_address, arm_auth, send_hello, send_frame,
  receive_frame, Relay,
}
use my.Relay.Steps.{
  start_socket, find_address, is_waiting, is_socket, current, on_opened, on_binary, send_frame_on,
  on_key_known, on_key_failed, on_address_known, on_address_failed,
}
use my.Relay.Stages.{live, Ordered, Stage, after_frame, Below, IsOrdered, quiet, to_wait, silence}
use my.Relay.Calls.{
  close_identity-IsOrdered, reconnect-IsOrdered, refuse-IsOrdered, is_waiting_ne, keep, open_lem,
}

start_socket-IsOrdered :
    (url : Text) (can_open : Bool) (r : Relay)
    → r.is_signing ≡ false
    → r.is_ready ≡ false
    → (r.waits ≢ nothing → ⊥)
    → IsOrdered r
    → IsOrdered (start_socket url can_open r)
unfolding start_socket
start_socket-IsOrdered url true r a b c h =
    quiet (arm_auth r.generation) silence (open_lem url a b c h)
start_socket-IsOrdered url false r a b c h =
    reconnect-IsOrdered r.generation (record r { url = url }) h

-- After a wait the connection is neither signing nor ready.
waited :
    {p : Phase} {sg rd : Bool} {so : Option ℕ} {w : Wait} {gen : ℕ} {cs : List Call}
    → Ordered p sg rd so w gen cs
    → Ordered p sg rd so nothing gen cs
waited h = record {
  place = h.place;
  trace = h.trace;
  sound = h.sound;
  last = h.last;
  at_hello = h.at_hello;
  at_signing = h.at_signing;
  at_authenticated = h.at_authenticated;
  at_ready = h.at_ready;
  bound = h.bound;
  idle = λ n. absurd (n refl);
}

find_address-IsOrdered :
    (o : Option Text) (b : Bool) (r : Relay)
    → r.is_signing ≡ false
    → r.is_ready ≡ false
    → (r.waits ≢ nothing → ⊥)
    → Below r.socket r.generation
    → IsOrdered r
    → IsOrdered (find_address o b r)
unfolding find_address
find_address-IsOrdered (some url) b r x y c z h = start_socket-IsOrdered url b r x y c h
find_address-IsOrdered none b r x y c z h =
    to_wait address x y z (quiet (ask_address r.generation) silence h)

pub on_key_known-IsOrdered :
    (g : ℕ) (k : Text) (b : Bool) (r : Relay) → IsOrdered r → IsOrdered (on_key_known g k b r)
unfolding on_key_known
on_key_known-IsOrdered g k b r h =
    if_cases IsOrdered (g == r.generation && not r.is_closed && is_waiting r.waits key) _ _
      (λ e.
        let i = h.idle (is_waiting_ne r.waits key (ground arith)) in
        find_address-IsOrdered r.fixed_url b
          (record r { key = k; waits = nothing; discovery = some g }) i.0 i.1 (λ n. n refl) i.2
          (waited h))
      (λ _. h)

pub on_key_failed-IsOrdered : (g : ℕ) (r : Relay) → IsOrdered r → IsOrdered (on_key_failed g r)
unfolding on_key_failed
on_key_failed-IsOrdered g r h =
    if_cases IsOrdered (g == r.generation && is_waiting r.waits key) _ _
      (λ _. close_identity-IsOrdered (record r { waits = nothing }) (waited h)) (λ _. h)

pub on_address_known-IsOrdered :
    (g : ℕ) (url : Text) (b : Bool) (r : Relay)
    → IsOrdered r
    → IsOrdered (on_address_known g url b r)
unfolding on_address_known
on_address_known-IsOrdered g url b r h =
    if_cases IsOrdered (g == r.generation && not r.is_closed && is_waiting r.waits address) _ _
      (λ e.
        let i = h.idle (is_waiting_ne r.waits address (ground arith)) in
        start_socket-IsOrdered url b (record r { waits = nothing }) i.0 i.1 (λ n. n refl)
          (waited h))
      (λ _. h)

pub on_address_failed-IsOrdered :
    (g : ℕ) (r : Relay) → IsOrdered r → IsOrdered (on_address_failed g r)
unfolding on_address_failed
on_address_failed-IsOrdered g r h =
    if_cases IsOrdered (g == r.generation && is_waiting r.waits address) _ _
      (λ _. reconnect-IsOrdered g (record r { waits = nothing }) (waited h)) (λ _. h)

pub on_opened-IsOrdered : (g : ℕ) (b : Bool) (r : Relay) → IsOrdered r → IsOrdered (on_opened g b r)
unfolding on_opened
on_opened-IsOrdered g b r h =
    if_cases IsOrdered (not (current g r)) _ _ (λ _. h)
      (λ _.
        if_cases IsOrdered b _ _ (λ _. quiet (send_hello g r.key) silence h)
          (λ _. refuse-IsOrdered g r h))

pub on_binary-IsOrdered : (g n : ℕ) (r : Relay) → IsOrdered r → IsOrdered (on_binary g n r)
unfolding on_binary
on_binary-IsOrdered g n r h =
    if_cases IsOrdered (not r.is_ready || ltb n 14 || ltb 1514 n) _ _ (λ _. refuse-IsOrdered g r h)
      (λ e.
        keep (receive_frame n) h (passes h.place (h.at_ready (ground arith)) (ground arith))
          (λ o. refl))
  where
    passes :
        (s : Stage)
        → s ≡ live
        → (leb 14 n && leb n 1514) ≡ true
        → after_frame (leb 14 n && leb n 1514) s ≡ s
    passes s e t = rw (e, t) refl

pub send_frame_on-IsOrdered :
    (o : Option ℕ) (n : ℕ) (b : Bool) (q : ℕ) (r : Relay)
    → r.socket ≡ o
    → IsOrdered r
    → IsOrdered (send_frame_on o n b q r)
unfolding send_frame_on
send_frame_on-IsOrdered none n b q r s h = h
send_frame_on-IsOrdered (some g) n b q r s h =
    if_cases IsOrdered (not r.is_ready || not b || (ltb 1514 n || ltb 65536 q)) _ _ (λ _. h)
      (λ e.
        keep (send_frame g n) h
          (passes (is_socket r.socket g) h.place (rw s (ground arith)) (h.at_ready (ground arith))
            (ground arith))
          (λ o. refl))
  where
    passes :
        (b : Bool) (s : Stage)
        → b ≡ true
        → s ≡ live
        → leb n 1514 ≡ true
        → after_frame (b && leb n 1514) s ≡ s
    passes b s f e t = rw (f, e, t) refl
