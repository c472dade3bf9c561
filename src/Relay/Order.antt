-- ===== src/Relay/Order.antt =====
-- relay-network.js: on each socket the authentication goes before the frames.
use my.Base.{
  ℕ, ◌≡◌, ◌≢◌, refl, sym, Bool, true, false, not, ◌&&◌, ◌||◌, Option, none, some, List, [], ◌∷◌,
  if_cases,
}
use mathlib.Core.Path.{subst}
use my.Base.Text.{Text, text_eq, is_hex}
use my.Relay.{
  rejected, closed, Phase, hello, signing, authenticated, ready, refused, nothing, clear_auth, told,
  close_socket, Message, binary, challenge, granted, other, Event, key_known, key_failed,
  address_failed, address_known, opened, message, signed, sign_failed, socket_closed, retry_due,
  auth_due, frame, retry, destroy, signer_closed, Relay, emit,
}
use my.Relay.Steps.{
  is_socket, current, sign, on_challenge, on_granted, read_message, on_message, on_signed,
  on_sign_failed, on_socket_closed, on_auth_due, step, run, create,
}
use my.Relay.Stages.{
  fresh, broken, stage, socket_after, IsOrdered, quiet, offline_now, unsigned, to_phase, silence,
}
use my.Relay.Calls.{
  connect-IsOrdered, destroy_with-IsOrdered, close_identity-IsOrdered, reconnect-IsOrdered,
  refuse-IsOrdered, current-is_socket, not-current_Below, ask_lem, send_lem, online_lem,
}
use my.Relay.Waits.{
  on_key_known-IsOrdered, on_key_failed-IsOrdered, on_address_known-IsOrdered,
  on_address_failed-IsOrdered, on_opened-IsOrdered, on_binary-IsOrdered, send_frame_on-IsOrdered,
}

-- What a handler of a socket may take from its test.
abbrev Heeds : ℕ → Relay → Type 0
Heeds g r = (is_socket r.socket g ≡ true) × (r.waits ≢ nothing → ⊥)

current-Heeds : (g : ℕ) (r : Relay) → IsOrdered r → current g r ≡ true → Heeds g r
current-Heeds g r h e = (
  current-is_socket r.socket g r.generation r.is_closed e,
  λ n. not-current_Below r.socket g r.generation r.is_closed e (h.idle n).2,
)

sign-IsOrdered :
    (g : ℕ) (n : Text) (e : Option ℕ) (r : Relay)
    → r.phase ≡ hello
    → Heeds g r
    → IsOrdered r
    → IsOrdered (sign g n e r)
unfolding sign
sign-IsOrdered g n none r p c h = refuse-IsOrdered g r h
sign-IsOrdered g n (some e) r p c h =
    if_cases IsOrdered (is_hex 64 n) _ _ (λ _. ask_lem g r.url r.origin n e p c.0 c.1 h)
      (λ _.
        refuse-IsOrdered g (record r { phase = signing }) (to_phase signing (λ e. cc) (λ e. cc) h))

on_challenge-IsOrdered :
    (p : Phase) (g : ℕ) (u o n : Text) (e : Option ℕ) (r : Relay)
    → r.phase ≡ p
    → Heeds g r
    → IsOrdered r
    → IsOrdered (on_challenge p g u o n e r)
unfolding on_challenge
on_challenge-IsOrdered hello g u o n e r p c h =
    if_cases IsOrdered (text_eq u r.url && text_eq o r.origin) _ _
      (λ _. sign-IsOrdered g n e r p c h) (λ _. refuse-IsOrdered g r h)
on_challenge-IsOrdered signing g u o n e r p c h = refuse-IsOrdered g r h
on_challenge-IsOrdered authenticated g u o n e r p c h = refuse-IsOrdered g r h
on_challenge-IsOrdered ready g u o n e r p c h = refuse-IsOrdered g r h
on_challenge-IsOrdered refused g u o n e r p c h = refuse-IsOrdered g r h

on_granted-IsOrdered :
    (p : Phase) (g : ℕ) (r : Relay)
    → r.phase ≡ p
    → Heeds g r
    → IsOrdered r
    → IsOrdered (on_granted p g r)
unfolding on_granted
on_granted-IsOrdered authenticated g r p c h = online_lem p c.1 (quiet clear_auth silence h)
on_granted-IsOrdered hello g r p c h = refuse-IsOrdered g r h
on_granted-IsOrdered signing g r p c h = refuse-IsOrdered g r h
on_granted-IsOrdered ready g r p c h = refuse-IsOrdered g r h
on_granted-IsOrdered refused g r p c h = refuse-IsOrdered g r h

read_message-IsOrdered :
    (m : Message) (g now : ℕ) (r : Relay)
    → Heeds g r
    → IsOrdered r
    → IsOrdered (read_message m g now r)
unfolding read_message
read_message-IsOrdered (binary n) g now r c h = on_binary-IsOrdered g n r h
read_message-IsOrdered (challenge u o n e) g now r c h =
    on_challenge-IsOrdered r.phase g u o n _ r refl c h
read_message-IsOrdered granted g now r c h = on_granted-IsOrdered r.phase g r refl c h
read_message-IsOrdered other g now r c h = refuse-IsOrdered g r h

on_message-IsOrdered :
    (g : ℕ) (m : Message) (now : ℕ) (r : Relay) → IsOrdered r → IsOrdered (on_message g m now r)
unfolding on_message
on_message-IsOrdered g m now r h =
    if_cases IsOrdered (current g r) _ _
      (λ e. read_message-IsOrdered m g now r (current-Heeds g r h e) h) (λ _. h)

on_signed-IsOrdered :
    (g : ℕ) (s : Text) (b : Bool) (r : Relay) → IsOrdered r → IsOrdered (on_signed g s b r)
unfolding on_signed
on_signed-IsOrdered g s b r h =
    if_cases IsOrdered (not r.is_signing || not (current g r)) _ _ (λ _. h)
      (λ e.
        let c = current-Heeds g r h (both r.is_signing (current g r) e).1 in
        if_cases IsOrdered b _ _ (λ _. send_lem g s (both r.is_signing (current g r) e).0 c.0 c.1 h)
          (λ _. unsigned h))
  where
    both : (a b : Bool) → (not a || not b) ≡ false → (a ≡ true) × (b ≡ true)
    both true true e = (refl, refl)
    both true false e = cc
    both false b e = cc

on_sign_failed-IsOrdered : (g : ℕ) (r : Relay) → IsOrdered r → IsOrdered (on_sign_failed g r)
unfolding on_sign_failed
on_sign_failed-IsOrdered g r h =
    if_cases IsOrdered (not r.is_signing || not (current g r)) _ _ (λ _. h)
      (λ _. refuse-IsOrdered g (record r { is_signing = false }) (unsigned h))

on_socket_closed-IsOrdered :
    (g code : ℕ) (r : Relay) → IsOrdered r → IsOrdered (on_socket_closed g code r)
unfolding on_socket_closed
on_socket_closed-IsOrdered g code r h =
    let k = offline_now (quiet clear_auth silence h) in
    if_cases IsOrdered (not (current g r)) _ _ (λ _. h)
      (λ _.
        if_cases IsOrdered _ _ _ (λ _. quiet (told rejected) silence k)
          (λ _. reconnect-IsOrdered g (record (emit clear_auth r) { is_ready = false }) k))

on_auth_due-IsOrdered : (g : ℕ) (r : Relay) → IsOrdered r → IsOrdered (on_auth_due g r)
unfolding on_auth_due
on_auth_due-IsOrdered g r h =
    if_cases IsOrdered (current g r && not r.is_ready) _ _ (λ _. quiet (close_socket g) silence h)
      (λ _. h)

step-IsOrdered : (r : Relay) (e : Event) → IsOrdered r → IsOrdered (step r e)
unfolding step
step-IsOrdered r (key_known g k b) h = on_key_known-IsOrdered g k b r h
step-IsOrdered r (key_failed g) h = on_key_failed-IsOrdered g r h
step-IsOrdered r (address_known g u b) h = on_address_known-IsOrdered g u b r h
step-IsOrdered r (address_failed g) h = on_address_failed-IsOrdered g r h
step-IsOrdered r (opened g b) h = on_opened-IsOrdered g b r h
step-IsOrdered r (message g m now) h = on_message-IsOrdered g m now r h
step-IsOrdered r (signed g s b) h = on_signed-IsOrdered g s b r h
step-IsOrdered r (sign_failed g) h = on_sign_failed-IsOrdered g r h
step-IsOrdered r (socket_closed g c) h = on_socket_closed-IsOrdered g c r h
step-IsOrdered r retry_due h = connect-IsOrdered r h
step-IsOrdered r (auth_due g) h = on_auth_due-IsOrdered g r h
step-IsOrdered r (frame n b q) h = send_frame_on-IsOrdered r.socket n b q r refl h
step-IsOrdered r retry h =
    if_cases IsOrdered r.is_closed _ _ (λ _. h)
      (λ _. connect-IsOrdered (record r { delay = 1000 }) h)
step-IsOrdered r destroy h = destroy_with-IsOrdered (some closed) r (λ e. cc) h
step-IsOrdered r signer_closed h =
    if_cases IsOrdered r.watching _ _ (λ _. close_identity-IsOrdered r h) (λ _. h)

run-IsOrdered : (es : List Event) (r : Relay) → IsOrdered r → IsOrdered (run r es)
unfolding run
run-IsOrdered [] r h = h
run-IsOrdered (e ∷ es) r h = run-IsOrdered es (step r e) (step-IsOrdered r e h)

create-IsOrdered : (fixed_url : Option Text) (origin : Text) → IsOrdered (create fixed_url origin)
unfolding create stage socket_after
create-IsOrdered fixed_url origin = connect-IsOrdered _ (record {
  place = fresh;
  trace = refl;
  sound = λ e. cc;
  last = refl;
  at_hello = λ e. refl;
  at_signing = λ e. cc;
  at_authenticated = λ e. cc;
  at_ready = λ e. cc;
  bound = tt;
  idle = λ n. absurd (n refl);
})

-- Whatever happens, in any order: the adapter asks for a signature at most once for each socket that
-- it opens, sends an authentication on that socket at most once and only after that, tells that it
-- is online only after that, and passes frames only then, on that socket; those to the machine have
-- 14 to 1514 bytes and those to the relay at most 1514.
pub run-ordered :
    (fixed_url : Option Text) (origin : Text) (es : List Event)
    → stage none fresh (run (create fixed_url origin) es).calls ≢ broken
run-ordered fixed_url origin es =
    let h = run-IsOrdered es (create fixed_url origin) (create-IsOrdered fixed_url origin) in
    subst (λ s. s ≢ broken) (sym h.trace) h.sound
