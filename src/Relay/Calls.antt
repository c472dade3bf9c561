-- ===== src/Relay/Calls.antt =====
-- relay-network.js: connecting, closing and refusing keep the order of the calls.
use my.Base.{
  ℕ, ◌+◌, ◌≡◌, ◌≢◌, refl, sym, ◌∙◌, Bool, true, false, not, ◌&&◌, ◌||◌, Option, none, some, List,
  [], ◌∷◌, ◌++◌, ◌==◌, if_cases, arith,
}
use mathlib.Core.Path.{subst, subst₂}
use mathlib.Core.List.{append-nil}
use my.Base.Text.{Text}
use my.Relay.{
  Status, connecting, online, offline, rejected, closed, identity_closed, Phase, hello, signing,
  authenticated, ready, refused, Wait, nothing, key, address, Call, unregister, stop_watching,
  clear_retry, clear_auth, told, ask_key, abort_address, close_socket, open_socket,
  send_authenticate, ask_signature, arm_retry, Relay, emit, closing, aborting, connect, told_last,
  destroy_with, close_identity, reconnect,
}
use my.Relay.Steps.{is_waiting, is_socket, refuse}
use my.Relay.Stages.{
  fresh, asked, sent, live, broken, Ordered, Stage, after_open, next, last_socket, stage,
  socket_after, stage-snoc, socket_after-snoc, Below, IsOrdered, quiet, unready, offline_now,
  to_phase, to_wait, silence,
}

module _ {p : Phase} {sg rd : Bool} {so : Option ℕ} {w : Wait} {gen : ℕ} {cs : List Call} where
  closing-Ordered :
      (o : Option ℕ) → Ordered p sg rd so w gen cs → Ordered p sg rd so w gen (cs ++ closing o)
  unfolding closing
  closing-Ordered none h = subst (Ordered p sg rd so w gen) (sym (append-nil cs)) h
  closing-Ordered (some g) h = quiet (close_socket g) silence h

  aborting-Ordered :
      (o : Option ℕ) → Ordered p sg rd so w gen cs → Ordered p sg rd so w gen (cs ++ aborting o)
  unfolding aborting
  aborting-Ordered none h = subst (Ordered p sg rd so w gen) (sym (append-nil cs)) h
  aborting-Ordered (some g) h = quiet (abort_address g) silence h

pub connect-IsOrdered : (r : Relay) → IsOrdered r → IsOrdered (connect r)
unfolding connect
connect-IsOrdered r h =
    let k = aborting-Ordered r.discovery (
      closing-Ordered r.socket
        (quiet clear_auth silence (quiet clear_retry silence (unready h)))) in
    if_cases IsOrdered r.is_closed _ _ (λ _. k)
      (λ _.
        to_wait key refl refl h.bound
          (quiet (ask_key (r.generation + 1)) silence (quiet (told connecting) silence k)))

told_last-IsOrdered :
    (o : Option Status) (r : Relay) → o ≢ some online → IsOrdered r → IsOrdered (told_last o r)
told_last-IsOrdered none r n h = h
told_last-IsOrdered (some online) r n h = absurd (n refl)
told_last-IsOrdered (some connecting) r n h = quiet (told connecting) silence h
told_last-IsOrdered (some offline) r n h = quiet (told offline) silence h
told_last-IsOrdered (some rejected) r n h = quiet (told rejected) silence h
told_last-IsOrdered (some identity_closed) r n h = quiet (told identity_closed) silence h
told_last-IsOrdered (some closed) r n h = quiet (told closed) silence h

pub destroy_with-IsOrdered :
    (o : Option Status) (r : Relay) → o ≢ some online → IsOrdered r → IsOrdered (destroy_with o r)
unfolding destroy_with
destroy_with-IsOrdered o r n h =
    let k = aborting-Ordered r.discovery (
      quiet unregister silence (
        closing-Ordered r.socket
          (quiet clear_auth silence (quiet clear_retry silence (unready h))))) in
    if_cases IsOrdered r.is_closed _ _ (λ _. h)
      (λ _.
        told_last-IsOrdered o _ n
          (if_cases IsOrdered r.watching _ _ (λ _. quiet stop_watching silence k) (λ _. k)))

pub close_identity-IsOrdered : (r : Relay) → IsOrdered r → IsOrdered (close_identity r)
close_identity-IsOrdered r h =
    destroy_with-IsOrdered none (emit (told identity_closed) r) (λ e. cc)
      (quiet (told identity_closed) silence h)

pub reconnect-IsOrdered : (g : ℕ) (r : Relay) → IsOrdered r → IsOrdered (reconnect g r)
unfolding reconnect
reconnect-IsOrdered g r h =
    if_cases IsOrdered (r.is_closed || not (g == r.generation)) _ _ (λ _. h)
      (λ _. offline_now (quiet (arm_retry r.delay) silence (quiet (told offline) silence h)))

pub refuse-IsOrdered : (g : ℕ) (r : Relay) → IsOrdered r → IsOrdered (refuse g r)
unfolding refuse
refuse-IsOrdered g r h =
    to_phase refused (λ e. cc) (λ e. cc)
      (quiet (close_socket g) silence (quiet (told rejected) silence h))

pub is_waiting_ne : (w k : Wait) → is_waiting w k ≡ true → w ≢ nothing
is_waiting_ne nothing nothing e = cc
is_waiting_ne nothing key e = cc
is_waiting_ne nothing address e = cc
is_waiting_ne key k e = λ p. cc
is_waiting_ne address k e = λ p. cc

-- The socket of the events that are heeded is of this generation.
pub current-is_socket :
    (o : Option ℕ) (g n : ℕ) (c : Bool)
    → (is_socket o g && g == n && not c) ≡ true
    → is_socket o g ≡ true
current-is_socket none g n c e = e
current-is_socket (some k) g n c e = ground arith

pub not-current_Below :
    (o : Option ℕ) (g n : ℕ) (c : Bool) → (is_socket o g && g == n && not c) ≡ true → Below o n → ⊥
not-current_Below none g n c e b = cc
not-current_Below (some k) g n c e b = ground arith

fresh_of : (s : Stage) → s ≢ broken → after_open s ≡ fresh
fresh_of fresh n = refl
fresh_of asked n = refl
fresh_of sent n = refl
fresh_of live n = refl
fresh_of broken n = absurd (n refl)

-- The stage after one more call.
trace_next :
    {s : Stage} {so : Option ℕ} (cs : List Call) (c : Call)
    → stage none fresh cs ≡ s
    → socket_after none cs ≡ so
    → stage none fresh (cs ++ c ∷ []) ≡ next so c s
trace_next cs c t l =
    stage-snoc none fresh cs c
    ∙ subst₂ (λ o s. next (socket_after none cs) c (stage none fresh cs) ≡ next o c s) l t refl

module _ {p : Phase} {sg rd : Bool} {so : Option ℕ} {w : Wait} {gen : ℕ} {cs : List Call} where
  pub keep :
      (c : Call) (h : Ordered p sg rd so w gen cs)
      → next so c h.place ≡ h.place
      → ((o : Option ℕ) → last_socket o c ≡ o)
      → Ordered p sg rd so w gen (cs ++ c ∷ [])
  keep c h e l = record {
    place = h.place;
    trace = trace_next cs c h.trace h.last ∙ e;
    sound = h.sound;
    last = socket_after-snoc none cs c ∙ l _ ∙ h.last;
    at_hello = h.at_hello;
    at_signing = h.at_signing;
    at_authenticated = h.at_authenticated;
    at_ready = h.at_ready;
    bound = h.bound;
    idle = h.idle;
  }

  pub open_lem :
      (url : Text)
      → sg ≡ false
      → rd ≡ false
      → (w ≢ nothing → ⊥)
      → Ordered p sg rd so w gen cs
      → Ordered hello sg rd (some gen) w gen (cs ++ open_socket gen url ∷ [])
  open_lem url a b c h = record {
    place = fresh;
    trace = trace_next cs (open_socket gen url) h.trace h.last ∙ fresh_of h.place h.sound;
    sound = λ e. cc;
    last = socket_after-snoc none cs (open_socket gen url);
    at_hello = λ e. refl;
    at_signing = λ e. cc;
    at_authenticated = λ e. cc;
    at_ready = λ e. cc;
    bound = omega arith;
    idle = λ n. absurd (c n);
  }

  pub ask_lem :
      (g : ℕ) (u o n : Text) (e : ℕ)
      → p ≡ hello
      → is_socket so g ≡ true
      → (w ≢ nothing → ⊥)
      → Ordered p sg rd so w gen cs
      → Ordered signing true rd so w gen (cs ++ ask_signature g u o n e ∷ [])
  ask_lem g u o n e a b c h = record {
    place = asked;
    trace = trace_next cs (ask_signature g u o n e) (h.trace ∙ h.at_hello a) h.last ∙ rw b refl;
    sound = λ f. cc;
    last = socket_after-snoc none cs (ask_signature g u o n e) ∙ h.last;
    at_hello = λ f. cc;
    at_signing = λ f. refl;
    at_authenticated = λ f. cc;
    at_ready = λ f. cc (h.at_ready f, h.at_hello a);
    bound = h.bound;
    idle = λ f. absurd (c f);
  }

  pub send_lem :
      (g : ℕ) (signature : Text)
      → sg ≡ true
      → is_socket so g ≡ true
      → (w ≢ nothing → ⊥)
      → Ordered p sg rd so w gen cs
      → Ordered authenticated false rd so w gen (cs ++ send_authenticate g signature ∷ [])
  send_lem g signature a b c h = record {
    place = sent;
    trace =
        trace_next cs (send_authenticate g signature) (h.trace ∙ h.at_signing a) h.last ∙ rw b refl;
    sound = λ f. cc;
    last = socket_after-snoc none cs (send_authenticate g signature) ∙ h.last;
    at_hello = λ f. cc;
    at_signing = λ f. cc;
    at_authenticated = λ f. refl;
    at_ready = λ f. cc (h.at_ready f, h.at_signing a);
    bound = h.bound;
    idle = λ f. absurd (c f);
  }

  pub online_lem :
      p ≡ authenticated
      → (w ≢ nothing → ⊥)
      → Ordered p sg rd so w gen cs
      → Ordered ready sg true so w gen (cs ++ told online ∷ [])
  online_lem a c h = record {
    place = live;
    trace = trace_next cs (told online) (h.trace ∙ h.at_authenticated a) h.last;
    sound = λ f. cc;
    last = socket_after-snoc none cs (told online) ∙ h.last;
    at_hello = λ f. cc;
    at_signing = λ f. cc (h.at_signing f, h.at_authenticated a);
    at_authenticated = λ f. cc;
    at_ready = λ f. refl;
    bound = h.bound;
    idle = λ f. absurd (c f);
  }
