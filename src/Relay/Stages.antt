-- ===== src/Relay/Stages.antt =====
-- relay-network.js: how far a connection has come, told from its calls, and what that keeps.
use my.Base.{
  ℕ, ◌+◌, ◌≡◌, ◌≢◌, ◌<◌, refl, ◌∙◌, Bool, true, false, ◌&&◌, Option, none, some, List, [], ◌∷◌,
  ◌++◌, leb, if◌then◌else◌, arith,
}
use my.Relay.{
  online, Phase, hello, authenticated, Wait, nothing, Call, told, open_socket, send_authenticate,
  ask_signature, send_frame, receive_frame, Relay,
}
use my.Relay.Steps.{is_socket}

-- How far the socket that was opened last has come: just opened, a signature asked for, the
-- signature sent, and online.
pub data Stage : Type 0 where
  fresh asked sent live broken : Stage

abbrev pub after_open : Stage → Stage
after_open broken = broken
after_open _ = fresh

abbrev pub after_ask : Bool → Stage → Stage
after_ask ok fresh = if ok then asked else broken
after_ask ok _ = broken

abbrev pub after_send : Bool → Stage → Stage
after_send ok asked = if ok then sent else broken
after_send ok _ = broken

abbrev pub after_online : Stage → Stage
after_online sent = live
after_online _ = broken

abbrev pub after_frame : Bool → Stage → Stage
after_frame ok live = if ok then live else broken
after_frame ok _ = broken

-- What a call does to the stage of the socket `o`, which was opened last. A frame that comes in has
-- 14 to 1514 bytes, and one that goes out at most 1514.
abbrev pub next : Option ℕ → Call → Stage → Stage
next o (open_socket g url) s = after_open s
next o (ask_signature g u w n e) s = after_ask (is_socket o g) s
next o (send_authenticate g signature) s = after_send (is_socket o g) s
next o (told online) s = after_online s
next o (send_frame g n) s = after_frame (is_socket o g && leb n 1514) s
next o (receive_frame n) s = after_frame (leb 14 n && leb n 1514) s
next o _ s = s

abbrev pub last_socket : Option ℕ → Call → Option ℕ
last_socket o (open_socket g url) = some g
last_socket o _ = o

-- The stage after some calls, from a socket and its stage.
unfoldable pub stage : Option ℕ → Stage → List Call → Stage
stage o s [] = s
stage o s (c ∷ cs) = stage (last_socket o c) (next o c s) cs

unfoldable pub socket_after : Option ℕ → List Call → Option ℕ
socket_after o [] = o
socket_after o (c ∷ cs) = socket_after (last_socket o c) cs

pub stage-snoc :
    (o : Option ℕ) (s : Stage) (cs : List Call) (c : Call)
    → stage o s (cs ++ c ∷ []) ≡ next (socket_after o cs) c (stage o s cs)
unfolding stage socket_after
stage-snoc o s [] c = refl
stage-snoc o s (d ∷ cs) c = stage-snoc (last_socket o d) (next o d s) cs c

pub socket_after-snoc :
    (o : Option ℕ) (cs : List Call) (c : Call)
    → socket_after o (cs ++ c ∷ []) ≡ last_socket (socket_after o cs) c
unfolding socket_after
socket_after-snoc o [] c = refl
socket_after-snoc o (d ∷ cs) c = socket_after-snoc (last_socket o d) cs c

abbrev pub Below : Option ℕ → ℕ → Type 0
Below none n = Unit
Below (some k) n = k < n

Below-suc : (o : Option ℕ) (n : ℕ) → Below o n → Below o (n + 1)
Below-suc none n h = tt
Below-suc (some k) n h = omega arith

-- The fields of the adapter that matter, and its calls.
pub record Ordered (phase : Phase) (is_signing is_ready : Bool) (socket : Option ℕ) (waits : Wait)
    (generation : ℕ) (calls : List Call) : Type 0 where
  pub place : Stage
  pub trace : stage none fresh calls ≡ place
  pub sound : place ≢ broken
  pub last : socket_after none calls ≡ socket
  pub at_hello : phase ≡ hello → place ≡ fresh
  pub at_signing : is_signing ≡ true → place ≡ asked
  pub at_authenticated : phase ≡ authenticated → place ≡ sent
  pub at_ready : is_ready ≡ true → place ≡ live
  pub bound : Below socket (generation + 1)
  pub idle : waits ≢ nothing → (is_signing ≡ false) × (is_ready ≡ false) × Below socket generation

abbrev pub IsOrdered : Relay → Type 0
IsOrdered r = Ordered r.phase r.is_signing r.is_ready r.socket r.waits r.generation r.calls

abbrev IsQuiet : Call → Type 0
IsQuiet c = (o : Option ℕ) (s : Stage) → (next o c s ≡ s) × (last_socket o c ≡ o)

module _ {p : Phase} {sg rd : Bool} {so : Option ℕ} {w : Wait} {gen : ℕ} {cs : List Call} where
  pub quiet :
      (c : Call) → IsQuiet c → Ordered p sg rd so w gen cs → Ordered p sg rd so w gen (cs ++ c ∷ [])
  quiet c q h = record {
    place = h.place;
    trace = stage-snoc none fresh cs c ∙ (q _ _).0 ∙ h.trace;
    sound = h.sound;
    last = socket_after-snoc none cs c ∙ (q _ fresh).1 ∙ h.last;
    at_hello = h.at_hello;
    at_signing = h.at_signing;
    at_authenticated = h.at_authenticated;
    at_ready = h.at_ready;
    bound = h.bound;
    idle = h.idle;
  }

  -- A connection is given up: nothing is awaited of it.
  pub unready : Ordered p sg rd so w gen cs → Ordered p false false so nothing (gen + 1) cs
  unready h = record {
    place = h.place;
    trace = h.trace;
    sound = h.sound;
    last = h.last;
    at_hello = h.at_hello;
    at_signing = λ e. cc;
    at_authenticated = h.at_authenticated;
    at_ready = λ e. cc;
    bound = Below-suc so (gen + 1) h.bound;
    idle = λ n. absurd (n refl);
  }

  pub offline_now : Ordered p sg rd so w gen cs → Ordered p sg false so w gen cs
  offline_now h = record {
    place = h.place;
    trace = h.trace;
    sound = h.sound;
    last = h.last;
    at_hello = h.at_hello;
    at_signing = h.at_signing;
    at_authenticated = h.at_authenticated;
    at_ready = λ e. cc;
    bound = h.bound;
    idle = λ n. ((h.idle n).0, refl, (h.idle n).2);
  }

  pub unsigned : Ordered p sg rd so w gen cs → Ordered p false rd so w gen cs
  unsigned h = record {
    place = h.place;
    trace = h.trace;
    sound = h.sound;
    last = h.last;
    at_hello = h.at_hello;
    at_signing = λ e. cc;
    at_authenticated = h.at_authenticated;
    at_ready = h.at_ready;
    bound = h.bound;
    idle = λ n. (refl, (h.idle n).1, (h.idle n).2);
  }

  pub to_phase :
      (k : Phase)
      → k ≢ hello
      → k ≢ authenticated
      → Ordered p sg rd so w gen cs
      → Ordered k sg rd so w gen cs
  to_phase k a b h = record {
    place = h.place;
    trace = h.trace;
    sound = h.sound;
    last = h.last;
    at_hello = λ e. absurd (a e);
    at_signing = h.at_signing;
    at_authenticated = λ e. absurd (b e);
    at_ready = h.at_ready;
    bound = h.bound;
    idle = h.idle;
  }

-- What `connect` waits for while nothing else goes on.
pub to_wait :
    {p : Phase} {sg rd : Bool} {so : Option ℕ} {w : Wait} {gen : ℕ} {cs : List Call} (k : Wait)
    → sg ≡ false
    → rd ≡ false
    → Below so gen
    → Ordered p sg rd so w gen cs
    → Ordered p sg rd so k gen cs
to_wait k x y b h = record {
  place = h.place;
  trace = h.trace;
  sound = h.sound;
  last = h.last;
  at_hello = h.at_hello;
  at_signing = h.at_signing;
  at_authenticated = h.at_authenticated;
  at_ready = h.at_ready;
  bound = h.bound;
  idle = λ n. (x, y, b);
}

abbrev pub silence : (o : Option ℕ) (s : Stage) → (s ≡ s) × (o ≡ o)
silence o s = (refl, refl)
