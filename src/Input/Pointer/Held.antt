-- ===== src/Input/Pointer/Held.antt =====
-- direct-pointer.js: the guest holds the buttons of a mouse gesture in progress, and no others.
use mathlib.Core.Path.{subst}
use my.Base.{
  ℕ, ◌≡◌, refl, sym, ap, ◌∙◌, Bool, true, false, Option, none, some, List, [], ◌∷◌, ◌++◌,
  if◌then◌else◌, if_cases,
}
use my.Input.{up, mouse_enabled, click, bus, Host, guest, Holds, Holds-click, Holds-other}
use my.Input.Pointer.{
  Pointer, Event, down, down_elsewhere, move, lift, cancel, wheel_by, blur, visibility_change,
  lock_change, activate, deactivate, release_all, destroy, host_change, send, release, unlocked,
  turn_on, turn_off, set_enabled, on_down, on_document_down, on_move, on_up, on_cancel, on_wheel,
  dispatch, step, run, create,
}
use my.Input.Pointer.Core.{
  is_mouse_gesture, Core, Live, send_to-Core, send_to-vm, send_to-buttons, release-Core,
  release-same, unlocked-Core,
}
use my.Input.Pointer.Handlers.{dispatch-Core}

pub record IsHeld (p : Pointer) : Type 0 where
  pub holds : Holds p.vm p.buttons p.calls
  pub idle : is_mouse_gesture p.gesture ≡ false → p.buttons ≡ up
  pub off : p.enabled ≡ false → (p.gesture ≡ none) × (p.vm ≡ none)

-- Off, and nothing in progress.
abbrev IsOff : Pointer → Type 0
IsOff p = (p.gesture ≡ none) × (p.vm ≡ none)

release-IsOff : (p : Pointer) → Core false p → IsOff p → IsOff (release p)
release-IsOff p h f = let s = release-same p h.holds in (s.1, s.0 ∙ f.1)

-- While it is off a handler changes nothing, but for those that release.
dispatch-IsOff : (e : Event) (p : Pointer) → Core false p → IsOff p → IsOff (dispatch e p)
unfolding dispatch on_down on_document_down on_move on_up on_cancel on_wheel unlocked
dispatch-IsOff (down e) p h f = rw h.on f
dispatch-IsOff (down_elsewhere e) p h f = rw h.on f
dispatch-IsOff (move e) p h f = rw h.on f
dispatch-IsOff (lift e) p h f = rw h.on f
dispatch-IsOff (cancel id) p h f = rw h.on f
dispatch-IsOff (wheel_by e dx dy) p h f = rw h.on f
dispatch-IsOff blur p h f = release-IsOff p h f
dispatch-IsOff visibility_change p h f =
    if_cases IsOff p.host.hidden _ _ (λ _. release-IsOff p h f) (λ _. f)
dispatch-IsOff lock_change p h f = rw h.on f
dispatch-IsOff activate p h f = f
dispatch-IsOff deactivate p h f = f
dispatch-IsOff release_all p h f = f
dispatch-IsOff destroy p h f = f
dispatch-IsOff (host_change k) p h f = f

IsHeld-Core : (p : Pointer) → IsHeld p → Core p.enabled p
IsHeld-Core p h = record { holds = h.holds; idle = h.idle; on = refl }

Core-IsHeld : (b : Bool) (p : Pointer) → Core b p → (b ≡ false → IsOff p) → IsHeld p
Core-IsHeld b p h f = record { holds = h.holds; idle = h.idle; off = λ e. f (sym h.on ∙ e) }

dispatch-IsHeld : (e : Event) (p : Pointer) → IsHeld p → IsHeld (dispatch e p)
dispatch-IsHeld e p h =
    let c = IsHeld-Core p h in
    Core-IsHeld p.enabled (dispatch e p) (dispatch-Core p.enabled e p c)
      (λ f. dispatch-IsOff e p (subst (λ b. Core b p) f c) (h.off f))

release-IsHeld : (p : Pointer) → IsHeld p → IsHeld (release p)
release-IsHeld p h =
    let c = IsHeld-Core p h in
    Core-IsHeld p.enabled (release p) (release-Core p.enabled p c)
      (λ f. release-IsOff p (subst (λ b. Core b p) f c) (h.off f))

turn_on-IsHeld :
    (o : Option ℕ) (p : Pointer) → Core false p → p.gesture ≡ none → IsHeld (turn_on o p)
unfolding turn_on
turn_on-IsHeld none p h g =
    let u : p.buttons ≡ up = h.idle (ap is_mouse_gesture g) in
    record {
      holds =
          subst (λ b. Holds none b p.calls) (sym u)
            (Holds-other p.vm none p.calls (subst (λ b. Holds p.vm b p.calls) u h.holds));
      idle = h.idle;
      off = λ _. (g, refl);
    }
turn_on-IsHeld (some m) p h g =
    let u : p.buttons ≡ up = h.idle (ap is_mouse_gesture g) in
    let free = Holds-other p.vm (some m) p.calls (subst (λ b. Holds p.vm b p.calls) u h.holds) in
    let k : Pointer = record p {
      vm = some m;
      calls = p.calls ++ bus m (click up) ∷ [];
      previous_mouse_enabled = elim p.host.emu_enabled [ none ↦ true | some b ↦ b ];
    } in
    let first : Core false k = record {
      holds = subst (λ b. Holds (some m) b k.calls) (sym u) (Holds-click m up up p.calls free);
      idle = h.idle;
      on = h.on;
    } in
    let sent = send_to-Core false (some m) (mouse_enabled false) k (λ j. refl) first in
    let on : Live (record (send (mouse_enabled false) k) { enabled = true }) = record {
      holds = sent.holds;
      idle = sent.idle;
      on = refl;
    } in
    Core-IsHeld true _ (unlocked-Core true _ on) (λ f. cc)

turn_off-IsHeld : (p : Pointer) → Core true p → p.gesture ≡ none → IsHeld (turn_off p)
unfolding turn_off
turn_off-IsHeld p h g =
    let u : p.buttons ≡ up = h.idle (ap is_mouse_gesture g) in
    let k = send (mouse_enabled p.previous_mouse_enabled) p in
    let sent = send_to-Core true p.vm (mouse_enabled p.previous_mouse_enabled) p (λ j. refl) h in
    let same : k.buttons ≡ up =
      send_to-buttons p.vm (mouse_enabled p.previous_mouse_enabled) p ∙ u in
    record {
      holds =
          subst (λ b. Holds none b k.calls) (sym same)
            (Holds-other k.vm none k.calls (subst (λ b. Holds k.vm b k.calls) same sent.holds));
      idle = sent.idle;
      off = λ _. ((send_to-vm p.vm (mouse_enabled p.previous_mouse_enabled) p).2 ∙ g, refl);
    }

set_enabled-IsHeld : (b : Bool) (p : Pointer) → IsHeld p → IsHeld (set_enabled b p)
unfolding set_enabled
set_enabled-IsHeld true p h =
    if_cases IsHeld p.enabled _ _ (λ _. h)
      (λ f.
        turn_on-IsHeld (release p).host.machine (release p)
          (release-Core false p (subst (λ b. Core b p) f (IsHeld-Core p h)))
          (release-same p h.holds).1)
set_enabled-IsHeld false p h =
    if_cases IsHeld p.enabled _ _
      (λ t.
        turn_off-IsHeld (release p)
          (release-Core true p (subst (λ b. Core b p) t (IsHeld-Core p h)))
          (release-same p h.holds).1)
      (λ _. h)

heard : (e : Event) (p : Pointer) → IsHeld p → IsHeld (if p.listening then dispatch e p else p)
heard e p h = if_cases IsHeld p.listening _ _ (λ _. dispatch-IsHeld e p h) (λ _. h)

step-IsHeld : (p : Pointer) (e : Event) → IsHeld p → IsHeld (step p e)
unfolding step
step-IsHeld p (host_change k) h = record { holds = h.holds; idle = h.idle; off = h.off }
step-IsHeld p activate h = set_enabled-IsHeld true p h
step-IsHeld p deactivate h = set_enabled-IsHeld false p h
step-IsHeld p release_all h = release-IsHeld p h
step-IsHeld p destroy h =
    let k = set_enabled-IsHeld false p h in record { holds = k.holds; idle = k.idle; off = k.off }
step-IsHeld p (down e) h = heard (down e) p h
step-IsHeld p (down_elsewhere e) h = heard (down_elsewhere e) p h
step-IsHeld p (move e) h = heard (move e) p h
step-IsHeld p (lift e) h = heard (lift e) p h
step-IsHeld p (cancel id) h = heard (cancel id) p h
step-IsHeld p (wheel_by e dx dy) h = heard (wheel_by e dx dy) p h
step-IsHeld p blur h = heard blur p h
step-IsHeld p visibility_change h = heard visibility_change p h
step-IsHeld p lock_change h = heard lock_change p h

run-keeps : (es : List Event) (p : Pointer) → IsHeld p → IsHeld (run p es)
unfolding run
run-keeps [] p h = h
run-keeps (e ∷ es) p h = run-keeps es (step p e) (step-IsHeld p e h)

-- After any events, on any machines: the buttons that each machine was last told of are those that
-- direct input has for the machine that it is on, and none for any other; outside a gesture of the
-- mouse it has none; and while it is off it has no gesture and no machine.
pub run-IsHeld : (host : Host) (es : List Event) → IsHeld (run (create host) es)
run-IsHeld host es = run-keeps es (create host) (
    unfold create in
    record { holds = λ m. unfold guest in refl; idle = λ _. refl; off = λ _. (refl, refl) })
