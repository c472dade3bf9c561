-- ===== src/Input/Pointer.antt =====
-- `setupDirectPointer` of src/browser/direct-pointer.js. An event is one that the page dispatches, a
-- call of a method, or a change of the host. The first `down` is on the display, where the handler
-- of the document comes first, and `down_elsewhere` is outside it.
mod Core
mod Handlers
pub mod Held
mod Tests
use my.Base.{
  ℕ, ◌+◌, ◌*◌, ◌/◌, ◌%◌, min, Bool, true, false, not, ◌&&◌, ◌||◌, Option, none, some, List, [], ◌∷◌,
  ◌++◌, ltb, leb, ◌==◌, if◌then◌else◌,
}
use my.Base.Int.{ℤ, pos, negsuc, ◌-ℤ◌, neg_ℤ, abs}
use my.Input.{
  Buttons, up, left_down, pressed, Point, Signal, pointer_lock, mouse_enabled, absolute, wheel,
  click, Call, bus, focus, exit_pointer_lock, set_capture, release_capture, Rect, Host,
  PointerEvent, is_some_id,
}

-- `touch` has the id, where it began, and whether it has been cancelled as a tap.
pub data Gesture : Type 0 where
  touch : ℕ → ℤ → ℤ → Bool → Gesture
  mouse : ℕ → Gesture

pub record Pointer : Type 0 where
  pub enabled : Bool
  pub listening : Bool
  pub vm : Option ℕ
  pub gesture : Option Gesture
  pub buttons : Buttons
  pub previous_mouse_enabled : Bool
  pub host : Host
  pub calls : List Call

pub data Event : Type 0 where
  down down_elsewhere move lift : PointerEvent → Event
  cancel : ℕ → Event
  wheel_by : PointerEvent → ℤ → ℤ → Event
  blur visibility_change lock_change activate deactivate release_all destroy : Event
  host_change : Host → Event

abbrev gesture_id : Gesture → ℕ
gesture_id (touch id x y cancelled) = id
gesture_id (mouse id) = id

abbrev has_id : Option Gesture → ℕ → Bool
has_id none id = false
has_id (some g) id = gesture_id g == id

abbrev is_some {ℓ} : {A : Type ℓ} → Option A → Bool
is_some none = false
is_some (some a) = true

-- `Math.max(0,Math.min(size,x))`
abbrev clamped : ℕ → ℤ → ℕ
clamped size (pos n) = min size n
clamped size (negsuc n) = 0

abbrev is_inside : ℕ → ℤ → Bool
is_inside size (pos n) = ltb n size
is_inside size (negsuc n) = false

-- position(event,clamp)
unfoldable pub position_in : Option Rect → PointerEvent → Bool → Option Point
position_in none e clamp = none
position_in (some r) e clamp =
    let x = e.x -ℤ r.left in
    let y = e.y -ℤ r.top in
    if r.width == 0 || r.height == 0
    then none
    else if not clamp && not (is_inside r.width x && is_inside r.height y)
    then none
    else some (record {
      x = clamped r.width x;
      y = clamped r.height y;
      width = r.width;
      height = r.height;
    })

abbrev position : PointerEvent → Bool → Pointer → Option Point
position e clamp p = position_in p.host.surface e clamp

-- `vm?.bus.send(...)`
unfoldable pub send_to : Option ℕ → Signal → Pointer → Pointer
send_to none s p = p
send_to (some m) s p = record p { calls = p.calls ++ bus m s ∷ [] }

abbrev pub send : Signal → Pointer → Pointer
send s p = send_to p.vm s p

-- running()
abbrev running : Pointer → Bool
running p = elim p.vm [ none ↦ false | some m ↦ is_some_id p.host.machine m && p.host.is_running ]

-- The end of `release`, for the gesture that there was.
unfoldable pub drop_capture : Option Gesture → Pointer → Pointer
drop_capture none p = p
drop_capture (some g) p =
    if is_some_id p.host.captured (gesture_id g)
    then record p {
      host = record p.host { captured = none };
      calls = p.calls ++ release_capture (gesture_id g) ∷ [];
    }
    else p

abbrev send_up : Pointer → Pointer
send_up p = if pressed p.buttons then send (click up) p else p

-- release()
unfoldable pub release : Pointer → Pointer
release p = drop_capture p.gesture (record (send_up (record p { gesture = none })) { buttons = up })

-- move(point)
unfoldable pub move_to : Option Point → Pointer → Pointer
move_to none p = p
move_to (some point) p = send (absolute point) (send (pointer_lock false) p)

-- unlocked()
unfoldable pub unlocked : Pointer → Pointer
unlocked p =
    let p' = if p.host.locked then record p { calls = p.calls ++ exit_pointer_lock ∷ [] } else p in
    if p.enabled then send (pointer_lock false) p' else p

-- setEnabled(true), when it is not enabled
abbrev enable : ℕ → Pointer → Pointer
enable m p =
    let p' = record p {
      vm = some m;
      calls = p.calls ++ bus m (click up) ∷ [];
      previous_mouse_enabled = elim p.host.emu_enabled [ none ↦ true | some b ↦ b ];
    } in
    unlocked (record (send (mouse_enabled false) p') { enabled = true })

unfoldable pub turn_on : Option ℕ → Pointer → Pointer
turn_on none p = record p { vm = none }
turn_on (some m) p = enable m p

unfoldable pub turn_off : Pointer → Pointer
turn_off p = record (send (mouse_enabled p.previous_mouse_enabled) p) { enabled = false; vm = none }

-- setEnabled(value)
unfoldable pub set_enabled : Bool → Pointer → Pointer
set_enabled true p = if p.enabled then p else turn_on (release p).host.machine (release p)
set_enabled false p = if p.enabled then turn_off (release p) else p

-- The buttons of a mouse event.
abbrev mask : ℕ → Buttons
mask n = record { left = n % 2 == 1; middle = n / 4 % 2 == 1; right = n / 2 % 2 == 1 }

abbrev same_buttons : Buttons → Buttons → Bool
same_buttons a b = same a.left b.left && same a.middle b.middle && same a.right b.right
  where
    same : Bool → Bool → Bool
    same true b = b
    same false b = not b

-- `focus();display.setPointerCapture(event.pointerId);`
unfoldable pub grab : ℕ → Pointer → Pointer
grab id p = record p {
  host = record p.host { captured = some id };
  calls = (p.calls ++ focus ∷ []) ++ set_capture id ∷ [];
}

-- Sets `buttons` and tells the guest.
unfoldable pub press : Buttons → ℕ → Pointer → Pointer
press b id p = record (send (click b) p) { buttons = b; gesture = some (mouse id) }

unfoldable pub release_touch : Option Gesture → Pointer → Pointer
release_touch (some (touch id x y cancelled)) p = release p
release_touch _ p = p

unfoldable pub down_touch : Option Point → PointerEvent → Pointer → Pointer
down_touch point e p =
    if is_some p.gesture || not e.is_primary
    then release p
    else if is_some point
    then grab e.id (record p { gesture = some (touch e.id e.x e.y false) })
    else p

unfoldable pub down_mouse : Option Point → PointerEvent → Pointer → Pointer
down_mouse none e p = p
down_mouse (some point) e p =
    if ltb 2 e.button
    then p
    else grab e.id (press (mask e.buttons) e.id (move_to (some point) (release_touch p.gesture p)))

-- The handler of pointerdown on the display.
unfoldable pub on_down : PointerEvent → Pointer → Pointer
on_down e p =
    if not p.enabled || not (running p) || p.host.locked
    then p
    else if e.is_mouse
    then down_mouse (position e false p) e p
    else down_touch (position e false p) e p

-- The handler of pointerdown on the document.
unfoldable pub on_document_down : PointerEvent → Pointer → Pointer
on_document_down e p =
    if p.enabled && is_some p.gesture && not e.is_mouse && not (has_id p.gesture e.id)
    then release p
    else p

-- `Math.hypot(...)>8`
abbrev is_far : PointerEvent → ℤ → ℤ → Bool
is_far e x y = ltb 64 (abs (e.x -ℤ x) * abs (e.x -ℤ x) + abs (e.y -ℤ y) * abs (e.y -ℤ y))

-- The part of the handler of pointermove that follows its test of the pointer lock.
unfoldable pub drag : PointerEvent → ℕ → Pointer → Pointer
drag e id p =
    let p' = move_to (position e true p) p in
    if e.buttons == 0
    then move_to (position e false (release p)) (release p)
    else if same_buttons (mask e.buttons) p.buttons
    then p'
    else press (mask e.buttons) id p'

unfoldable pub move_gesture : Option Gesture → PointerEvent → Pointer → Pointer
move_gesture (some (touch id x y cancelled)) e p =
    if id == e.id && is_far e x y then record p { gesture = some (touch id x y true) } else p
move_gesture (some (mouse id)) e p = if not e.is_mouse || p.host.locked then p else drag e id p
move_gesture none e p =
    if not e.is_mouse || p.host.locked then p else move_to (position e false p) p

-- The handler of pointermove.
unfoldable pub on_move : PointerEvent → Pointer → Pointer
on_move e p =
    if not p.enabled then p else if not (running p) then release p else move_gesture p.gesture e p

-- `if(click)` with the point of the tap
unfoldable pub tap : Option Point → Pointer → Pointer
tap none p = p
tap (some point) p = send (click up) (send (click left_down) (move_to (some point) p))

unfoldable pub lift_gesture : Option Gesture → PointerEvent → Pointer → Pointer
lift_gesture none e p = p
lift_gesture (some (touch id x y cancelled)) e p =
    if cancelled || is_far e x y then release p else tap (position e false p) (release p)
lift_gesture (some (mouse id)) e p =
    let p' = press (mask e.buttons) id (move_to (position e true p) p) in
    if pressed (mask e.buttons) then p' else release p'

-- The handler of pointerup.
unfoldable pub on_up : PointerEvent → Pointer → Pointer
on_up e p =
    if not p.enabled || not (has_id p.gesture e.id)
    then p
    else if not (running p)
    then release p
    else lift_gesture p.gesture e p

-- The handler of pointercancel and lostpointercapture.
unfoldable pub on_cancel : ℕ → Pointer → Pointer
on_cancel id p = if p.enabled && has_id p.gesture id then release p else p

-- `-Math.sign(delta)`
abbrev turned : ℤ → ℤ
turned (pos n) = if n == 0 then pos 0 else negsuc 0
turned (negsuc n) = pos 1

unfoldable pub scroll : Option Point → ℤ → ℤ → Pointer → Pointer
scroll none dx dy p = p
scroll (some point) dx dy p = send (wheel (turned dy) (turned dx)) (move_to (some point) p)

-- The handler of wheel.
unfoldable pub on_wheel : PointerEvent → ℤ → ℤ → Pointer → Pointer
on_wheel e dx dy p =
    if not p.enabled || not (running p) || p.host.locked
    then p
    else scroll (position e false p) dx dy p

-- The handlers, which `destroy` removes.
unfoldable pub dispatch : Event → Pointer → Pointer
dispatch (down e) p = on_down e (on_document_down e p)
dispatch (down_elsewhere e) p = on_document_down e p
dispatch (move e) p = on_move e p
dispatch (lift e) p = on_up e p
dispatch (cancel id) p = on_cancel id p
dispatch (wheel_by e dx dy) p = on_wheel e dx dy p
dispatch blur p = release p
dispatch visibility_change p = if p.host.hidden then release p else p
dispatch lock_change p = unlocked p
dispatch _ p = p

unfoldable pub step : Pointer → Event → Pointer
step p (host_change h) = record p { host = h }
step p activate = set_enabled true p
step p deactivate = set_enabled false p
step p release_all = release p
step p destroy = record (set_enabled false p) { listening = false }
step p e = if p.listening then dispatch e p else p

unfoldable pub run : Pointer → List Event → Pointer
run p [] = p
run p (e ∷ es) = run (step p e) es

-- The object that `setupDirectPointer` returns.
unfoldable pub create : Host → Pointer
create h = record {
  enabled = false;
  listening = true;
  vm = none;
  gesture = none;
  buttons = up;
  previous_mouse_enabled = true;
  host = h;
  calls = [];
}
