-- ===== src/Input/Pointer/Tests.antt =====
-- Runs of the direct pointer on a display of 640 by 480 points.
use my.Base.{ℕ, ◌≡◌, refl, true, false, some, none, List, [], ◌∷◌, ◌++◌}
use my.Base.Int.{pos, ◌-ℤ◌}
use my.Input.{
  up, left_down, Point, pointer_lock, mouse_enabled, absolute, click, bus, focus, set_capture, Host,
  PointerEvent,
}
use my.Input.Pointer.{
  Event, down, move, activate, create, step, run, set_enabled, turn_on, release, drop_capture,
  unlocked, send_to, dispatch, on_down, on_document_down, down_mouse, position_in, grab, press,
  move_to, release_touch, move_gesture, on_move, drag,
}
use my.Input.Pointer.Held.{IsHeld, run-IsHeld}

abbrev host : Host
host = record {
  machine = some 3;
  is_running = true;
  locked = false;
  captured = none;
  hidden = false;
  emu_enabled = none;
  surface = some (record { left = pos 0; top = pos 0; width = 640; height = 480 });
}

abbrev mouse_at : ℕ → ℕ → ℕ → PointerEvent
mouse_at x y buttons = record {
  id = 1;
  is_mouse = true;
  is_primary = true;
  button = 0;
  buttons = buttons;
  x = pos x;
  y = pos y;
  now = 0;
}

abbrev at : ℕ → ℕ → Point
at x y = record { x = x; y = y; width = 640; height = 480 }

abbrev press_left : List Event
press_left = activate ∷ down (mouse_at 5 6 1) ∷ []

-- Dragged off the display, the pointer stays on its edge.
abbrev drag_off : List Event
drag_off = activate ∷ down (mouse_at 5 6 1) ∷ move (mouse_at 700 6 1) ∷ []

press_clicks :
    (run (create host) press_left).calls
    ≡ bus 3 (click up)
      ∷ bus 3 (mouse_enabled false)
      ∷ bus 3 (pointer_lock false)
      ∷ bus 3 (pointer_lock false)
      ∷ bus 3 (absolute (at 5 6))
      ∷ bus 3 (click left_down)
      ∷ focus
      ∷ set_capture 1
      ∷ []
unfolding run step create set_enabled turn_on release drop_capture unlocked send_to dispatch on_down
    on_document_down down_mouse position_in ◌-ℤ◌ grab press move_to release_touch
press_clicks = refl

drag_off_clamps :
    (run (create host) drag_off).calls
    ≡ (run (create host) press_left).calls
      ++ bus 3 (pointer_lock false) ∷ bus 3 (absolute (at 640 6)) ∷ []
unfolding run step create set_enabled turn_on release drop_capture unlocked send_to dispatch on_down
    on_document_down down_mouse position_in ◌-ℤ◌ grab press move_to release_touch on_move
    move_gesture drag
drag_off_clamps = refl

run-IsHeld_example : IsHeld (run (create host) press_left)
run-IsHeld_example = run-IsHeld host press_left
