-- ===== src/Tests/Viewer.antt =====
-- The viewer's properties on short series of calls.
use remotelink.Prelude.{
  ◌-◌, ◌/◌, min, max, ltb, ℕ, ◌≡◌, refl, true, false, none, List, [], ◌∷◌, ◌++◌,
}
use remotelink.Viewer.Connection.{
  ConnectionState, ConnectionMachine, can_send_input, begin_connect, begin_answer, answered, linked,
  on_transport_state, played, on_media_received, new as new_machine,
}
use remotelink.Viewer.Connection.Phases.{
  Event, apply, apply_all, linked_after, apply_all-linked_after,
}
use remotelink.Viewer.Capture.{
  Float, RawInput, InputCapture, InputCaptureConfig, set_focused, poll as poll_capture,
  flush_pending_move, push as push_sample, capture, may_capture, new as new_capture,
}
use remotelink.Viewer.Capture.Focus.{Call as Sample, run, set_focused-run}
use remotelink.Viewer.Coalescer.{MouseMoveCoalescer, new, push}
use remotelink.Viewer.Coalescer.Delivery.{Call}

abbrev events : List Event
events =
    Event.connect "host"
    ∷ Event.answer
    ∷ Event.transport ConnectionState.connected
    ∷ Event.media
    ∷ []

apply_all-linked_after_example : linked_after events false ≡ true
unfolding apply_all apply begin_connect begin_answer answered on_transport_state linked
    on_media_received played can_send_input new_machine
apply_all-linked_after_example = apply_all-linked_after events refl

abbrev hung_up : ConnectionMachine
hung_up = apply_all (events ++ (Event.hang_up ∷ [])) new_machine

abbrev calls : List (Call ℕ)
calls = Call.move 1 10 ∷ Call.move 2 11 ∷ Call.move 3 12 ∷ []

abbrev moved : MouseMoveCoalescer ℕ
moved = (push 1 10 (new 100)).0

abbrev deferred : MouseMoveCoalescer ℕ
deferred = (push 2 20 moved).0

-- Numbers that stand in for f32.
abbrev whole : Float ℕ
whole = record {
  sub = λ m n. m - n;
  div = λ m n. m / n;
  clamp = λ v low high. max low (min v high);
  is_positive = λ n. ltb 0 n;
  zero = 0;
  one = 1;
  min_coalesce_hz = 60;
  max_coalesce_hz = 120;
  period = λ hz. 1000 / hz;
}

abbrev viewport : InputCaptureConfig ℕ
viewport = record {
  always_capture = false;
  coalesce_hz = 90;
  rect = record { x = 0; y = 0; width = 1; height = 1 };
}

-- Two moves into the window, of which the second waits.
abbrev watched : InputCapture ℕ
watched =
    (run whole
      (Sample.sample (RawInput.mouse_move 1 1) 5 ∷ Sample.sample (RawInput.mouse_move 0 1) 6 ∷ [])
      (record (new_capture whole viewport) { focused = true })).0

set_focused-run_example :
    let (away, sent) =
      run whole
        (Sample.sample (RawInput.mouse_move 1 1) 7 ∷ Sample.tick 8 ∷ [])
        (set_focused false watched) in
    (sent ≡ [])
    × ((poll_capture 9 (set_focused true away)).1 ≡ none)
    × ((flush_pending_move 9 (set_focused true away)).1 ≡ none)
unfolding run push_sample capture may_capture new_capture
set_focused-run_example =
    set_focused-run whole (Sample.sample (RawInput.mouse_move 1 1) 7 ∷ Sample.tick 8 ∷ []) 9 watched
      refl refl
