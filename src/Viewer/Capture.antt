-- ===== src/Viewer/Capture.antt =====
-- The viewer's input capture (packages/viewer-core/src/input.rs). Rust's floating-point numbers and
-- what the capture does with them are a parameter, `Float`.
pub mod Focus
use remotelink.Prelude.{
  ℕ, ◌+◌, ◌-◌, min, Bool, true, false, not, ◌&&◌, ◌||◌, Option, none, some, List, [], ◌∷◌, ◌++◌,
  if◌then◌else◌,
}
use remotelink.Protocol.Scancode.{NamedKey, ScanCode, lookup_scancode}
use remotelink.Viewer.Coalescer.{
  MouseMoveCoalescer, bump, new as new_coalescer, next_poll_deadline as coalescer_deadline,
  discard_pending, push as push_move, poll as poll_move, flush,
}

-- f32 with its subtraction, division, `clamp` and test for a positive number, and `period`, which
-- is `Duration::from_secs_f64(1.0 / f64::from(hz))`.
pub record Float (F : Type 0) : Type 0 where
  pub sub : F → F → F
  pub div : F → F → F
  pub clamp : F → F → F → F
  pub is_positive : F → Bool
  pub zero : F
  pub one : F
  pub min_coalesce_hz : F
  pub max_coalesce_hz : F
  pub period : F → ℕ

pub data MouseButtonKind : Type 0 where
  left right middle x1 x2 : MouseButtonKind

pub record CaptureRect (F : Type 0) : Type 0 where
  pub x : F
  pub y : F
  pub width : F
  pub height : F

pub data RawInput (F : Type 0) : Type 0 where
  mouse_move : F → F → RawInput F
  mouse_button : MouseButtonKind → Bool → F → F → RawInput F
  mouse_wheel : F → F → Bool → F → F → RawInput F
  key_named : NamedKey → Bool → ℕ → RawInput F
  key_scan : ℕ → Bool → Bool → ℕ → RawInput F

pub data CapturedInput (F : Type 0) : Type 0 where
  mouse_move : F → F → CapturedInput F
  mouse_button : MouseButtonKind → Bool → F → F → CapturedInput F
  mouse_wheel : F → F → Bool → F → F → CapturedInput F
  key : ℕ → Bool → Bool → ℕ → CapturedInput F

pub record InputCaptureConfig (F : Type 0) : Type 0 where
  pub always_capture : Bool
  pub coalesce_hz : F
  pub rect : CaptureRect F

pub record InputCapture (F : Type 0) : Type 0 where
  pub config : InputCaptureConfig F
  pub focused : Bool
  pub coalescer : MouseMoveCoalescer (F × F)
  pub blocked_unfocused : ℕ
  pub unmapped_keys : ℕ

module _ {F : Type 0} (float : Float F) where
  unfoldable pub new_rect : F → F → F → F → CaptureRect F
  new_rect x y width height = record {
    x = x;
    y = y;
    width = if float.is_positive width then width else float.one;
    height = if float.is_positive height then height else float.one;
  }

  unfoldable pub normalize : CaptureRect F → F → F → F × F
  normalize rect px py = (
    float.clamp (float.div (float.sub px rect.x) rect.width) float.zero float.one,
    float.clamp (float.div (float.sub py rect.y) rect.height) float.zero float.one,
  )

  unfoldable pub clamped_hz : InputCaptureConfig F → F
  clamped_hz config = float.clamp config.coalesce_hz float.min_coalesce_hz float.max_coalesce_hz

  unfoldable pub from_hz : F → MouseMoveCoalescer (F × F)
  from_hz hz =
      new_coalescer (float.period (float.clamp hz float.min_coalesce_hz float.max_coalesce_hz))

  unfoldable pub new : InputCaptureConfig F → InputCapture F
  unfolding clamped_hz from_hz
  new config = record {
    config = config;
    focused = false;
    coalescer = from_hz (clamped_hz config);
    blocked_unfocused = 0;
    unmapped_keys = 0;
  }

module _ {F : Type 0} where
  unfoldable pub set_rect : CaptureRect F → InputCapture F → InputCapture F
  set_rect rect c = record c { config = record c.config { rect = rect } }

  unfoldable pub set_focused : Bool → InputCapture F → InputCapture F
  set_focused focused c =
      let coalescer =
        if c.focused && (not focused && not c.config.always_capture)
        then discard_pending c.coalescer
        else c.coalescer in
      record c { focused = focused; coalescer = coalescer }

  unfoldable pub set_always_capture : Bool → InputCapture F → InputCapture F
  set_always_capture always c =
      let coalescer =
        if c.config.always_capture && (not always && not c.focused)
        then discard_pending c.coalescer
        else c.coalescer in
      record c { config = record c.config { always_capture = always }; coalescer = coalescer }

  unfoldable pub may_capture : InputCapture F → Bool
  may_capture c = c.config.always_capture || c.focused

  unfoldable pub next_poll_deadline : ℕ → InputCapture F → Option ℕ
  unfolding may_capture
  next_poll_deadline clock c = if may_capture c then coalescer_deadline clock c.coalescer else none

  -- An emitted position as an event
  abbrev pub emitted_move : Option (F × F) → List (CapturedInput F)
  emitted_move none = []
  emitted_move (some (x, y)) = CapturedInput.mouse_move x y ∷ []

  -- A reliable event goes out behind the move that waits.
  unfoldable pub send_reliable :
      CapturedInput F → ℕ → InputCapture F → InputCapture F × List (CapturedInput F)
  send_reliable event now c =
      let (coalescer, pos) = flush now c.coalescer in
      (record c { coalescer = coalescer }, emitted_move pos ++ (event ∷ []))

  unfoldable pub poll : ℕ → InputCapture F → InputCapture F × Option (CapturedInput F)
  unfolding may_capture
  poll now c =
      if may_capture c
      then (let (coalescer, pos) = poll_move now c.coalescer in
          (
            record c { coalescer = coalescer },
            elim pos [ none ↦ none | some (x, y) ↦ some (CapturedInput.mouse_move x y) ],
          ))
      else (c, none)

  unfoldable pub flush_pending_move : ℕ → InputCapture F → InputCapture F × Option (CapturedInput F)
  unfolding may_capture
  flush_pending_move now c =
      if may_capture c
      then (let (coalescer, pos) = flush now c.coalescer in
          (
            record c { coalescer = coalescer },
            elim pos [ none ↦ none | some (x, y) ↦ some (CapturedInput.mouse_move x y) ],
          ))
      else (c, none)

module _ {F : Type 0} (float : Float F) where
  -- What `push` does once the focus allows it
  unfoldable pub capture : RawInput F → ℕ → InputCapture F → InputCapture F × List (CapturedInput F)
  unfolding send_reliable normalize
  capture (mouse_move px py) now c =
      let (coalescer, pos) = push_move (normalize float c.config.rect px py) now c.coalescer in
      (record c { coalescer = coalescer }, emitted_move pos)
  capture (mouse_button button pressed px py) now c =
      let (x, y) = normalize float c.config.rect px py in
      send_reliable (CapturedInput.mouse_button button pressed x y) now c
  capture (mouse_wheel delta_x delta_y precise px py) now c =
      let (x, y) = normalize float c.config.rect px py in
      send_reliable (CapturedInput.mouse_wheel delta_x delta_y precise x y) now c
  capture (key_named named pressed modifiers) now c = elim (lookup_scancode named) [
    | none ↦ (record c { unmapped_keys = bump c.unmapped_keys }, [])
    | some s ↦ send_reliable (CapturedInput.key s.code s.extended pressed modifiers) now c
  ]
  capture (key_scan scancode extended pressed modifiers) now c =
      send_reliable (CapturedInput.key scancode extended pressed modifiers) now c

  unfoldable pub push : RawInput F → ℕ → InputCapture F → InputCapture F × List (CapturedInput F)
  unfolding capture may_capture
  push raw now c =
      if may_capture c
      then capture raw now c
      else (record c { blocked_unfocused = bump c.blocked_unfocused }, [])
