-- ===== src/Viewer/Connection/Phases.antt =====
-- Which phases the viewer's machine can reach.
use remotelink.Prelude.{
  not, ◌&&◌, ◌≡◌, refl, Bool, true, false, none, some, List, [], ◌∷◌, String, arith, ◌≢◌,
}
use remotelink.Viewer.Connection.{
  ConnectionState, ViewerPhase, ConnectionMachine, is_active, can_send_input, new, begin_connect,
  begin_answer, answered, fail, linked, lost, on_transport_state, played, on_media_received, reset,
  close,
}

-- A call of the machine.
pub data Event : Type 0 where
  connect : String → Event
  answer : Event
  transport : ConnectionState → Event
  media : Event
  failure : String → Event
  restart : Event
  hang_up : Event

unfoldable pub apply : Event → ConnectionMachine → ConnectionMachine
unfolding begin_connect begin_answer on_transport_state on_media_received fail reset close
apply (connect host) m = begin_connect host m
apply answer m = begin_answer m
apply (transport state) m = on_transport_state state m
apply media m = on_media_received m
apply (failure reason) m = fail reason m
apply restart m = reset m
apply hang_up m = close m

unfoldable pub apply_all : List Event → ConnectionMachine → ConnectionMachine
apply_all [] m = m
apply_all (e ∷ es) m = apply_all es (apply e m)

-- The transport has been connected since the last connect began.
unfoldable pub note_link : Event → Bool → Bool
note_link (connect host) b = false
note_link (transport ConnectionState.connected) b = true
note_link e b = b

unfoldable pub linked_after : List Event → Bool → Bool
linked_after [] b = b
linked_after (e ∷ es) b = linked_after es (note_link e b)

-- The error that is kept belongs to the failure that the phase shows, and an active session has a
-- host.
unfoldable pub IsValid : ConnectionMachine → Type 0
unfolding is_active
IsValid m =
    ((reason : String) → m.phase ≡ ViewerPhase.failed reason → m.last_error ≡ some reason)
    × (is_active m.phase ≡ true → m.host_public_id ≢ none)

-- What the moves between phases keep.
phase_moves :
    (p : ViewerPhase)
    → (can_send_input (answered p) ≡ can_send_input p)
      × (can_send_input (played p) ≡ can_send_input p)
      × (can_send_input (lost p) ≡ false)
      × (is_active (answered p) ≡ is_active p)
      × (is_active (played p) ≡ is_active p)
      × (is_active (linked p) ≡ is_active p)
      × (is_active (lost p) ≡ false)
unfolding can_send_input is_active answered played lost linked
phase_moves ViewerPhase.idle = (refl, refl, refl, refl, refl, refl, refl)
phase_moves ViewerPhase.connecting = (refl, refl, refl, refl, refl, refl, refl)
phase_moves ViewerPhase.answering = (refl, refl, refl, refl, refl, refl, refl)
phase_moves ViewerPhase.connected = (refl, refl, refl, refl, refl, refl, refl)
phase_moves ViewerPhase.streaming = (refl, refl, refl, refl, refl, refl, refl)
phase_moves (ViewerPhase.failed reason) = (refl, refl, refl, refl, refl, refl, refl)
phase_moves ViewerPhase.disconnected = (refl, refl, refl, refl, refl, refl, refl)
phase_moves ViewerPhase.closed = (refl, refl, refl, refl, refl, refl, refl)

failed_moves :
    (p : ViewerPhase) (r : String)
    → (answered p ≡ ViewerPhase.failed r → p ≡ ViewerPhase.failed r)
      × (played p ≡ ViewerPhase.failed r → p ≡ ViewerPhase.failed r)
      × (linked p ≡ ViewerPhase.failed r → p ≡ ViewerPhase.failed r)
      × (lost p ≡ ViewerPhase.failed r → p ≡ ViewerPhase.failed r)
unfolding is_active answered played lost linked
failed_moves ViewerPhase.idle r =
    (λ e. ground (arith, e), λ e. ground (arith, e), λ e. ground (arith, e), λ e. ground (arith, e))
failed_moves ViewerPhase.connecting r =
    (λ e. ground (arith, e), λ e. ground (arith, e), λ e. ground (arith, e), λ e. ground (arith, e))
failed_moves ViewerPhase.answering r =
    (λ e. ground (arith, e), λ e. ground (arith, e), λ e. ground (arith, e), λ e. ground (arith, e))
failed_moves ViewerPhase.connected r =
    (λ e. ground (arith, e), λ e. ground (arith, e), λ e. ground (arith, e), λ e. ground (arith, e))
failed_moves ViewerPhase.streaming r =
    (λ e. ground (arith, e), λ e. ground (arith, e), λ e. ground (arith, e), λ e. ground (arith, e))
failed_moves (ViewerPhase.failed reason) r =
    (λ e. ground (arith, e), λ e. ground (arith, e), λ e. ground (arith, e), λ e. ground (arith, e))
failed_moves ViewerPhase.disconnected r =
    (λ e. ground (arith, e), λ e. ground (arith, e), λ e. ground (arith, e), λ e. ground (arith, e))
failed_moves ViewerPhase.closed r =
    (λ e. ground (arith, e), λ e. ground (arith, e), λ e. ground (arith, e), λ e. ground (arith, e))

apply-linked :
    (e : Event) (m : ConnectionMachine) (b : Bool)
    → (can_send_input m.phase ≡ true → b ≡ true)
    → can_send_input ((apply e m).phase) ≡ true
    → note_link e b ≡ true
unfolding apply note_link can_send_input
apply-linked (connect host) m b h s = ground (arith, s)
apply-linked (transport ConnectionState.connected) m b h s = refl
apply-linked (transport ConnectionState.not_started) m b h s = h s
apply-linked (transport ConnectionState.connecting) m b h s = h s
apply-linked (transport ConnectionState.disconnected) m b h s =
    ground (arith, s, phase_moves m.phase)
apply-linked (transport ConnectionState.failed) m b h s = ground (arith, s)
apply-linked (transport ConnectionState.closed) m b h s = ground (arith, s)
apply-linked answer m b h s = ground (arith, h, s, phase_moves m.phase)
apply-linked media m b h s = ground (arith, h, s, phase_moves m.phase)
apply-linked (failure reason) m b h s = ground (arith, s)
apply-linked restart m b h s = ground (arith, s)
apply-linked hang_up m b h s = ground (arith, s)

-- The valid state is kept whatever is called.
apply-IsValid : (e : Event) (m : ConnectionMachine) → IsValid m → IsValid (apply e m)
unfolding apply IsValid is_active
apply-IsValid (connect host) m v = (λ r e. ground (arith, e), λ a e. ground (arith, e))
apply-IsValid (transport ConnectionState.connected) m v =
    (λ r e. v.0 r ((failed_moves m.phase r).2 e), λ a. v.1 (ground (arith, a, phase_moves m.phase)))
apply-IsValid (transport ConnectionState.not_started) m v = v
apply-IsValid (transport ConnectionState.connecting) m v = v
apply-IsValid (transport ConnectionState.disconnected) m v =
    (λ r e. v.0 r ((failed_moves m.phase r).3 e), λ a. ground (arith, a, phase_moves m.phase))
apply-IsValid (transport ConnectionState.failed) m v =
    (λ r e. ground (arith, e), λ a. ground (arith, a))
apply-IsValid (transport ConnectionState.closed) m v =
    (λ r e. ground (arith, e), λ a. ground (arith, a))
apply-IsValid answer m v =
    (λ r e. v.0 r ((failed_moves m.phase r).0 e), λ a. v.1 (ground (arith, a, phase_moves m.phase)))
apply-IsValid media m v =
    (λ r e. v.0 r ((failed_moves m.phase r).1 e), λ a. v.1 (ground (arith, a, phase_moves m.phase)))
apply-IsValid (failure reason) m v = (λ r e. ground (arith, e), λ a. ground (arith, a))
apply-IsValid restart m v = (λ r e. ground (arith, e), λ a. ground (arith, a))
apply-IsValid hang_up m v = (λ r e. ground (arith, e), λ a. ground (arith, a))

apply_all_linked :
    (es : List Event) (m : ConnectionMachine) (b : Bool)
    → (can_send_input m.phase ≡ true → b ≡ true)
    → can_send_input ((apply_all es m).phase) ≡ true
    → linked_after es b ≡ true
unfolding apply_all linked_after
apply_all_linked [] m b h s = h s
apply_all_linked (e ∷ es) m b h s =
    apply_all_linked es (apply e m) (note_link e b) (apply-linked e m b h) s

-- Whatever is called, input can be sent only if the transport has been connected since the last
-- connect began.
pub apply_all-linked_after :
    (es : List Event)
    → can_send_input ((apply_all es new).phase) ≡ true
    → linked_after es false ≡ true
unfolding can_send_input new
apply_all-linked_after es s = apply_all_linked es new false (λ e. ground (arith, e)) s

apply_all_keeps : (es : List Event) (m : ConnectionMachine) → IsValid m → IsValid (apply_all es m)
unfolding apply_all
apply_all_keeps [] m v = v
apply_all_keeps (e ∷ es) m v = apply_all_keeps es (apply e m) (apply-IsValid e m v)

-- Whatever is called, a failed phase shows the error that is kept, and an active one has a host.
pub apply_all-IsValid : (es : List Event) → IsValid (apply_all es new)
unfolding IsValid is_active new
apply_all-IsValid es = apply_all_keeps es new ((λ r e. ground (arith, e), λ a. ground (arith, a)))

unfoldable pub is_connect : Event → Bool
is_connect (connect host) = true
is_connect e = false

-- No connect among the calls.
unfoldable pub no_connect : List Event → Bool
no_connect [] = true
no_connect (e ∷ es) = not (is_connect e) && no_connect es

apply-inactive :
    (e : Event) (m : ConnectionMachine)
    → is_connect e ≡ false
    → is_active m.phase ≡ false
    → is_active ((apply e m).phase) ≡ false
unfolding apply is_active is_connect
apply-inactive (connect host) m n h = ground (arith, n)
apply-inactive (transport ConnectionState.connected) m n h = ground (arith, h, phase_moves m.phase)
apply-inactive (transport ConnectionState.not_started) m n h = h
apply-inactive (transport ConnectionState.connecting) m n h = h
apply-inactive (transport ConnectionState.disconnected) m n h = ground (arith, phase_moves m.phase)
apply-inactive (transport ConnectionState.failed) m n h = refl
apply-inactive (transport ConnectionState.closed) m n h = refl
apply-inactive answer m n h = ground (arith, h, phase_moves m.phase)
apply-inactive media m n h = ground (arith, h, phase_moves m.phase)
apply-inactive (failure reason) m n h = refl
apply-inactive restart m n h = refl
apply-inactive hang_up m n h = refl

-- A session that is no longer active stays so until a connect begins, whatever the transport and
-- the media do.
pub apply_all-inactive :
    (es : List Event) (m : ConnectionMachine)
    → no_connect es ≡ true
    → is_active m.phase ≡ false
    → is_active ((apply_all es m).phase) ≡ false
unfolding apply_all no_connect
apply_all-inactive [] m n h = h
apply_all-inactive (e ∷ es) m n h =
    ground (arith, n, h, apply-inactive e m, apply_all-inactive es (apply e m))
