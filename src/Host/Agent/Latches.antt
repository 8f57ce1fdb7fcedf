-- ===== src/Host/Agent/Latches.antt =====
-- What the agent's flags promise, whatever the service sends and whenever the user enables
-- unattended access again.
use remotelink.Prelude.{Bool, true, false, not, ◌&&◌, List, [], ◌∷◌, ◌≡◌, refl, arith}
use remotelink.Ipc.Message.{
  ControlMessage, ControlError, KillSwitch, attach_session, detach_session, signal_forward,
  set_policy, start_media, stop_media, query_stats, stats_push, show_session_chrome,
  shutdown_session, kill_switch, local_confirm_result,
}
use remotelink.Host.Agent.{
  AgentSessionState, default_state, ack, error, clear_session_keep_unattended_latch,
  reenable_unattended_local, require_session, require_not_killed, kill, handle_kill_switch,
  unexpected, handle, handle_all, is_attached, empty_stats,
}

-- A call of the agent: a command of the service, or the user's.
pub data Call : Type 0 where
  command : ControlMessage → Call
  reenable : Call

unfoldable pub apply : Call → AgentSessionState → AgentSessionState
unfolding handle reenable_unattended_local
apply (command m) st = (handle m st).0
apply reenable st = reenable_unattended_local st

unfoldable pub apply_all : List Call → AgentSessionState → AgentSessionState
apply_all [] st = st
apply_all (c ∷ cs) st = apply_all cs (apply c st)

-- A session is attached and the kill switch is not latched.
unfoldable pub is_live : AgentSessionState → Bool
is_live st = is_attached st.session_id && not st.killed

-- The chrome is shown just while a session is live, and every other flag needs a live session, that
-- of unattended access an open latch besides.
unfoldable pub IsValid : AgentSessionState → Type 0
unfolding is_live
IsValid st =
    (st.chrome_visible ≡ is_live st)
    × (st.media_started ≡ true → is_live st ≡ true)
    × (st.enable_input ≡ true → is_live st ≡ true)
    × (st.unattended ≡ true → (is_live st ≡ true) × (st.unattended_disabled ≡ false))

handle-IsValid :
    (m : ControlMessage) (st : AgentSessionState) → IsValid st → IsValid ((handle m st).0)
unfolding IsValid is_live handle ack error clear_session_keep_unattended_latch require_session
    require_not_killed kill handle_kill_switch unexpected empty_stats
handle-IsValid (attach_session a) st v = ground arith
handle-IsValid (detach_session d) st v = ground arith
handle-IsValid (set_policy p) st v = ground arith
handle-IsValid (start_media s) st v = ground arith
handle-IsValid (stop_media s) st v = ground arith
handle-IsValid (query_stats q) st v = ground arith
handle-IsValid (show_session_chrome c) st v = ground arith
handle-IsValid (shutdown_session s) st v = ground arith
handle-IsValid (kill_switch k) st v = ground arith
handle-IsValid (signal_forward s) st v = ground arith
handle-IsValid (local_confirm_result _) st v = v
handle-IsValid (stats_push _) st v = v
handle-IsValid (ControlMessage.ack _) st v = v
handle-IsValid (ControlMessage.error _) st v = v

apply_all_keeps : (cs : List Call) (st : AgentSessionState) → IsValid st → IsValid (apply_all cs st)
unfolding apply_all apply
apply_all_keeps [] st v = v
apply_all_keeps (command m ∷ cs) st v = apply_all_keeps cs ((handle m st).0) (handle-IsValid m st v)
apply_all_keeps (reenable ∷ cs) st v =
    apply_all_keeps cs (reenable_unattended_local st)
      (unfold IsValid is_live reenable_unattended_local in ground arith)

-- Whatever is called on a new agent, the chrome is shown just while a session is attached and not
-- killed; media, input and unattended access are on only then, and the last only while its latch
-- is open.
pub apply_all-IsValid : (cs : List Call) → IsValid (apply_all cs default_state)
apply_all-IsValid cs = apply_all_keeps cs default_state (unfold IsValid is_live in ground arith)

-- In a valid state of the agent's flags (AgentSessionState), a command that its handler answers with
-- an error leaves the flags as they were. What AgentSession does after the handler is not spoken of.
pub handle-error :
    (m : ControlMessage) (st : AgentSessionState) (e : ControlError)
    → IsValid st
    → (handle m st).1 ≡ ControlMessage.error e
    → (handle m st).0 ≡ st
unfolding IsValid is_live handle ack error clear_session_keep_unattended_latch require_session
    require_not_killed kill handle_kill_switch unexpected empty_stats
handle-error (attach_session a) st e v r = ground arith
handle-error (detach_session d) st e v r = ground arith
handle-error (set_policy p) st e v r = ground arith
handle-error (start_media s) st e v r = ground arith
handle-error (stop_media s) st e v r = ground arith
handle-error (query_stats q) st e v r = ground arith
handle-error (show_session_chrome c) st e v r = ground arith
handle-error (shutdown_session s) st e v r = ground arith
handle-error (kill_switch k) st e v r = ground arith
handle-error (signal_forward s) st e v r = ground arith
handle-error (local_confirm_result _) st e v r = refl
handle-error (stats_push _) st e v r = refl
handle-error (ControlMessage.ack _) st e v r = refl
handle-error (ControlMessage.error _) st e v r = refl

unfoldable pub is_attach : Call → Bool
is_attach (command (attach_session a)) = true
is_attach _ = false

-- No session is attached among the calls.
unfoldable pub no_attach : List Call → Bool
no_attach [] = true
no_attach (c ∷ cs) = not (is_attach c) && no_attach cs

-- Nothing of a session is on.
unfoldable pub IsDark : AgentSessionState → Type 0
IsDark st =
    (st.media_started ≡ false)
    × (st.enable_input ≡ false)
    × (st.unattended ≡ false)
    × (st.chrome_visible ≡ false)

pub handle_dead :
    (m : ControlMessage) (st : AgentSessionState)
    → is_attach (command m) ≡ false
    → is_live st ≡ false
    → IsDark st
    → (is_live ((handle m st).0) ≡ false) × IsDark ((handle m st).0)
unfolding IsDark is_live is_attach handle ack error clear_session_keep_unattended_latch
    require_session require_not_killed kill handle_kill_switch unexpected empty_stats
handle_dead (attach_session a) st n l d = ground arith
handle_dead (detach_session _) st n l d = ground arith
handle_dead (set_policy p) st n l d = ground arith
handle_dead (start_media s) st n l d = ground arith
handle_dead (stop_media s) st n l d = ground arith
handle_dead (query_stats q) st n l d = ground arith
handle_dead (show_session_chrome c) st n l d = ground arith
handle_dead (shutdown_session s) st n l d = ground arith
handle_dead (kill_switch k) st n l d = ground arith
handle_dead (signal_forward s) st n l d = ground arith
handle_dead (local_confirm_result _) st n l d = (l, d)
handle_dead (stats_push _) st n l d = (l, d)
handle_dead (ControlMessage.ack _) st n l d = (l, d)
handle_dead (ControlMessage.error _) st n l d = (l, d)

apply_all_dead :
    (cs : List Call) (st : AgentSessionState)
    → no_attach cs ≡ true
    → is_live st ≡ false
    → IsDark st
    → IsDark (apply_all cs st)
unfolding apply_all apply no_attach
apply_all_dead [] st n l d = d
apply_all_dead (command m ∷ cs) st n l d =
    let (l', d') = handle_dead m st (ground arith) l d in
    apply_all_dead cs ((handle m st).0) (ground arith) l' d'
apply_all_dead (reenable ∷ cs) st n l d =
    apply_all_dead cs (reenable_unattended_local st) (ground arith)
      (unfold is_live reenable_unattended_local in l) (unfold IsDark reenable_unattended_local in d)

pub kill_dead :
    (k : KillSwitch) (st : AgentSessionState)
    → (handle (kill_switch k) st).1 ≡ ack "kill_switch" k.session_id
    → (is_live ((handle (kill_switch k) st).0) ≡ false) × IsDark ((handle (kill_switch k) st).0)
unfolding IsDark is_live handle handle_kill_switch kill ack error
kill_dead k st r = ground arith

-- After a kill switch that is acknowledged, media, input, unattended access and the chrome are off
-- and stay off, whatever else is called, until a session is attached again.
pub kill_latches :
    (k : KillSwitch) (st : AgentSessionState) (cs : List Call)
    → (handle (kill_switch k) st).1 ≡ ack "kill_switch" k.session_id
    → no_attach cs ≡ true
    → IsDark (apply_all cs ((handle (kill_switch k) st).0))
kill_latches k st cs r n =
    let (l, d) = kill_dead k st r in apply_all_dead cs ((handle (kill_switch k) st).0) n l d

handle_keeps_latch :
    (m : ControlMessage) (st : AgentSessionState)
    → st.unattended_disabled ≡ true
    → ((handle m st).0).unattended_disabled ≡ true
unfolding handle clear_session_keep_unattended_latch require_session require_not_killed kill
    handle_kill_switch unexpected
handle_keeps_latch (attach_session a) st h = ground arith
handle_keeps_latch (detach_session d) st h = ground arith
handle_keeps_latch (set_policy p) st h = ground arith
handle_keeps_latch (start_media s) st h = ground arith
handle_keeps_latch (stop_media s) st h = ground arith
handle_keeps_latch (query_stats q) st h = ground arith
handle_keeps_latch (show_session_chrome c) st h = ground arith
handle_keeps_latch (shutdown_session s) st h = ground arith
handle_keeps_latch (kill_switch k) st h = ground arith
handle_keeps_latch (signal_forward s) st h = ground arith
handle_keeps_latch (local_confirm_result _) st h = h
handle_keeps_latch (stats_push _) st h = h
handle_keeps_latch (ControlMessage.ack _) st h = h
handle_keeps_latch (ControlMessage.error _) st h = h

handle_all_keeps_latch :
    (ms : List ControlMessage) (st : AgentSessionState)
    → IsValid st
    → st.unattended_disabled ≡ true
    → ((handle_all ms st).unattended_disabled ≡ true) × ((handle_all ms st).unattended ≡ false)
unfolding handle_all
handle_all_keeps_latch [] st v h = (h, unfold IsValid in ground arith)
handle_all_keeps_latch (m ∷ ms) st v h =
    handle_all_keeps_latch ms ((handle m st).0) (handle-IsValid m st v) (handle_keeps_latch m st h)

-- Once a kill switch with `disable_unattended` has been acknowledged in a valid state, no series
-- of commands opens the latch again or turns unattended access on, attaching a session included:
-- that takes the user's call.
pub kill_disables_unattended :
    (k : KillSwitch) (st : AgentSessionState) (ms : List ControlMessage)
    → IsValid st
    → k.disable_unattended ≡ true
    → (handle (kill_switch k) st).1 ≡ ack "kill_switch" k.session_id
    → let after = handle_all ms ((handle (kill_switch k) st).0) in
      (after.unattended_disabled ≡ true) × (after.unattended ≡ false)
kill_disables_unattended k st ms v d r =
    handle_all_keeps_latch ms ((handle (kill_switch k) st).0) (handle-IsValid (kill_switch k) st v)
      (unfold handle handle_kill_switch kill ack error in ground arith)
