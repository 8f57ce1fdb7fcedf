-- ===== src/Host/Control/Refusals.antt =====
-- What the agent session refuses: input after a kill, and every command before the boot secret.
use remotelink.Prelude.{
  Option-cases, Bool-cases, inl, inr, refl, sym, subst, Bool, true, false, not, ◌&&◌, Option, none,
  some, String, List, [], ◌∷◌, ◌≡◌, arith,
}
use remotelink.Text.{codes, as_bytes}
use remotelink.Auth.Crypto.{Crypto}
use remotelink.Ipc.Message.{
  ControlMessage, AttachSession, KillSwitch, attach_session, detach_session, shutdown_session,
  set_policy, start_media, stop_media, kill_switch, signal_forward, query_stats,
  show_session_chrome, stats_push, local_confirm_result,
}
use remotelink.Host.Agent.{ack, error, handle}
use remotelink.Host.Agent.Latches.{command, is_attach, is_live, IsDark, handle_dead, kill_dead}
use remotelink.Host.Session.{start_media as start_manager_media}
use remotelink.Host.Control.{
  AgentSession, World, input_injection_allowed, sync_input_policy, drive, handle_control, boot_gate,
  boot_secret_ok, serve_command,
}

-- No command of the series attaches a session.
unfoldable pub attaches_none : {Injector : Type 0} → List (World Injector × ControlMessage) → Bool
attaches_none [] = true
attaches_none ((w, msg) ∷ cs) = not (is_attach (command msg)) && attaches_none cs

-- The command attaches with the expected secret: the two texts have the same bytes.
unfoldable pub Presents : String → ControlMessage → Type 0
Presents expected (attach_session a) =
    (got : String) × (a.boot_secret ≡ some got) × (as_bytes (codes got) ≡ as_bytes (codes expected))
Presents expected _ = ⊥

-- No command of the series attaches with the expected secret.
unfoldable pub PresentsNone :
    {Injector : Type 0} → String → List (World Injector × ControlMessage) → Type 0
PresentsNone expected [] = Unit {0}
PresentsNone expected ((w, msg) ∷ cs) = (¬ Presents expected msg) × PresentsNone expected cs

-- Each reply is the error of a failed authentication.
unfoldable pub AreRefusals : List ControlMessage → Type 0
AreRefusals [] = Unit {0}
AreRefusals (ControlMessage.error e ∷ replies) = (e.code ≡ "auth_failed") × AreRefusals replies
AreRefusals (_ ∷ replies) = ⊥

boot_secret_ok_lem :
    (crypto : Crypto) (expected : String) (a : AttachSession)
    → boot_secret_ok crypto (some expected) a.boot_secret ≡ true
    → Presents expected (attach_session a)
unfolding boot_secret_ok Presents
boot_secret_ok_lem crypto expected a e = elim (Option-cases a.boot_secret) [
  | inl missing ↦ absurd (ground (arith, e, missing))
  | inr (got, there) ↦ (
    got,
    there,
    ground (arith, e, there, crypto.ct_eq_iff (as_bytes (codes expected)) (as_bytes (codes got))),
  )
]

module _ {Event Injector : Type 0} where
  -- A series of commands, each with what the other crates answer
  unfoldable pub handle_series :
      List (World Injector × ControlMessage)
      → AgentSession Event Injector
      → AgentSession Event Injector
  handle_series [] s = s
  handle_series ((w, msg) ∷ cs) s = handle_series cs ((handle_control w msg s).0)

  handle_control-state :
      (w : World Injector) (msg : ControlMessage) (s : AgentSession Event Injector)
      → (((handle_control w msg s).0).state.enable_input ≡ ((handle msg s.state).0).enable_input)
        × (is_live (((handle_control w msg s).0).state) ≡ is_live ((handle msg s.state).0))
        × (IsDark ((handle msg s.state).0) → IsDark (((handle_control w msg s).0).state))
  unfolding handle_control drive sync_input_policy start_manager_media is_live IsDark
  handle_control-state w (attach_session _) s = (ground arith, ground arith, λ d. ground arith)
  handle_control-state w (detach_session _) s = (ground arith, ground arith, λ d. ground arith)
  handle_control-state w (shutdown_session _) s = (ground arith, ground arith, λ d. ground arith)
  handle_control-state w (set_policy _) s = (ground arith, ground arith, λ d. ground arith)
  handle_control-state w (start_media _) s = (ground arith, ground arith, λ d. ground arith)
  handle_control-state w (stop_media _) s = (ground arith, ground arith, λ d. ground arith)
  handle_control-state w (kill_switch _) s = (ground arith, ground arith, λ d. ground arith)
  handle_control-state w (signal_forward _) s = (ground arith, ground arith, λ d. ground arith)
  handle_control-state w (query_stats _) s = (ground arith, ground arith, λ d. ground arith)
  handle_control-state w (show_session_chrome _) s = (ground arith, ground arith, λ d. ground arith)
  handle_control-state w (local_confirm_result _) s =
      (ground arith, ground arith, λ d. ground arith)
  handle_control-state w (stats_push _) s = (ground arith, ground arith, λ d. ground arith)
  handle_control-state w (ControlMessage.ack _) s = (ground arith, ground arith, λ d. ground arith)
  handle_control-state w (ControlMessage.error _) s =
      (ground arith, ground arith, λ d. ground arith)

  series_dead :
      (cs : List (World Injector × ControlMessage)) (s : AgentSession Event Injector)
      → attaches_none cs ≡ true
      → is_live s.state ≡ false
      → IsDark s.state
      → IsDark ((handle_series cs s).state)
  unfolding handle_series attaches_none
  series_dead [] s n l d = d
  series_dead ((w, msg) ∷ cs) s n l d =
      let (_, live, dark) = handle_control-state w msg s in
      let (l', d') = handle_dead msg s.state (ground arith) l d in
      series_dead cs ((handle_control w msg s).0) (ground arith) (ground (arith, live, l'))
        (dark d')

  -- After a kill switch that is acknowledged, whatever series of commands follows of which none
  -- attaches a session, input is not allowed to be injected, whatever the session's authorization
  -- and identity were.
  pub kill_stops_input :
      (k : KillSwitch) (w : World Injector) (cs : List (World Injector × ControlMessage))
      (s : AgentSession Event Injector)
      → (handle (kill_switch k) s.state).1 ≡ ack "kill_switch" k.session_id
      → attaches_none cs ≡ true
      → input_injection_allowed (handle_series cs ((handle_control w (kill_switch k) s).0)) ≡ false
  unfolding input_injection_allowed
  kill_stops_input k w cs s e n =
      let (_, live, dark) = handle_control-state w (kill_switch k) s in
      let (l, d) = kill_dead k s.state e in
      off (
        series_dead cs ((handle_control w (kill_switch k) s).0) n (ground (arith, live, l))
          (dark d))
    where
      off :
          IsDark ((handle_series cs ((handle_control w (kill_switch k) s).0)).state)
          → input_injection_allowed (handle_series cs ((handle_control w (kill_switch k) s).0))
            ≡ false
      off d = unfold IsDark in ground arith

  boot_gate-refuses :
      (crypto : Crypto) (expected : String) (msg : ControlMessage) (s : AgentSession Event Injector)
      → ¬ Presents expected msg
      → s.state.session_id ≡ none
      → (id : Option String) × (text : String) × (boot_gate crypto (some expected) msg s
          ≡ some (error "auth_failed" text id))
  unfolding boot_gate
  boot_gate-refuses crypto expected (attach_session a) s p n =
      elim (Bool-cases (boot_secret_ok crypto (some expected) a.boot_secret)) [
        | inl fits ↦ absurd (p (boot_secret_ok_lem crypto expected a fits))
        | inr differs ↦
            (some a.session_id, "boot secret missing or incorrect", ground (arith, differs))
      ]
  boot_gate-refuses crypto expected _ s p n =
      (none, "control IPC requires attach with boot_secret first", ground (arith, n))

  -- A series of rounds of the loop, with the replies
  unfoldable pub serve_series :
      Crypto
      → Option String
      → List (World Injector × ControlMessage)
      → AgentSession Event Injector
      → AgentSession Event Injector × List ControlMessage
  serve_series crypto expected [] s = (s, [])
  serve_series crypto expected ((w, msg) ∷ cs) s =
      let (s', reply) = serve_command crypto expected w msg s in
      let (s'', replies) = serve_series crypto expected cs s' in (s'', reply ∷ replies)

  -- Where a boot secret is expected and no session is attached, a series of commands none of which
  -- attaches with a secret of the same bytes changes nothing, whatever they are, and each is answered
  -- with `auth_failed`.
  pub serve_series-refuses :
      (crypto : Crypto) (expected : String) (cs : List (World Injector × ControlMessage))
      (s : AgentSession Event Injector)
      → PresentsNone expected cs
      → s.state.session_id ≡ none
      → let (s', replies) = serve_series crypto (some expected) cs s in
        (s' ≡ s) × AreRefusals replies
  unfolding serve_series serve_command PresentsNone AreRefusals error
  serve_series-refuses crypto expected [] s p n = (refl, tt)
  serve_series-refuses crypto expected ((w, msg) ∷ cs) s p n =
      let (id, text, e) = boot_gate-refuses crypto expected msg s p.0 n in
      let (same, refused) = serve_series-refuses crypto expected cs s p.1 n in
      let q : serve_command crypto (some expected) w msg s ≡ (s, error "auth_failed" text id) =
        ground (arith, e) in
      subst
        (λ x.
          ((serve_series crypto (some expected) cs x.0).0 ≡ s)
          × AreRefusals (x.1 ∷ (serve_series crypto (some expected) cs x.0).1))
        (sym q) (same, (refl, refused))
