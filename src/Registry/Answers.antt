-- ===== src/Registry/Answers.antt =====
-- When a session is accepted, and what its end leaves behind.
use remotelink.Prelude.{
  ℕ, ◌≤◌, ◌≡◌, ◌≢◌, ◌↔◌, ◌⊎◌, inl, inr, Bool, none, some, String, ok, String_discrete, arith,
  Option-cases, Bool-cases, true, false, ℕ_discrete, ◌∷◌,
}
use remotelink.Map.{Map, lookup}
use remotelink.Map.Laws.{lookup-remove}
use remotelink.Protocol.{SignalMessage, pending, session_end}
use remotelink.Registry.State.{Session, SessionRegistry, ConnId, ConnTx, Log, notify, post}
use remotelink.Registry.Close.{reap_expired_locked}
use remotelink.Registry.Lifecycle.{
  with_session, accept_session, accept_body, refuse_answer, end_session, end_body,
}
use remotelink.Registry.Valid.{IsValid}
use remotelink.Registry.Valid.Closing.{reap-IsValid}
use remotelink.Registry.Media.{peer_of}

-- What a party is told: a message for a connection is put on its channel, if it has one that is still
-- received on, and nothing is sent otherwise.
unfoldable pub Told :
    {Value : Type 0}
    → (ConnTx → Bool)
    → Map ConnId ConnTx
    → ConnId
    → SignalMessage Value
    → Log Value
    → Log Value
    → Type 0
Told live conns conn msg sent sent' =
    ((tx : ConnTx) × (lookup ℕ_discrete conn conns ≡ some tx)
      × (live tx ≡ true)
      × (sent' ≡ (tx, msg) ∷ sent))
    ⊎ ((tx : ConnTx) × (lookup ℕ_discrete conn conns ≡ some tx)
        × (live tx ≡ false)
        × (sent' ≡ sent))
    ⊎ ((lookup ℕ_discrete conn conns ≡ none) × (sent' ≡ sent))

notify-Told :
    {Value : Type 0} (live : ConnTx → Bool) (conns : Map ConnId ConnTx) (conn : ConnId)
    (msg : SignalMessage Value) (sent sent' : Log Value)
    → sent' ≡ notify live conns conn msg sent
    → Told live conns conn msg sent sent'
unfolding notify post Told
notify-Told live conns conn msg sent sent' e = elim (Option-cases (lookup ℕ_discrete conn conns)) [
  | inl gone ↦ inr (inr (gone, ground (arith, e, gone)))
  | inr (tx, found) ↦ elim (Bool-cases (live tx)) [
    | inl heard ↦ inl (tx, found, heard, ground (arith, e, found, heard))
    | inr deaf ↦ inr (inl (tx, found, deaf, ground (arith, e, found, deaf)))
  ]
]

module _ {Value : Type 0} (live : ConnTx → Bool) (now : ℕ) (from : ConnId) (sid : String)
    (seq : ℕ) where
  accepted :
      (g : SessionRegistry Value)
      → (accept_session live now from sid seq g).1 ≡ ok tt
      → (s : Session) × (lookup String_discrete sid (reap_expired_locked live now g).sessions
          ≡ some s)
        × (s.host_conn ≡ from)
        × (s.state ≡ pending)
        × (s.next_signal_seq ≤ seq)
  unfolding accept_session with_session accept_body refuse_answer
  accepted g e =
      elim (Option-cases (lookup String_discrete sid (reap_expired_locked live now g).sessions)) [
        | inl miss ↦ absurd (ground (arith, e, miss))
        | inr (s, hit) ↦
            (s, hit, ground (arith, e, hit), ground (arith, e, hit), ground (arith, e, hit))
      ]

  -- `accept_session` answers `ok` exactly when, after the reap, the session is there and pending, the
  -- caller is its host, and the number is not below the session's counter.
  pub accept_iff :
      (g : SessionRegistry Value)
      → ((accept_session live now from sid seq g).1 ≡ ok tt) ↔ (
          (s : Session) × (lookup String_discrete sid (reap_expired_locked live now g).sessions
            ≡ some s)
          × (s.host_conn ≡ from)
          × (s.state ≡ pending)
          × (s.next_signal_seq ≤ seq))
  unfolding accept_session with_session accept_body refuse_answer
  accept_iff g = (accepted g, λ t. ground (arith, t))

  -- In a valid registry, after an `end` that is answered `ok`, the session is gone and its host's
  -- lock is free; the caller was a party, and the number was not below the counter. The end with its
  -- number and reason has been put on the other party's channel, if that party is connected and its
  -- channel still has a receiver, and nothing else has been sent since the reap. Every other session
  -- is as the reap left it.
  pub end_ok :
      (reason other : String) (g g' : SessionRegistry Value)
      → IsValid g
      → end_session live now from sid seq reason g ≡ (g', ok tt)
      → sid ≢ other
      → let h = reap_expired_locked live now g in
        (s : Session) × (lookup String_discrete sid h.sessions ≡ some s)
        × ((s.host_conn ≡ from) ⊎ (s.viewer_conn ≡ from))
        × (s.next_signal_seq ≤ seq)
        × (lookup String_discrete sid g'.sessions ≡ none)
        × (lookup String_discrete s.host_public_id g'.host_busy ≡ none)
        × Told live h.conns (peer_of from s) (session_end sid seq reason) h.sent g'.sent
        × (lookup String_discrete other g'.sessions ≡ lookup String_discrete other h.sessions)
  unfolding end_session with_session end_body
  end_ok reason other g g' v e n =
      let h = reap_expired_locked live now g in
      let w = reap-IsValid live now g v in
      elim (Option-cases (lookup String_discrete sid h.sessions)) [
        | inl miss ↦ absurd (ground (arith, e, miss))
        | inr (s, hit) ↦
            let o = w.each sid s hit in
            (
              s,
              hit,
              ground (arith, e, hit, o),
              ground (arith, e, hit, o),
              ground (arith, e, hit, o, lookup-remove String_discrete sid sid h.sessions),
              ground (
                arith,
                e,
                hit,
                o,
                lookup-remove String_discrete s.host_public_id s.host_public_id h.host_busy,
              ),
              notify-Told live h.conns (peer_of from s) (session_end sid seq reason) h.sent g'.sent
                  (ground (arith, e, hit, o)),
              ground (arith, e, hit, o, lookup-remove String_discrete sid other h.sessions),
            )
      ]
