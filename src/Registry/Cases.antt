-- ===== src/Registry/Cases.antt =====
-- How each call on a session can go: it is refused and changes nothing, or does its work. A proof
-- about a call is a proof for each of these.
use remotelink.Prelude.{
  ℕ, ◌+◌, ◌≤◌, ◌≡◌, Bool, none, some, inl, inr, String, String_discrete, arith, err, Option-cases,
}
use remotelink.Map.{lookup}
use remotelink.Protocol.{SignalMessage}
use remotelink.Registry.State.{Session, SessionRegistry, ConnTx, checked_add, u64_max}
use remotelink.Registry.Lifecycle.{
  CreatePendingSession, Outcome, install, create_after_reap, with_session,
}

pub checked_add_lem : (a b : ℕ) → checked_add a 1 ≡ some b → (b ≡ a + 1) × (b ≤ u64_max)
unfolding checked_add
checked_add_lem a b e = ground arith

module _ {Value : Type 0} (live : ConnTx → Bool) where
  pub create_cases {ℓ} :
      (P : Outcome Value → Type ℓ) (now : ℕ) (req : CreatePendingSession Value)
      (g : SessionRegistry Value)
      → ((e : SignalMessage Value) → P (g, err e))
      → ((host_conn seq next : ℕ)
          → lookup String_discrete req.session_id g.sessions ≡ none
          → lookup String_discrete req.host_public_id g.host_busy ≡ none
          → lookup String_discrete req.host_public_id g.host_by_public_id ≡ some host_conn
          → checked_add req.signal_seq 1 ≡ some seq
          → checked_add seq 1 ≡ some next
          → P (install live now req host_conn seq next g))
      → P (create_after_reap live now req g)
  unfolding create_after_reap
  create_cases P now req g refused done =
      elim (Option-cases (lookup String_discrete req.session_id g.sessions)) [
        | inr (s, e) ↦ rw (e, create_after_reap) (refused _)
        | inl fresh ↦ elim (Option-cases (lookup String_discrete req.host_public_id g.host_busy)) [
          | inr (s, e) ↦ rw (fresh, create_after_reap, e) (refused _)
          | inl free ↦
              elim (Option-cases (lookup String_discrete req.host_public_id g.host_by_public_id)) [
                | inl e ↦ rw (fresh, create_after_reap, free, e) (refused _)
                | inr (conn, published) ↦ elim (Option-cases (checked_add req.signal_seq 1)) [
                  | inl e ↦ rw (fresh, create_after_reap, free, published, e) (refused _)
                  | inr (seq, e) ↦ elim (Option-cases (checked_add seq 1)) [
                    | inl e' ↦ rw (fresh, create_after_reap, free, published, e, e') (refused _)
                    | inr (next, e') ↦
                        rw (fresh, create_after_reap, free, published, e, e')
                          (done conn seq next fresh free published e e')
                  ]
                ]
              ]
        ]
      ]

module _ {Value : Type 0} where
  pub with_session_cases {ℓ} :
      (P : Outcome Value → Type ℓ) (sid : String)
      (body : Session → SessionRegistry Value → Outcome Value) (g : SessionRegistry Value)
      → ((e : SignalMessage Value) → P (g, err e))
      → ((s : Session) → lookup String_discrete sid g.sessions ≡ some s → P (body s g))
      → P (with_session sid body g)
  unfolding with_session
  with_session_cases P sid body g refused found =
      elim (Option-cases (lookup String_discrete sid g.sessions)) [
        | inl e ↦ rw (e, with_session) (refused _)
        | inr (s, e) ↦ rw (e, with_session) (found s e)
      ]
