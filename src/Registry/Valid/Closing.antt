-- ===== src/Registry/Valid/Closing.antt =====
-- Closing and reaping: what they keep, and which sessions are left.
use remotelink.Prelude.{
  ℕ, Bool, ◌≡◌, refl, none, inl, inr, List, [], ◌∷◌, String, String_discrete, arith, ite,
  if◌then◌else◌, Option-cases, leb,
}
use remotelink.Map.{lookup, contains, keys_where, unless, Distinct}
use remotelink.Map.Laws.{lookup-remove, contains-keys_where}
use remotelink.Registry.State.{Session, SessionRegistry, ConnTx}
use remotelink.Registry.Close.{close_session_locked, close_each, reap_expired_locked, is_expired}
use remotelink.Registry.Valid.{Hosts, Consistent, IsValid}
use remotelink.Registry.Valid.Tables.{drop-Consistent}

-- What closing does not touch.
pub record SameFrame {Value : Type 0} (g g' : SessionRegistry Value) : Type 0 where
  pub same_conns : g'.conns ≡ g.conns
  pub same_hosts : g'.host_by_public_id ≡ g.host_by_public_id
  pub same_peers : g'.peers ≡ g.peers
  pub same_tokens : g'.viewer_tokens ≡ g.viewer_tokens
  pub same_pending_ttl : g'.pending_ttl ≡ g.pending_ttl
  pub same_active_ttl : g'.active_ttl ≡ g.active_ttl
  pub same_next : g'.next_conn_id ≡ g.next_conn_id

module _ {Value : Type 0} (live : ConnTx → Bool) where
  close-SameFrame :
      (sid reason : String) (g : SessionRegistry Value)
      → SameFrame g (close_session_locked live sid reason g)
  unfolding close_session_locked
  close-SameFrame sid reason g = ground arith

  pub close_each-SameFrame :
      (sids : List String) (reason : String) (g : SessionRegistry Value)
      → SameFrame g (close_each live sids reason g)
  unfolding close_each
  close_each-SameFrame [] reason g = ground arith
  close_each-SameFrame (sid ∷ sids) reason g = ground (
    arith,
    close-SameFrame sid reason g,
    close_each-SameFrame sids reason (close_session_locked live sid reason g),
  )

  pub lookup-close :
      (sid reason sid' : String) (g : SessionRegistry Value)
      → lookup String_discrete sid' (close_session_locked live sid reason g).sessions
        ≡ ite (String_discrete sid sid') none (lookup String_discrete sid' g.sessions)
  unfolding close_session_locked
  lookup-close sid reason sid' g = ground (arith, lookup-remove String_discrete sid sid' g.sessions)

  lookup-close_each :
      (sids : List String) (reason sid' : String) (g : SessionRegistry Value)
      → lookup String_discrete sid' (close_each live sids reason g).sessions ≡ (
          if contains String_discrete sid' sids
          then none
          else lookup String_discrete sid' g.sessions)
  unfolding close_each contains
  lookup-close_each [] reason sid' g = refl
  lookup-close_each (sid ∷ sids) reason sid' g = ground (
    arith,
    lookup-close sid reason sid' g,
    lookup-close_each sids reason sid' (close_session_locked live sid reason g),
  )

  -- A loop that closes what passes the test leaves the other sessions as they were.
  pub lookup-close_where :
      (p : Session → Bool) (reason sid : String) (g : SessionRegistry Value)
      → Distinct String_discrete g.sessions
      → lookup String_discrete sid (close_each live (keys_where p g.sessions) reason g).sessions
        ≡ unless p (lookup String_discrete sid g.sessions)
  lookup-close_where p reason sid g d = ground (
    arith,
    lookup-close_each (keys_where p g.sessions) reason sid g,
    contains-keys_where String_discrete p sid g.sessions d,
  )

  -- The hosts are any: `unregister_conn_locked` closes with some of them already gone.
  close-Consistent :
      (H : Hosts) (sid reason : String) (g : SessionRegistry Value)
      → Consistent g.sessions g.host_busy H
      → Consistent
          (close_session_locked live sid reason g).sessions
          (close_session_locked live sid reason g).host_busy
          H
  unfolding close_session_locked
  close-Consistent H sid reason g c = elim (Option-cases (lookup String_discrete sid g.sessions)) [
    | inl miss ↦ rw (miss, close_session_locked) c
    | inr (s, hit) ↦
        rw (hit, (c.each sid s hit).not_closed, close_session_locked)
          (drop-Consistent g.sessions g.host_busy H c sid s hit)
  ]

  pub close_each-Consistent :
      (H : Hosts) (sids : List String) (reason : String) (g : SessionRegistry Value)
      → Consistent g.sessions g.host_busy H
      → Consistent
          (close_each live sids reason g).sessions
          (close_each live sids reason g).host_busy
          H
  unfolding close_each
  close_each-Consistent H [] reason g c = c
  close_each-Consistent H (sid ∷ sids) reason g c =
      close_each-Consistent H sids reason (close_session_locked live sid reason g)
        (close-Consistent H sid reason g c)

  pub close-IsValid :
      (sid reason : String) (g : SessionRegistry Value)
      → IsValid g
      → IsValid (close_session_locked live sid reason g)
  close-IsValid sid reason g v =
      rw (close-SameFrame sid reason g).same_hosts
        (close-Consistent g.host_by_public_id sid reason g v)

  pub reap-SameFrame :
      (now : ℕ) (g : SessionRegistry Value) → SameFrame g (reap_expired_locked live now g)
  unfolding reap_expired_locked
  reap-SameFrame now g = close_each-SameFrame _ "session_ttl" g

  pub reap-IsValid :
      (now : ℕ) (g : SessionRegistry Value) → IsValid g → IsValid (reap_expired_locked live now g)
  unfolding reap_expired_locked
  reap-IsValid now g v =
      rw (close_each-SameFrame (keys_where (is_expired now) g.sessions) "session_ttl" g).same_hosts
        (close_each-Consistent g.host_by_public_id _ "session_ttl" g v)

  -- Exactly the sessions that are not past their time are left, unchanged.
  pub lookup-reap :
      (now : ℕ) (sid : String) (g : SessionRegistry Value)
      → IsValid g
      → lookup String_discrete sid (reap_expired_locked live now g).sessions
        ≡ unless (λ s. leb s.expires_at now) (lookup String_discrete sid g.sessions)
  unfolding reap_expired_locked is_expired
  lookup-reap now sid g v =
      let left = lookup-close_where (is_expired now) "session_ttl" sid g v.sessions_distinct in
      elim (Option-cases (lookup String_discrete sid g.sessions)) [
        | inl miss ↦ ground (arith, left, miss)
        | inr (s, hit) ↦ ground (arith, left, hit, v.each sid s hit)
      ]
