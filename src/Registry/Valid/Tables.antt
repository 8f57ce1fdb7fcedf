-- ===== src/Registry/Valid/Tables.antt =====
-- What each change of the tables keeps of the invariant.
use remotelink.Prelude.{
  ◌≡◌, refl, false, none, some, ◌⊎◌, inl, inr, String, String_discrete, arith, ◌==◌, Option-cases,
}
use remotelink.Map.{lookup, insert, remove, remove_all, keys_where, map_values}
use remotelink.Map.Laws.{
  lookup-remove, lookup-insert, remove-Distinct, insert-Distinct, lookup-map_values,
  map_values-Distinct, lookup-remove_where, remove_all-Distinct,
}
use remotelink.Registry.State.{Session, ConnId}
use remotelink.Registry.Presence.{rebind}
use remotelink.Registry.Valid.{Sessions, Locks, Hosts, SessionOk, Consistent}

module _ (S : Sessions) (B : Locks) (H : Hosts) (c : Consistent S B H) where
  drop_each :
      (sid : String) (s : Session)
      → lookup String_discrete sid S ≡ some s
      → (sid' : String) (s' : Session)
      → lookup String_discrete sid' (remove String_discrete sid S) ≡ some s'
      → SessionOk (remove String_discrete s.host_public_id B) H sid' s'
  drop_each sid s e sid' s' e' = ground (
    arith,
    lookup-remove String_discrete sid sid' S,
    lookup-remove String_discrete s.host_public_id s'.host_public_id B,
    c.each sid s,
    c.each sid' s',
  )

  drop_owned :
      (sid : String) (s : Session)
      → lookup String_discrete sid S ≡ some s
      → (pid sid' : String)
      → lookup String_discrete pid (remove String_discrete s.host_public_id B) ≡ some sid'
      → (s' : Session) × (lookup String_discrete sid' (remove String_discrete sid S) ≡ some s')
        × (s'.host_public_id ≡ pid)
  drop_owned sid s e pid sid' e' =
      let kept : lookup String_discrete pid B ≡ some sid' =
        ground (arith, lookup-remove String_discrete s.host_public_id pid B) in
      let (s', stored, same) = c.owned pid sid' kept in
      (
        s',
        ground (
          arith,
          stored,
          lookup-remove String_discrete sid sid' S,
          lookup-remove String_discrete s.host_public_id pid B,
        ),
        same,
      )

  -- A session's row and its lock go together.
  pub drop-Consistent :
      (sid : String) (s : Session)
      → lookup String_discrete sid S ≡ some s
      → Consistent (remove String_discrete sid S) (remove String_discrete s.host_public_id B) H
  drop-Consistent sid s e = record {
    sessions_distinct = remove-Distinct String_discrete sid S c.sessions_distinct;
    hosts_distinct = c.hosts_distinct;
    each = drop_each sid s e;
    owned = drop_owned sid s e;
  }

  update_each :
      (sid : String) (s : Session)
      → SessionOk B H sid s
      → (sid' : String) (s' : Session)
      → lookup String_discrete sid' (insert String_discrete sid s S) ≡ some s'
      → SessionOk B H sid' s'
  update_each sid s o sid' s' e' =
      ground (arith, lookup-insert String_discrete sid sid' s S, c.each sid' s')

  update_owned :
      (sid : String) (s : Session)
      → SessionOk B H sid s
      → (pid sid' : String) → lookup String_discrete pid B ≡ some sid'
      → (s' : Session) × (lookup String_discrete sid' (insert String_discrete sid s S) ≡ some s')
        × (s'.host_public_id ≡ pid)
  update_owned sid s o pid sid' e = elim (String_discrete sid sid') [
    | yes p ↦
        let (old, stored, same) = c.owned pid sid' e in
        let (own, stored', same') = c.owned s.host_public_id sid o.locked in
        (
          s,
          ground (arith, lookup-insert String_discrete sid sid' s S),
          ground (arith, stored, same, stored', same'),
        )
    | no n ↦
        let (s', stored, same) = c.owned pid sid' e in
        (s', ground (arith, stored, lookup-insert String_discrete sid sid' s S), same)
  ]

  -- A session is written again, for the same host.
  pub update-Consistent :
      (sid : String) (s s' : Session)
      → lookup String_discrete sid S ≡ some s
      → SessionOk B H sid s'
      → Consistent (insert String_discrete sid s' S) B H
  update-Consistent sid s s' e o = record {
    sessions_distinct = insert-Distinct String_discrete sid s' S c.sessions_distinct;
    hosts_distinct = c.hosts_distinct;
    each = update_each sid s' o;
    owned = update_owned sid s' o;
  }

  add_each :
      (sid : String) (s : Session)
      → SessionOk (insert String_discrete s.host_public_id sid B) H sid s
      → lookup String_discrete s.host_public_id B ≡ none
      → (sid' : String) (s' : Session)
      → lookup String_discrete sid' (insert String_discrete sid s S) ≡ some s'
      → SessionOk (insert String_discrete s.host_public_id sid B) H sid' s'
  add_each sid s o free sid' s' e' = ground (
    arith,
    lookup-insert String_discrete sid sid' s S,
    lookup-insert String_discrete s.host_public_id s'.host_public_id sid B,
    c.each sid' s',
  )

  add_owned :
      (sid : String) (s : Session)
      → lookup String_discrete sid S ≡ none
      → (pid sid' : String)
      → lookup String_discrete pid (insert String_discrete s.host_public_id sid B) ≡ some sid'
      → (s' : Session) × (lookup String_discrete sid' (insert String_discrete sid s S) ≡ some s')
        × (s'.host_public_id ≡ pid)
  add_owned sid s fresh pid sid' e = elim (String_discrete s.host_public_id pid) [
    | yes p ↦ (
      s,
      ground (
        arith,
        lookup-insert String_discrete sid sid' s S,
        lookup-insert String_discrete s.host_public_id pid sid B,
      ),
      p,
    )
    | no n ↦
        let kept : lookup String_discrete pid B ≡ some sid' =
          ground (arith, lookup-insert String_discrete s.host_public_id pid sid B) in
        let (s', stored, same) = c.owned pid sid' kept in
        (s', ground (arith, stored, lookup-insert String_discrete sid sid' s S), same)
  ]

  -- A new session takes a free lock.
  pub add-Consistent :
      (sid : String) (s : Session)
      → lookup String_discrete sid S ≡ none
      → lookup String_discrete s.host_public_id B ≡ none
      → SessionOk (insert String_discrete s.host_public_id sid B) H sid s
      → Consistent
          (insert String_discrete sid s S)
          (insert String_discrete s.host_public_id sid B)
          H
  add-Consistent sid s fresh free o = record {
    sessions_distinct = insert-Distinct String_discrete sid s S c.sessions_distinct;
    hosts_distinct = c.hosts_distinct;
    each = add_each sid s o free;
    owned = add_owned sid s fresh;
  }

  publish_each :
      (pid : String) (conn : ConnId)
      → (lookup String_discrete pid H ≡ none) ⊎ (lookup String_discrete pid H ≡ some conn)
      → (sid : String) (s : Session) → lookup String_discrete sid S ≡ some s
      → SessionOk B (insert String_discrete pid conn H) sid s
  publish_each pid conn free sid s e =
      ground (arith, c.each sid s, lookup-insert String_discrete pid s.host_public_id conn H)

  -- A host is published that was not, or that had this connection.
  pub publish-Consistent :
      (pid : String) (conn : ConnId)
      → (lookup String_discrete pid H ≡ none) ⊎ (lookup String_discrete pid H ≡ some conn)
      → Consistent S B (insert String_discrete pid conn H)
  publish-Consistent pid conn free = record {
    sessions_distinct = c.sessions_distinct;
    hosts_distinct = insert-Distinct String_discrete pid conn H c.hosts_distinct;
    each = publish_each pid conn free;
    owned = c.owned;
  }

  rebind_each :
      (pid : String) (old conn : ConnId)
      → lookup String_discrete pid H ≡ some old
      → (sid : String) (s : Session)
      → lookup String_discrete sid (map_values (rebind old conn pid) S) ≡ some s
      → SessionOk B (insert String_discrete pid conn H) sid s
  unfolding rebind
  rebind_each pid old conn e sid s e' = elim (Option-cases (lookup String_discrete sid S)) [
    | inl miss ↦ cc (lookup-map_values String_discrete (rebind old conn pid) sid S, miss)
    | inr (s₀, hit) ↦ ground (
      arith,
      hit,
      lookup-map_values String_discrete (rebind old conn pid) sid S,
      c.each sid s₀,
      lookup-insert String_discrete pid s₀.host_public_id conn H,
    )
  ]

  rebind_owned :
      (pid : String) (old conn : ConnId) (pid' sid : String)
      → lookup String_discrete pid' B ≡ some sid
      → (s : Session) × (lookup String_discrete sid (map_values (rebind old conn pid) S) ≡ some s)
        × (s.host_public_id ≡ pid')
  unfolding rebind
  rebind_owned pid old conn pid' sid e =
      let (s, stored, same) = c.owned pid' sid e in
      (
        rebind old conn pid s,
        rw (lookup-map_values String_discrete (rebind old conn pid) sid S, stored) refl,
        ground (arith, same),
      )

  -- The host's sessions move to its new connection.
  pub rebind-Consistent :
      (pid : String) (old conn : ConnId)
      → lookup String_discrete pid H ≡ some old
      → Consistent (map_values (rebind old conn pid) S) B (insert String_discrete pid conn H)
  rebind-Consistent pid old conn e = record {
    sessions_distinct =
        map_values-Distinct String_discrete (rebind old conn pid) S c.sessions_distinct;
    hosts_distinct = insert-Distinct String_discrete pid conn H c.hosts_distinct;
    each = rebind_each pid old conn e;
    owned = rebind_owned pid old conn;
  }

  unpublish_each :
      (conn : ConnId)
      → ((sid : String) (s : Session)
          → lookup String_discrete sid S ≡ some s
          → (s.host_conn == conn) ≡ false)
      → (sid : String) (s : Session) → lookup String_discrete sid S ≡ some s
      → SessionOk B (remove_all String_discrete (keys_where (λ cid. cid == conn) H) H) sid s
  unpublish_each conn away sid s e = ground (
    arith,
    c.each sid s,
    away sid s e,
    lookup-remove_where String_discrete (λ (cid : ConnId). cid == conn) s.host_public_id H
        c.hosts_distinct,
  )

  -- A connection that no session has for its host is published no more.
  pub unpublish-Consistent :
      (conn : ConnId)
      → ((sid : String) (s : Session)
          → lookup String_discrete sid S ≡ some s
          → (s.host_conn == conn) ≡ false)
      → Consistent S B (remove_all String_discrete (keys_where (λ cid. cid == conn) H) H)
  unpublish-Consistent conn away = record {
    sessions_distinct = c.sessions_distinct;
    hosts_distinct = remove_all-Distinct String_discrete _ H c.hosts_distinct;
    each = unpublish_each conn away;
    owned = c.owned;
  }
