-- ===== src/Viewer/Coalescer/Delivery.antt =====
-- What reaches the host of the moves that the coalescer accepts.
use remotelink.Prelude.{
  Option-cases, inl, inr, ℕ, ◌+◌, ◌≡◌, ◌≤◌, ◌<◌, refl, false, Option, none, some, List, [], ◌∷◌,
  arith, length,
}
use remotelink.Viewer.Coalescer.{
  MouseMoveCoalescer, new, has_pending, discard_pending, should_emit, take_emit, replace_pending,
  push, poll, flush, next_poll_deadline, u64_max,
}

-- A call of the coalescer.
pub data Call (P : Type 0) : Type 0 where
  move : P → ℕ → Call P
  tick : ℕ → Call P
  force : ℕ → Call P
  discard : Call P

-- The number of positions that wait, 0 or 1.
abbrev pub waiting : {P : Type 0} → Option P → ℕ
waiting none = 0
waiting (some _) = 1

module _ {P : Type 0} where
  unfoldable pub apply : Call P → MouseMoveCoalescer P → MouseMoveCoalescer P
  apply (move pos now) c = (push pos now c).0
  apply (tick now) c = (poll now c).0
  apply (force now) c = (flush now c).0
  apply discard c = discard_pending c

  unfoldable pub apply_all : List (Call P) → MouseMoveCoalescer P → MouseMoveCoalescer P
  apply_all [] c = c
  apply_all (call ∷ calls) c = apply_all calls (apply call c)

  -- Every accepted position has been emitted, replaced, discarded, or still waits.
  abbrev pub Balanced : MouseMoveCoalescer P → Type 0
  Balanced c = c.accepted ≡ c.emitted + c.coalesced_away + c.discarded + waiting c.pending

  -- What one call keeps, while no counter is at the end of its range.
  apply_step :
      (call : Call P) (c : MouseMoveCoalescer P)
      → Balanced c
      → c.accepted < u64_max
      → Balanced (apply call c) × ((apply call c).accepted ≤ c.accepted + 1)
  unfolding apply push poll flush discard_pending take_emit has_pending should_emit replace_pending
  apply_step (move pos now) c b lt = ground (arith, b, lt)
  apply_step (tick now) c b lt = ground (arith, b, lt)
  apply_step (force now) c b lt = ground (arith, b, lt)
  apply_step discard c b lt = ground (arith, b, lt)

  apply_all_lem :
      (calls : List (Call P)) (c : MouseMoveCoalescer P)
      → Balanced c
      → c.accepted + length calls ≤ u64_max
      → Balanced (apply_all calls c)
  unfolding apply_all
  apply_all_lem [] c b le = b
  apply_all_lem (call ∷ calls) c b le =
      let (b', step) = apply_step call c b (ground (arith, le)) in
      apply_all_lem calls (apply call c) b' (ground (arith, le, step))

  -- No move is lost unseen: after any series of calls, of at most `u64_max` calls, the accepted
  -- positions are the emitted ones, the replaced ones, the discarded ones and the waiting one.
  pub apply_all-Balanced :
      (interval : ℕ) (calls : List (Call P))
      → length calls ≤ u64_max
      → Balanced (apply_all calls (new interval))
  unfolding new
  apply_all-Balanced interval calls le =
      apply_all_lem calls (new interval) refl (ground (arith, le))

  -- A move that is put off is not forgotten: from the deadline that the coalescer names, a poll
  -- emits that position and nothing waits any more.
  pub push-poll :
      (pos : P) (now clock deadline time : ℕ) (c c' : MouseMoveCoalescer P)
      → push pos now c ≡ (c', none)
      → next_poll_deadline clock c' ≡ some deadline
      → deadline ≤ time
      → ((poll time c').1 ≡ some pos) × (has_pending ((poll time c').0) ≡ false)
  unfolding push poll take_emit has_pending should_emit replace_pending next_poll_deadline
  push-poll pos now clock deadline time c c' e d le = elim (Option-cases c.last_emit) [
    | inl n ↦ ground (arith, e, d, le, n)
    | inr (t, l) ↦ ground (arith, e, d, le, l)
  ]

  -- A move or a poll that emits does so an interval after the last emission at the earliest, and
  -- a move emits its own position.
  pub emission_spaced :
      (pos p : P) (now t : ℕ) (c c' : MouseMoveCoalescer P)
      → c.last_emit ≡ some t
      → t ≤ now
      → (push pos now c ≡ (c', some p) → (t + c.interval ≤ now) × (p ≡ pos))
        × (poll now c ≡ (c', some p) → (t + c.interval ≤ now) × (c.pending ≡ some p))
  unfolding push poll take_emit has_pending should_emit replace_pending
  emission_spaced pos p now t c c' l le =
      (λ e. ground (arith, e, l, le), λ e. ground (arith, e, l, le))
