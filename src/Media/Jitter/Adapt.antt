-- ===== src/Media/Jitter/Adapt.antt =====
-- What a push, a pop and a late drop do, and how the delay adapts.
use remotelink.Prelude.{
  ℕ, ◌+◌, ◌-◌, ◌%◌, ◌^◌, ◌≤◌, ◌<◌, ◌≡◌, ◌≢◌, ◌⊎◌, refl, min, some, none, Option, List, [], ◌∷◌,
  arith, All, subst,
}
use remotelink.Media.Jitter.{
  JitterBuffer, BufferedPacket, next_ewma, apply_transit, adapt, push_inner, pop_ready, pop_front,
  drop_late, duration_max, u64, sat64,
}
use remotelink.Media.Jitter.Queue.{Ordered, Split, enqueue-Split, DropsLate, drop_loop_lem}
use remotelink.Media.Jitter.Invariant.{
  IsValid, Call, step, run, pushes, pops_ready, pops_front, drops_late,
}

module _ {T : Type 0} where
  adapt-queue :
      (seq : Option ℕ) (pts recv_time : ℕ) (b : JitterBuffer T)
      → (adapt seq pts recv_time b).queue ≡ b.queue
  unfolding adapt
  adapt-queue none pts recv_time b = ground arith
  adapt-queue (some s) pts recv_time b = ground arith

  -- A pushed packet is queued behind all packets that are not later than it, and before all that
  -- are: the queue is sorted by time stamp, and packets of one time stamp stay in arrival order.
  pub push_inner-Split :
      (seq : Option ℕ) (pts recv_time : ℕ) (payload : T) (b : JitterBuffer T)
      → IsValid b
      → Split
          (record { seq = seq; pts = pts; recv_time = recv_time; payload = payload })
          b.queue
          (push_inner seq pts recv_time payload b).queue
  unfolding push_inner
  push_inner-Split seq pts recv_time payload b v =
      rw (adapt-queue seq pts recv_time (record b { received = (b.received + 1) % u64 })) (
        enqueue-Split (record { seq = seq; pts = pts; recv_time = recv_time; payload = payload })
          b.queue v.ordered)

  pop_ready_front :
      (now : ℕ) (b b' : JitterBuffer T) (p : BufferedPacket T) (q : List (BufferedPacket T))
      → b.queue ≡ q
      → Ordered q
      → pop_ready now b ≡ (b', some p)
      → (q ≡ p ∷ b'.queue)
        × (b.target ≤ now - p.recv_time)
        × All (λ r. p.pts ≤ r.pts) b'.queue
        × (b'.released ≡ (b.released + 1) % u64)
        × (b'.target ≡ b.target)
  unfolding pop_ready
  pop_ready_front now b b' p [] e₀ o e = absurd (ground (arith, e₀, e))
  pop_ready_front now b b' p (p₀ ∷ ps) e₀ o e =
      let same : p₀ ≡ p = ground (arith, e₀, e) in
      let rest : ps ≡ b'.queue = ground (arith, e₀, e) in
      (
        ground (arith, same, rest),
        ground (arith, e₀, e),
        subst (λ r. All (λ r'. r.pts ≤ r'.pts) b'.queue) same
            (subst (λ l. All (λ r'. p₀.pts ≤ r'.pts) l) rest o.0),
        ground (arith, e₀, e),
        ground (arith, e₀, e),
      )

  -- A packet that `pop_ready` hands out was the first of the queue, has been held for the target
  -- delay, and is not later than any that stay; it is counted and gone, and the target stays.
  pub pop_ready-some :
      (now : ℕ) (b b' : JitterBuffer T) (p : BufferedPacket T)
      → IsValid b
      → pop_ready now b ≡ (b', some p)
      → (b.queue ≡ p ∷ b'.queue)
        × (b.target ≤ now - p.recv_time)
        × All (λ q. p.pts ≤ q.pts) b'.queue
        × (b'.released ≡ (b.released + 1) % u64)
        × (b'.target ≡ b.target)
  pop_ready-some now b b' p v e = pop_ready_front now b b' p b.queue refl v.ordered e

  -- `drop_late` drops packets from the front as long as they have been held for more than the
  -- target and the threshold together (at most the largest duration), counts them, and stops at
  -- the first that has not.
  pub drop_late-DropsLate :
      (now late_threshold : ℕ) (b : JitterBuffer T)
      → IsValid b
      → let b' = drop_late now late_threshold b in
        DropsLate
          (min duration_max (b.target + late_threshold))
          now
          b.queue
          b'.queue
          b.dropped
          b'.dropped
  unfolding drop_late
  drop_late-DropsLate now late_threshold b v =
      drop_loop_lem (min duration_max (b.target + late_threshold)) now b.queue b.dropped
        v.dropped_u64

  -- Reordering moves nothing: a numbered packet that does not follow the last one, and a packet
  -- without a number that is not later than the last one measured, leave the delay and the
  -- average as they were.
  pub reorder_keeps_target :
      (seq : Option ℕ) (pts recv_time : ℕ) (payload : T) (b : JitterBuffer T)
      → ((s last : ℕ) × (seq ≡ some s) × (b.last_seq ≡ some last) × (s ≢ (last + 1) % 2 ^ 16))
        ⊎ ((lp : ℕ) × (seq ≡ none) × (b.last_pts ≡ some lp) × (pts ≤ lp))
      → let b' = push_inner seq pts recv_time payload b in
        (b'.target ≡ b.target) × (b'.jitter_us_ewma ≡ b.jitter_us_ewma)
  unfolding push_inner
  reorder_keeps_target (some s) pts recv_time payload b h = ground arith
  reorder_keeps_target none pts recv_time payload b h = ground arith

sat64-le : (m n : ℕ) → m < u64 → m ≤ n → (m ≤ sat64 n) × (sat64 n < u64)
unfolding sat64
sat64-le m n h k = ground arith

next_ewma-le :
    (ewma pts recv_time lr lp : ℕ)
    → ewma < u64
    → (ewma ≤ next_ewma ewma pts recv_time lr lp) × (next_ewma ewma pts recv_time lr lp < u64)
unfolding next_ewma
next_ewma-le ewma pts recv_time lr lp h = sat64-le ewma _ h (omega arith)

module _ {T : Type 0} where
  -- The average, as it stands before and after a call.
  abbrev Rises : JitterBuffer T → JitterBuffer T → Type 0
  Rises b b' = (b.jitter_us_ewma ≤ b'.jitter_us_ewma) × (b'.jitter_us_ewma < u64)

  apply_transit-Rises :
      (pts recv_time : ℕ) (b : JitterBuffer T)
      → b.jitter_us_ewma < u64
      → Rises b (apply_transit pts recv_time b)
  unfolding apply_transit
  apply_transit-Rises pts recv_time b h =
      grind (arith, λ (lr lp : ℕ). next_ewma-le b.jitter_us_ewma pts recv_time lr lp h)

  push_inner-Rises :
      (seq : Option ℕ) (pts recv_time : ℕ) (payload : T) (b : JitterBuffer T)
      → b.jitter_us_ewma < u64
      → Rises b (push_inner seq pts recv_time payload b)
  unfolding push_inner
  push_inner-Rises none pts recv_time payload b h =
      ground (
        arith,
        apply_transit-Rises pts recv_time (record b { received = (b.received + 1) % u64 }) h,
      )
  push_inner-Rises (some s) pts recv_time payload b h =
      ground (
        arith,
        apply_transit-Rises pts recv_time (record b { received = (b.received + 1) % u64 }) h,
      )

  step-Rises : (c : Call T) (b : JitterBuffer T) → b.jitter_us_ewma < u64 → Rises b (step c b)
  unfolding step pop_ready pop_front drop_late
  step-Rises (pushes seq pts recv_time payload) b h = push_inner-Rises seq pts recv_time payload b h
  step-Rises (pops_ready now) b h = ground arith
  step-Rises pops_front b h = ground arith
  step-Rises (drops_late now late_threshold) b h = (omega arith, h)

  -- The jitter average never falls: no call, and so no history of calls, lowers it, however
  -- regular the packets that come in.
  pub run-Rises :
      (cs : List (Call T)) (b : JitterBuffer T)
      → b.jitter_us_ewma < u64
      → b.jitter_us_ewma ≤ (run cs b).jitter_us_ewma
  unfolding run
  run-Rises [] b h = omega arith
  run-Rises (c ∷ cs) b h =
      let (up, fits) = step-Rises c b h in omega (arith, up, run-Rises cs (step c b) fits)
