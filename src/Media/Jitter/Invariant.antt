-- ===== src/Media/Jitter/Invariant.antt =====
-- What every call of the jitter buffer keeps.
use remotelink.Prelude.{
  ℕ, ◌+◌, ◌≤◌, ◌<◌, ◌%◌, ◌≡◌, refl, Option, none, some, List, [], ◌∷◌, ◌++◌, arith, length,
  length-append, min, subst, ap, Bool-cases, leb, inl, inr, ◌-◌,
}
use remotelink.Media.Jitter.{
  duration_max, JitterBuffer, JitterConfig, BufferedPacket, clamp_duration, next_target,
  apply_transit, adapt, push_inner, pop_ready, pop_front, drop_late, new, u64, drop_loop,
}
use remotelink.Media.Jitter.Queue.{Ordered, enqueue-Ordered, length-enqueue, drop_loop_lem}

-- The queue is in order, the target lies between its bounds, and every packet that came in is
-- still queued, was handed out or was dropped; the counters wrap together.
pub record IsValid {T : Type 0} (b : JitterBuffer T) : Type 0 where
  pub ordered : Ordered b.queue
  pub above : b.cfg.min_target ≤ b.target
  pub below : b.target ≤ b.cfg.max_target
  pub accounted : b.received ≡ (b.released + b.dropped + length b.queue) % u64
  pub dropped_u64 : b.dropped < u64

clamp_bounds :
    (v lo hi : ℕ) → lo ≤ hi → (lo ≤ clamp_duration v lo hi) × (clamp_duration v lo hi ≤ hi)
unfolding clamp_duration
clamp_bounds v lo hi h = ground arith

module _ {T : Type 0} where
  Ordered-suffix : (xs ys : List (BufferedPacket T)) → Ordered (xs ++ ys) → Ordered ys
  Ordered-suffix [] ys o = o
  Ordered-suffix (x ∷ xs) ys o = Ordered-suffix xs ys o.1

  -- What adaptation leaves alone, and where it may move the target.
  record Adapts (b b' : JitterBuffer T) : Type 0 where
    same_cfg : b'.cfg ≡ b.cfg
    same_queue : b'.queue ≡ b.queue
    same_dropped : b'.dropped ≡ b.dropped
    same_released : b'.released ≡ b.released
    same_received : b'.received ≡ b.received
    above : b'.cfg.min_target ≤ b'.target
    below : b'.target ≤ b'.cfg.max_target

  apply_transit-Adapts :
      (pts recv_time : ℕ) (b : JitterBuffer T)
      → b.cfg.min_target ≤ b.target
      → b.target ≤ b.cfg.max_target
      → Adapts b (apply_transit pts recv_time b)
  unfolding apply_transit next_target
  apply_transit-Adapts pts recv_time b h k = ground arith

  adapt-Adapts :
      (seq : Option ℕ) (pts recv_time : ℕ) (b : JitterBuffer T)
      → b.cfg.min_target ≤ b.target
      → b.target ≤ b.cfg.max_target
      → Adapts b (adapt seq pts recv_time b)
  unfolding adapt
  adapt-Adapts none pts recv_time b h k = ground (arith, apply_transit-Adapts pts recv_time b h k)
  adapt-Adapts (some s) pts recv_time b h k =
      ground (arith, apply_transit-Adapts pts recv_time b h k)

  push_inner-IsValid :
      (seq : Option ℕ) (pts recv_time : ℕ) (payload : T) (b : JitterBuffer T)
      → IsValid b
      → IsValid (push_inner seq pts recv_time payload b)
  unfolding push_inner
  push_inner-IsValid seq pts recv_time payload b v =
      let b₀ : JitterBuffer T = record b { received = (b.received + 1) % u64 } in
      let pkt : BufferedPacket T = record {
        seq = seq;
        pts = pts;
        recv_time = recv_time;
        payload = payload;
      } in
      let a = adapt-Adapts seq pts recv_time b₀ v.above v.below in
      record {
        ordered = rw a.same_queue (enqueue-Ordered pkt b.queue v.ordered);
        above = a.above;
        below = a.below;
        accounted = ground (arith, a, v.accounted, length-enqueue pkt b.queue);
        dropped_u64 = ground (arith, a);
      }

  drop_late-IsValid :
      (now late_threshold : ℕ) (b : JitterBuffer T)
      → IsValid b
      → IsValid (drop_late now late_threshold b)
  unfolding drop_late
  drop_late-IsValid now late_threshold b v =
      let limit = min duration_max (b.target + late_threshold) in
      let (q', n') = drop_loop limit now b.queue b.dropped in
      let d = drop_loop_lem limit now b.queue b.dropped v.dropped_u64 in
      record {
        ordered = Ordered-suffix d.gone q' (subst Ordered d.split v.ordered);
        above = v.above;
        below = v.below;
        accounted =
            omega (arith, v.accounted, d.counted, ap length d.split, length-append d.gone q');
        dropped_u64 = omega (arith, d.counted);
      }

  take_front-IsValid :
      (p : BufferedPacket T) (ps : List (BufferedPacket T)) (b : JitterBuffer T)
      → b.queue ≡ p ∷ ps
      → IsValid b
      → IsValid (record b { released = (b.released + 1) % u64; queue = ps })
  take_front-IsValid p ps b e v = record {
    ordered = ground (arith, e, v.ordered);
    above = v.above;
    below = v.below;
    accounted = ground (arith, e, v.accounted);
    dropped_u64 = v.dropped_u64;
  }

  pop_front-IsValid :
      (b : JitterBuffer T) (q : List (BufferedPacket T))
      → b.queue ≡ q
      → IsValid b
      → IsValid (pop_front b).0
  unfolding pop_front
  pop_front-IsValid b [] e v = rw (e, pop_front) v
  pop_front-IsValid b (p ∷ ps) e v = rw (e, pop_front) (take_front-IsValid p ps b e v)

  pop_ready-IsValid :
      (now : ℕ) (b : JitterBuffer T) (q : List (BufferedPacket T))
      → b.queue ≡ q
      → IsValid b
      → IsValid (pop_ready now b).0
  unfolding pop_ready
  pop_ready-IsValid now b [] e v = rw (e, pop_ready) v
  pop_ready-IsValid now b (p ∷ ps) e v = elim (Bool-cases (leb b.target (now - p.recv_time))) [
    | inl ready ↦ rw (e, pop_ready, ready) (take_front-IsValid p ps b e v)
    | inr early ↦ rw (e, pop_ready, early) v
  ]

-- The calls that change the buffer.
pub data Call (T : Type 0) : Type 0 where
  pushes : Option ℕ → ℕ → ℕ → T → Call T
  pops_ready : ℕ → Call T
  pops_front : Call T
  drops_late : ℕ → ℕ → Call T

module _ {T : Type 0} where
  unfoldable pub step : Call T → JitterBuffer T → JitterBuffer T
  step (pushes seq pts recv_time payload) b = push_inner seq pts recv_time payload b
  step (pops_ready now) b = (pop_ready now b).0
  step pops_front b = (pop_front b).0
  step (drops_late now late_threshold) b = drop_late now late_threshold b

  unfoldable pub run : List (Call T) → JitterBuffer T → JitterBuffer T
  run [] b = b
  run (c ∷ cs) b = run cs (step c b)

  step-IsValid : (c : Call T) (b : JitterBuffer T) → IsValid b → IsValid (step c b)
  unfolding step
  step-IsValid (pushes seq pts recv_time payload) b v =
      push_inner-IsValid seq pts recv_time payload b v
  step-IsValid (pops_ready now) b v = pop_ready-IsValid now b b.queue refl v
  step-IsValid pops_front b v = pop_front-IsValid b b.queue refl v
  step-IsValid (drops_late now late_threshold) b v = drop_late-IsValid now late_threshold b v

  pub steps-IsValid : (cs : List (Call T)) (b : JitterBuffer T) → IsValid b → IsValid (run cs b)
  unfolding run
  steps-IsValid [] b v = v
  steps-IsValid (c ∷ cs) b v = steps-IsValid cs (step c b) (step-IsValid c b v)

  -- Whatever is called on a new buffer, and in whatever order: the packets are queued in the order
  -- of their time stamps, the target delay lies between the configured bounds, and what was
  -- received is what was released, dropped or is queued. The bounds are in order.
  pub run-IsValid :
      (cfg : JitterConfig) (cs : List (Call T))
      → cfg.min_target ≤ cfg.max_target
      → IsValid (run cs (new cfg))
  unfolding new
  run-IsValid cfg cs h = steps-IsValid cs (new cfg) (record {
    ordered = tt;
    above = (clamp_bounds cfg.initial_target cfg.min_target cfg.max_target h).0;
    below = (clamp_bounds cfg.initial_target cfg.min_target cfg.max_target h).1;
    accounted = omega arith;
    dropped_u64 = omega arith;
  })
