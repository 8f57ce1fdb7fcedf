-- ===== src/Media/Jitter.antt =====
-- The jitter buffer of packages/media/src/jitter.rs. A `Duration` is a number of nanoseconds.
-- The counters wrap at 64 bits. `VecDeque` is a list, its front first.
pub mod Queue
pub mod Adapt
pub mod Invariant
use remotelink.Prelude.{
  ℕ, suc, ◌+◌, ◌-◌, ◌*◌, ◌/◌, ◌%◌, ◌^◌, zero, min, Bool, not, Option, none, some, List, [], ◌∷◌,
  ltb, leb, ◌==◌, if◌then◌else◌, length,
}
use remotelink.Prelude.Int.{as_i64, ◌+ℤ◌, ◌-ℤ◌, unsigned_abs, quot, clamp_nonneg}

abbrev pub micros : ℕ → ℕ
micros us = us * 1000

abbrev pub millis : ℕ → ℕ
millis ms = ms * 1_000_000

abbrev pub as_micros : ℕ → ℕ
as_micros d = d / 1000

abbrev pub u64 : ℕ
u64 = 2 ^ 64

abbrev pub duration_max : ℕ
duration_max = (2 ^ 64 - 1) * 1_000_000_000 + 999_999_999

pub record JitterConfig : Type 0 where
  pub min_target : ℕ
  pub max_target : ℕ
  pub initial_target : ℕ

abbrev pub wan_default : JitterConfig
wan_default = record { min_target = millis 20; max_target = millis 40; initial_target = millis 30 }

abbrev pub lan_video : JitterConfig
lan_video = record { min_target = millis 10; max_target = millis 15; initial_target = millis 12 }

abbrev pub lan_audio : JitterConfig
lan_audio = record { min_target = millis 15; max_target = millis 25; initial_target = millis 20 }

pub record JitterStats : Type 0 where
  pub depth : ℕ
  pub dropped : ℕ
  pub released : ℕ
  pub received : ℕ

pub record BufferedPacket (T : Type 0) : Type 0 where
  pub seq : Option ℕ
  pub pts : ℕ
  pub recv_time : ℕ
  pub payload : T

pub record JitterBuffer (T : Type 0) : Type 0 where
  pub cfg : JitterConfig
  pub target : ℕ
  pub queue : List (BufferedPacket T)
  pub dropped : ℕ
  pub released : ℕ
  pub received : ℕ
  pub last_recv : Option ℕ
  pub last_pts : Option ℕ
  pub last_seq : Option ℕ
  pub jitter_us_ewma : ℕ

unfoldable pub clamp_duration : ℕ → ℕ → ℕ → ℕ
clamp_duration v lo hi = if ltb v lo then lo else if ltb hi v then hi else v

-- `iter().position(..)`
unfoldable pub position : {A : Type 0} → (A → Bool) → List A → Option ℕ
position p [] = none
position p (x ∷ xs) =
    let later = position p xs in
    if p x then some 0 else elim later [ none ↦ none | some i ↦ some (suc i) ]

-- `VecDeque::insert`, which panics past the end; the index that `push_inner` gives is in range.
unfoldable pub insert_at : {A : Type 0} → ℕ → A → List A → List A
insert_at zero a xs = a ∷ xs
insert_at (suc i) a [] = a ∷ []
insert_at (suc i) a (x ∷ xs) = x ∷ insert_at i a xs

unfoldable pub sat64 : ℕ → ℕ
sat64 n = if ltb n u64 then n else u64 - 1

-- The new average: it moves by a sixteenth of what the deviation exceeds it by.
unfoldable pub next_ewma : ℕ → ℕ → ℕ → ℕ → ℕ → ℕ
next_ewma ewma pts recv_time last_recv last_pts =
    let transit =
      as_i64 (as_micros (recv_time - last_recv)) -ℤ as_i64 (as_micros (pts - last_pts)) in
    sat64 (ewma + (unsigned_abs transit - ewma) / 16)

-- The new target: an eighth of the way to twice the average, clamped.
unfoldable pub next_target : JitterConfig → ℕ → ℕ → ℕ
unfolding clamp_duration
next_target cfg target ewma =
    let t_us = as_i64 (as_micros target) in
    let d_us = as_i64 (as_micros (micros (sat64 (ewma * 2)))) in
    clamp_duration (micros (clamp_nonneg (t_us +ℤ quot (d_us -ℤ t_us) 8))) cfg.min_target
      cfg.max_target

module _ {T : Type 0} where
  unfoldable pub new : JitterConfig → JitterBuffer T
  unfolding clamp_duration
  new cfg = record {
    cfg = cfg;
    target = clamp_duration cfg.initial_target cfg.min_target cfg.max_target;
    queue = [];
    dropped = 0;
    released = 0;
    received = 0;
    last_recv = none;
    last_pts = none;
    last_seq = none;
    jitter_us_ewma = 0;
  }

  unfoldable pub stats : JitterBuffer T → JitterStats
  stats b = record {
    depth = length b.queue;
    dropped = b.dropped;
    released = b.released;
    received = b.received;
  }

  unfoldable pub apply_transit : ℕ → ℕ → JitterBuffer T → JitterBuffer T
  apply_transit pts recv_time b = elim b.last_recv [
    | none ↦ b
    | some lr ↦ elim b.last_pts [
      | none ↦ b
      | some lp ↦
          let ewma = next_ewma b.jitter_us_ewma pts recv_time lr lp in
          record b { jitter_us_ewma = ewma; target = next_target b.cfg b.target ewma }
    ]
  ]

  -- Where the next packet's transit time is measured from.
  abbrev measured_from : ℕ → ℕ → JitterBuffer T → JitterBuffer T
  measured_from pts recv_time b = record b { last_recv = some recv_time; last_pts = some pts }

  -- With a number: only the successor of the last one is measured, and any number is remembered.
  unfoldable pub adapt_seq : ℕ → ℕ → ℕ → JitterBuffer T → JitterBuffer T
  unfolding apply_transit
  adapt_seq s pts recv_time b =
      let resync : JitterBuffer T = record (measured_from pts recv_time b) { last_seq = some s } in
      let adapted : JitterBuffer T =
        record (measured_from pts recv_time (apply_transit pts recv_time b)) {
          last_seq = some s;
        } in
      elim b.last_seq [
        | none ↦ adapted
        | some last ↦ if not (s == (last + 1) % 2 ^ 16) then resync else adapted
      ]

  -- Without one: only a later time stamp counts.
  unfoldable pub adapt_unnumbered : ℕ → ℕ → JitterBuffer T → JitterBuffer T
  unfolding apply_transit
  adapt_unnumbered pts recv_time b =
      let adapted = measured_from pts recv_time (apply_transit pts recv_time b) in
      elim b.last_pts [ none ↦ adapted | some lp ↦ if leb pts lp then b else adapted ]

  unfoldable pub adapt : Option ℕ → ℕ → ℕ → JitterBuffer T → JitterBuffer T
  unfolding adapt_seq adapt_unnumbered
  adapt (some s) pts recv_time b = adapt_seq s pts recv_time b
  adapt none pts recv_time b = adapt_unnumbered pts recv_time b

  unfoldable pub enqueue : BufferedPacket T → List (BufferedPacket T) → List (BufferedPacket T)
  unfolding position insert_at
  enqueue pkt q = elim (position (λ p. ltb pkt.pts p.pts) q) [
    | none ↦ insert_at (length q) pkt q
    | some i ↦ insert_at i pkt q
  ]

  unfoldable pub push_inner : Option ℕ → ℕ → ℕ → T → JitterBuffer T → JitterBuffer T
  unfolding adapt enqueue
  push_inner seq pts recv_time payload b =
      let b' = adapt seq pts recv_time (record b { received = (b.received + 1) % u64 }) in
      let pkt : BufferedPacket T = record {
        seq = seq;
        pts = pts;
        recv_time = recv_time;
        payload = payload;
      } in
      record b' { queue = enqueue pkt b'.queue }

  unfoldable pub push : ℕ → ℕ → T → JitterBuffer T → JitterBuffer T
  unfolding push_inner
  push pts recv_time payload b = push_inner none pts recv_time payload b

  unfoldable pub push_with_seq : ℕ → ℕ → ℕ → T → JitterBuffer T → JitterBuffer T
  unfolding push_inner
  push_with_seq seq pts recv_time payload b = push_inner (some seq) pts recv_time payload b

  unfoldable pub pop_ready : ℕ → JitterBuffer T → JitterBuffer T × Option (BufferedPacket T)
  pop_ready now b = elim b.queue [
    | [] ↦ (b, none)
    | p ∷ ps ↦
        if leb b.target (now - p.recv_time)
        then (record b { released = (b.released + 1) % u64; queue = ps }, some p)
        else (b, none)
  ]

  -- The loop: what is left of the queue, and the count.
  unfoldable pub drop_loop : ℕ → ℕ → List (BufferedPacket T) → ℕ → List (BufferedPacket T) × ℕ
  drop_loop limit now [] dropped = ([], dropped)
  drop_loop limit now (p ∷ ps) dropped =
      let rest = drop_loop limit now ps ((dropped + 1) % u64) in
      if ltb limit (now - p.recv_time) then rest else (p ∷ ps, dropped)

  unfoldable pub drop_late : ℕ → ℕ → JitterBuffer T → JitterBuffer T
  unfolding drop_loop
  drop_late now late_threshold b =
      let (queue, dropped) =
        drop_loop (min duration_max (b.target + late_threshold)) now b.queue b.dropped in
      record b { queue = queue; dropped = dropped }

  unfoldable pub pop_front : JitterBuffer T → JitterBuffer T × Option (BufferedPacket T)
  pop_front b = elim b.queue [
    | [] ↦ (b, none)
    | p ∷ ps ↦ (record b { released = (b.released + 1) % u64; queue = ps }, some p)
  ]
