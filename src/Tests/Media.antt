-- ===== src/Tests/Media.antt =====
-- The jitter buffer's properties on a buffer that holds two packets.
use remotelink.Prelude.{ℕ, ◌*◌, ◌≤◌, some, List, [], ◌∷◌, arith}
use remotelink.Prelude.Int.{◌-ℤ◌, unsigned_abs}
use remotelink.Media.Jitter.{
  JitterBuffer, BufferedPacket, wan_default, new, push_inner, pop_ready, adapt, adapt_seq,
  adapt_unnumbered, apply_transit, next_ewma, next_target, clamp_duration, enqueue, position,
  insert_at, sat64,
}
use remotelink.Media.Jitter.Invariant.{IsValid, Call, run, run-IsValid, step}
use remotelink.Media.Jitter.Adapt.{run-Rises}

abbrev ms : ℕ
ms = 1_000_000

abbrev calls : List (Call ℕ)
calls =
    Call.pushes (some 7) (20 * ms) 1_000_000_000 10
    ∷ Call.pushes (some 8) (40 * ms) 1_035_000_000 11
    ∷ []

abbrev filled : JitterBuffer ℕ
filled = run calls (new wan_default)

run-IsValid_example : IsValid filled
run-IsValid_example = run-IsValid wan_default calls (omega arith)

filled-IsValid : IsValid filled
filled-IsValid = run-IsValid wan_default calls (omega arith)

abbrev first_packet : BufferedPacket ℕ
first_packet = record { seq = some 7; pts = 20 * ms; recv_time = 1_000_000_000; payload = 10 }

abbrev popped : JitterBuffer ℕ
popped = (pop_ready 2_000_000_000 filled).0

run-Rises_example : filled.jitter_us_ewma ≤ (run calls filled).jitter_us_ewma
unfolding run step new push_inner adapt adapt_seq adapt_unnumbered apply_transit next_ewma
    next_target clamp_duration enqueue position insert_at sat64 ◌-ℤ◌ unsigned_abs
run-Rises_example = run-Rises calls filled (omega arith)
