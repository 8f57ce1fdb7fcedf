-- ===== src/Viewer/Coalescer.antt =====
-- The viewer's mouse-move coalescer (packages/viewer-core/src/input.rs). A position is an element
-- of any type: the coalescer only holds it. Times are nanoseconds; `duration_since` is the
-- subtraction of ℕ, which stops at 0 as well.
pub mod Delivery
use remotelink.Prelude.{
  ℕ, ◌+◌, ◌-◌, min, Bool, true, false, ◌&&◌, Option, none, some, ◌==◌, leb, if◌then◌else◌,
}

abbrev pub u64_max : ℕ
u64_max = 18446744073709551615

abbrev pub millisecond : ℕ
millisecond = 1000000

-- `saturating_add(1)` on a u64
abbrev pub bump : ℕ → ℕ
bump n = min (n + 1) u64_max

pub record MouseMoveCoalescer (P : Type 0) : Type 0 where
  pub interval : ℕ
  pub pending : Option P
  pub last_emit : Option ℕ
  pub accepted : ℕ
  pub emitted : ℕ
  pub coalesced_away : ℕ
  pub discarded : ℕ

module _ {P : Type 0} where
  unfoldable pub new : ℕ → MouseMoveCoalescer P
  new interval = record {
    interval = if interval == 0 then millisecond else interval;
    pending = none;
    last_emit = none;
    accepted = 0;
    emitted = 0;
    coalesced_away = 0;
    discarded = 0;
  }

  unfoldable pub has_pending : MouseMoveCoalescer P → Bool
  has_pending c = elim c.pending [ none ↦ false | some _ ↦ true ]

  -- The clock is read where nothing has been emitted yet: `clock` is what it shows.
  unfoldable pub next_poll_deadline : ℕ → MouseMoveCoalescer P → Option ℕ
  next_poll_deadline clock c = elim c.pending [
    | none ↦ none
    | some _ ↦ elim c.last_emit [ none ↦ some clock | some t ↦ some (t + c.interval) ]
  ]

  unfoldable pub discard_pending : MouseMoveCoalescer P → MouseMoveCoalescer P
  discard_pending c = elim c.pending [
    | none ↦ c
    | some _ ↦ record c { pending = none; discarded = bump c.discarded }
  ]

  unfoldable pub should_emit : ℕ → MouseMoveCoalescer P → Bool
  should_emit now c = elim c.last_emit [ none ↦ true | some t ↦ leb c.interval (now - t) ]

  unfoldable pub take_emit : ℕ → MouseMoveCoalescer P → MouseMoveCoalescer P × Option P
  take_emit now c = elim c.pending [
    | none ↦ (c, none)
    | some pos ↦
        (record c { pending = none; last_emit = some now; emitted = bump c.emitted }, some pos)
  ]

  -- The new position takes the place of the pending one.
  unfoldable pub replace_pending : P → MouseMoveCoalescer P → MouseMoveCoalescer P
  unfolding has_pending
  replace_pending pos c = record c {
    accepted = bump c.accepted;
    pending = some pos;
    coalesced_away = if has_pending c then bump c.coalesced_away else c.coalesced_away;
  }

  unfoldable pub push : P → ℕ → MouseMoveCoalescer P → MouseMoveCoalescer P × Option P
  unfolding replace_pending should_emit take_emit
  push pos now c =
      let c = replace_pending pos c in if should_emit now c then take_emit now c else (c, none)

  unfoldable pub poll : ℕ → MouseMoveCoalescer P → MouseMoveCoalescer P × Option P
  unfolding has_pending should_emit take_emit
  poll now c = if has_pending c && should_emit now c then take_emit now c else (c, none)

  unfoldable pub flush : ℕ → MouseMoveCoalescer P → MouseMoveCoalescer P × Option P
  unfolding has_pending take_emit
  flush now c = if has_pending c then take_emit now c else (c, none)
