-- ===== src/Viewer/Capture/Focus.antt =====
-- What the capture lets through.
use remotelink.Prelude.{
  ap, ◌∙◌, ℕ, ◌≡◌, refl, true, false, none, some, List, [], ◌∷◌, ◌++◌, arith, Option-cases, inl,
  inr,
}
use remotelink.Viewer.Coalescer.{
  bump, has_pending, discard_pending, flush as flush_move, poll as poll_move, take_emit,
}
use remotelink.Viewer.Capture.{
  Float, RawInput, CapturedInput, InputCapture, set_focused, may_capture, push, poll,
  flush_pending_move, send_reliable, emitted_move,
}

-- A call that captures or sends.
pub data Call (F : Type 0) : Type 0 where
  sample : RawInput F → ℕ → Call F
  tick : ℕ → Call F
  force : ℕ → Call F

module _ {F : Type 0} (float : Float F) where
  -- The calls, and what they sent, the oldest first.
  unfoldable pub run : List (Call F) → InputCapture F → InputCapture F × List (CapturedInput F)
  run [] c = (c, [])
  run (sample raw now ∷ calls) c =
      let (c', out) = push float raw now c in let (c'', rest) = run calls c' in (c'', out ++ rest)
  run (tick now ∷ calls) c =
      let (c', out) = poll now c in
      let (c'', rest) = run calls c' in (c'', elim out [ none ↦ rest | some event ↦ event ∷ rest ])
  run (force now ∷ calls) c =
      let (c', out) = flush_pending_move now c in
      let (c'', rest) = run calls c' in (c'', elim out [ none ↦ rest | some event ↦ event ∷ rest ])

  blocked_run :
      (calls : List (Call F)) (c : InputCapture F)
      → may_capture c ≡ false
      → ((run calls c).1 ≡ [])
        × (((run calls c).0).coalescer ≡ c.coalescer)
        × (((run calls c).0).config ≡ c.config)
  unfolding run push poll flush_pending_move may_capture
  blocked_run [] c h = (refl, refl, refl)
  blocked_run (sample raw now ∷ calls) c h =
      ground
        (arith, h, blocked_run calls (record c { blocked_unfocused = bump c.blocked_unfocused }))
  blocked_run (tick now ∷ calls) c h = ground (arith, h, blocked_run calls c)
  blocked_run (force now ∷ calls) c h = ground (arith, h, blocked_run calls c)

  dropped :
      (c : InputCapture F)
      → c.focused ≡ true
      → c.config.always_capture ≡ false
      → (set_focused false c).coalescer.pending ≡ none
  unfolding set_focused discard_pending
  dropped c f a = ground (arith, f, a)

  blocked :
      (c : InputCapture F)
      → c.config.always_capture ≡ false
      → may_capture (set_focused false c) ≡ false
  unfolding set_focused may_capture
  blocked c a = ground (arith, a)

  refocused : (c : InputCapture F) → (set_focused true c).coalescer ≡ c.coalescer
  unfolding set_focused
  refocused c = ground arith

  nothing_waits :
      (time : ℕ) (c : InputCapture F)
      → c.coalescer.pending ≡ none
      → ((poll time c).1 ≡ none) × ((flush_pending_move time c).1 ≡ none)
  unfolding poll flush_pending_move flush_move poll_move has_pending
  nothing_waits time c h = ground (arith, h)

  -- Nothing is sent while the window is out of focus, and no move from before the loss of focus is
  -- sent after it: without `always_capture`, whatever is captured, polled or flushed between the
  -- loss and the return of the focus sends nothing, and then nothing waits.
  pub set_focused-run :
      (calls : List (Call F)) (time : ℕ) (c : InputCapture F)
      → c.focused ≡ true
      → c.config.always_capture ≡ false
      → let (away, sent) = run calls (set_focused false c) in
        (sent ≡ [])
        × ((poll time (set_focused true away)).1 ≡ none)
        × ((flush_pending_move time (set_focused true away)).1 ≡ none)
  set_focused-run calls time c f a =
      let before = set_focused false c in
      let (silent, same, config) = blocked_run calls before (blocked c a) in
      let after = set_focused true (run calls before).0 in
      let idle : after.coalescer.pending ≡ none =
        ap (λ k. k.pending) (refocused (run calls before).0 ∙ same) ∙ dropped c f a in
      let (no_poll, no_flush) = nothing_waits time after idle in (silent, no_poll, no_flush)

  -- A button, a wheel step or a key is sent last, behind the move that waited, if one did, and
  -- then nothing waits.
  pub send_reliable_order :
      (event : CapturedInput F) (now : ℕ) (c : InputCapture F)
      → let (c', sent) = send_reliable event now c in
        (sent ≡ emitted_move c.coalescer.pending ++ (event ∷ []))
        × (has_pending c'.coalescer ≡ false)
  unfolding send_reliable flush_move take_emit has_pending
  send_reliable_order event now c = elim (Option-cases c.coalescer.pending) [
    | inl n ↦ ground (arith, n)
    | inr (pos, h) ↦ ground (arith, h)
  ]
