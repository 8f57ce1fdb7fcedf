-- ===== src/Media/Jitter/Queue.antt =====
-- The order of the jitter buffer's queue.
use remotelink.Prelude.{
  ℕ, suc, ◌+◌, ◌-◌, ◌%◌, ◌≤◌, ◌<◌, ◌≡◌, refl, inl, inr, List, [], ◌∷◌, ◌++◌, ltb, if◌then◌else◌,
  arith, length, All, Option-cases, Bool-cases, ap,
}
use remotelink.Media.Jitter.{BufferedPacket, enqueue, position, drop_loop, u64}

module _ {T : Type 0} where
  -- Time stamps never fall along the queue.
  abbrev pub Ordered : List (BufferedPacket T) → Type 0
  Ordered [] = Unit {0}
  Ordered (p ∷ ps) = All (λ q. p.pts ≤ q.pts) ps × Ordered ps

  enqueue-cons :
      (pkt p : BufferedPacket T) (ps : List (BufferedPacket T))
      → enqueue pkt (p ∷ ps) ≡ (if ltb pkt.pts p.pts then pkt ∷ p ∷ ps else p ∷ enqueue pkt ps)
  unfolding enqueue
  enqueue-cons pkt p ps =
      ground (arith, Option-cases (position (λ (q : BufferedPacket T). ltb pkt.pts q.pts) ps))

  All-le_trans :
      (m n : ℕ) (ps : List (BufferedPacket T))
      → m ≤ n
      → All (λ q. n ≤ q.pts) ps
      → All (λ q. m ≤ q.pts) ps
  All-le_trans m n [] h a = tt
  All-le_trans m n (p ∷ ps) h a = (omega arith, All-le_trans m n ps h a.1)

  All-enqueue :
      (n : ℕ) (pkt : BufferedPacket T) (ps : List (BufferedPacket T))
      → n ≤ pkt.pts
      → All (λ q. n ≤ q.pts) ps
      → All (λ q. n ≤ q.pts) (enqueue pkt ps)
  All-enqueue n pkt [] h a = unfold enqueue in (h, tt)
  All-enqueue n pkt (p ∷ ps) h a = ground (arith, enqueue-cons pkt p ps, All-enqueue n pkt ps h a.1)

  pub enqueue-Ordered :
      (pkt : BufferedPacket T) (q : List (BufferedPacket T)) → Ordered q → Ordered (enqueue pkt q)
  enqueue-Ordered pkt [] o = unfold enqueue in (tt, tt)
  enqueue-Ordered pkt (p ∷ ps) o = ground (
    arith,
    enqueue-cons pkt p ps,
    enqueue-Ordered pkt ps o.1,
    All-enqueue p.pts pkt ps,
    All-le_trans pkt.pts p.pts ps,
  )

  pub length-enqueue :
      (pkt : BufferedPacket T) (q : List (BufferedPacket T))
      → length (enqueue pkt q) ≡ suc (length q)
  length-enqueue pkt [] = unfold enqueue in refl
  length-enqueue pkt (p ∷ ps) = ground (arith, enqueue-cons pkt p ps, length-enqueue pkt ps)

  -- Where a packet goes: behind all that are not later, before all that are.
  pub record Split (pkt : BufferedPacket T) (q q' : List (BufferedPacket T)) : Type 0 where
    pub front : List (BufferedPacket T)
    pub back : List (BufferedPacket T)
    pub whole : q ≡ front ++ back
    pub placed : q' ≡ front ++ (pkt ∷ back)
    pub not_later : All (λ p. p.pts ≤ pkt.pts) front
    pub later : All (λ p. pkt.pts < p.pts) back

  All-lt :
      (m n : ℕ) (ps : List (BufferedPacket T))
      → m < n
      → All (λ q. n ≤ q.pts) ps
      → All (λ q. m < q.pts) ps
  All-lt m n [] h a = tt
  All-lt m n (p ∷ ps) h a = (omega arith, All-lt m n ps h a.1)

  pub enqueue-Split :
      (pkt : BufferedPacket T) (q : List (BufferedPacket T))
      → Ordered q
      → Split pkt q (enqueue pkt q)
  enqueue-Split pkt [] o = record {
    front = [];
    back = [];
    whole = refl;
    placed = unfold enqueue in refl;
    not_later = tt;
    later = tt;
  }
  enqueue-Split pkt (p ∷ ps) o =
      let rest = enqueue-Split pkt ps o.1 in
      elim (Bool-cases (ltb pkt.pts p.pts)) [
        | inl sooner ↦ record {
          front = [];
          back = p ∷ ps;
          whole = refl;
          placed = ground (arith, enqueue-cons pkt p ps, sooner);
          not_later = tt;
          later = (ground arith, All-lt pkt.pts p.pts ps (ground arith) o.0);
        }
        | inr not_sooner ↦ record {
          front = p ∷ rest.front;
          back = rest.back;
          whole = ap (◌∷◌ p) rest.whole;
          placed = ground (arith, enqueue-cons pkt p ps, not_sooner, rest.placed);
          not_later = (ground arith, rest.not_later);
          later = rest.later;
        }
      ]

  -- The late packets at the front, and no others, are dropped and counted.
  pub record DropsLate (limit now : ℕ) (q q' : List (BufferedPacket T)) (n n' : ℕ) : Type 0 where
    pub gone : List (BufferedPacket T)
    pub split : q ≡ gone ++ q'
    pub all_late : All (λ p. limit < now - p.recv_time) gone
    pub head_in_time :
        (p : BufferedPacket T) (ps : List (BufferedPacket T))
        → q' ≡ p ∷ ps
        → now - p.recv_time ≤ limit
    pub counted : n' ≡ (n + length gone) % u64

  pub drop_loop_lem :
      (limit now : ℕ) (q : List (BufferedPacket T)) (n : ℕ)
      → n < u64
      → let (q', n') = drop_loop limit now q n in DropsLate limit now q q' n n'
  unfolding drop_loop
  drop_loop_lem limit now [] n h = record {
    gone = [];
    split = refl;
    all_late = tt;
    head_in_time = λ p ps e. ground arith;
    counted = omega arith;
  }
  drop_loop_lem limit now (p ∷ ps) n h =
      let rest = drop_loop_lem limit now ps ((n + 1) % u64) (omega arith) in
      elim (Bool-cases (ltb limit (now - p.recv_time))) [
        | inl late ↦ rw late (record {
          gone = p ∷ rest.gone;
          split = ap (◌∷◌ p) rest.split;
          all_late = (ground arith, rest.all_late);
          head_in_time = rest.head_in_time;
          counted = omega (arith, rest.counted);
        })
        | inr in_time ↦ rw in_time (record {
          gone = [];
          split = refl;
          all_late = tt;
          head_in_time = λ p' ps' e. ground arith;
          counted = omega arith;
        })
      ]
