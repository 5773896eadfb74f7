-- ===== src/Sharded/Poll/Room/Bound.antt =====
-- redisstream/sharded.go: the buffer of the long polls after any steps.
use native.Mathlib.Nat.{div-mul-le_self, mul_comm}
use dist_tasks_go.Base.{
  ℕ, suc, ◌+◌, ◌-◌, ◌*◌, ◌/◌, ◌≤◌, ◌<◌, ◌≡◌, refl, ap, Bool, true, false, not, List, [], ◌∷◌, arith,
  length, All, fun_ext,
}
use dist_tasks_go.Sharded.Poll.{
  Polls, PollEvent, take_first, found, enter, check, read, signal, wake, expire, drop_lost,
  mark_closed, stop_polls, Claimer, away, sweeping, waits, share, step, run, fresh, is_sweeping,
  is_absent,
}
use dist_tasks_go.Sharded.Poll.Counting.{count_true-none}
use dist_tasks_go.Sharded.Poll.Closing.{IsFlagged, step-IsFlagged}
use dist_tasks_go.Sharded.Poll.Room.{
  IsRoomy, length-keep-le, room_of, answered-IsRoomy, checked-IsRoomy, taken-IsRoomy, first-IsRoomy,
  start-IsRoomy, room_of-le,
}

-- Waits of claims for the same limit.
abbrev pub AsksFor : ℕ → PollEvent → Type 0
AsksFor limit (enter w l t) = l ≡ limit
AsksFor limit _ = Unit {0}

module _ (parts : ℕ) (c : ℕ) where
  -- The waits ask each partition for at most c.
  abbrev pub WaitsWithin : PollEvent → Type 0
  WaitsWithin (enter w l t) = share parts l ≤ c
  WaitsWithin _ = Unit {0}

  same_room :
      (s t : Polls)
      → t.buffered ≡ s.buffered
      → t.polling ≡ s.polling
      → t.place ≡ s.place
      → t.poll_with ≡ s.poll_with
      → room_of parts c s.claimer ≤ room_of parts c t.claimer
      → IsRoomy parts c s
      → IsRoomy parts c t
  same_room s t a b d e le h = record {
    room = rw (a, b) (omega (arith, h.room));
    current = rw e h.current;
    asks = rw d h.asks;
    only = rw b h.only;
  }

  is_sweeping_lem : (d : Claimer) → is_sweeping d ≡ true → d ≡ sweeping
  is_sweeping_lem away h = cc
  is_sweeping_lem sweeping h = refl
  is_sweeping_lem waits h = cc

  step-IsRoomy :
      (e : PollEvent) (s : Polls)
      → WaitsWithin e
      → s.polling ≡ (λ p. not (is_absent (s.place p)))
      → IsRoomy parts c s
      → IsRoomy parts c (step parts e s)
  unfolding step
  step-IsRoomy (take_first n) s within f h = ground (arith, first-IsRoomy parts c (suc n) s h)
  step-IsRoomy found s within f h = ground (
    arith,
    same_room s (record s { claimer = away }) refl refl refl refl (room_of-le parts c s.claimer) h,
  )
  step-IsRoomy (enter w l t) s within f h = ground (
    arith,
    is_sweeping_lem s.claimer,
    start-IsRoomy parts c w l t s,
    same_room s (record s { claimer = away }) refl refl refl refl (room_of-le parts c s.claimer) h,
  )
  step-IsRoomy (check p) s within f h = checked-IsRoomy parts c p (s.place p) s h
  step-IsRoomy (read p r) s within f h =
      answered-IsRoomy parts c p r (s.place p) s refl (ap (λ (g : ℕ → Bool). g p) f) h
  step-IsRoomy signal s within f h = ground (
    arith,
    same_room s (record s { signals = s.signals - 1; arrived = true }) refl refl refl refl
        (omega arith) h,
  )
  step-IsRoomy (wake n) s within f h = ground (
    arith,
    same_room s (record s { arrived = false }) refl refl refl refl (omega arith) h,
    taken-IsRoomy parts c (suc n) (s.waiting - 1) false s h (room_of-le parts c s.claimer),
  )
  step-IsRoomy (expire n) s within f h = ground (
    arith,
    taken-IsRoomy parts c (suc n) (s.waiting - 1) s.arrived s h (room_of-le parts c s.claimer),
  )
  step-IsRoomy (drop_lost lost) s within f h = record {
    room = omega (arith, h.room, length-keep-le lost s.buffered);
    current = h.current;
    asks = h.asks;
    only = h.only;
  }
  step-IsRoomy mark_closed s within f h =
      same_room s (record s { closed = true }) refl refl refl refl (omega arith) h
  step-IsRoomy stop_polls s within f h =
      ground
        (arith, same_room s (record s { cancelled = true }) refl refl refl refl (omega arith) h)

  run-IsRoomy :
      (es : List PollEvent) (s : Polls)
      → All WaitsWithin es
      → IsFlagged parts s
      → IsRoomy parts c s
      → IsRoomy parts c (run parts es s)
  unfolding run
  run-IsRoomy [] s within f h = h
  run-IsRoomy (e ∷ es) s (w, ws) f h =
      run-IsRoomy es (step parts e s) ws (step-IsFlagged parts e s f)
        (step-IsRoomy e s w (fun_ext f) h)

  fresh-IsRoomy : IsRoomy parts c fresh
  fresh-IsRoomy = record {
    room = omega (arith, ap (λ (t : ℕ). t * c) (count_true-none parts));
    current = omega arith;
    asks = λ p. omega arith;
    only = λ p le. refl;
  }

-- A share asks for little more than the limit over all partitions.
share-le : (parts limit : ℕ) → 0 < limit → 0 < parts → parts * share parts limit ≤ limit + parts - 1
unfolding share
share-le parts limit h k =
    ground (
      arith,
      div-mul-le_self (limit + parts - 1) parts,
      mul_comm parts ((limit + parts - 1) / parts),
    )

waits_within :
    (parts limit : ℕ) (es : List PollEvent)
    → All (AsksFor limit) es
    → All (WaitsWithin parts (share parts limit)) es
waits_within parts limit [] h = tt
waits_within parts limit (e ∷ es) (a, rest) = (one e a, waits_within parts limit es rest)
  where
    one : (x : PollEvent) → AsksFor limit x → WaitsWithin parts (share parts limit) x
    one (enter w l t) e' = rw e' (omega arith)
    one (take_first n) e' = tt
    one found e' = tt
    one (check p) e' = tt
    one (read p r) e' = tt
    one signal e' = tt
    one (wake n) e' = tt
    one (expire n) e' = tt
    one (drop_lost lost) e' = tt
    one mark_closed e' = tt
    one stop_polls e' = tt

-- With at least one partition, and where every claim that waits asks for the same positive limit:
-- after any steps from the start, at most twice as many jobs as limit + partitions - 1 are
-- buffered.
pub length-buffered :
    (parts limit : ℕ) (es : List PollEvent)
    → 0 < parts
    → 0 < limit
    → All (AsksFor limit) es
    → length (run parts es fresh).buffered ≤ 2 * (limit + parts - 1)
length-buffered parts limit es h k asks =
    let c = share parts limit in
    let s = run parts es fresh in
    let inv =
      run-IsRoomy parts c es fresh (waits_within parts limit es asks) (λ q. refl)
        (fresh-IsRoomy parts c) in
    omega (arith, inv.room, room_of-le parts c s.claimer, share-le parts limit k h)
