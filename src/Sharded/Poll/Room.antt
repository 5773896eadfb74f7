-- ===== src/Sharded/Poll/Room.antt =====
-- redisstream/sharded.go: how many jobs the long polls buffer. The steps of the claimer and the
-- pollers are here, the sequence of steps is in Room/Bound.
pub mod Bound
use native.Mathlib.Nat.{div-mul-le_self, mul_comm}
use mathlib.Core.Bool.{false≢true}
use dist_tasks_go.Base.{
  ℕ, zero, suc, ◌+◌, ◌-◌, ◌*◌, ◌/◌, ◌≤◌, ◌<◌, ◌≡◌, refl, sym, ◌∙◌, ap, Bool, true, false, not, ◌||◌,
  List, [], ◌∷◌, ◌++◌, arith, ltb, leb, ◌==◌, ==_iff, if◌then◌else◌, length, length-append,
  length-take, take, drop, Bool-cases, inl, inr, leb→le, subst, String, ℤ, All, fun_ext,
}
use dist_tasks_go.Queue.Job.{Job, Lease, Result, ok, err}
use dist_tasks_go.Sharded.{tag}
use dist_tasks_go.Sharded.Poll.{
  Polls, PollEvent, take_first, found, enter, check, read, signal, wake, expire, drop_lost,
  mark_closed, stop_polls, Place, absent, checking, reading, Claimer, away, sweeping, waits,
  PollArgs, share, max_ℕ, keep, take_to, leave, receive, answered, checked, start_waiting, step,
  run, fresh, set_at, is_empty, is_sweeping, is_absent,
}
use dist_tasks_go.Sharded.Poll.Counting.{
  count_true, count_true-le, count_true-clear, count_true-clear_le, count_true-none,
}
use dist_tasks_go.Sharded.Poll.Closing.{IsFlagged, step-IsFlagged}
use dist_tasks_go.Sharded.Sweep.{length-tag}

abbrev asked : Place → ℕ
asked (reading args) = args.count
asked _ = 0

pub length-keep-le : (lost : Lease → Bool) (js : List Job) → length (keep lost js) ≤ length js
length-keep-le lost [] = omega arith
length-keep-le lost (j ∷ js) = ground (arith, length-keep-le lost js)

length-drop-le : (n : ℕ) (js : List Job) → length (drop n js) ≤ length js
length-drop-le zero js = omega arith
length-drop-le (suc n) [] = omega arith
length-drop-le (suc n) (j ∷ js) = omega (arith, length-drop-le n js)

mul_le_mul : {a b : ℕ} (c : ℕ) → a ≤ b → a * c ≤ b * c
mul_le_mul {a} {b} c h = grind arith

module _ (parts : ℕ) (c : ℕ) where
  abbrev pub room_of : Claimer → ℕ
  room_of sweeping = parts * c
  room_of _ = parts * c + parts * c

  -- The buffer and what the pollers may still bring; and what they ask for. There are pollers for the
  -- partitions only.
  pub record IsRoomy (s : Polls) : Type 0 where
    pub room : length s.buffered + count_true parts s.polling * c ≤ room_of s.claimer
    pub current : s.poll_with.count ≤ c
    pub asks : (p : ℕ) → asked (s.place p) ≤ c
    pub only : (p : ℕ) → parts ≤ p → s.polling p ≡ false

  -- The jobs of a poll take no more room than its poller gave up.
  room-receive :
      (q : ℕ) (js : List Job) (s : Polls)
      → s.polling q ≡ true
      → length js ≤ c
      → IsRoomy s
      → length (s.buffered ++ tag q js) + count_true parts (set_at q false s.polling) * c
        ≤ room_of s.claimer
  room-receive q js s e le h = elim (Bool-cases (ltb q parts)) [
    | inr beyond ↦ absurd (false≢true (sym (h.only q (ground arith)) ∙ e))
    | inl within ↦ omega (
      arith,
      h.room,
      length-append {0} s.buffered (tag q js),
      length-tag q js,
      ap (λ (t : ℕ). t * c) (count_true-clear parts q s.polling (ground arith) e),
    )
  ]

  receive-IsRoomy :
      (q : ℕ) (js : List Job) (s : Polls)
      → s.polling q ≡ true
      → length js ≤ c
      → IsRoomy s
      → IsRoomy (receive q js s)
  unfolding receive leave
  receive-IsRoomy q [] s e le h = record {
    room = h.room;
    current = h.current;
    asks = λ p. ground (arith, h.asks p);
    only = h.only;
  }
  receive-IsRoomy q (j ∷ js) s e le h = record {
    room = room-receive q (j ∷ js) s e le h;
    current = h.current;
    asks = λ p. ground (arith, h.asks p);
    only = λ p lt. ground (arith, h.only p lt);
  }

  pub answered-IsRoomy :
      (q : ℕ) (r : Result (List Job)) (pl : Place) (s : Polls)
      → s.place q ≡ pl
      → s.polling q ≡ not (is_absent pl)
      → IsRoomy s
      → IsRoomy (answered q r pl s)
  unfolding answered
  answered-IsRoomy q r absent s e f h = h
  answered-IsRoomy q r checking s e f h = h
  answered-IsRoomy q (err x) (reading args) s e f h = record {
    room = h.room;
    current = h.current;
    asks = λ p. ground (arith, h.asks p);
    only = h.only;
  }
  answered-IsRoomy q (ok js) (reading args) s e f h =
      elim (Bool-cases (leb (length js) args.count)) [
        | inr more ↦ rw more h
        | inl fits ↦ rw fits (
            receive-IsRoomy q js s f
              (omega
                (arith, leb→le (length js) args.count fits, subst (λ x. asked x ≤ c) e (h.asks q)))
              h)
      ]

  -- Clearing a flag makes room.
  leave-IsRoomy : (q : ℕ) (s : Polls) → IsRoomy s → IsRoomy (leave q s)
  unfolding leave
  leave-IsRoomy q s h = record {
    room = omega (arith, h.room, mul_le_mul c (count_true-clear_le parts q s.polling));
    current = h.current;
    asks = λ p. ground (arith, h.asks p);
    only = λ p lt. ground (arith, h.only p lt);
  }

  pub checked-IsRoomy : (q : ℕ) (pl : Place) (s : Polls) → IsRoomy s → IsRoomy (checked q pl s)
  unfolding checked
  checked-IsRoomy q absent s h = h
  checked-IsRoomy q (reading args) s h = h
  checked-IsRoomy q checking s h = ground (arith, leave-IsRoomy q s h, kept)
    where
      kept : IsRoomy (record s { place = set_at q (reading s.poll_with) s.place })
      kept = record {
        room = h.room;
        current = h.current;
        asks = λ p. ground (arith, h.asks p, h.current);
        only = h.only;
      }

  -- Taking from the buffer makes room, and a sweep begins with none of it used.
  take_to-IsRoomy :
      (n : ℕ) (d : Claimer) (s : Polls)
      → IsRoomy s
      → length (drop n s.buffered) + count_true parts s.polling * c ≤ room_of d
      → IsRoomy (take_to n d s)
  unfolding take_to
  take_to-IsRoomy n d s h le = record {
    room = le;
    current = h.current;
    asks = h.asks;
    only = h.only;
  }

  used : (f : ℕ → Bool) → count_true parts f * c ≤ parts * c
  used f = mul_le_mul c (count_true-le parts f)

  -- A claim that ends has the room of one that is away.
  pub taken-IsRoomy :
      (n w : ℕ) (b : Bool) (s : Polls)
      → IsRoomy s
      → room_of s.claimer ≤ room_of away
      → IsRoomy (record (take_to n away s) { waiting = w; arrived = b })
  unfolding take_to
  taken-IsRoomy n w b s h le = record {
    room = omega (arith, h.room, length-drop-le n s.buffered);
    current = h.current;
    asks = h.asks;
    only = h.only;
  }

  pub room_of-le : (d : Claimer) → room_of d ≤ room_of away
  room_of-le away = omega arith
  room_of-le sweeping = omega arith
  room_of-le waits = omega arith

  pub first-IsRoomy :
      (n : ℕ) (s : Polls)
      → IsRoomy s
      → IsRoomy (take_to n (if is_empty s.buffered then sweeping else away) s)
  first-IsRoomy n s h = elim (Bool-cases (is_empty s.buffered)) [
    | inl none_left ↦ rw none_left (
        take_to-IsRoomy n sweeping s h
          (omega (arith, used s.polling, empty_drop n s.buffered none_left)))
    | inr some_left ↦ rw some_left (
        take_to-IsRoomy n away s h
          (omega (arith, h.room, length-drop-le n s.buffered, room_of-le s.claimer)))
  ]
    where
      empty_drop : (m : ℕ) (js : List Job) → is_empty js ≡ true → length (drop m js) ≤ 0
      empty_drop zero [] e = omega arith
      empty_drop (suc m) [] e = omega arith
      empty_drop m (j ∷ js) e = cc

  pub start-IsRoomy :
      (w : String) (l : ℕ) (t : ℤ) (s : Polls)
      → s.claimer ≡ sweeping
      → share parts l ≤ c
      → IsRoomy s
      → IsRoomy (start_waiting parts w l t s)
  unfolding start_waiting
  start-IsRoomy w l t s e le h = record {
    room = omega (
      arith,
      subst (λ d. length s.buffered + count_true parts s.polling * c ≤ room_of d) e h.room,
      used (λ p. ltb p parts || s.polling p),
    );
    current = le;
    asks = λ p. ground (arith, h.asks p);
    only = λ p lt. ground (arith, h.only p lt);
  }
