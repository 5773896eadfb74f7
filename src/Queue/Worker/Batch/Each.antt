-- ===== src/Queue/Worker/Batch/Each.antt =====
-- queue/worker.go: the heartbeat's batches, against the renewals one by one.
use dist_tasks_go.Base.{
  ℕ, zero, suc, ◌-◌, ◌≤◌, ◌≡◌, refl, ap, Bool, false, Option, none, some, List, [], ◌∷◌, ◌++◌,
  arith, if◌then◌else◌, length, drop,
}
use dist_tasks_go.Queue.Job.{Job, Error, is_lease_lost}
use dist_tasks_go.Queue.Backend.{Backend}
use dist_tasks_go.Queue.Worker.Batch.{call_each, deliver, lost_of}

pub length-drop-le : (n : ℕ) (js : List Job) → length (drop (suc n) js) ≤ length js - 1
length-drop-le n [] = omega arith
length-drop-le zero (j ∷ js) = omega arith
length-drop-le (suc n) (j ∷ js) = omega (arith, length-drop-le n js)

module _ {S : Type 0} (one : Job → S → Option Error × S) where
  length-call_each : (js : List Job) (s : S) → length (call_each one js s).0 ≡ length js
  unfolding call_each
  length-call_each [] s = refl
  length-call_each (j ∷ js) s = ap suc (length-call_each js (one j s).1)

  pub call_each-append :
      (xs ys : List Job) (s : S)
      → let r = call_each one xs s in
        call_each one (xs ++ ys) s ≡ (r.0 ++ (call_each one ys r.1).0, (call_each one ys r.1).1)
  unfolding call_each
  call_each-append [] ys s = refl
  call_each-append (x ∷ xs) ys s = rw (call_each-append xs ys (one x s).1)

deliver-append :
    (xs ys : List Job) (es fs : List (Option Error))
    → length es ≡ length xs
    → deliver (xs ++ ys) (es ++ fs) ≡ deliver xs es ++ deliver ys fs
unfolding deliver
deliver-append [] ys [] fs h = refl
deliver-append [] ys (e ∷ es) fs h = absurd (omega arith)
deliver-append (x ∷ xs) ys [] fs h = absurd (omega arith)
deliver-append (x ∷ xs) ys (e ∷ es) fs h =
    ap (λ rs. (x, e) ∷ rs) (deliver-append xs ys es fs (omega arith))

lost_of-append : (xs ys : List (Job × Option Error)) → lost_of (xs ++ ys) ≡ lost_of xs ++ lost_of ys
unfolding lost_of
lost_of-append [] ys = refl
lost_of-append ((j, none) ∷ xs) ys = lost_of-append xs ys
lost_of-append ((j, some e) ∷ xs) ys = ground (arith, lost_of-append xs ys)

-- The renewal's own answer says that the lease is lost.
abbrev pub says_lost : Option Error → Bool
says_lost none = false
says_lost (some e) = is_lease_lost e

-- Renewing each held job by itself: those that answer that the lease is lost, and the state at the end.
abbrev pub lost_alone : {S : Type 0} → (Job → S → Option Error × S) → List Job → S → List Job × S
lost_alone one [] s = ([], s)
lost_alone one (j ∷ js) s =
    let own = one j s in
    let rest = lost_alone one js own.1 in (if says_lost own.0 then j ∷ rest.0 else rest.0, rest.1)

-- The lists one after the other.
abbrev pub joined : List (List Job) → List Job
joined [] = []
joined (js ∷ rest) = js ++ joined rest
