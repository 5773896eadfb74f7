-- ===== src/Sharded/Connections/Shut.antt =====
-- redisstream/sharded.go: after closeAll, no socket of the tracker stays open.
use dist_tasks_go.Base.{
  ℕ, ◌≡◌, ◌⊎◌, refl, Bool, true, false, not, ◌&&◌, ◌||◌, List, [], ◌∷◌, ◌==◌, arith, inl, inr,
}
use dist_tasks_go.Sharded.Connections.{
  ConnTracker, ConnEvent, connect, close_all, admit, untrack, shut, elem, without, close_socket,
  close_each, new_tracker, admitted, step,
}

abbrev is_empty : List ℕ → Bool
is_empty [] = true
is_empty (i ∷ is) = false

-- Every open socket is in the table, or in a dial or a Close that is under way; after closeAll the table
-- is empty.
pub record IsTracked (t : ConnTracker) : Type 0 where
  pub known :
      (i : ℕ)
      → (t.is_open i && not (elem i t.conns || elem i t.dialing || elem i t.closing)) ≡ false
  pub emptied : (t.closed && not (is_empty t.conns)) ≡ false

elem-without : (i j : ℕ) (js : List ℕ) → (i == j) ≡ false → elem j (without i js) ≡ elem j js
unfolding without
elem-without i j [] h = refl
elem-without i j (k ∷ ks) h = ground (arith, elem-without i j ks h)

close_each-le : (is : List ℕ) (o : ℕ → Bool) (j : ℕ) → (close_each is o j && not (o j)) ≡ false
unfolding close_each close_socket
close_each-le [] o j = ground arith
close_each-le (i ∷ is) o j = ground (arith, close_each-le is (close_socket i o) j)

close_each-elem : (is : List ℕ) (o : ℕ → Bool) (j : ℕ) → (close_each is o j && elem j is) ≡ false
unfolding close_each close_socket
close_each-elem [] o j = ground arith
close_each-elem (i ∷ is) o j =
    ground (arith, close_each-elem is (close_socket i o) j, close_each-le is (close_socket i o) j)

is_empty-without : (i : ℕ) (js : List ℕ) → (is_empty js && not (is_empty (without i js))) ≡ false
unfolding without
is_empty-without i [] = refl
is_empty-without i (j ∷ js) = refl

pub step-IsTracked : (e : ConnEvent) (t : ConnTracker) → IsTracked t → IsTracked (step e t)
unfolding step admitted close_socket
step-IsTracked connect t h = record { known = λ i. ground (arith, h.known i); emptied = h.emptied }
step-IsTracked (admit i) t h = record {
  known = λ j. ground (arith, h.known j, elem-without i j t.dialing);
  emptied = ground (arith, h.emptied);
}
step-IsTracked (untrack i) t h = record {
  known = λ j. ground (arith, h.known j, elem-without i j t.conns);
  emptied = ground (arith, h.emptied, is_empty-without i t.conns);
}
step-IsTracked (shut i) t h = record {
  known = λ j. ground (arith, h.known j, elem-without i j t.closing);
  emptied = ground (arith, h.emptied);
}
step-IsTracked close_all t h = record {
  known = λ j.
      ground
        (arith, h.known j, close_each-le t.conns t.is_open j, close_each-elem t.conns t.is_open j);
  emptied = refl;
}

none_open :
    (t : ConnTracker) (i : ℕ)
    → IsTracked t
    → t.closed ≡ true
    → t.dialing ≡ []
    → t.closing ≡ []
    → (t.is_open i ≡ false) × (t.conns ≡ [])
none_open t i h c d k = ground (arith, h.known i, h.emptied, no_elements t.conns)
  where
    no_elements : (js : List ℕ) → (is_empty js ≡ false) ⊎ (js ≡ [])
    no_elements [] = inr refl
    no_elements (j ∷ js) = inl refl

pub start-IsTracked : IsTracked new_tracker
start-IsTracked = record { known = λ i. refl; emptied = refl }

-- Where closeAll has run and no dial or Close of a socket is under way, every socket is closed, and
-- a later dial closes its own.
pub late_shut :
    (t : ConnTracker) (i : ℕ)
    → IsTracked t
    → t.closed ≡ true
    → t.dialing ≡ []
    → t.closing ≡ []
    → (t.is_open i ≡ false)
      × ((step (admit t.next) (step connect t)).is_open i ≡ false)
      × ((step (admit t.next) (step connect t)).conns ≡ [])
unfolding step admitted close_socket without
late_shut t i h c d k =
    let (shut_now, none_kept) = none_open t i h c d k in
    (shut_now, ground (arith, shut_now), ground (arith, none_kept))
