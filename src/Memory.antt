-- ===== src/Memory.antt =====
-- A Redis server in memory, on which the tests run. Time does not pass in it: a delivery is idle for as long as it says.
pub mod Picking
pub mod Server
pub mod Tools
use Prim.Native.Char.{Char, code}
use dist_tasks_go.Base.{
  ℕ, zero, suc, ◌+◌, ◌≤◌, String, Bool, true, false, not, ◌&&◌, ◌||◌, Option, none, some, List, [],
  ◌∷◌, ◌++◌, ℤ, pos, negsuc, leb_ℤ, pos_part, str_eq, if◌then◌else◌, length, ◌==◌,
}
use dist_tasks_go.Redis.{
  Command, xadd, zadd, Pending, Fields, Entry, entry, has, first_delivery, taken_over, stream_after,
  pending_after, hash_after, score_after, text_after, ttl_after,
}

pub record MemDb : Type 0 where
  pub streams : String → List Entry
  pub deliveries : String → String → String → Option Pending
  pub hashes : String → String → Option String
  pub scores : String → String → Option ℤ
  pub members : String → List String
  pub texts : String → Option String
  pub ttls : String → Option ℤ
  pub made : ℕ
  pub counts : String → String → ℤ

-- The n-th ID.
abbrev pub nth_id : ℕ → String
nth_id zero = "1"
nth_id (suc n) = String.◌∷◌ "1" (nth_id n)

abbrev pub members_after : Command → String → List String → List String
members_after (zadd z s m) k ms = if str_eq z k then ms ++ m ∷ [] else ms
members_after _ k ms = ms

abbrev made_after : Command → ℕ → ℕ
made_after (xadd s f) n = suc n
made_after _ n = n

unfoldable pub mem_exec : Command → MemDb → MemDb
mem_exec c d = record {
  streams = λ k. stream_after c k (nth_id d.made) (d.streams k);
  deliveries = λ k g i. pending_after c k g i (has i (d.streams k)) (d.deliveries k g i);
  hashes = λ k f. hash_after c k f (d.hashes k f);
  scores = λ k m. score_after c k m (d.scores k m);
  members = λ k. members_after c k (d.members k);
  texts = λ k. text_after c k (d.texts k);
  ttls = λ k. ttl_after c k (d.ttls k);
  made = made_after c d.made;
  counts = d.counts;
}

abbrev pub seen_in : String → List String → Bool
seen_in m [] = false
seen_in m (x ∷ xs) = str_eq x m || seen_in m xs

abbrev pub is_due : ℤ → Option ℤ → Bool
is_due now none = false
is_due now (some s) = leb_ℤ s now

-- The first n members that are due and new.
unfoldable pub pick_due : (String → Option ℤ) → ℤ → ℕ → List String → List String → List String
pick_due f now n old [] = []
pick_due f now zero old (m ∷ ms) = []
pick_due f now (suc n) old (m ∷ ms) =
    let skip = pick_due f now (suc n) old ms in
    let keep = m ∷ pick_due f now n (m ∷ old) ms in
    if is_due now (f m) && not (seen_in m old) then keep else skip

abbrev pub limit_of : ℤ → List String → ℕ
limit_of (pos n) ms = n
limit_of (negsuc n) ms = length ms

abbrev or_skip {ℓ} : {A : Type ℓ} → Option Fields → (Fields → A) → A → A
or_skip none keep skip = skip
or_skip (some f) keep skip = keep f

-- The first n entries that the test accepts, with the fields that the stream has for their IDs.
unfoldable pub pick : (String → Bool) → List Entry → ℕ → List Entry → List Entry
pick test all n [] = []
pick test all zero (e ∷ es) = []
pick test all (suc n) ((i, f) ∷ es) =
    let skip = pick test all (suc n) es in
    let keep = λ (g : Fields). (i, g) ∷ pick test all n es in
    if test i then or_skip (entry i all) keep skip else skip

abbrev is_free : Option Pending → Bool
is_free none = true
is_free (some p) = false

abbrev is_old : ℤ → Option Pending → Bool
is_old ms none = false
is_old ms (some p) = leb_ℤ ms p.idle

abbrev pub new_entries : String → String → ℤ → MemDb → List Entry
new_entries s g n d =
    pick (λ i. is_free (d.deliveries s g i)) (d.streams s) (pos_part n) (d.streams s)

abbrev pub old_entries : String → String → ℤ → ℤ → MemDb → List Entry
old_entries s g ms n d =
    pick (λ i. is_old ms (d.deliveries s g i)) (d.streams s) (pos_part n) (d.streams s)

unfoldable pub mem_xreadgroup : String → String → String → ℤ → MemDb → List Entry × MemDb
mem_xreadgroup s g c n d = (
  new_entries s g n d,
  record d {
    deliveries = λ k h i.
        if str_eq s k && str_eq g h && has i (new_entries s g n d)
        then some (first_delivery c)
        else d.deliveries k h i;
  },
)

abbrev pub take_if : Bool → String → ℤ → Option Pending → Option Pending
take_if claimed c ms none = none
take_if claimed c ms (some p) = if claimed && leb_ℤ ms p.idle then some (taken_over c p) else some p

unfoldable pub mem_xautoclaim :
    String → String → String → ℤ → String → ℤ → MemDb → (String × List Entry) × MemDb
mem_xautoclaim s g c ms cursor n d = (
  ("0-0", old_entries s g ms n d),
  record d {
    deliveries = λ k h i.
        take_if (str_eq s k && str_eq g h && has i (old_entries s g ms n d)) c ms
          (d.deliveries k h i);
  },
)

unfoldable pub mem_due : MemDb → String → ℤ → ℤ → List String
mem_due d z now limit = pick_due (d.scores z) now (limit_of limit (d.members z)) [] (d.members z)

-- A set of fields as text: "k" and "v" stand before a character of a key or a value, and "pp" before
-- each pair. It is read from its end.
abbrev pub spell : Char → String → String → String
spell t String.[] rest = rest
spell t (String.◌∷◌ c s) rest = String.◌∷◌ t (String.◌∷◌ c (spell t s rest))

unfoldable pub mem_marshal : Fields → String
mem_marshal [] = ""
mem_marshal ((k, v) ∷ m) =
    String.◌∷◌ "p" (String.◌∷◌ "p" (spell "k" k (spell "v" v (mem_marshal m))))

abbrev pub put : Char → Char → String × String × Fields → String × String × Fields
put t c (k, v, m) =
    if code t == code "p"
    then ("", "", (k, v) ∷ m)
    else if code t == code "k"
    then (String.◌∷◌ c k, v, m)
    else (k, String.◌∷◌ c v, m)

unfoldable pub mem_parse : String → String × String × Fields
mem_parse String.[] = ("", "", [])
mem_parse (String.◌∷◌ t String.[]) = ("", "", [])
mem_parse (String.◌∷◌ t (String.◌∷◌ c s)) = put t c (mem_parse s)
