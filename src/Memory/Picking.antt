-- ===== src/Memory/Picking.antt =====
-- What the server in memory picks: entries and due members.
use dist_tasks_go.Base.{
  ℕ, zero, suc, ◌≤◌, String, ◌≡◌, refl, ◌⊎◌, inl, inr, Bool, true, false, ◌&&◌, ◌||◌, Option, none,
  some, List, [], ◌∷◌, ℤ, ◌≤ℤ◌, leb_ℤ, arith, str_eq, eq_refl, pos_part, length, All, Bool-cases,
  Option-cases,
}
use dist_tasks_go.Redis.{Pending, Entry, entry, has, taken_over, Distinct}
use dist_tasks_go.Memory.{
  MemDb, seen_in, is_due, pick_due, pick, old_entries, take_if, mem_xautoclaim, is_free, is_old,
}

pub length-pick :
    (test : String → Bool) (all : List Entry) (n : ℕ) (es : List Entry)
    → length (pick test all n es) ≤ n
unfolding pick
length-pick test all n [] = omega arith
length-pick test all zero (e ∷ es) = omega arith
length-pick test all (suc n) ((i, f) ∷ es) =
    ground (arith, length-pick test all n es, length-pick test all (suc n) es)

-- What is picked passes the test and is in the stream.
pub pick-All :
    (test : String → Bool) (all : List Entry) (n : ℕ) (es : List Entry)
    → All (λ e. (test e.0 ≡ true) × (entry e.0 all ≡ some e.1)) (pick test all n es)
unfolding pick
pick-All test all n [] = tt
pick-All test all zero (e ∷ es) = tt
pick-All test all (suc n) ((i, f) ∷ es) = elim (Bool-cases (test i)) [
  | inr fails ↦ rw fails (pick-All test all (suc n) es)
  | inl passes ↦ elim (Option-cases (entry i all)) [
    | inl gone ↦ rw passes (rw gone (pick-All test all (suc n) es))
    | inr (g, there) ↦ rw passes (rw there ((passes, there), pick-All test all n es))
  ]
]

-- Members of a list are found in it.
pub All-has :
    (es all : List Entry) (P : Entry → Type 0)
    → ((i : String) → has i es ≡ true → has i all ≡ true)
    → All P es
    → All (λ e. P e × (has e.0 all ≡ true)) es
unfolding has entry
All-has [] all P h ps = tt
All-has ((i, f) ∷ es) all P h (p, ps) =
    ((p, h i (ground (arith, eq_refl i))), All-has es all P (λ j m. h j (ground arith)) ps)

-- A step from one property of all elements to another.
pub All-imp :
    {A : Type 0} (es : List A) (P Q : A → Type 0) → ((e : A) → P e → Q e) → All P es → All Q es
All-imp [] P Q f ps = tt
All-imp (e ∷ es) P Q f (p, ps) = (f e p, All-imp es P Q f ps)

pub leb_ℤ→le : (a b : ℤ) → leb_ℤ a b ≡ true → a ≤ℤ b
leb_ℤ→le a b h = ground arith

pub le→leb_ℤ : (a b : ℤ) → a ≤ℤ b → leb_ℤ a b ≡ true
le→leb_ℤ a b h = ground arith

pub is_due-le : (now : ℤ) (o : Option ℤ) → is_due now o ≡ true → (s : ℤ) × (o ≡ some s) × (s ≤ℤ now)
is_due-le now none h = ground arith
is_due-le now (some s) h = (s, refl, leb_ℤ→le s now h)

pub length-pick_due :
    (f : String → Option ℤ) (now : ℤ) (n : ℕ) (old ms : List String)
    → length (pick_due f now n old ms) ≤ n
unfolding pick_due
length-pick_due f now n old [] = omega arith
length-pick_due f now zero old (m ∷ ms) = omega arith
length-pick_due f now (suc n) old (m ∷ ms) =
    ground (arith, length-pick_due f now n (m ∷ old) ms, length-pick_due f now (suc n) old ms)

pub pick_due-due :
    (f : String → Option ℤ) (now : ℤ) (n : ℕ) (old ms : List String)
    → All (λ m. is_due now (f m) ≡ true) (pick_due f now n old ms)
unfolding pick_due
pick_due-due f now n old [] = tt
pick_due-due f now zero old (m ∷ ms) = tt
pick_due-due f now (suc n) old (m ∷ ms) =
    let skip = pick_due-due f now (suc n) old ms in
    let keep = pick_due-due f now n (m ∷ old) ms in
    elim (Bool-cases (is_due now (f m))) [
      | inr late ↦ rw late skip
      | inl due ↦ elim (Bool-cases (seen_in m old)) [
        | inl again ↦ rw due (rw again skip)
        | inr new ↦ rw due (rw new (due, keep))
      ]
    ]

pub or-split : (a b : Bool) → (a || b) ≡ false → (a ≡ false) × (b ≡ false)
or-split a b h = (ground arith, ground arith)

pub pick_due-new :
    (f : String → Option ℤ) (now : ℤ) (n : ℕ) (old ms : List String)
    → All (λ m. seen_in m old ≡ false) (pick_due f now n old ms)
unfolding pick_due
pick_due-new f now n old [] = tt
pick_due-new f now zero old (m ∷ ms) = tt
pick_due-new f now (suc n) old (m ∷ ms) =
    let skip = pick_due-new f now (suc n) old ms in
    let keep =
      All-imp (pick_due f now n (m ∷ old) ms) (λ x. seen_in x (m ∷ old) ≡ false)
        (λ x. seen_in x old ≡ false) (λ x h. (or-split (str_eq m x) (seen_in x old) h).1)
        (pick_due-new f now n (m ∷ old) ms) in
    elim (Bool-cases (is_due now (f m))) [
      | inr late ↦ rw late skip
      | inl due ↦ elim (Bool-cases (seen_in m old)) [
        | inl again ↦ rw due (rw again skip)
        | inr new ↦ rw due (rw new (new, keep))
      ]
    ]

pub pick_due-Distinct :
    (f : String → Option ℤ) (now : ℤ) (n : ℕ) (old ms : List String)
    → Distinct (pick_due f now n old ms)
unfolding pick_due
pick_due-Distinct f now n old [] = tt
pick_due-Distinct f now zero old (m ∷ ms) = tt
pick_due-Distinct f now (suc n) old (m ∷ ms) =
    let skip = pick_due-Distinct f now (suc n) old ms in
    let apart =
      All-imp (pick_due f now n (m ∷ old) ms) (λ x. seen_in x (m ∷ old) ≡ false)
        (λ x. str_eq m x ≡ false) (λ x h. (or-split (str_eq m x) (seen_in x old) h).0)
        (pick_due-new f now n (m ∷ old) ms) in
    elim (Bool-cases (is_due now (f m))) [
      | inr late ↦ rw late skip
      | inl due ↦ elim (Bool-cases (seen_in m old)) [
        | inl again ↦ rw due (rw again skip)
        | inr new ↦ rw due (rw new (apart, pick_due-Distinct f now n (m ∷ old) ms))
      ]
    ]

pub picked :
    (test : String → Bool) (all : List Entry) (n : ℕ)
    → All
        (λ e.
          ((test e.0 ≡ true) × (entry e.0 all ≡ some e.1)) × (has e.0 (pick test all n all) ≡ true))
        (pick test all n all)
picked test all n =
    All-has (pick test all n all) (pick test all n all)
      (λ e. (test e.0 ≡ true) × (entry e.0 all ≡ some e.1)) (λ i h. h) (pick-All test all n all)

pub free-none : (o : Option Pending) → is_free o ≡ true → o ≡ none
free-none none h = refl
free-none (some p) h = ground arith

pub old-some :
    (ms : ℤ) (o : Option Pending)
    → is_old ms o ≡ true
    → (p : Pending) × (o ≡ some p) × (leb_ℤ ms p.idle ≡ true)
old-some ms none h = ground arith
old-some ms (some p) h = (p, refl, h)

pub taken-young :
    (b : Bool) (c : String) (ms : ℤ) (p : Pending)
    → ¬ (ms ≤ℤ p.idle)
    → take_if b c ms (some p) ≡ some p
taken-young b c ms p young = elim (Bool-cases (leb_ℤ ms p.idle)) [
  | inl old ↦ absurd (young (leb_ℤ→le ms p.idle old))
  | inr new ↦ rw new (ground arith)
]

pub taken-any :
    (b : Bool) (c : String) (ms : ℤ) (o : Option Pending)
    → (take_if b c ms o ≡ o)
      ⊎ ((take_if b c ms o ≡ none) ⊎ ((p : Pending) × (take_if b c ms o ≡ some (taken_over c p))))
taken-any b c ms none = inl refl
taken-any b c ms (some p) = elim (Bool-cases (b && leb_ℤ ms p.idle)) [
  | inl old ↦ inr (inr (p, rw old refl))
  | inr young ↦ inl (rw young refl)
]

pub autoclaimed :
    (s g c : String) (ms : ℤ) (cur : String) (n : ℤ) (d : MemDb)
    → All
        (λ e.
          (p : Pending) × (d.deliveries s g e.0 ≡ some p)
          × (ms ≤ℤ p.idle)
          × (entry e.0 (d.streams s) ≡ some e.1)
          × ((mem_xautoclaim s g c ms cur n d).1.deliveries s g e.0 ≡ some (taken_over c p)))
        (mem_xautoclaim s g c ms cur n d).0.1
unfolding mem_xautoclaim
autoclaimed s g c ms cur n d =
    All-imp (old_entries s g ms n d)
      (λ e.
        ((is_old ms (d.deliveries s g e.0) ≡ true) × (entry e.0 (d.streams s) ≡ some e.1))
        × (has e.0 (old_entries s g ms n d) ≡ true))
      (λ e.
        (p : Pending) × (d.deliveries s g e.0 ≡ some p)
        × (ms ≤ℤ p.idle)
        × (entry e.0 (d.streams s) ≡ some e.1)
        × ((mem_xautoclaim s g c ms cur n d).1.deliveries s g e.0 ≡ some (taken_over c p)))
      (λ e ((old, there), here).
        let (p, held, late) = old-some ms (d.deliveries s g e.0) old in
        (p, held, leb_ℤ→le ms p.idle late, there, rw (held, here, eq_refl s, eq_refl g, late) refl))
      (picked (λ i. is_old ms (d.deliveries s g i)) (d.streams s) (pos_part n))
