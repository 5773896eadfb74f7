-- ===== src/Store/Scripts/Found.antt =====
-- redisstream/scripts.go and store.go: what claims and recoveries find of an entry in the stream.
use dist_tasks_go.Base.{
  ℕ, zero, suc, String, ◌≡◌, refl, sym, ap, ◌∙◌, ◌⊎◌, false, Option, none, some, List, [], ◌∷◌,
  ◌++◌, ℤ, pos, ◌-ℤ◌, ◌≤ℤ◌, str_eq, eq_iff, All, All-append, Bool-cases, inl, inr, leb_ℤ, ◌||◌,
  length,
}
use dist_tasks_go.Redis.{Redis, Pending, Fields, Entry, entry, taken_over}
use dist_tasks_go.Store.Scripts.{with_counts, recover_rounds, recover_script}
use dist_tasks_go.Store.Scripts.Stays.{Stays}

module _ (R : Redis) (s i : String) (f : Fields) where
  open R use {
    Db, stream, pending, xreadgroup, read_entries, read_stream, xautoclaim, autoclaim_entries,
    autoclaim_stream, due,
  }

  -- What is found under the ID i are the fields f.
  abbrev pub Agrees : String → Fields → Type 0
  Agrees id vals = (str_eq id i ≡ false) ⊎ ((id ≡ i) × (vals ≡ f))

  -- Of the entries in the stream, that is so.
  one_entry :
      (vals : Fields) (es : List Entry) → entry i es ≡ some f → entry i es ≡ some vals → vals ≡ f
  one_entry vals es e h = some_inj (sym h ∙ e)
    where
      or_f : Option Fields → Fields
      or_f none = f
      or_f (some g) = g

      some_inj : some vals ≡ some f → vals ≡ f
      some_inj eq = ap or_f eq

  stored-Agrees :
      (id : String) (vals : Fields) (d : Db)
      → Stays R s i f d
      → entry id (stream d s) ≡ some vals
      → Agrees id vals
  stored-Agrees id vals d e h = elim (Bool-cases (str_eq id i)) [
    | inr other ↦ inl other
    | inl same ↦
        let is_i = (eq_iff id i).0 same in inr (is_i, one_entry vals (stream d s) e (rw is_i at h))
  ]

  abbrev pub AllAgree : List (String × Fields × ℕ) → Type 0
  AllAgree outs = All (λ x. Agrees x.0 x.1) outs

  with_counts-Agree :
      (g : String) (e : Db) (es : List Entry)
      → All (λ x. ((p : Pending) × (pending e s g x.0 ≡ some p)) × Agrees x.0 x.1) es
      → (found : List (String × Fields × ℕ)) × (with_counts R s g es e ≡ (some found, e))
        × AllAgree found
  unfolding with_counts
  with_counts-Agree g e [] h = ([], refl, tt)
  with_counts-Agree g e ((id, vals) ∷ es) (((p, there), ours), hs) =
      let (found, eq, agree) = with_counts-Agree g e es hs in
      ((id, vals, p.deliveries) ∷ found, rw there (rw eq), (ours, agree))

  claimed-Agree :
      (g c : String) (ms : ℤ) (d e : Db) (es : List Entry)
      → Stays R s i f d
      → All
          (λ x.
            (p : Pending) × (pending d s g x.0 ≡ some p)
            × (ms ≤ℤ p.idle)
            × (entry x.0 (stream d s) ≡ some x.1)
            × (pending e s g x.0 ≡ some (taken_over c p)))
          es
      → All (λ x. ((p : Pending) × (pending e s g x.0 ≡ some p)) × Agrees x.0 x.1) es
  claimed-Agree g c ms d e [] stay h = tt
  claimed-Agree g c ms d e (x ∷ es) stay ((p, _, _, there, now), hs) = (
    ((taken_over c p, now), stored-Agrees x.0 x.1 d stay there),
    claimed-Agree g c ms d e es stay hs,
  )

  rounds-Agree :
      (n : ℕ) (g c : String) (ms want : ℤ) (cur : String) (outs : List (String × Fields × ℕ))
      (d : Db)
      → Stays R s i f d
      → AllAgree outs
      → (r : String × List (String × Fields × ℕ)) × (e : Db) × (recover_rounds R n s g c ms want cur
            outs d
          ≡ (some r, e))
        × Stays R s i f e
        × AllAgree r.1
  unfolding recover_rounds
  rounds-Agree zero g c ms want cur outs d stay h = ((cur, outs), d, refl, stay, h)
  rounds-Agree (suc n) g c ms want cur outs d stay h =
      let count = want -ℤ pos (length outs) in
      let claim = xautoclaim s g c ms cur count d in
      let (found, eq, agree) =
        with_counts-Agree g claim.1 claim.0.1 (
          claimed-Agree g c ms d claim.1 claim.0.1 stay (autoclaim_entries s g c ms cur count d)) in
      let all = All-append (λ x. Agrees x.0 x.1) outs found h agree in
      let kept : Stays R s i f claim.1 = rw (autoclaim_stream s g c ms cur count d s) stay in
      let (r, e, reqs, stays, good) =
        rounds-Agree n g c ms want claim.0.0 (outs ++ found) claim.1 kept all in
      elim (Bool-cases (leb_ℤ want (pos (length (outs ++ found))) || str_eq claim.0.0 "0-0")) [
        | inl stop ↦ ((claim.0.0, outs ++ found), claim.1, rw eq (rw stop), kept, all)
        | inr more ↦ (r, e, rw eq (rw more reqs), stays, good)
      ]

  -- A recovery keeps the entry, and what it finds of it are its fields.
  pub recover-Agree :
      (g c : String) (ms want : ℤ) (cur : String) (d : Db)
      → Stays R s i f d
      → (r : String × List (String × Fields × ℕ)) × (e : Db) × (recover_script R s g c ms want cur d
          ≡ (some r, e))
        × Stays R s i f e
        × AllAgree r.1
  unfolding recover_script
  recover-Agree g c ms want cur d stay = rounds-Agree 10 g c ms want cur [] d stay tt

  pub read-Agree :
      (g c : String) (n : ℤ) (d : Db)
      → Stays R s i f d
      → Stays R s i f (xreadgroup s g c n d).1 × All (λ x. Agrees x.0 x.1) (xreadgroup s g c n d).0
  read-Agree g c n d stay =
      (rw (read_stream s g c n d s) stay, each (xreadgroup s g c n d).0 (read_entries s g c n d))
    where
      each :
          (es : List Entry)
          → All (λ e. (pending d s g e.0 ≡ none) × (entry e.0 (stream d s) ≡ some e.1)) es
          → All (λ x. Agrees x.0 x.1) es
      each [] h = tt
      each (x ∷ es) ((_, there), hs) = (stored-Agrees x.0 x.1 d stay there, each es hs)
