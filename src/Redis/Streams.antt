-- ===== src/Redis/Streams.antt =====
-- Lists of stream entries: looking one up after an addition or a removal.
use dist_tasks_go.Base.{
  String, ◌≡◌, none, some, List, [], ◌∷◌, ◌++◌, arith, eq_iff, eq_refl, str_eq, if◌then◌else◌,
}
use dist_tasks_go.Redis.{Entry, Fields, entry, remove}

pub entry-remove :
    (i j : String) (es : List Entry)
    → entry j (remove i es) ≡ (if str_eq i j then none else entry j es)
unfolding entry remove
entry-remove i j [] = ground arith
entry-remove i j ((k, f) ∷ es) =
    ground (arith, eq_iff k i, eq_iff k j, eq_iff i j, entry-remove i j es)

-- An added entry is found under its ID, if the ID is new, and hides no other.
pub entry-append_self :
    (i : String) (f : Fields) (es : List Entry)
    → entry i es ≡ none
    → entry i (es ++ (i, f) ∷ []) ≡ some f
unfolding entry
entry-append_self i f [] h = ground (arith, eq_refl i)
entry-append_self i f ((j, g) ∷ es) h = ground (arith, entry-append_self i f es)

pub entry-append_some :
    (i : String) (e : Entry) (es : List Entry) (f : Fields)
    → entry i es ≡ some f
    → entry i (es ++ e ∷ []) ≡ some f
unfolding entry
entry-append_some i (k, g) [] f h = ground arith
entry-append_some i (k, g) ((j, g') ∷ es) f h = ground (arith, entry-append_some i (k, g) es f)
