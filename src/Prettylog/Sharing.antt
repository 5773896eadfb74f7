-- ===== src/Prettylog/Sharing.antt =====
-- internal/prettylog/prettylog.go: which handlers share their attributes.
use dist_tasks_go.Base.{
  ℕ, zero, suc, ◌+◌, ◌<◌, String, ◌≡◌, refl, ◌∙◌, ap, true, List, [], ◌∷◌, ◌++◌, ltb, length, arith,
}
use dist_tasks_go.Prettylog.{
  Attr, Heap, Handler, elements, attrs_of, store_cell, store_cells, with_attrs, append_one,
  with_group,
}

elements_same :
    (f g : ℕ → Attr) (i k : ℕ) → ((j : ℕ) → j < i + k → f j ≡ g j) → elements f i k ≡ elements g i k
elements_same f g i zero h = refl
elements_same f g i (suc k) h =
    rw (h i (omega arith), elements_same f g (suc i) k (λ j l. h j (omega (arith, l)))) refl

elements-append :
    (f : ℕ → Attr) (i k l : ℕ) → elements f i (k + l) ≡ elements f i k ++ elements f (i + k) l
elements-append f i zero l =
    let left : 0 + l ≡ l = omega arith in
    let right : i + 0 ≡ i = omega arith in rw (left, right) refl
elements-append f i (suc k) l =
    let left : suc k + l ≡ suc (k + l) = omega arith in
    let right : i + suc k ≡ suc i + k = omega arith in
    rw (left, right, elements-append f (suc i) k l) refl

-- A write stays within its array, and within its cells.
cell_apart :
    (a i : ℕ) (x : Attr) (cells : ℕ → ℕ → Attr) (b j : ℕ)
    → b < a
    → store_cell a i x cells b j ≡ cells b j
unfolding store_cell
cell_apart a i x cells b j h = ground arith

cell_before :
    (a i : ℕ) (x : Attr) (cells : ℕ → ℕ → Attr) (j : ℕ)
    → j < i
    → store_cell a i x cells a j ≡ cells a j
unfolding store_cell
cell_before a i x cells j h = ground arith

cell_at : (a i : ℕ) (x : Attr) (cells : ℕ → ℕ → Attr) → store_cell a i x cells a i ≡ x
unfolding store_cell
cell_at a i x cells = ground arith

cells_apart :
    (a i : ℕ) (xs : List Attr) (cells : ℕ → ℕ → Attr) (b j : ℕ)
    → b < a
    → store_cells a i xs cells b j ≡ cells b j
unfolding store_cells
cells_apart a i [] cells b j h = refl
cells_apart a i (x ∷ xs) cells b j h =
    cells_apart a (suc i) xs (store_cell a i x cells) b j h ∙ cell_apart a i x cells b j h

cells_before :
    (a i : ℕ) (xs : List Attr) (cells : ℕ → ℕ → Attr) (j : ℕ)
    → j < i
    → store_cells a i xs cells a j ≡ cells a j
unfolding store_cells
cells_before a i [] cells j h = refl
cells_before a i (x ∷ xs) cells j h =
    cells_before a (suc i) xs (store_cell a i x cells) j (omega (arith, h))
    ∙ cell_before a i x cells j h

-- What is written is read.
cells_written :
    (a i : ℕ) (xs : List Attr) (cells : ℕ → ℕ → Attr)
    → elements (store_cells a i xs cells a) i (length xs) ≡ xs
unfolding store_cells
cells_written a i [] cells = refl
cells_written a i (x ∷ xs) cells =
    rw
      (
        cells_before a (suc i) xs (store_cell a i x cells) i (omega arith),
        cell_at a i x cells,
        cells_written a (suc i) xs (store_cell a i x cells),
      )
      refl

length-elements : (f : ℕ → Attr) (i k : ℕ) → length (elements f i k) ≡ k
length-elements f i zero = refl
length-elements f i (suc k) = ap suc (length-elements f (suc i) k)

two_parts :
    (f : ℕ → Attr) (n : ℕ) (xs ys : List Attr)
    → elements f 0 n ≡ xs
    → elements f n (length ys) ≡ ys
    → elements f 0 (n + length ys) ≡ xs ++ ys
two_parts f n xs ys first rest =
    let at_n : 0 + n ≡ n = omega arith in
    rw (elements-append f 0 n (length ys), at_n, first, rest) refl

-- A copy stays when cells after it are written.
copied_part :
    (a n : ℕ) (xs old : List Attr) (cells : ℕ → ℕ → Attr)
    → length old ≡ n
    → elements (store_cells a n xs (store_cells a 0 old cells) a) 0 n ≡ old
copied_part a n xs old cells len =
    elements_same _ (store_cells a 0 old cells a) 0 n
      (λ j l. cells_before a n xs (store_cells a 0 old cells) j (omega (arith, l)))
    ∙ rw⁻¹ len (cells_written a 0 old cells)

-- One more cell.
cell_added :
    (a n : ℕ) (x : Attr) (cells : ℕ → ℕ → Attr)
    → elements (store_cell a n x cells a) 0 (suc n) ≡ elements (cells a) 0 n ++ x ∷ []
cell_added a n x cells =
    let one : suc n ≡ n + 1 = omega arith in
    ap (elements (store_cell a n x cells a) 0) one
    ∙ two_parts (store_cell a n x cells a) n (elements (cells a) 0 n) (x ∷ [])
        (elements_same _ _ 0 n λ j l. cell_before a n x cells j (omega (arith, l)))
        (rw (cell_at a n x cells) refl)

-- The array of a handler is one that the heap has made.
abbrev pub IsMade : Handler → Heap → Type 0
IsMade h m = h.attrs.array < m.next

-- WithAttrs makes a handler with the attributes of the old one and the new ones after them, in an
-- array of its own, and every handler that there was keeps its attributes.
pub with_attrs_kept :
    (xs : List Attr) (h g : Handler) (m : Heap)
    → IsMade h m
    → IsMade g m
    → let r = with_attrs xs h m in
      (attrs_of r.0 r.1 ≡ attrs_of h m ++ xs) × (attrs_of g r.1 ≡ attrs_of g m)
unfolding with_attrs
with_attrs_kept xs h g m made there =
    let old = attrs_of h m in
    let copied = store_cells m.next 0 old m.cells in
    let n = h.attrs.size in
    (
      two_parts (store_cells m.next n xs copied m.next) n old xs
          (copied_part m.next n xs old m.cells (length-elements _ 0 n))
          (cells_written m.next n xs copied),
      elements_same _ _ 0 g.attrs.size λ j l.
          cells_apart m.next n xs copied g.attrs.array j there
          ∙ cells_apart m.next 0 old m.cells g.attrs.array j there,
    )

abbrev pub group : String → Attr
group name = record { key = "group"; value = name }

-- Where a handler's attributes have room for one more: two groups that are made from it share the
-- cell, so that the first one then has the name of the second.
pub sibling_groups_shared :
    (grow : ℕ → ℕ) (a b : String) (h : Handler) (m : Heap)
    → h.attrs.size < h.attrs.capacity
    → let first = with_group grow a h m in
      let second = with_group grow b h first.1 in
      (attrs_of first.0 first.1 ≡ attrs_of h m ++ group a ∷ [])
      × (attrs_of first.0 second.1 ≡ attrs_of h m ++ group b ∷ [])
unfolding with_group append_one
sibling_groups_shared grow a b h m room =
    let n = h.attrs.size in
    let arr = h.attrs.array in
    let fits : ltb n h.attrs.capacity ≡ true = ground arith in
    rw fits (
      cell_added arr n (group a) m.cells,
      cell_added arr n (group b) (store_cell arr n (group a) m.cells)
          ∙ ap (λ xs. xs ++ group b ∷ [])
              (elements_same _ _ 0 n
                λ j l. cell_before arr n (group a) m.cells j (omega (arith, l))),
    )
