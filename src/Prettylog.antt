-- ===== src/Prettylog.antt =====
-- internal/prettylog/prettylog.go: the handler of log records, whose attributes are a slice. Slices share
-- arrays, so the arrays are modelled: a heap of cells. The text of times, levels and values is a
-- parameter, and so is the capacity that append chooses for a new array.
pub mod Sharing
use Prim.Native.String.{◌++◌ as append}
use dist_tasks_go.Base.{
  ℕ, zero, suc, ◌+◌, String, Bool, true, false, ◌&&◌, Option, none, some, List, [], ◌∷◌, ◌++◌, ltb,
  str_eq, ◌==◌, if◌then◌else◌, length,
}

pub record Attr : Type 0 where
  pub key : String
  pub value : String

-- The cells of the arrays, and the next array that is free.
pub record Heap : Type 0 where
  pub cells : ℕ → ℕ → Attr
  pub next : ℕ

-- A slice from the start of its array.
pub record Slice : Type 0 where
  pub array : ℕ
  pub size : ℕ
  pub capacity : ℕ

-- A handler is its attributes; the writer and its mutex are left out.
pub record Handler : Type 0 where
  pub attrs : Slice

-- The elements from i on, k of them.
abbrev pub elements : (ℕ → Attr) → ℕ → ℕ → List Attr
elements cells i zero = []
elements cells i (suc k) = cells i ∷ elements cells (suc i) k

abbrev pub attrs_of : Handler → Heap → List Attr
attrs_of h m = elements (m.cells h.attrs.array) 0 h.attrs.size

unfoldable pub store_cell : ℕ → ℕ → Attr → (ℕ → ℕ → Attr) → ℕ → ℕ → Attr
store_cell a i x cells b j = if a == b && i == j then x else cells b j

-- copy (merged[i:], xs)
unfoldable pub store_cells : ℕ → ℕ → List Attr → (ℕ → ℕ → Attr) → ℕ → ℕ → Attr
unfolding store_cell
store_cells a i [] cells = cells
store_cells a i (x ∷ xs) cells = store_cells a (suc i) xs (store_cell a i x cells)

-- NewHandler: no attributes yet, and no array.
abbrev pub new_handler : Handler
new_handler = record { attrs = record { array = 0; size = 0; capacity = 0 } }

-- WithAttrs: make, and two times copy.
unfoldable pub with_attrs : List Attr → Handler → Heap → Handler × Heap
unfolding store_cells
with_attrs xs h m = (
  record {
    attrs = record {
      array = m.next;
      size = h.attrs.size + length xs;
      capacity = h.attrs.size + length xs;
    };
  },
  record {
    cells = store_cells m.next h.attrs.size xs (store_cells m.next 0 (attrs_of h m) m.cells);
    next = suc m.next;
  },
)

-- append of one element: in place where there is room, else in a new array.
unfoldable pub append_one : (ℕ → ℕ) → Slice → Attr → Heap → Slice × Heap
unfolding store_cells store_cell
append_one grow s x m =
    if ltb s.size s.capacity
    then (record s { size = suc s.size }, record m { cells = store_cell s.array s.size x m.cells })
    else (
      record { array = m.next; size = suc s.size; capacity = grow (suc s.size) },
      record {
        cells =
            store_cell m.next s.size x
              (store_cells m.next 0 (elements (m.cells s.array) 0 s.size) m.cells);
        next = suc m.next;
      },
    )

unfoldable pub with_group : (ℕ → ℕ) → String → Handler → Heap → Handler × Heap
unfolding append_one
with_group grow name h m =
    let r = append_one grow h.attrs (record { key = "group"; value = name }) m in
    (record { attrs = r.0 }, r.1)

-- What Handle prints of each attribute: two blanks, the key and the value.
unfoldable pub print_attrs : List Attr → String
print_attrs [] = ""
print_attrs (a ∷ rest) = append "  " (append a.key (append "=" (append a.value (print_attrs rest))))

-- A record: its time and its level as text, its message and its own attributes.
pub record LogRecord : Type 0 where
  pub time : String
  pub level : String
  pub message : String
  pub attrs : List Attr

-- The line of Handle; `pad` is the format %-5s.
unfoldable pub handle : (String → String) → LogRecord → Handler → Heap → String
unfolding print_attrs
handle pad r h m = append r.time (
    append " " (
      append (pad r.level) (
        append " " (append r.message (append (print_attrs (attrs_of h m)) (print_attrs r.attrs))))))
