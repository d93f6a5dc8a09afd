-- ===== src/DeepCopy/Arrays.antt =====
-- A heap of arrays, and the loops that copy a slice.
use Prim.Native.Nat.{compare, Ordering}
use auth_explore.Base.{ℕ, ◌+◌, Option, none, some, List, [], ◌∷◌}

-- The addresses from `next` on are free.
pub record Heap (Cell : Type 0) : Type 0 where
  pub next : ℕ
  pub cell : ℕ → Cell

-- A slice over a whole array, by its address; `none` is a nil slice.
abbrev pub Slice : Type 0
Slice = Option ℕ

abbrev pub set_cell : {Cell : Type 0} → ℕ → Cell → (ℕ → Cell) → ℕ → Cell
set_cell q v f a = elim (compare a q) [ Ordering.eq ↦ v | _ ↦ f a ]

module _ {Cell T : Type 0} where
  -- `copy` of strings.
  abbrev pub copy_value : T → Heap Cell → T × Heap Cell
  copy_value t h = (t, h)

  -- `for i := range *in { (*in)[i].DeepCopyInto(&(*out)[i]) }`
  unfoldable pub copy_each :
      (T → Heap Cell → T × Heap Cell) → List T → Heap Cell → List T × Heap Cell
  copy_each copy [] h = ([], h)
  copy_each copy (t ∷ ts) h =
      let (t', h') = copy t h in let (ts', h'') = copy_each copy ts h' in (t' ∷ ts', h'')

  -- A slice that is not nil gets a new array, `make([]T, len(*in))`, which the loop fills.
  unfoldable pub copy_slice :
      (Cell → List T)
      → (List T → Cell)
      → (T → Heap Cell → T × Heap Cell)
      → Slice
      → Heap Cell
      → Slice × Heap Cell
  unfolding copy_each
  copy_slice get put copy none h = (none, h)
  copy_slice get put copy (some p) h =
      let (ts, h') = copy_each copy (get (h.cell p)) (record h { next = h.next + 1 }) in
      (some h.next, record h' { cell = set_cell h.next (put ts) h'.cell })

  -- `if in == nil { return nil }; out := new(T); in.DeepCopyInto(out); return out`
  abbrev pub deep_copy :
      (T → Heap Cell → T × Heap Cell) → Option T → Heap Cell → Option T × Heap Cell
  deep_copy copy none h = (none, h)
  deep_copy copy (some t) h = let (t', h') = copy t h in (some t', h')
