-- ===== src/DeepCopy/Kinds.antt =====
-- Kinds of values on the heap: what a value reads as, and the addresses that it reaches; and what a
-- deep copy of a kind does.
use auth_explore.Base.{
  ℕ, ◌≤◌, ◌<◌, ◌≡◌, refl, ap, ◌∙◌, Option, none, some, List, [], ◌∷◌, All, All-map, map,
}
use auth_explore.DeepCopy.Arrays.{Heap, Slice}

-- The heaps agree at the addresses of `P`.
abbrev pub Same : {Cell : Type 0} → (ℕ → Type 0) → Heap Cell → Heap Cell → Type 0
Same P h h' = (a : ℕ) → P a → h'.cell a ≡ h.cell a

abbrev pub Below : ℕ → ℕ → Type 0
Below n a = a < n

abbrev pub Between : ℕ → ℕ → ℕ → Type 0
Between lo hi a = (lo ≤ a) × (a < hi)

pub record Kind (Cell T : Type 0) : Type 1 where
  pub Value : Type 0
  -- what the value reads as
  pub at : Heap Cell → T → Value
  -- all addresses that it reaches are in a set
  pub lives : (ℕ → Type 0) → Heap Cell → T → Type 0
  -- neither depends on other addresses
  pub at_same :
      (P : ℕ → Type 0) (h h' : Heap Cell) (t : T) → Same P h h' → lives P h t → at h' t ≡ at h t
  pub lives_same :
      (P Q : ℕ → Type 0) (h h' : Heap Cell) (t : T)
      → Same P h h'
      → ((a : ℕ) → P a → Q a)
      → lives P h t
      → lives Q h' t

module _ {Cell : Type 0} where
  -- The copy reads as the value did, it reaches new addresses only, and the old ones are as they were.
  pub record Copied {T : Type 0} (K : Kind Cell T) (t : T) (h : Heap Cell) (t' : T) (h' : Heap Cell)
      : Type 0 where
    pub equal : K.at h' t' ≡ K.at h t
    pub fresh : K.lives (Between h.next h'.next) h' t'
    pub kept : Same (Below h.next) h h'
    pub grows : h.next ≤ h'.next

  abbrev pub IsDeepCopy : {T : Type 0} → Kind Cell T → (T → Heap Cell → T × Heap Cell) → Type 0
  IsDeepCopy K copy =
      (t : _) (h : Heap Cell) → K.lives (Below h.next) h t → Copied K t h (copy t h).0 (copy t h).1

  -- Values with no address in them.
  abbrev pub value_kind : {T : Type 0} → Kind Cell T
  value_kind {T} = record {
    Value = T;
    at = λ h t. t;
    lives = λ P h t. Unit;
    at_same = λ P h h' t same l. refl;
    lives_same = λ P Q h h' t same sub l. l;
  }

  pub map-Same :
      {T : Type 0} (K : Kind Cell T) (P : ℕ → Type 0) (h h' : Heap Cell) (ts : List T)
      → Same P h h'
      → All (K.lives P h) ts
      → map (K.at h') ts ≡ map (K.at h) ts
  map-Same K P h h' [] same l = refl
  map-Same K P h h' (t ∷ ts) same (l, ls) =
      cc (K.at_same P h h' t same l, map-Same K P h h' ts same ls)

  abbrev pub list_kind : {T : Type 0} → Kind Cell T → Kind Cell (List T)
  list_kind K = record {
    Value = List K.Value;
    at = λ h ts. map (K.at h) ts;
    lives = λ P h ts. All (K.lives P h) ts;
    at_same = map-Same K;
    lives_same = λ P Q h h' ts same sub. All-map ts (λ t. K.lives_same P Q h h' t same sub);
  }

  module _ {T : Type 0} (K : Kind Cell T) (get : Cell → List T) where
    abbrev pub slice_at : Heap Cell → Slice → Option (List K.Value)
    slice_at h none = none
    slice_at h (some p) = some (map (K.at h) (get (h.cell p)))

    abbrev pub SliceLives : (ℕ → Type 0) → Heap Cell → Slice → Type 0
    SliceLives P h none = Unit
    SliceLives P h (some p) = P p × All (K.lives P h) (get (h.cell p))

    pub slice-Same :
        (P : ℕ → Type 0) (h h' : Heap Cell) (s : Slice)
        → Same P h h'
        → SliceLives P h s
        → slice_at h' s ≡ slice_at h s
    slice-Same P h h' none same l = refl
    slice-Same P h h' (some p) same (in_p, l) =
        rw (same p in_p) (ap some (map-Same K P h h' (get (h.cell p)) same l))

    pub SliceLives-Same :
        (P Q : ℕ → Type 0) (h h' : Heap Cell) (s : Slice)
        → Same P h h'
        → ((a : ℕ) → P a → Q a)
        → SliceLives P h s
        → SliceLives Q h' s
    SliceLives-Same P Q h h' none same sub l = tt
    SliceLives-Same P Q h h' (some p) same sub (in_p, l) = (
      sub p in_p,
      rw (same p in_p) (All-map (get (h.cell p)) (λ t. K.lives_same P Q h h' t same sub) l),
    )

    -- A slice reads as its elements do; a nil slice is no empty one.
    abbrev pub slice_kind : Kind Cell Slice
    slice_kind = record {
      Value = Option (List K.Value);
      at = slice_at;
      lives = SliceLives;
      at_same = slice-Same;
      lives_same = SliceLives-Same;
    }

  module _ {A B : Type 0} (K : Kind Cell A) (J : Kind Cell B) where
    abbrev pub pair_kind : Kind Cell (A × B)
    pair_kind = record {
      Value = K.Value × J.Value;
      at = λ h q. (K.at h q.0, J.at h q.1);
      lives = λ P h q. K.lives P h q.0 × J.lives P h q.1;
      at_same = λ P h h' q same l.
          ap (λ (v : K.Value). (v, J.at h' q.1)) (K.at_same P h h' q.0 same l.0)
          ∙ ap (λ (v : J.Value). (K.at h q.0, v)) (J.at_same P h h' q.1 same l.1);
      lives_same = λ P Q h h' q same sub l.
          (K.lives_same P Q h h' q.0 same sub l.0, J.lives_same P Q h h' q.1 same sub l.1);
    }

  -- A struct, by the fields that reach the heap and the others.
  module _ {T F R : Type 0} (K : Kind Cell F) (fields : T → F) (others : T → R) where
    abbrev pub struct_kind : Kind Cell T
    struct_kind = record {
      Value = R × K.Value;
      at = λ h t. (others t, K.at h (fields t));
      lives = λ P h t. K.lives P h (fields t);
      at_same = λ P h h' t same l.
          ap (λ (v : K.Value). (others t, v)) (K.at_same P h h' (fields t) same l);
      lives_same = λ P Q h h' t. K.lives_same P Q h h' (fields t);
    }
