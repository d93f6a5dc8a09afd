-- ===== src/Tests/DeepCopy.antt =====
-- Deep copies on a small heap.
use Prim.Native.Nat.{compare, Ordering}
use auth_explore.Base.{ℕ, zero, suc, ◌≤◌, String, ◌≡◌, refl, some, [], ◌∷◌, arith}
use auth_explore.DeepCopy.Arrays.{Heap, Slice, copy_value, copy_slice, copy_each}
use auth_explore.DeepCopy.Kinds.{
  Kind, Same, Below, Between, IsDeepCopy, value_kind, slice_kind, struct_kind,
}
use auth_explore.DeepCopy.Copies.{value-IsDeepCopy, struct-Copied, copy_slice-IsDeepCopy}
use auth_explore.DeepCopy.{
  User, Space, Org, Cell, strings, users, spaces, strings_of, Metadata, Object, org, copy_user,
  copy_space, copy_org_spec, copy_org, deep_copy_object,
}
use auth_explore.DeepCopy.Objects.{IsMetadata}
use auth_explore.DeepCopy.Separate.{
  value_at, Reaches, deep_copy_object-reads, deep_copy_object-keeps,
}

-- Metadata with a name and a slice of finalizers.
abbrev Meta : Type 0
Meta = String × Slice

abbrev Arrays : Type 0
Arrays = Cell (Unit {0}) Meta

copy_meta : Meta → Heap Arrays → Meta × Heap Arrays
unfolding copy_slice
copy_meta m h = let (fs, h') = copy_slice strings_of strings copy_value m.1 h in ((m.0, fs), h')

abbrev metadata : Metadata
metadata = record {
  Extra = Unit {0};
  ObjectMeta = Meta;
  ListMeta = String;
  copy_object_meta = copy_meta;
  copy_list_meta = copy_value;
}

abbrev finalizers_kind : Kind Arrays Slice
finalizers_kind = slice_kind value_kind strings_of

abbrev meta_kind : Kind Arrays Meta
meta_kind = struct_kind finalizers_kind (λ m. m.1) (λ m. m.0)

copy_meta-IsDeepCopy : IsDeepCopy meta_kind copy_meta
unfolding copy_meta
copy_meta-IsDeepCopy m h l =
    let q = copy_slice strings_of strings copy_value m.1 h in
    struct-Copied finalizers_kind (λ (x : Meta). x.1) (λ (x : Meta). x.0) m (m.0, q.0) h q.1 refl
      (copy_slice-IsDeepCopy value_kind strings_of strings copy_value (λ ts. refl) value-IsDeepCopy
        m.1 h l)

abbrev metadata-IsMetadata : IsMetadata metadata
metadata-IsMetadata = record {
  object_meta = meta_kind;
  list_meta = value_kind;
  copy_object_meta_deep = copy_meta-IsDeepCopy;
  copy_list_meta_deep = value-IsDeepCopy;
}

abbrev alice : User
alice = record { name = "alice"; roles = some 1 }

abbrev dev : Space
dev = record { name = "dev"; cluster_name = "one"; users = some 0 }

-- The org and its space share one array of users.
abbrev cells : ℕ → Arrays
cells zero = users (alice ∷ [])
cells (suc zero) = strings ("viewer" ∷ [])
cells (suc (suc zero)) = spaces (dev ∷ [])
cells (suc (suc (suc n))) = strings ("kept" ∷ [])

abbrev heap : Heap Arrays
heap = record { next = 4; cell = cells }

abbrev acme : Org Meta
acme = record {
  type_meta = record { kind = "Org"; api_version = "v1" };
  metadata = ("acme", some 3);
  spec = record { users = some 0; spaces = some 2 };
}

abbrev after : Heap Arrays
after = (deep_copy_object metadata (org acme) heap).1

-- Later, alice loses her role in the original, or in the copy.
abbrev changed_old : Heap Arrays
changed_old = record after {
  cell = λ a. elim (compare a 4) [ Ordering.lt ↦ strings [] | _ ↦ after.cell a ];
}

abbrev changed_new : Heap Arrays
changed_new = record after {
  cell = λ a. elim (compare a 4) [ Ordering.lt ↦ after.cell a | _ ↦ strings [] ];
}

old_left : Same (λ a. 4 ≤ a) after changed_old
old_left a r = ground arith

new_left : Same (Below 4) after changed_new
new_left a r = ground arith

acme-Reaches : Reaches metadata metadata-IsMetadata (Below 4) heap (org acme)
acme-Reaches = omega arith

deep_copy_object-reads_example :
    (copy : Object Meta String) × ((deep_copy_object metadata (org acme) heap).0 ≡ some copy)
    × (value_at metadata metadata-IsMetadata changed_old copy
        ≡ value_at metadata metadata-IsMetadata heap (org acme))
deep_copy_object-reads_example =
    deep_copy_object-reads metadata metadata-IsMetadata (org acme) heap changed_old acme-Reaches
      old_left

deep_copy_object-keeps_example :
    (copy : Object Meta String) × ((deep_copy_object metadata (org acme) heap).0 ≡ some copy)
    × Reaches metadata metadata-IsMetadata (Between 4 after.next) after copy
    × (value_at metadata metadata-IsMetadata changed_new (org acme)
        ≡ value_at metadata metadata-IsMetadata heap (org acme))
deep_copy_object-keeps_example =
    deep_copy_object-keeps metadata metadata-IsMetadata (org acme) heap changed_new acme-Reaches
      new_left

-- The shared array of users is copied twice.
abbrev acme_copy : Org Meta
acme_copy = record acme {
  metadata = ("acme", some 4);
  spec = record { users = some 5; spaces = some 7 };
}

copied_acme : (deep_copy_object metadata (org acme) heap).0 ≡ some (org acme_copy)
unfolding deep_copy_object copy_org copy_org_spec copy_space copy_user copy_slice copy_each
    copy_meta
copied_acme = refl
