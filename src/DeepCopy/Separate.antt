-- ===== src/DeepCopy/Separate.antt =====
-- The deep copies of the resources share no array with what they are copies of.
use auth_explore.Base.{ℕ, ◌≤◌, ◌≡◌, refl, ap, ◌∙◌, some}
use auth_explore.DeepCopy.Kinds.{Same, Below, Between, Kind, Copied}
use auth_explore.DeepCopy.{
  Metadata, org, org_list, global_user, global_user_list, Memory, copy_org, copy_global_user,
  copy_org_list, copy_global_user_list, deep_copy_object,
}
use auth_explore.DeepCopy.Specs.{Arrays}
use auth_explore.DeepCopy.Objects.{
  IsMetadata, Pointed, org_kind, org_list_kind, global_user_kind, global_user_list_kind,
  copy_org-IsDeepCopy, copy_org_list-IsDeepCopy, copy_global_user-IsDeepCopy,
  copy_global_user_list-IsDeepCopy,
}

module _ (L : Metadata) (M : IsMetadata L) where
  -- What an object reads as: all its fields, with the elements of its slices in the place of these.
  pub data Value : Type 0 where
    org_value : (org_kind L M).Value → Value
    org_list_value : (org_list_kind L M).Value → Value
    global_user_value : (global_user_kind L M).Value → Value
    global_user_list_value : (global_user_list_kind L M).Value → Value

  abbrev pub value_at : Memory L → Pointed L M → Value
  value_at h (org o) = org_value ((org_kind L M).at h o)
  value_at h (org_list l) = org_list_value ((org_list_kind L M).at h l)
  value_at h (global_user g) = global_user_value ((global_user_kind L M).at h g)
  value_at h (global_user_list l) = global_user_list_value ((global_user_list_kind L M).at h l)

  -- All addresses that the object reaches are in the set.
  abbrev pub Reaches : (ℕ → Type 0) → Memory L → Pointed L M → Type 0
  Reaches P h (org o) = (org_kind L M).lives P h o
  Reaches P h (org_list l) = (org_list_kind L M).lives P h l
  Reaches P h (global_user g) = (global_user_kind L M).lives P h g
  Reaches P h (global_user_list l) = (global_user_list_kind L M).lives P h l

  -- A later heap: what the copy reads as there, if the arrays allocated since are as they were, and
  -- what the object reads as, if the older ones are.
  record Apart (object copy : Pointed L M) (h h' : Memory L) : Type 0 where
    reads : (h₂ : Memory L) → Same (λ a. h.next ≤ a) h' h₂ → value_at h₂ copy ≡ value_at h object
    keeps : (h₂ : Memory L) → Same (Below h.next) h' h₂ → value_at h₂ object ≡ value_at h object
    fresh : Reaches (Between h.next h'.next) h' copy

  module _ {T : Type 0} (K : Kind (Arrays L) T) where
    Copied-reads :
        (t t' : T) (h h' h₂ : Memory L)
        → Copied K t h t' h'
        → Same (λ a. h.next ≤ a) h' h₂
        → K.at h₂ t' ≡ K.at h t
    Copied-reads t t' h h' h₂ c same =
        K.at_same (λ a. h.next ≤ a) h' h₂ t' same
          (K.lives_same (Between h.next h'.next) (λ a. h.next ≤ a) h' h' t' (λ a r. refl)
            (λ a r. r.0) c.fresh)
        ∙ c.equal

    Copied-keeps :
        (t t' : T) (h h' h₂ : Memory L)
        → K.lives (Below h.next) h t
        → Copied K t h t' h'
        → Same (Below h.next) h' h₂
        → K.at h₂ t ≡ K.at h t
    Copied-keeps t t' h h' h₂ l c same =
        K.at_same (Below h.next) h' h₂ t same
          (K.lives_same (Below h.next) (Below h.next) h h' t c.kept (λ a r. r) l)
        ∙ K.at_same (Below h.next) h h' t c.kept l

  -- Each kind of object is copied deep.
  deep_copy_object-Apart :
      (object : Pointed L M) (h : Memory L)
      → Reaches (Below h.next) h object
      → (copy : Pointed L M) × ((deep_copy_object L object h).0 ≡ some copy)
        × Apart object copy h (deep_copy_object L object h).1
  unfolding deep_copy_object
  deep_copy_object-Apart (org o) h l =
      let c = copy_org-IsDeepCopy L M o h l in
      (
        org (copy_org L o h).0,
        refl,
        record {
          reads = λ h₂ same. ap org_value (Copied-reads (org_kind L M) o _ h _ h₂ c same);
          keeps = λ h₂ same. ap org_value (Copied-keeps (org_kind L M) o _ h _ h₂ l c same);
          fresh = c.fresh;
        },
      )
  deep_copy_object-Apart (org_list x) h l =
      let c = copy_org_list-IsDeepCopy L M x h l in
      (
        org_list (copy_org_list L x h).0,
        refl,
        record {
          reads = λ h₂ same. ap org_list_value (Copied-reads (org_list_kind L M) x _ h _ h₂ c same);
          keeps =
              λ h₂ same. ap org_list_value (Copied-keeps (org_list_kind L M) x _ h _ h₂ l c same);
          fresh = c.fresh;
        },
      )
  deep_copy_object-Apart (global_user g) h l =
      let c = copy_global_user-IsDeepCopy L M g h l in
      (
        global_user (copy_global_user L g h).0,
        refl,
        record {
          reads = λ h₂ same.
              ap global_user_value (Copied-reads (global_user_kind L M) g _ h _ h₂ c same);
          keeps = λ h₂ same.
              ap global_user_value (Copied-keeps (global_user_kind L M) g _ h _ h₂ l c same);
          fresh = c.fresh;
        },
      )
  deep_copy_object-Apart (global_user_list x) h l =
      let c = copy_global_user_list-IsDeepCopy L M x h l in
      (
        global_user_list (copy_global_user_list L x h).0,
        refl,
        record {
          reads = λ h₂ same.
              ap global_user_list_value
                (Copied-reads (global_user_list_kind L M) x _ h _ h₂ c same);
          keeps = λ h₂ same.
              ap global_user_list_value
                (Copied-keeps (global_user_list_kind L M) x _ h _ h₂ l c same);
          fresh = c.fresh;
        },
      )

  -- `DeepCopyObject` of an object gives an object, and whatever is written later to
  -- arrays that were there before the call, the copy reads as the object did at the call.
  pub deep_copy_object-reads :
      (object : Pointed L M) (h h₂ : Memory L)
      → Reaches (Below h.next) h object
      → Same (λ a. h.next ≤ a) (deep_copy_object L object h).1 h₂
      → (copy : Pointed L M) × ((deep_copy_object L object h).0 ≡ some copy)
        × (value_at h₂ copy ≡ value_at h object)
  deep_copy_object-reads object h h₂ l same =
      let (copy, e, apart) = deep_copy_object-Apart object h l in (copy, e, apart.reads h₂ same)

  -- The object that `DeepCopyObject` gives reaches no array but those that the call has allocated;
  -- and whatever is written later to these, or to arrays that are newer still, the original reads as
  -- it did at the call.
  pub deep_copy_object-keeps :
      (object : Pointed L M) (h h₂ : Memory L)
      → Reaches (Below h.next) h object
      → Same (Below h.next) (deep_copy_object L object h).1 h₂
      → let h' = (deep_copy_object L object h).1 in
        (copy : Pointed L M) × ((deep_copy_object L object h).0 ≡ some copy)
        × Reaches (Between h.next h'.next) h' copy
        × (value_at h₂ object ≡ value_at h object)
  deep_copy_object-keeps object h h₂ l same =
      let (copy, e, apart) = deep_copy_object-Apart object h l in
      (copy, e, apart.fresh, apart.keeps h₂ same)
