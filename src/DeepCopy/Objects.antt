-- ===== src/DeepCopy/Objects.antt =====
-- The deep copies of the resources and of their lists are deep.
use auth_explore.Base.{refl}
use auth_explore.DeepCopy.Arrays.{Slice, copy_slice}
use auth_explore.DeepCopy.Kinds.{Kind, IsDeepCopy, slice_kind, pair_kind, struct_kind}
use auth_explore.DeepCopy.Copies.{both-Copied, struct-Copied, copy_slice-IsDeepCopy}
use auth_explore.DeepCopy.{
  Org, GlobalUser, OrgList, GlobalUserList, Cell, orgs, global_users, orgs_of, global_users_of,
  Metadata, Object, copy_org_spec, copy_global_user_spec, copy_org, copy_global_user, copy_org_list,
  copy_global_user_list,
}
use auth_explore.DeepCopy.Specs.{
  Arrays, org_spec_kind, global_user_spec_kind, copy_org_spec-IsDeepCopy,
  copy_global_user_spec-IsDeepCopy,
}

-- What is relied on of the library's metadata: that their deep copies are deep.
pub record IsMetadata (L : Metadata) : Type 1 where
  pub object_meta : Kind (Cell L.Extra L.ObjectMeta) L.ObjectMeta
  pub list_meta : Kind (Cell L.Extra L.ObjectMeta) L.ListMeta
  pub copy_object_meta_deep : IsDeepCopy object_meta L.copy_object_meta
  pub copy_list_meta_deep : IsDeepCopy list_meta L.copy_list_meta

module _ (L : Metadata) (M : IsMetadata L) where
  open L use {Extra, ObjectMeta, ListMeta}

  abbrev pub org_kind : Kind (Arrays L) (Org ObjectMeta)
  org_kind =
      struct_kind (pair_kind M.object_meta (org_spec_kind L)) (λ o. (o.metadata, o.spec))
        (λ o. o.type_meta)

  abbrev pub orgs_kind : Kind (Arrays L) Slice
  orgs_kind = slice_kind org_kind orgs_of

  abbrev pub org_list_kind : Kind (Arrays L) (OrgList ListMeta)
  org_list_kind =
      struct_kind (pair_kind M.list_meta orgs_kind) (λ l. (l.metadata, l.items)) (λ l. l.type_meta)

  abbrev pub global_user_kind : Kind (Arrays L) (GlobalUser ObjectMeta)
  global_user_kind =
      struct_kind (pair_kind M.object_meta (global_user_spec_kind L)) (λ g. (g.metadata, g.spec))
        (λ g. g.type_meta)

  abbrev pub global_users_kind : Kind (Arrays L) Slice
  global_users_kind = slice_kind global_user_kind global_users_of

  abbrev pub global_user_list_kind : Kind (Arrays L) (GlobalUserList ListMeta)
  global_user_list_kind =
      struct_kind (pair_kind M.list_meta global_users_kind) (λ l. (l.metadata, l.items))
        (λ l. l.type_meta)

  pub copy_org-IsDeepCopy : IsDeepCopy org_kind (copy_org L)
  unfolding copy_org
  copy_org-IsDeepCopy o h l =
      let q = L.copy_object_meta o.metadata h in
      let q' = copy_org_spec L o.spec q.1 in
      struct-Copied (pair_kind M.object_meta (org_spec_kind L))
        (λ (x : Org ObjectMeta). (x.metadata, x.spec)) (λ (x : Org ObjectMeta). x.type_meta) o
        (record o { metadata = q.0; spec = q'.0 }) h q'.1 refl
        (both-Copied M.object_meta (org_spec_kind L) o.metadata q.0 o.spec q'.0 h q.1 q'.1 l.1
          (M.copy_object_meta_deep o.metadata h l.0) (copy_org_spec-IsDeepCopy L o.spec q.1))

  pub copy_global_user-IsDeepCopy : IsDeepCopy global_user_kind (copy_global_user L)
  unfolding copy_global_user
  copy_global_user-IsDeepCopy g h l =
      let q = L.copy_object_meta g.metadata h in
      let q' = copy_global_user_spec L g.spec q.1 in
      struct-Copied (pair_kind M.object_meta (global_user_spec_kind L))
        (λ (x : GlobalUser ObjectMeta). (x.metadata, x.spec))
        (λ (x : GlobalUser ObjectMeta). x.type_meta) g (record g { metadata = q.0; spec = q'.0 }) h
        q'.1 refl
        (both-Copied M.object_meta (global_user_spec_kind L) g.metadata q.0 g.spec q'.0 h q.1 q'.1
          l.1 (M.copy_object_meta_deep g.metadata h l.0)
          (copy_global_user_spec-IsDeepCopy L g.spec q.1))

  pub copy_org_list-IsDeepCopy : IsDeepCopy org_list_kind (copy_org_list L)
  unfolding copy_org_list
  copy_org_list-IsDeepCopy x h l =
      let q = L.copy_list_meta x.metadata h in
      let q' = copy_slice orgs_of orgs (copy_org L) x.items q.1 in
      struct-Copied (pair_kind M.list_meta orgs_kind)
        (λ (y : OrgList ListMeta). (y.metadata, y.items)) (λ (y : OrgList ListMeta). y.type_meta) x
        (record x { metadata = q.0; items = q'.0 }) h q'.1 refl
        (both-Copied M.list_meta orgs_kind x.metadata q.0 x.items q'.0 h q.1 q'.1 l.1
          (M.copy_list_meta_deep x.metadata h l.0)
          (copy_slice-IsDeepCopy org_kind orgs_of orgs (copy_org L) (λ ts. refl) copy_org-IsDeepCopy
            x.items q.1))

  pub copy_global_user_list-IsDeepCopy : IsDeepCopy global_user_list_kind (copy_global_user_list L)
  unfolding copy_global_user_list
  copy_global_user_list-IsDeepCopy x h l =
      let q = L.copy_list_meta x.metadata h in
      let q' = copy_slice global_users_of global_users (copy_global_user L) x.items q.1 in
      struct-Copied (pair_kind M.list_meta global_users_kind)
        (λ (y : GlobalUserList ListMeta). (y.metadata, y.items))
        (λ (y : GlobalUserList ListMeta). y.type_meta) x (record x { metadata = q.0; items = q'.0 })
        h q'.1 refl
        (both-Copied M.list_meta global_users_kind x.metadata q.0 x.items q'.0 h q.1 q'.1 l.1
          (M.copy_list_meta_deep x.metadata h l.0)
          (copy_slice-IsDeepCopy global_user_kind global_users_of global_users (copy_global_user L)
            (λ ts. refl) copy_global_user-IsDeepCopy x.items q.1))

  abbrev pub Pointed : Type 0
  Pointed = Object ObjectMeta ListMeta
