-- ===== src/DeepCopy/Specs.antt =====
-- The deep copies of users, spaces and the two specifications are deep.
use auth_explore.Base.{String, refl}
use auth_explore.DeepCopy.Arrays.{Slice, copy_value, copy_slice}
use auth_explore.DeepCopy.Kinds.{Kind, IsDeepCopy, value_kind, slice_kind, pair_kind, struct_kind}
use auth_explore.DeepCopy.Copies.{
  value-IsDeepCopy, both-Copied, struct-Copied, copy_slice-IsDeepCopy,
}
use auth_explore.DeepCopy.{
  User, Space, OrgSpec, GlobalUserSpec, Cell, strings, users, spaces, strings_of, users_of,
  spaces_of, Metadata, copy_user, copy_space, copy_org_spec, copy_global_user_spec,
}

module _ (L : Metadata) where
  open L use {Extra, ObjectMeta, ListMeta}

  abbrev pub Arrays : Type 0
  Arrays = Cell Extra ObjectMeta

  abbrev pub roles_kind : Kind Arrays Slice
  roles_kind = slice_kind value_kind strings_of

  abbrev pub user_kind : Kind Arrays User
  user_kind = struct_kind roles_kind (λ u. u.roles) (λ u. u.name)

  abbrev pub users_kind : Kind Arrays Slice
  users_kind = slice_kind user_kind users_of

  abbrev pub space_kind : Kind Arrays Space
  space_kind =
      struct_kind {R = String × String} users_kind (λ s. s.users) (λ s. (s.name, s.cluster_name))

  abbrev pub spaces_kind : Kind Arrays Slice
  spaces_kind = slice_kind space_kind spaces_of

  abbrev pub org_spec_kind : Kind Arrays OrgSpec
  org_spec_kind =
      struct_kind (pair_kind users_kind spaces_kind) (λ s. (s.users, s.spaces)) (λ s. tt {0})

  abbrev pub global_user_spec_kind : Kind Arrays GlobalUserSpec
  global_user_spec_kind = struct_kind roles_kind (λ s. s.roles) (λ s. tt {0})

  copy_user-IsDeepCopy : IsDeepCopy user_kind (copy_user L)
  unfolding copy_user
  copy_user-IsDeepCopy u h l =
      let q = copy_slice strings_of strings copy_value u.roles h in
      struct-Copied roles_kind (λ (x : User). x.roles) (λ (x : User). x.name) u
        (record u { roles = q.0 }) h q.1 refl
        (copy_slice-IsDeepCopy value_kind strings_of strings copy_value (λ ts. refl)
          value-IsDeepCopy u.roles h l)

  users-IsDeepCopy : IsDeepCopy users_kind (copy_slice users_of users (copy_user L))
  users-IsDeepCopy =
      copy_slice-IsDeepCopy user_kind users_of users (copy_user L) (λ ts. refl) copy_user-IsDeepCopy

  copy_space-IsDeepCopy : IsDeepCopy space_kind (copy_space L)
  unfolding copy_space
  copy_space-IsDeepCopy s h l =
      let q = copy_slice users_of users (copy_user L) s.users h in
      struct-Copied {R = String × String} users_kind (λ (x : Space). x.users)
        (λ (x : Space). (x.name, x.cluster_name)) s (record s { users = q.0 }) h q.1 refl
        (users-IsDeepCopy s.users h l)

  pub copy_org_spec-IsDeepCopy : IsDeepCopy org_spec_kind (copy_org_spec L)
  unfolding copy_org_spec
  copy_org_spec-IsDeepCopy s h l =
      let q = copy_slice users_of users (copy_user L) s.users h in
      let q' = copy_slice spaces_of spaces (copy_space L) s.spaces q.1 in
      struct-Copied (pair_kind users_kind spaces_kind) (λ (x : OrgSpec). (x.users, x.spaces))
        (λ (x : OrgSpec). tt {0}) s (record s { users = q.0; spaces = q'.0 }) h q'.1 refl
        (both-Copied users_kind spaces_kind s.users q.0 s.spaces q'.0 h q.1 q'.1 l.1
          (users-IsDeepCopy s.users h l.0)
          (copy_slice-IsDeepCopy space_kind spaces_of spaces (copy_space L) (λ ts. refl)
            copy_space-IsDeepCopy s.spaces q.1))

  pub copy_global_user_spec-IsDeepCopy : IsDeepCopy global_user_spec_kind (copy_global_user_spec L)
  unfolding copy_global_user_spec
  copy_global_user_spec-IsDeepCopy s h l =
      let q = copy_slice strings_of strings copy_value s.roles h in
      struct-Copied roles_kind (λ (x : GlobalUserSpec). x.roles) (λ (x : GlobalUserSpec). tt {0}) s
        (record s { roles = q.0 }) h q.1 refl
        (copy_slice-IsDeepCopy value_kind strings_of strings copy_value (λ ts. refl)
          value-IsDeepCopy s.roles h l)
