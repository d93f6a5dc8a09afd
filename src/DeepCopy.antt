-- ===== src/DeepCopy.antt =====
-- pkg/apis/org/v1/zz_generated.deepcopy.go of the org controller: the deep copies of the resources, on
-- a heap in which slices may share their arrays. The metadata and their copies belong to the client
-- library and are a parameter.
pub mod Arrays
pub mod Kinds
pub mod Copies
pub mod Specs
pub mod Objects
pub mod Separate
use auth_explore.Base.{ℕ, String, Option, none, some, List, []}
use auth_explore.DeepCopy.Arrays.{Heap, Slice, copy_value, copy_slice, deep_copy}

pub record User : Type 0 where
  pub name : String
  pub roles : Slice

pub record Space : Type 0 where
  pub name : String
  pub cluster_name : String
  pub users : Slice

pub record OrgSpec : Type 0 where
  pub users : Slice
  pub spaces : Slice

pub record GlobalUserSpec : Type 0 where
  pub roles : Slice

-- `TypeMeta` holds two strings and is copied by value.
pub record TypeMeta : Type 0 where
  pub kind : String
  pub api_version : String

-- `Meta` is `ObjectMeta`, whose fields hold pointers of their own.
module _ (Meta : Type 0) where
  pub record Org : Type 0 where
    pub type_meta : TypeMeta
    pub metadata : Meta
    pub spec : OrgSpec

  pub record GlobalUser : Type 0 where
    pub type_meta : TypeMeta
    pub metadata : Meta
    pub spec : GlobalUserSpec

  -- `Meta` is `ListMeta`.
  pub record OrgList : Type 0 where
    pub type_meta : TypeMeta
    pub metadata : Meta
    pub items : Slice

  pub record GlobalUserList : Type 0 where
    pub type_meta : TypeMeta
    pub metadata : Meta
    pub items : Slice

-- The arrays behind the slices. `Extra` is what the metadata point to.
pub data Cell (Extra Meta : Type 0) : Type 0 where
  strings : List String → Cell Extra Meta
  users : List User → Cell Extra Meta
  spaces : List Space → Cell Extra Meta
  orgs : List (Org Meta) → Cell Extra Meta
  global_users : List (GlobalUser Meta) → Cell Extra Meta
  extra : Extra → Cell Extra Meta

module _ {Extra Meta : Type 0} where
  abbrev pub strings_of : Cell Extra Meta → List String
  strings_of (strings l) = l
  strings_of _ = []

  abbrev pub users_of : Cell Extra Meta → List User
  users_of (users l) = l
  users_of _ = []

  abbrev pub spaces_of : Cell Extra Meta → List Space
  spaces_of (spaces l) = l
  spaces_of _ = []

  abbrev pub orgs_of : Cell Extra Meta → List (Org Meta)
  orgs_of (orgs l) = l
  orgs_of _ = []

  abbrev pub global_users_of : Cell Extra Meta → List (GlobalUser Meta)
  global_users_of (global_users l) = l
  global_users_of _ = []

-- The deep copies of the metadata.
pub record Metadata : Type 1 where
  pub Extra : Type 0
  pub ObjectMeta : Type 0
  pub ListMeta : Type 0
  pub copy_object_meta :
      ObjectMeta → Heap (Cell Extra ObjectMeta) → ObjectMeta × Heap (Cell Extra ObjectMeta)
  pub copy_list_meta :
      ListMeta → Heap (Cell Extra ObjectMeta) → ListMeta × Heap (Cell Extra ObjectMeta)

-- A runtime object behind a pointer that is not nil.
pub data Object (Meta ListMeta : Type 0) : Type 0 where
  org : Org Meta → Object Meta ListMeta
  org_list : OrgList ListMeta → Object Meta ListMeta
  global_user : GlobalUser Meta → Object Meta ListMeta
  global_user_list : GlobalUserList ListMeta → Object Meta ListMeta

-- `if c := in.DeepCopy(); c != nil { return c }; return nil`
abbrev as_object : {T O H : Type 0} → (T → O) → Option T × H → Option O × H
as_object wrap (none, h) = (none, h)
as_object wrap (some t, h) = (some (wrap t), h)

module _ (L : Metadata) where
  open L use {Extra, ObjectMeta, ListMeta}

  abbrev pub Memory : Type 0
  Memory = Heap (Cell Extra ObjectMeta)

  -- The methods `DeepCopyInto`. What they write to `out` is what is returned here.
  unfoldable pub copy_user : User → Memory → User × Memory
  unfolding copy_slice
  copy_user user h =
      let (roles, h') = copy_slice strings_of strings copy_value user.roles h in
      (record user { roles = roles }, h')

  unfoldable pub copy_space : Space → Memory → Space × Memory
  unfolding copy_slice copy_user
  copy_space space h =
      let (us, h') = copy_slice users_of users copy_user space.users h in
      (record space { users = us }, h')

  unfoldable pub copy_org_spec : OrgSpec → Memory → OrgSpec × Memory
  unfolding copy_slice copy_user copy_space
  copy_org_spec spec h =
      let (us, h') = copy_slice users_of users copy_user spec.users h in
      let (ss, h'') = copy_slice spaces_of spaces copy_space spec.spaces h' in
      (record spec { users = us; spaces = ss }, h'')

  unfoldable pub copy_global_user_spec : GlobalUserSpec → Memory → GlobalUserSpec × Memory
  unfolding copy_slice
  copy_global_user_spec spec h =
      let (roles, h') = copy_slice strings_of strings copy_value spec.roles h in
      (record spec { roles = roles }, h')

  unfoldable pub copy_org : Org ObjectMeta → Memory → Org ObjectMeta × Memory
  unfolding copy_org_spec
  copy_org o h =
      let (metadata, h') = L.copy_object_meta o.metadata h in
      let (spec, h'') = copy_org_spec o.spec h' in
      (record o { metadata = metadata; spec = spec }, h'')

  unfoldable pub copy_global_user : GlobalUser ObjectMeta → Memory → GlobalUser ObjectMeta × Memory
  unfolding copy_global_user_spec
  copy_global_user g h =
      let (metadata, h') = L.copy_object_meta g.metadata h in
      let (spec, h'') = copy_global_user_spec g.spec h' in
      (record g { metadata = metadata; spec = spec }, h'')

  unfoldable pub copy_org_list : OrgList ListMeta → Memory → OrgList ListMeta × Memory
  unfolding copy_slice copy_org
  copy_org_list l h =
      let (metadata, h') = L.copy_list_meta l.metadata h in
      let (items, h'') = copy_slice orgs_of orgs copy_org l.items h' in
      (record l { metadata = metadata; items = items }, h'')

  unfoldable pub copy_global_user_list :
      GlobalUserList ListMeta → Memory → GlobalUserList ListMeta × Memory
  unfolding copy_slice copy_global_user
  copy_global_user_list l h =
      let (metadata, h') = L.copy_list_meta l.metadata h in
      let (items, h'') = copy_slice global_users_of global_users copy_global_user l.items h' in
      (record l { metadata = metadata; items = items }, h'')

  -- The methods `DeepCopy`.
  unfoldable pub deep_copy_user : Option User → Memory → Option User × Memory
  unfolding copy_user
  deep_copy_user = deep_copy copy_user

  unfoldable pub deep_copy_space : Option Space → Memory → Option Space × Memory
  unfolding copy_space
  deep_copy_space = deep_copy copy_space

  unfoldable pub deep_copy_org_spec : Option OrgSpec → Memory → Option OrgSpec × Memory
  unfolding copy_org_spec
  deep_copy_org_spec = deep_copy copy_org_spec

  unfoldable pub deep_copy_global_user_spec :
      Option GlobalUserSpec → Memory → Option GlobalUserSpec × Memory
  unfolding copy_global_user_spec
  deep_copy_global_user_spec = deep_copy copy_global_user_spec

  unfoldable pub deep_copy_org : Option (Org ObjectMeta) → Memory → Option (Org ObjectMeta) × Memory
  unfolding copy_org
  deep_copy_org = deep_copy copy_org

  unfoldable pub deep_copy_org_list :
      Option (OrgList ListMeta) → Memory → Option (OrgList ListMeta) × Memory
  unfolding copy_org_list
  deep_copy_org_list = deep_copy copy_org_list

  unfoldable pub deep_copy_global_user :
      Option (GlobalUser ObjectMeta) → Memory → Option (GlobalUser ObjectMeta) × Memory
  unfolding copy_global_user
  deep_copy_global_user = deep_copy copy_global_user

  unfoldable pub deep_copy_global_user_list :
      Option (GlobalUserList ListMeta) → Memory → Option (GlobalUserList ListMeta) × Memory
  unfolding copy_global_user_list
  deep_copy_global_user_list = deep_copy copy_global_user_list

  abbrev Pointed : Type 0
  Pointed = Object ObjectMeta ListMeta

  -- The methods `DeepCopyObject`. A nil pointer gives nil.
  unfoldable pub deep_copy_org_object : Option (Org ObjectMeta) → Memory → Option Pointed × Memory
  unfolding deep_copy_org
  deep_copy_org_object o h = as_object org (deep_copy_org o h)

  unfoldable pub deep_copy_org_list_object :
      Option (OrgList ListMeta) → Memory → Option Pointed × Memory
  unfolding deep_copy_org_list
  deep_copy_org_list_object l h = as_object org_list (deep_copy_org_list l h)

  unfoldable pub deep_copy_global_user_object :
      Option (GlobalUser ObjectMeta) → Memory → Option Pointed × Memory
  unfolding deep_copy_global_user
  deep_copy_global_user_object g h = as_object global_user (deep_copy_global_user g h)

  unfoldable pub deep_copy_global_user_list_object :
      Option (GlobalUserList ListMeta) → Memory → Option Pointed × Memory
  unfolding deep_copy_global_user_list
  deep_copy_global_user_list_object l h =
      as_object global_user_list (deep_copy_global_user_list l h)

  -- The call of `DeepCopyObject` through the interface.
  unfoldable pub deep_copy_object : Pointed → Memory → Option Pointed × Memory
  unfolding deep_copy_org_object deep_copy_org_list_object deep_copy_global_user_object
      deep_copy_global_user_list_object
  deep_copy_object (org o) h = deep_copy_org_object (some o) h
  deep_copy_object (org_list l) h = deep_copy_org_list_object (some l) h
  deep_copy_object (global_user g) h = deep_copy_global_user_object (some g) h
  deep_copy_object (global_user_list l) h = deep_copy_global_user_list_object (some l) h
