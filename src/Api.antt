-- ===== src/Api.antt =====
-- cross-cluster-orgs/org-controller/pkg/apis/org/v1 (org.go and globaluser.go): the two custom
-- resources. Of the metadata the program reads the name only.
use auth_explore.Base.{String, List}

pub record User : Type 0 where
  pub name : String
  pub roles : List String

pub record Space : Type 0 where
  pub name : String
  pub cluster_name : String
  pub users : List User

pub record OrgSpec : Type 0 where
  pub users : List User
  pub spaces : List Space

pub record Org : Type 0 where
  pub name : String
  pub spec : OrgSpec

pub record GlobalUserSpec : Type 0 where
  pub roles : List String

pub record GlobalUser : Type 0 where
  pub name : String
  pub spec : GlobalUserSpec
