-- ===== src/Tests/Sample.antt =====
-- A machine with two clusters, and what the tests share.
use auth_explore.Base.{String, ◌≢◌, arith, eq_iff, [], ◌∷◌, ◌==◌, if◌then◌else◌}
use auth_explore.Api.{User, Space, Org, GlobalUser}
use auth_explore.Kube.{Namespace, Client}
use auth_explore.Kube.Server.{IsServer, IsHealthy}
use auth_explore.Kube.Memory.{Store, Machine, memory}
use auth_explore.Kube.Memory.Lawful.{memory-IsServer, memory-IsHealthy}
use auth_explore.Controller.{subject_index}
use auth_explore.Reconcilers.{org_label, subject_name_index}

abbrev pub M : Client
M = memory subject_index

abbrev pub M-IsServer : IsServer M subject_name_index subject_index
M-IsServer = memory-IsServer subject_name_index subject_index

pub M-IsHealthy : IsHealthy M subject_name_index subject_index M-IsServer
M-IsHealthy = memory-IsHealthy subject_name_index subject_index

abbrev pub empty : Store
empty = record { namespaces = []; bindings = [] }

abbrev pub alice : User
alice = record { name = "alice"; roles = "viewer" ∷ "editor" ∷ [] }

abbrev pub bob : User
bob = record { name = "bob"; roles = "viewer" ∷ [] }

abbrev pub root : GlobalUser
root = record { name = "root"; spec = record { roles = "admin" ∷ [] } }

abbrev pub dev : Space
dev = record { name = "dev"; cluster_name = "one"; users = bob ∷ [] }

abbrev pub prod : Space
prod = record { name = "prod"; cluster_name = "two"; users = [] }

abbrev pub lost : Space
lost = record { name = "lost"; cluster_name = "nine"; users = [] }

abbrev pub acme : Org
acme = record { name = "acme"; spec = record { users = alice ∷ []; spaces = dev ∷ prod ∷ [] } }

abbrev pub old_namespace : Namespace
old_namespace = record { name = "old-x"; labels = (org_label, "old") ∷ [] }

-- In the first cluster stands a namespace of an org that is gone.
abbrev pub start : Machine
start = record {
  orgs = acme ∷ [];
  global_users = root ∷ [];
  clusters =
      λ c. if c == "one" then record { namespaces = old_namespace ∷ []; bindings = [] } else empty;
}

pub one_ne_two : ◌≢◌ {A = String} "one" "two"
one_ne_two = ground (arith, eq_iff "one" "two")
