-- ===== src/Reconcilers/Calls.antt =====
-- Runs of the reconcilers as sequences of the calls that they make. A `Rights` says what may be
-- created; the sequences with given rights are closed under everything that a run is made of.
pub mod Effects
pub mod Granting
use auth_explore.Base.{String, ◌≡◌, refl, List}
use auth_explore.Base.Exec.{Result, ok, err, Exec, continue, ◌>>=◌}
use auth_explore.Kube.{Namespace, RoleBinding, Request, Client}

module _ (C : Client) where
  open C use {World, Conn}

  -- The objects that may be created through a client.
  pub record Rights : Type 1 where
    pub bind : Conn → RoleBinding → Type 0
    pub create : Conn → Namespace → Type 0

  -- One call of a client.
  pub data Call (R : Rights) (w : World) : World → Type 0 where
    get_org : (c : Conn) (q : Request) → Call R w (C.get_org c q w).1
    get_global_user : (c : Conn) (q : Request) → Call R w (C.get_global_user c q w).1
    list_global_users : (c : Conn) → Call R w (C.list_global_users c w).1
    list_namespaces : (c : Conn) (key : String) → Call R w (C.list_namespaces c key w).1
    list_role_bindings :
        (c : Conn) (key value field x : String)
        → Call R w (C.list_role_bindings c key value field x w).1
    create_role_binding :
        (c : Conn) (rb : RoleBinding) → R.bind c rb → Call R w (C.create_role_binding c rb w).1
    create_namespace :
        (c : Conn) (ns : Namespace) → R.create c ns → Call R w (C.create_namespace c ns w).1
    delete_role_binding : (c : Conn) (rb : RoleBinding) → Call R w (C.delete_role_binding c rb w).1
    delete_namespaces :
        (c : Conn) (key value : String) → Call R w (C.delete_namespaces c key value w).1

  pub data Calls (R : Rights) (w : World) : World → Type 0 where
    done : Calls R w w
    next : {u v : World} → Calls R w u → Call R u v → Calls R w v

  module _ {R : Rights} where
    pub Calls-trans : {u v w : World} → Calls R u v → Calls R v w → Calls R u w
    Calls-trans s done = s
    Calls-trans s (next t c) = next (Calls-trans s t) c

    pub one : {u v : World} → Call R u v → Calls R u v
    one c = next done c

    Calls-continue :
        {E A B : Type 0} (r : Result E A) (f : A → Exec World E B) {u v : World}
        → Calls R u v
        → ((a : A) → r ≡ ok a → Calls R v (f a v).1)
        → Calls R u (continue r f v).1
    Calls-continue (ok a) f s rest = Calls-trans s (rest a refl)
    Calls-continue (err e) f s rest = s

    -- A sequence makes the calls of its first part, and those of its second if the first has no error.
    pub Calls-bind :
        {E A B : Type 0} (m : Exec World E A) (f : A → Exec World E B) (w : World)
        → Calls R w (m w).1
        → ((a : A) → (m w).0 ≡ ok a → Calls R (m w).1 (f a (m w).1).1)
        → Calls R w ((m >>= f) w).1
    Calls-bind m f w s rest = Calls-continue (m w).0 f s rest
