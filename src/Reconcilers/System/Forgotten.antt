-- ===== src/Reconcilers/System/Forgotten.antt =====
-- The two reconcilers together: what is left of a global user that is gone.
use auth_explore.Base.{
  String, ◌≡◌, sym, ap, ◌∙◌, ◌≢◌, ◌⊎◌, inl, inr, Bool, false, Option, none, some, In, Bool-cases,
}
use auth_explore.Base.Exec.{ok, err}
use auth_explore.Kube.{RoleBinding, Client, Request, not_found}
use auth_explore.Kube.Server.{IsServer, Distinct}
use auth_explore.Kube.Tight.{IsTight}
use auth_explore.Controller.{subject_index}
use auth_explore.Controller.Index.{matches-role_binding}
use auth_explore.Reconcilers.{other_level, subject_name_index}
use auth_explore.Reconcilers.Orgs.{OrgReconciler}
use auth_explore.Reconcilers.GlobalUsers.{GlobalUserReconciler, reconcile}
use auth_explore.Reconcilers.GlobalUsers.Revocation.{without, is_global_of, reconcile-revokes}
use auth_explore.Reconcilers.System.{After}
use auth_explore.Reconcilers.System.Managed.{IsMade, IsManaged, After-IsManaged}

without-some :
    (p : RoleBinding → Bool) (o : Option RoleBinding) (rb : RoleBinding)
    → without p o ≡ some rb
    → (o ≡ some rb) × (p rb ≡ false)
without-some p none rb h = absurd (cc h)
without-some p (some x) rb h = elim (Bool-cases (p x)) [
  | inl e ↦ absurd (cc (rw e at h))
  | inr e ↦ let same : some x ≡ some rb = rw e at h in (same, cc (same, e))
]

module _ (C : Client) (S : IsServer C subject_name_index subject_index)
    (T : IsTight C subject_name_index subject_index S) where
  open C use {World, Conn}
  open S use {view}

  -- A cluster was managed in the beginning, and the reconcilers have taken any turns since. If then
  -- `Reconcile` does not find a global user and returns no error, every role binding that is left in a
  -- configured cluster was there before that `Reconcile`, and is at the other level or binds another
  -- user.
  pub reconcile-forgets :
      (o : OrgReconciler C) (u : GlobalUserReconciler C) (q : Request) (name : String) (c : Conn)
      (w v : World) (n j : String) (rb : RoleBinding)
      → Distinct u.cluster_clients
      → In (name, c) u.cluster_clients
      → IsManaged (view w c)
      → After C subject_name_index subject_index S o u w v
      → (C.get_global_user u.client q v).0 ≡ err not_found
      → (reconcile C u q v).0 ≡ ok tt
      → (view (reconcile C u q v).1 c).bindings n j ≡ some rb
      → ((view v c).bindings n j ≡ some rb)
        × ((m : IsMade rb) × ((m.level ≡ other_level) ⊎ (m.user ≢ q.name)))
  reconcile-forgets o u q name c w v n j rb distinct member managed after missing fine left =
      let gone =
        reconcile-revokes C subject_index S u q name c v n j distinct member missing fine in
      let (before, not_selected) =
        without-some (is_global_of subject_index q.name) ((view v c).bindings n j) rb
          (sym gone ∙ left) in
      let k = After-IsManaged C subject_name_index subject_index S T o u c managed after in
      let m = k.made n j rb before in
      (
        before,
        (
          m,
          elim m.its_level [
            | inr other ↦ inl other
            | inl global ↦ inr (λ same.
                let selected =
                  (matches-role_binding q.name m.user m.role m.level rb.namespace).1
                    (same, global) in
                cc (not_selected, ap (is_global_of subject_index q.name) m.shape ∙ selected))
          ],
        ),
      )
