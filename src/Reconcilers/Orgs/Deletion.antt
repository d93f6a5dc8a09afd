-- ===== src/Reconcilers/Orgs/Deletion.antt =====
-- The deletion of an org, in reconcilers/org.go: `Reconcile` on an org that is not found, over the API
-- as it is, which cannot delete namespaces as a collection.
