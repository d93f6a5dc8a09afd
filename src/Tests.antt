-- ===== src/Tests.antt =====
-- The theorems at concrete inputs, over the server in memory, and runs of the code.
mod Sample
mod Bindings
mod Orgs
mod GlobalUsers
mod Login
mod Caching
mod Indexing
mod Controller
mod System
mod DeepCopy
mod Complete
mod Manager
mod SharedCache
mod Unindexed
mod Serving
mod Completion
mod Succeeding
mod Scheme
