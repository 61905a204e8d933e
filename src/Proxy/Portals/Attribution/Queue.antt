-- ===== src/Proxy/Portals/Attribution/Queue.antt =====
-- The queue of crates/proxy/src/portal.rs: what holds of all its entries holds of those that a call
-- leaves in it.
use dbsec.Prelude.{ℕ, List, [], ◌∷◌, ◌==◌, All, Bool-cases, inl, inr}
use dbsec.Proxy.Portals.{Pending, describing, executing, batch}
use dbsec.Proxy.Portals.Answers.{drop_batches, drop_markers, behind_batch, behind_execute}

module _ {P : Type 0} (Q : Pending P → Type 0) where
  drop_batches-All : (q : List (Pending P)) → All Q q → All Q (drop_batches q)
  unfolding drop_batches
  drop_batches-All [] h = tt
  drop_batches-All (batch ∷ q) h = drop_batches-All q h.1
  drop_batches-All (executing e ∷ q) h = h
  drop_batches-All (describing r ∷ q) h = h

  pub drop_markers-All : (id : ℕ) (q : List (Pending P)) → All Q q → All Q (drop_markers id q)
  unfolding drop_markers
  drop_markers-All id [] h = tt
  drop_markers-All id (batch ∷ q) h = (h.0, drop_markers-All id q h.1)
  drop_markers-All id (describing r ∷ q) h = (h.0, drop_markers-All id q h.1)
  drop_markers-All id (executing e ∷ q) h = elim (Bool-cases (e.id == id)) [
    | inl same ↦ rw (drop_markers, same) (h.0, drop_batches-All q h.1)
    | inr other ↦ rw (drop_markers, other) (h.0, drop_markers-All id q h.1)
  ]

  pub behind_batch-All : (q : List (Pending P)) → All Q q → All Q (behind_batch q)
  unfolding behind_batch
  behind_batch-All [] h = tt
  behind_batch-All (batch ∷ q) h = h.1
  behind_batch-All (describing r ∷ q) h = behind_batch-All q h.1
  behind_batch-All (executing e ∷ q) h = behind_batch-All q h.1

  pub behind_execute-All : (q : List (Pending P)) → All Q q → All Q (behind_execute q)
  unfolding behind_execute
  behind_execute-All [] h = tt
  behind_execute-All (batch ∷ q) h = h
  behind_execute-All (describing r ∷ q) h = h
  behind_execute-All (executing e ∷ q) h = h.1
