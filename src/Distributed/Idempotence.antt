-- ===== src/Distributed/Idempotence.antt =====
-- `submitJob` of src/distributed/coordinator.ts under one idempotency key.
use folder_forge.Base.{◌≡◌, Bool, some, find}
use folder_forge.Json.{Platform}
use folder_forge.Distributed.Store.{JobRecord, CoordinatorStore}
use folder_forge.Distributed.Guards.{Host, Limits}
use folder_forge.Distributed.Submission.{Submission, has_key}

module _ (p : Platform) (h : Host) (l : Limits) where
  -- The store holds the returned job under the key, with the payload that was submitted.
  unfoldable pub IsSubmitted : Submission → (JobRecord × Bool) × CoordinatorStore → Type 0
  IsSubmitted x result =
      (find (has_key p h l x.idempotency_key) result.1.jobs ≡ some result.0.0)
      × (result.0.0.payload_digest ≡ x.payload_digest)
