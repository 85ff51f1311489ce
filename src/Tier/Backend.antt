-- ===== src/Tier/Backend.antt =====
-- crates/ghost-tier/src/backend.rs: what a storage backend hands out and how it fails. The opaque
-- data of an allocation is left out, and the texts of errors too.
use ghost_pages.Common.{ℕ, List}
use ghost_pages.Core.Types.{Result}

pub record Allocation : Type 0 where
  pub offset : ℕ
  pub size : ℕ

pub data BackendError : Type 0 where
  insufficient_space : (requested available : ℕ) → BackendError
  allocation_not_found : (offset : ℕ) → BackendError
  write_failed read_failed integrity_failed unhealthy not_supported internal : BackendError

-- The operations of the trait `StorageBackend` that move bytes, on a backend of any type.
pub record StorageBackend (B : Type 0) : Type 0 where
  pub allocate : B → ℕ → B × Result BackendError Allocation
  pub deallocate : B → Allocation → B × Result BackendError (Unit {0})
  pub write : B → Allocation → List ℕ → B × Result BackendError (Unit {0})
  pub read : B → Allocation → List ℕ → B × Result BackendError (List ℕ)
