-- ===== src/Core/Types.antt =====
-- crates/ghost-core/src/types.rs and error.rs. A `ChunkId` is the number that its 32 bytes spell,
-- most significant byte first, so that the order on ids is the order on numbers. The texts of
-- error messages are left out.
use ghost_pages.Common.{ℕ, Bool, true, false}

abbrev pub ChunkId : Type 0
ChunkId = ℕ

pub data TierId : Type 0 where
  ram gpu_vram disk simulation : TierId

-- Lower is hotter.
unfoldable pub tier_priority : TierId → ℕ
tier_priority ram = 0
tier_priority gpu_vram = 1
tier_priority disk = 2
tier_priority simulation = 3

-- Derived equality of `TierId`.
abbrev pub tier_eqb : TierId → TierId → Bool
tier_eqb ram ram = true
tier_eqb gpu_vram gpu_vram = true
tier_eqb disk disk = true
tier_eqb simulation simulation = true
tier_eqb _ _ = false

pub data GhostError : Type 0 where
  io chunk_not_found : GhostError
  tier_full : TierId → GhostError
  tier_unavailable : TierId → GhostError
  checksum_mismatch corruption_detected compression_error backend_error ipc_error : GhostError
  out_of_memory timeout pipeline_error cancelled replay_error invalid_config : GhostError
  invalid_state_transition provider_unavailable internal : GhostError

-- `Result<T, E>`; `GhostResult<T>` fixes the error type.
pub data Result {ℓ κ} (E : Type ℓ) (A : Type κ) : Type (ℓ ⊔ κ) where
  ok : A → Result E A
  err : E → Result E A

abbrev pub GhostResult {ℓ} : Type ℓ → Type ℓ
GhostResult = Result GhostError
