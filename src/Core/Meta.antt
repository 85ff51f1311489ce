-- ===== src/Core/Meta.antt =====
-- The descriptions of a chunk: `ChunkMeta` of crates/ghost-core/src/types.rs and `ChunkHotness` of
-- crates/ghost-core/src/hotness.rs. A checksum is the number that its 32 bytes spell.
use ghost_pages.Common.{ℕ, ◌+◌, ◌%◌, ◌^◌}
use ghost_pages.Core.Types.{ChunkId, TierId}
use ghost_pages.Core.State.{ChunkState, allocated}

pub data CompressionAlgorithm : Type 0 where
  uncompressed zstd : CompressionAlgorithm

pub record ChunkMeta : Type 0 where
  pub id : ChunkId
  pub size : ℕ
  pub compressed_size : ℕ
  pub tier : TierId
  pub state : ChunkState
  pub created_at : ℕ
  pub last_accessed : ℕ
  pub access_count : ℕ
  pub compression : CompressionAlgorithm
  pub checksum : ℕ

unfoldable pub new_meta :
    (now : ℕ) → ChunkId → (size compressed_size : ℕ) → TierId → CompressionAlgorithm → ℕ → ChunkMeta
new_meta now id size compressed_size tier compression checksum = record {
  id = id;
  size = size;
  compressed_size = compressed_size;
  tier = tier;
  state = allocated;
  created_at = now;
  last_accessed = now;
  access_count = 0;
  compression = compression;
  checksum = checksum;
}

unfoldable pub record_access : ℕ → ChunkMeta → ChunkMeta
record_access now m = record m { access_count = (m.access_count + 1) % 2 ^ 64; last_accessed = now }

pub record ChunkHotness (F32 : Type 0) : Type 0 where
  pub chunk_id : ChunkId
  pub access_count : ℕ
  pub last_accessed : ℕ
  pub first_accessed : ℕ
  pub score : F32
  pub frequency_score : F32
  pub recency_score : F32
  pub regularity_score : F32
  pub total_bytes : ℕ
