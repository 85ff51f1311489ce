-- ===== src/Tier/Disk/State.antt =====
-- crates/ghost-tier/src/disk.rs: the state of the disk tier, and the steps that its operations share.
use Prim.Native.String.{String}
use ghost_pages.Common.{
  ℕ, ◌+◌, ◌-◌, ◌%◌, ◌^◌, Bool, true, false, ◌&&◌, [], ◌∷◌, ◌++◌, Option, none, some, ltb, ◌==◌,
  if◌then◌else◌, nat_ord,
}
use ghost_pages.Common.Bytes.{Bytes}
use ghost_pages.Common.BTreeMap.{BTreeMap, get, insert}
use ghost_pages.Core.Types.{ChunkId, disk, GhostResult, Result, ok, err}
use ghost_pages.Core.Meta.{CompressionAlgorithm, uncompressed, zstd}
use ghost_pages.Core.IoScheduler.{
  IoOperation, IoRequest, IoScheduler, issue, complete, new as new_scheduler,
}
use ghost_pages.Tier.Backend.{BackendError, internal}
use ghost_pages.Tier.Ram.{minus}
use ghost_pages.Tier.ChunkFile.{header_size}

-- The path of the file is that of the chunk id.
pub record DiskAllocation : Type 0 where
  pub chunk_id : ChunkId
  pub original_size : ℕ
  pub compressed_size : ℕ
  pub disk_size : ℕ
  pub reserved_size : ℕ
  pub compression : CompressionAlgorithm
  pub content_hash : Bytes

-- An `Allocation` with its backend data, which are none where the backend is another one.
pub record DiskHandle : Type 0 where
  pub offset : ℕ
  pub size : ℕ
  pub backend_data : Option DiskAllocation

pub record DiskBackend : Type 0 where
  pub capacity : ℕ
  pub used : ℕ
  pub allocations : BTreeMap ChunkId DiskAllocation
  pub io_scheduler : IoScheduler
  pub queue_depth : ℕ
  pub bytes_written : ℕ
  pub bytes_read : ℕ
  pub files : BTreeMap ChunkId Bytes

-- `DiskBackend::new` on a directory with these files.
unfoldable pub new : (capacity : ℕ) → BTreeMap ChunkId Bytes → DiskBackend
new capacity files = record {
  capacity = capacity;
  used = 0;
  allocations = [];
  io_scheduler = new_scheduler 64;
  queue_depth = 0;
  bytes_written = 0;
  bytes_read = 0;
  files = files;
}

unfoldable pub new_allocation :
    ChunkId → (original_size compressed_size : ℕ) → CompressionAlgorithm → Bytes → DiskAllocation
new_allocation chunk_id original_size compressed_size compression content_hash = record {
  chunk_id = chunk_id;
  original_size = original_size;
  compressed_size = compressed_size;
  disk_size = header_size + compressed_size;
  reserved_size = original_size;
  compression = compression;
  content_hash = content_hash;
}

-- `[0u8; 32]`.
abbrev pub zero_hash : Bytes
zero_hash =
    let quarter = 0 ∷ 0 ∷ 0 ∷ 0 ∷ 0 ∷ 0 ∷ 0 ∷ 0 ∷ [] in quarter ++ (quarter ++ (quarter ++ quarter))

unfoldable pub available : DiskBackend → ℕ
available b = b.capacity - b.used

abbrev pub add32 : ℕ → ℕ → ℕ
add32 a k = (a + k) % 2 ^ 32

-- Taking one from a 32-bit word.
abbrev pub pred32 : ℕ → ℕ
pred32 a = (a + 2 ^ 32 - 1) % 2 ^ 32

unfoldable pub same_operation : IoOperation → IoOperation → Bool
same_operation IoOperation.read IoOperation.read = true
same_operation IoOperation.write IoOperation.write = true
same_operation IoOperation.delete IoOperation.delete = true
same_operation IoOperation.flush_op IoOperation.flush_op = true
same_operation _ _ = false

-- The id of the first pending request for an operation on a chunk.
unfoldable pub find_request : ChunkId → IoOperation → BTreeMap ℕ IoRequest → Option ℕ
find_request chunk_id operation [] = none
find_request chunk_id operation ((id, r) ∷ rs) =
    let rest = find_request chunk_id operation rs in
    if (r.chunk_id == chunk_id) && same_operation r.operation operation then some id else rest

-- The request that is found is pending, so `complete` does not panic.
unfoldable pub finish :
    (now : ℕ) → IoScheduler → ChunkId → IoOperation → Result String (Unit {0}) → IoScheduler
finish now s chunk_id operation result = elim (find_request chunk_id operation s.pending) [
  | none ↦ s
  | some id ↦ elim (complete now s id result) [ none ↦ s | some s' ↦ s' ]
]

-- What is done once the allocation is known to be one of a disk.
abbrev pub on_data {ℓ} :
    {A : Type ℓ}
    → DiskBackend
    → Option DiskAllocation
    → (DiskAllocation → DiskBackend × Result BackendError A)
    → DiskBackend × Result BackendError A
on_data b none f = (b, err internal)
on_data b (some d) f = f d

-- The request that starts an operation, and one more in flight.
unfoldable pub begin : (now : ℕ) → DiskBackend → IoOperation → ChunkId → DiskBackend × GhostResult ℕ
begin now b operation chunk_id =
    let issued = issue now b.io_scheduler operation chunk_id disk in
    elim issued.1 [
      | err e ↦ (record b { io_scheduler = issued.0 }, err e)
      | ok id ↦ (record b { io_scheduler = issued.0; queue_depth = add32 b.queue_depth 1 }, ok id)
    ]

abbrev pub on_begun {ℓ} :
    {A : Type ℓ}
    → DiskBackend × GhostResult ℕ
    → (DiskBackend → DiskBackend × Result BackendError A)
    → DiskBackend × Result BackendError A
on_begun (b, err e) f = (b, err internal)
on_begun (b, ok id) f = f b

unfoldable pub compression_for : ℕ → CompressionAlgorithm
compression_for size = if ltb 1024 size then zstd else uncompressed

unfoldable pub update_entry :
    DiskBackend → ChunkId → ℕ → CompressionAlgorithm → Bytes → ℕ → DiskBackend
update_entry b id disk_size compression content_hash original_size = elim (get id b.allocations) [
  | none ↦ b
  | some alloc ↦ record b {
    used = (minus b.used alloc.disk_size + disk_size) % 2 ^ 64;
    allocations =
        insert id
          (record alloc {
            compressed_size = disk_size - header_size;
            disk_size = disk_size;
            compression = compression;
            content_hash = content_hash;
            original_size = original_size;
          })
          b.allocations;
  }
]
