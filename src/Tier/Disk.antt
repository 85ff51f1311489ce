-- ===== src/Tier/Disk.antt =====
-- crates/ghost-tier/src/disk.rs: the disk tier, on the chunk files of disk_persistence.rs and the I/O
-- scheduler of ghost-core. The simulation layer only delays an operation and draws whether it fails:
-- a draw and each reading of the clock are arguments, and so are the texts of errors. Each operation
-- is one step; what other tasks do while it is delayed is not modelled. The word size is 64 bits and
-- arithmetic wraps, as in a release build.
pub mod State
pub mod Access
pub mod Accounts
pub mod Exhaustion
pub mod Requests
use Prim.Native.String.{String}
use ghost_pages.Common.{
  ℕ, ◌+◌, ◌-◌, ◌*◌, ◌%◌, ◌^◌, Bool, true, false, not, ◌&&◌, List, [], ◌∷◌, ◌++◌, Option, none, some,
  length, take, drop, ltb, ◌==◌, if◌then◌else◌, nat_ord,
}
use ghost_pages.Common.Bytes.{Bytes, bytes_eqb, to_le_bytes}
use ghost_pages.Common.BTreeMap.{BTreeMap, get, insert, remove, contains_key}
use ghost_pages.Core.Types.{ChunkId, TierId, disk, GhostResult, Result, ok, err}
use ghost_pages.Core.Meta.{CompressionAlgorithm, uncompressed, zstd}
use ghost_pages.Core.IoScheduler.{
  IoOperation, IoRequest, IoScheduler, issue, complete, new as new_scheduler,
}
use ghost_pages.Tier.Backend.{
  BackendError, insufficient_space, allocation_not_found, write_failed, read_failed,
  integrity_failed, internal,
}
use ghost_pages.Tier.Ram.{minus, fill}
use ghost_pages.Tier.Disk.State.{
  DiskAllocation, DiskHandle, DiskBackend, new, new_allocation, zero_hash, available, add32, pred32,
  same_operation, find_request, finish, on_data, begin, on_begun, compression_for, update_entry,
}
use ghost_pages.Tier.ChunkFile.{
  Libraries, header_size, from_data, write_chunk, read_chunk, delete_chunk,
}

-- The entry is taken out, the file deleted where it exists, and the reserved size given back.
unfoldable pub deallocate : DiskBackend → DiskHandle → DiskBackend × Result BackendError (Unit {0})
deallocate b h = on_data b h.backend_data (λ d. elim (get d.chunk_id b.allocations) [
  | none ↦ (b, err (allocation_not_found h.offset))
  | some removed ↦ (
    record b {
      allocations = remove d.chunk_id b.allocations;
      files = delete_chunk b.files removed.chunk_id;
      used = minus b.used removed.reserved_size;
    },
    ok tt,
  )
])

module _ (l : Libraries) (describe : BackendError → String) where
  -- The chunk id of an allocation is made of its size alone.
  unfoldable pub chunk_id_for : ℕ → ChunkId
  chunk_id_for size = from_data l (to_le_bytes 8 size)

  -- From `fetch_add` on, on the backend as it is then.
  unfoldable pub reserve : DiskBackend → ℕ → DiskBackend × Result BackendError DiskHandle
  unfolding chunk_id_for new_allocation
  reserve b size =
      let alloc = new_allocation (chunk_id_for size) size 0 uncompressed zero_hash in
      if ltb b.capacity ((b.used + size) % 2 ^ 64)
      then (
        record b { used = minus ((b.used + size) % 2 ^ 64) size },
        err (insufficient_space size (minus b.capacity b.used)),
      )
      else (
        record b {
          used = (b.used + size) % 2 ^ 64;
          allocations = insert (chunk_id_for size) alloc b.allocations;
        },
        ok (record { offset = 0; size = size; backend_data = some alloc }),
      )

  unfoldable pub allocate :
      (fails : Bool) → DiskBackend → ℕ → DiskBackend × Result BackendError DiskHandle
  unfolding reserve
  allocate fails b size =
      if size == 0
      then (b, err internal)
      else if fails
      then (b, err internal)
      else if ltb b.capacity ((b.used + size) % 2 ^ 64)
      then (b, err (insufficient_space size (minus b.capacity b.used)))
      else reserve b size

  -- What follows the file I/O of a write.
  unfoldable pub end_write :
      (now : ℕ)
      → DiskBackend
      → (size : ℕ) → ChunkId
      → Bytes
      → BTreeMap ChunkId Bytes × Result BackendError ℕ
      → DiskBackend × Result BackendError (Unit {0})
  unfolding update_entry finish
  end_write now b size id bytes (files, ok disk_size) =
      let n = length bytes in
      let b' = update_entry b id disk_size (compression_for n) (l.hash bytes) n in
      (
        record b' {
          files = files;
          bytes_written = (b'.bytes_written + disk_size) % 2 ^ 64;
          io_scheduler = finish now b'.io_scheduler id IoOperation.write (ok tt);
        },
        ok tt,
      )
  end_write now b size id bytes (files, err e) = (
    record b {
      files = files;
      used = minus b.used size;
      allocations = remove id b.allocations;
      io_scheduler = finish now b.io_scheduler id IoOperation.write (err (describe e));
    },
    err e,
  )

  -- A write that fails by the draw leaves its request pending.
  unfoldable pub write :
      (now now' : ℕ) (fails : Bool)
      → DiskBackend
      → DiskHandle
      → Bytes
      → DiskBackend × Result BackendError (Unit {0})
  unfolding begin end_write compression_for
  write now now' fails b h bytes =
      if ltb h.size (length bytes)
      then (b, err write_failed)
      else on_data b h.backend_data (λ d. on_begun (begin now b IoOperation.write d.chunk_id) (λ b'.
        let calm = record b' { queue_depth = pred32 b'.queue_depth } in
        if fails
        then (calm, err write_failed)
        else end_write now' calm h.size d.chunk_id bytes (
            write_chunk l b'.files d.chunk_id bytes (l.hash bytes)
              (compression_for (length bytes)))))

  -- What follows the file I/O of a read: a panic of the blocking task leaves the depth and the
  -- request, and what was read fills the buffer.
  unfoldable pub end_read :
      (now : ℕ)
      → DiskBackend
      → ChunkId
      → Bytes
      → Option (Result BackendError Bytes)
      → DiskBackend × Result BackendError Bytes
  unfolding finish
  end_read now b id buf none = (b, err read_failed)
  end_read now b id buf (some (ok bytes)) = (
    record b {
      queue_depth = pred32 b.queue_depth;
      bytes_read = (b.bytes_read + length bytes) % 2 ^ 64;
      io_scheduler = finish now b.io_scheduler id IoOperation.read (ok tt);
    },
    ok (fill buf bytes),
  )
  end_read now b id buf (some (err e)) = (
    record b {
      queue_depth = pred32 b.queue_depth;
      io_scheduler = finish now b.io_scheduler id IoOperation.read (err (describe e));
    },
    err e,
  )

  -- The buffer after the call, where it succeeds.
  unfoldable pub read :
      (now now' : ℕ) (fails : Bool)
      → DiskBackend
      → DiskHandle
      → Bytes
      → DiskBackend × Result BackendError Bytes
  unfolding begin end_read
  read now now' fails b h buf =
      if ltb h.size (length buf)
      then (b, err read_failed)
      else on_data b h.backend_data (λ d. elim (get d.chunk_id b.allocations) [
        | none ↦ (b, err (allocation_not_found h.offset))
        | some alloc ↦ on_begun (begin now b IoOperation.read d.chunk_id) (λ b'.
            if fails
            then (record b' { queue_depth = pred32 b'.queue_depth }, err read_failed)
            else end_read now' b' d.chunk_id buf
                (read_chunk l b'.files d.chunk_id alloc.content_hash))
      ])

  unfoldable pub confirmed :
      Bytes → Option (Result BackendError Bytes) → Result BackendError (Unit {0})
  confirmed expected (some (ok bytes)) =
      if bytes_eqb (l.hash bytes) expected then ok tt else err integrity_failed
  confirmed expected _ = err integrity_failed

  unfoldable pub verify_integrity :
      DiskBackend → DiskHandle → Bytes → Result BackendError (Unit {0})
  unfolding confirmed
  verify_integrity b h expected = elim h.backend_data [
    | none ↦ err internal
    | some d ↦ elim (get d.chunk_id b.allocations) [
      | none ↦ err (allocation_not_found h.offset)
      | some alloc ↦
          if not (bytes_eqb alloc.content_hash expected)
          then err integrity_failed
          else if not (contains_key alloc.chunk_id b.files)
          then err integrity_failed
          else confirmed expected (read_chunk l b.files d.chunk_id alloc.content_hash)
    ]
  ]
