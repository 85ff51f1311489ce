-- ===== src/Tests/Disk.antt =====
-- The disk tier on a file system of its own, with compression that keeps its input and a hash of the
-- length.
use Prim.Native.String.{String}
use ghost_pages.Common.{
  ℕ, ◌+◌, ◌%◌, ◌≡◌, refl, sym, false, [], ◌∷◌, none, some, length, nat_ord, arith,
}
use ghost_pages.Common.Bytes.{Bytes}
use ghost_pages.Common.BTreeMap.{get}
use ghost_pages.Core.Types.{ok, err}
use ghost_pages.Core.Meta.{uncompressed}
use ghost_pages.Core.IoScheduler.{pending_count, new as new_scheduler}
use ghost_pages.Core.IoScheduler.Histories.{new-IsAccounted}
use ghost_pages.Tier.Backend.{BackendError, internal, allocation_not_found}
use ghost_pages.Tier.ChunkFile.{
  Libraries, IsReliable, compress, header_size, write_chunk, read_chunk,
}
use ghost_pages.Tier.ChunkFile.RoundTrip.{read_chunk-write_chunk, read_chunk-hash}
use ghost_pages.Tier.Disk.{deallocate}
use ghost_pages.Tier.Disk.State.{
  DiskAllocation, DiskHandle, DiskBackend, zero_hash, compression_for,
}
use ghost_pages.Tier.Disk.{chunk_id_for, allocate, write, read, verify_integrity}
use ghost_pages.Tier.Disk.Requests.{IsReady}
use ghost_pages.Tier.Disk.Exhaustion.{WriteCall, after_failures, after_failures-refused}
use ghost_pages.Tier.Disk.Access.{write-read_back}
use ghost_pages.Tier.Disk.Accounts.{handle_for, allocate-write-deallocate, deallocate-same_size}

abbrev length_hash : Bytes → Bytes
length_hash bytes =
    (length bytes % 256)
    ∷ 0
    ∷ 0
    ∷ 0
    ∷ 0
    ∷ 0
    ∷ 0
    ∷ 0
    ∷ 0
    ∷ 0
    ∷ 0
    ∷ 0
    ∷ 0
    ∷ 0
    ∷ 0
    ∷ 0
    ∷ 0
    ∷ 0
    ∷ 0
    ∷ 0
    ∷ 0
    ∷ 0
    ∷ 0
    ∷ 0
    ∷ 0
    ∷ 0
    ∷ 0
    ∷ 0
    ∷ 0
    ∷ 0
    ∷ 0
    ∷ 0
    ∷ []

abbrev libraries : Libraries
libraries = record {
  compress = λ bytes. some bytes;
  decompress = λ bytes room. some bytes;
  hash = length_hash;
}

reliable : IsReliable libraries
reliable = record { restores = λ bytes packed room e h. sym e; hash_length = λ bytes. refl }

abbrev describe : BackendError → String
describe e = "failed"

abbrev three_bytes : Bytes
three_bytes = 4 ∷ 5 ∷ 6 ∷ []

abbrev entry : DiskAllocation
entry = record {
  chunk_id = 9;
  original_size = 8;
  compressed_size = 0;
  disk_size = 51;
  reserved_size = 8;
  compression = uncompressed;
  content_hash = zero_hash;
}

abbrev handle : DiskHandle
handle = record { offset = 0; size = 8; backend_data = some entry }

-- A disk with one allocation and room for a number of requests.
abbrev disk_of : ℕ → DiskBackend
disk_of max_pending = record {
  capacity = 4096;
  used = 8;
  allocations = (9, entry) ∷ [];
  io_scheduler = new_scheduler max_pending;
  queue_depth = 0;
  bytes_written = 0;
  bytes_read = 0;
  files = [];
}

ready : IsReady (new_scheduler 64)
unfolding new_scheduler pending_count
ready = record { accounted = new-IsAccounted 64; ids_left = omega arith; room = omega arith }

read_chunk-write_chunk_example :
    let w = write_chunk libraries [] 9 three_bytes (length_hash three_bytes) uncompressed in
    (w.1 ≡ ok (header_size + 3))
    × (read_chunk libraries w.0 9 (length_hash three_bytes) ≡ some (ok three_bytes))
    × (read_chunk libraries w.0 8 [] ≡ read_chunk libraries [] 8 [])
unfolding compress
read_chunk-write_chunk_example =
    read_chunk-write_chunk libraries reliable [] 9 8 three_bytes three_bytes uncompressed [] refl
      (omega arith) (omega arith) (omega arith)

read_back :
    read_chunk libraries
      (write_chunk libraries [] 9 three_bytes (length_hash three_bytes) uncompressed).0
      9
      (length_hash three_bytes)
    ≡ some (ok three_bytes)
unfolding compress
read_back =
    (read_chunk-write_chunk libraries reliable [] 9 8 three_bytes three_bytes uncompressed [] refl
      (omega arith) (omega arith) (omega arith)).1

read_chunk-hash_example : length_hash three_bytes ≡ length_hash three_bytes
read_chunk-hash_example =
    read_chunk-hash libraries
      (write_chunk libraries [] 9 three_bytes (length_hash three_bytes) uncompressed).0 9
      (length_hash three_bytes) three_bytes read_back

write-read_back_example :
    let w = write libraries describe 1 2 false (disk_of 64) handle three_bytes in
    (w.1 ≡ ok tt)
    × ((read libraries describe 3 4 false w.0 handle (0 ∷ 0 ∷ 0 ∷ [])).1 ≡ ok three_bytes)
    × (verify_integrity libraries describe w.0 handle (length_hash three_bytes) ≡ ok tt)
unfolding compress compression_for get new_scheduler
write-read_back_example =
    write-read_back libraries describe 1 2 3 4 (disk_of 64) handle entry entry three_bytes
      three_bytes (0 ∷ 0 ∷ 0 ∷ []) reliable ready (omega arith) (omega arith) refl refl refl
      (omega arith) refl refl (omega arith) (omega arith)

abbrev failing : WriteCall
failing = record { start = 1; end = 2; handle = handle; bytes = three_bytes }

after_failures-refused_example :
    let b' = after_failures libraries describe (disk_of 2) (failing ∷ failing ∷ []) in
    (write libraries describe 5 6 false b' handle three_bytes ≡ (b', err internal))
    × (read libraries describe 5 6 false b' handle three_bytes ≡ (b', err internal))
unfolding new_scheduler pending_count get
after_failures-refused_example =
    after_failures-refused libraries describe (disk_of 2) (failing ∷ failing ∷ []) 5 6 false handle
      handle three_bytes three_bytes (omega arith, (entry, refl)) (omega arith, (entry, refl)) entry
      (new-IsAccounted 2) (omega arith) (omega arith)
      ((omega arith, (entry, refl)), ((omega arith, (entry, refl)), tt)) refl

allocate-write-deallocate_example :
    let a = allocate libraries describe false (disk_of 64) 8 in
    let w = write libraries describe 1 2 false a.0 (handle_for libraries describe 8) three_bytes in
    let f = deallocate w.0 (handle_for libraries describe 8) in
    (a.1 ≡ ok (handle_for libraries describe 8))
    × (w.1 ≡ ok tt)
    × (f.1 ≡ ok tt)
    × (f.0.used ≡ 11)
    × (get (chunk_id_for libraries describe 8) f.0.allocations ≡ none)
unfolding compress compression_for
allocate-write-deallocate_example =
    allocate-write-deallocate libraries describe 1 2 (disk_of 64) 8 three_bytes three_bytes reliable
      ready (omega arith) (omega arith) (omega arith) (omega arith) refl (omega arith) (omega arith)

deallocate-same_size_example :
    let a = allocate libraries describe false (disk_of 64) 8 in
    let a' = allocate libraries describe false a.0 8 in
    let f = deallocate a'.0 (handle_for libraries describe 8) in
    let f' = deallocate f.0 (handle_for libraries describe 8) in
    (a.1 ≡ ok (handle_for libraries describe 8))
    × (a'.1 ≡ ok (handle_for libraries describe 8))
    × (f.1 ≡ ok tt)
    × (f'.1 ≡ err (allocation_not_found 0))
    × (f'.0.used ≡ 16)
deallocate-same_size_example =
    deallocate-same_size libraries describe (disk_of 64) 8 (omega arith) (omega arith) (omega arith)
