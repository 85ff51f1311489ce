-- ===== src/Tier/Disk/Accounts.antt =====
-- The used space of the disk.
use Prim.Native.String.{String}
use ghost_pages.Common.{
  ℕ, ◌+◌, ◌*◌, ◌%◌, ◌^◌, ◌<◌, ◌≤◌, ◌≡◌, refl, ap, ◌∙◌, false, none, some, length, ◌==◌, nat_ord,
  arith,
}
use ghost_pages.Common.Bytes.{Bytes}
use ghost_pages.Common.BTreeMap.{get, insert, remove, get-insert_self, get-remove_self}
use ghost_pages.Core.Types.{ok, err}
use ghost_pages.Core.Meta.{uncompressed}
use ghost_pages.Tier.Backend.{BackendError, allocation_not_found}
use ghost_pages.Tier.Ram.{minus}
use ghost_pages.Tier.ChunkFile.{Libraries, IsReliable, header_size, compress}
use ghost_pages.Tier.Disk.{deallocate}
use ghost_pages.Tier.Disk.State.{
  DiskAllocation, DiskHandle, DiskBackend, new_allocation, zero_hash, compression_for, on_data,
}
use ghost_pages.Tier.Disk.{chunk_id_for, reserve, allocate, write}
use ghost_pages.Tier.Disk.Requests.{IsReady}
use ghost_pages.Tier.Disk.Exhaustion.{within}
use ghost_pages.Tier.Disk.Access.{entry_after, write-written}

deallocated :
    (b : DiskBackend) (h : DiskHandle) (d alloc : DiskAllocation)
    → h.backend_data ≡ some d
    → get d.chunk_id b.allocations ≡ some alloc
    → ((deallocate b h).1 ≡ ok tt)
      × ((deallocate b h).0.used ≡ minus b.used alloc.reserved_size)
      × ((deallocate b h).0.allocations ≡ remove d.chunk_id b.allocations)
unfolding deallocate
deallocated b h d alloc e g = rw (e, on_data, g, deallocate) (refl, refl, refl)

not_deallocated :
    (b : DiskBackend) (h : DiskHandle) (d : DiskAllocation)
    → h.backend_data ≡ some d
    → get d.chunk_id b.allocations ≡ none
    → deallocate b h ≡ (b, err (allocation_not_found h.offset))
unfolding deallocate
not_deallocated b h d e g = rw (e, on_data, g, deallocate) refl

module _ (l : Libraries) (describe : BackendError → String) where
  -- What an allocation of a size is handed out as.
  unfoldable pub handle_for : ℕ → DiskHandle
  handle_for size = record {
    offset = 0;
    size = size;
    backend_data =
        some (new_allocation (chunk_id_for l describe size) size 0 uncompressed zero_hash);
  }

  pub allocated :
      (b : DiskBackend) (size : ℕ)
      → 0 < size
      → b.used + size ≤ b.capacity
      → b.capacity < 2 ^ 64
      → allocate l describe false b size ≡ (
        record b {
          used = b.used + size;
          allocations =
              insert
                (chunk_id_for l describe size)
                (new_allocation (chunk_id_for l describe size) size 0 uncompressed zero_hash)
                b.allocations;
        },
        ok (handle_for size),
      )
  unfolding allocate reserve handle_for
  allocated b size p k c =
      let fits = within ((b.used + size) % 2 ^ 64) b.capacity (omega arith) in
      let word : (b.used + size) % 2 ^ 64 ≡ b.used + size = omega arith in
      rw (positive size p, fits, word, allocate, reserve) refl
    where
      positive : (n : ℕ) → 0 < n → (n == 0) ≡ false
      positive n h = ground arith

  -- An allocation that fits, data that fit it, and the release of the allocation, where nothing
  -- fails: the release succeeds, yet the used space ends larger than it began by the size of the
  -- compressed data (as a 64-bit word), although the entry is gone.
  pub allocate-write-deallocate :
      (now now' : ℕ) (b : DiskBackend) (size : ℕ) (bytes packed : Bytes)
      → IsReliable l
      → IsReady b.io_scheduler
      → 0 < size
      → b.used + size ≤ b.capacity
      → b.capacity < 2 ^ 64
      → length bytes ≤ size
      → compress l bytes (compression_for (length bytes)) ≡ some packed
      → length bytes < 2 ^ 32
      → length packed < 2 ^ 32
      → let a = allocate l describe false b size in
        let w = write l describe now now' false a.0 (handle_for size) bytes in
        let f = deallocate w.0 (handle_for size) in
        (a.1 ≡ ok (handle_for size))
        × (w.1 ≡ ok tt)
        × (f.1 ≡ ok tt)
        × (f.0.used ≡ (b.used + length packed) % 2 ^ 64)
        × (get (chunk_id_for l describe size) f.0.allocations ≡ none)
  unfolding handle_for new_allocation
  allocate-write-deallocate now now' b size bytes packed r v p k c j z s t =
      let h = handle_for size in
      let id = chunk_id_for l describe size in
      let d = new_allocation id size 0 uncompressed zero_hash in
      let m = insert id d b.allocations in
      let b1 = record b { used = b.used + size; allocations = m } in
      let w =
        write-written l describe now now' b1 h d d bytes packed r v refl
          (get-insert_self id d b.allocations) j z s t in
      let b2 = (write l describe now now' false b1 h bytes).0 in
      let entry = entry_after l describe d bytes (header_size + length packed) in
      let g : get id b2.allocations ≡ some entry = ap (get id) w.2 ∙ get-insert_self id entry m in
      let f = deallocated b2 h d entry refl g in
      rw (allocated b size p k c) (
        refl,
        w.0,
        f.0,
        f.1 ∙ ap (λ u. minus u size) w.3 ∙ returned b.used size (length packed) (omega arith) t,
        ap (get id) f.2 ∙ get-remove_self id b2.allocations,
      )
    where
      returned :
          (u n p : ℕ)
          → u + n < 2 ^ 64
          → p < 2 ^ 32
          → minus ((minus (u + n) 51 + (51 + p)) % 2 ^ 64) n ≡ (u + p) % 2 ^ 64
      returned u n p h k = omega arith

  -- Two allocations of one size that both fit share a chunk id: once the first is released, the
  -- release of the second fails and its size stays counted as used.
  pub deallocate-same_size :
      (b : DiskBackend) (size : ℕ)
      → 0 < size
      → b.used + 2 * size ≤ b.capacity
      → b.capacity < 2 ^ 64
      → let a = allocate l describe false b size in
        let a' = allocate l describe false a.0 size in
        let f = deallocate a'.0 (handle_for size) in
        let f' = deallocate f.0 (handle_for size) in
        (a.1 ≡ ok (handle_for size))
        × (a'.1 ≡ ok (handle_for size))
        × (f.1 ≡ ok tt)
        × (f'.1 ≡ err (allocation_not_found 0))
        × (f'.0.used ≡ b.used + size)
  unfolding handle_for new_allocation
  deallocate-same_size b size p k c =
      let h = handle_for size in
      let id = chunk_id_for l describe size in
      let d = new_allocation id size 0 uncompressed zero_hash in
      let m = insert id d b.allocations in
      let b1 = record b { used = b.used + size; allocations = m } in
      let b2 = record b1 { used = b.used + size + size; allocations = insert id d m } in
      let f = deallocated b2 h d d refl (get-insert_self id d m) in
      let b3 = (deallocate b2 h).0 in
      let g : get id b3.allocations ≡ none = ap (get id) f.2 ∙ get-remove_self id b2.allocations in
      let n = not_deallocated b3 h d refl g in
      rw (allocated b size p (omega arith) c, allocated b1 size p (omega arith) c)
        (
          refl,
          refl,
          f.0,
          ap (λ x. x.1) n,
          ap (λ x. x.0.used) n ∙ f.1 ∙ back b.used size (omega arith),
        )
    where
      back : (u n : ℕ) → u + n + n < 2 ^ 64 → minus (u + n + n) n ≡ u + n
      back u n h = omega arith
