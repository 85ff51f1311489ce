-- ===== src/Tier/Disk/Access.antt =====
-- Reading from the disk what was written to it.
use Prim.Native.String.{String}
use ghost_pages.Common.{
  ℕ, ◌+◌, ◌-◌, ◌%◌, ◌^◌, ◌<◌, ◌≤◌, ◌≡◌, ◌≢◌, refl, ap, ◌∙◌, true, false, [], Option, some, length,
  nat_ord, arith, Option-cases, inl, inr,
}
use ghost_pages.Common.Bytes.{Bytes, bytes_eqb, bytes_eqb_iff}
use ghost_pages.Common.BTreeMap.{BTreeMap, get, insert, contains_key, get-insert_self}
use ghost_pages.Core.Types.{ChunkId, Result, ok, err}
use ghost_pages.Core.IoScheduler.{IoOperation, IoScheduler, complete}
use ghost_pages.Tier.Backend.{BackendError}
use ghost_pages.Tier.ChunkFile.{
  Libraries, IsReliable, header_size, compress, write_chunk, read_chunk,
}
use ghost_pages.Tier.ChunkFile.RoundTrip.{read_chunk-write_chunk}
use ghost_pages.Tier.Ram.{minus, fill}
use ghost_pages.Tier.Ram.Access.{fill-same}
use ghost_pages.Tier.Disk.State.{
  DiskAllocation, DiskHandle, DiskBackend, find_request, finish, on_data, compression_for,
  update_entry,
}
use ghost_pages.Tier.Disk.{end_write, write, end_read, read, confirmed, verify_integrity}
use ghost_pages.Tier.Disk.Requests.{
  IsReady, issue-pending, begin_accepted, update_entry-io_scheduler, calm, write-begun,
  write-pending,
}
use ghost_pages.Tier.Disk.Exhaustion.{issue-next_id, within}

finish-limits :
    (now : ℕ) (s : IoScheduler) (c : ChunkId) (operation : IoOperation)
    (x : Result String (Unit {0}))
    → ((finish now s c operation x).next_id ≡ s.next_id)
      × ((finish now s c operation x).max_pending ≡ s.max_pending)
unfolding finish complete
finish-limits now s c operation x = elim (Option-cases (find_request c operation s.pending)) [
  | inl e ↦ rw (e, finish) (refl, refl)
  | inr (id, e) ↦ elim (Option-cases (get id s.pending)) [
    | inl g ↦ rw (e, g, finish, complete) (refl, refl)
    | inr (r, g) ↦ rw (e, g, finish, complete) (refl, refl)
  ]
]

module _ (l : Libraries) (describe : BackendError → String) where
  end_write-limits :
      (now : ℕ) (b : DiskBackend) (size : ℕ) (c : ChunkId) (bytes : Bytes)
      (r : BTreeMap ChunkId Bytes × Result BackendError ℕ)
      → let s' = (end_write l describe now b size c bytes r).0.io_scheduler in
        (s'.next_id ≡ b.io_scheduler.next_id) × (s'.max_pending ≡ b.io_scheduler.max_pending)
  unfolding end_write
  end_write-limits now b size c bytes (files, ok n) =
      rw
        (update_entry-io_scheduler b c n (compression_for (length bytes)) (l.hash bytes)
          (length bytes)).0
        (finish-limits now b.io_scheduler c IoOperation.write (ok tt))
  end_write-limits now b size c bytes (files, err e) =
      finish-limits now b.io_scheduler c IoOperation.write (err (describe e))

  -- A write that does not fail by the draw leaves the scheduler ready.
  pub write-IsReady :
      (now now' : ℕ) (b : DiskBackend) (h : DiskHandle) (d : DiskAllocation) (bytes : Bytes)
      → IsReady b.io_scheduler
      → b.io_scheduler.next_id + 2 < 2 ^ 64
      → b.queue_depth < 2 ^ 32
      → h.backend_data ≡ some d
      → length bytes ≤ h.size
      → IsReady (write l describe now now' false b h bytes).0.io_scheduler
  write-IsReady now now' b h d bytes v i q e k =
      let s = b.io_scheduler in
      let c = calm now b IoOperation.write d.chunk_id in
      let p = write-pending l describe now now' false b h d bytes v q e k in
      let w =
        write_chunk l b.files d.chunk_id bytes (l.hash bytes) (compression_for (length bytes)) in
      let n = issue-next_id now s IoOperation.write d.chunk_id v in
      let m = issue-pending now s IoOperation.write d.chunk_id v in
      let t = end_write-limits now' c h.size d.chunk_id bytes w in
      let wb = write-begun l describe now now' false b h d bytes v e k in
      let nid = ap (λ x. x.0.io_scheduler.next_id) wb ∙ t.0 ∙ n in
      let mp = ap (λ x. x.0.io_scheduler.max_pending) wb ∙ t.1 ∙ m.2 in
      record {
        accounted = p.0;
        ids_left = omega (arith, nid);
        room = omega (arith, mp, p.1, v.room);
      }

  -- A chunk as the disk describes it once it was written.
  abbrev pub entry_after : DiskAllocation → Bytes → ℕ → DiskAllocation
  entry_after alloc bytes disk_size = record alloc {
    compressed_size = disk_size - header_size;
    disk_size = disk_size;
    compression = compression_for (length bytes);
    content_hash = l.hash bytes;
    original_size = length bytes;
  }

  end_write-written :
      (now : ℕ) (b : DiskBackend) (size : ℕ) (c : ChunkId) (bytes : Bytes)
      (r : BTreeMap ChunkId Bytes × Result BackendError ℕ) (disk_size : ℕ) (alloc : DiskAllocation)
      → r.1 ≡ ok disk_size
      → get c b.allocations ≡ some alloc
      → let w = end_write l describe now b size c bytes r in
        (w.1 ≡ ok tt)
        × (w.0.files ≡ r.0)
        × (w.0.allocations ≡ insert c (entry_after alloc bytes disk_size) b.allocations)
        × (w.0.used ≡ (minus b.used alloc.disk_size + disk_size) % 2 ^ 64)
  unfolding end_write update_entry
  end_write-written now b size c bytes (files, r) disk_size alloc e g =
      rw (e, g, end_write, update_entry) (refl, refl, refl, refl)

  -- A write of data that fit an allocation the disk has, and what it leaves.
  pub write-written :
      (now now' : ℕ) (b : DiskBackend) (h : DiskHandle) (d alloc : DiskAllocation)
      (bytes packed : Bytes)
      → IsReliable l
      → IsReady b.io_scheduler
      → h.backend_data ≡ some d
      → get d.chunk_id b.allocations ≡ some alloc
      → length bytes ≤ h.size
      → compress l bytes (compression_for (length bytes)) ≡ some packed
      → length bytes < 2 ^ 32
      → length packed < 2 ^ 32
      → let w = write l describe now now' false b h bytes in
        (w.1 ≡ ok tt)
        × (read_chunk l w.0.files d.chunk_id (l.hash bytes) ≡ some (ok bytes))
        × (w.0.allocations
            ≡ insert d.chunk_id
                (entry_after alloc bytes (header_size + length packed))
                b.allocations)
        × (w.0.used ≡ (minus b.used alloc.disk_size + (header_size + length packed)) % 2 ^ 64)
  write-written now now' b h d alloc bytes packed r v e g k z s t =
      let a = compression_for (length bytes) in
      let c =
        read_chunk-write_chunk l r b.files d.chunk_id (d.chunk_id + 1) bytes packed a [] z s t
          (next d.chunk_id) in
      let w =
        end_write-written now' (calm now b IoOperation.write d.chunk_id) h.size d.chunk_id bytes
          (write_chunk l b.files d.chunk_id bytes (l.hash bytes) a) (header_size + length packed)
          alloc c.0 g in
      rw (write-begun l describe now now' false b h d bytes v e k)
        (w.0, ap (λ f. read_chunk l f d.chunk_id (l.hash bytes)) w.1 ∙ c.1, w.2, w.3)
    where
      next : (i : ℕ) → i ≢ i + 1
      next i e = omega arith

  end_read-filled :
      (now : ℕ) (b : DiskBackend) (c : ChunkId) (buf bytes : Bytes)
      (o : Option (Result BackendError Bytes))
      → o ≡ some (ok bytes)
      → (end_read l describe now b c buf o).1 ≡ ok (fill buf bytes)
  unfolding end_read
  end_read-filled now b c buf bytes o e = rw (e, end_read) refl

  read-filled :
      (now now' : ℕ) (b : DiskBackend) (h : DiskHandle) (d alloc : DiskAllocation)
      (buf bytes : Bytes)
      → IsReady b.io_scheduler
      → h.backend_data ≡ some d
      → get d.chunk_id b.allocations ≡ some alloc
      → length buf ≤ h.size
      → read_chunk l b.files d.chunk_id alloc.content_hash ≡ some (ok bytes)
      → (read l describe now now' false b h buf).1 ≡ ok (fill buf bytes)
  unfolding read
  read-filled now now' b h d alloc buf bytes v e g k f =
      let fits = within (length buf) h.size k in
      rw (fits, e, on_data, g, begin_accepted now b IoOperation.read d.chunk_id v)
        (end_read-filled now' _ d.chunk_id buf bytes _ f)

  read_chunk-contains_key :
      (files : BTreeMap ChunkId Bytes) (id : ChunkId) (expected bytes : Bytes)
      → read_chunk l files id expected ≡ some (ok bytes)
      → contains_key id files ≡ true
  unfolding read_chunk contains_key
  read_chunk-contains_key files id expected bytes e = elim (Option-cases (get id files)) [
    | inl q ↦ ground arith
    | inr (file, q) ↦ rw (q, contains_key) refl
  ]

  -- Data of less than four gigabytes that fit an allocation the disk has, on a scheduler that is
  -- ready and where nothing fails by the draw: they are written, a buffer of their length is then
  -- filled with them, and their integrity is confirmed by their hash.
  pub write-read_back :
      (t0 t1 t2 t3 : ℕ) (b : DiskBackend) (h : DiskHandle) (d alloc : DiskAllocation)
      (bytes packed buf : Bytes)
      → IsReliable l
      → IsReady b.io_scheduler
      → b.io_scheduler.next_id + 2 < 2 ^ 64
      → b.queue_depth < 2 ^ 32
      → h.backend_data ≡ some d
      → get d.chunk_id b.allocations ≡ some alloc
      → alloc.chunk_id ≡ d.chunk_id
      → length bytes ≤ h.size
      → length buf ≡ length bytes
      → compress l bytes (compression_for (length bytes)) ≡ some packed
      → length bytes < 2 ^ 32
      → length packed < 2 ^ 32
      → let w = write l describe t0 t1 false b h bytes in
        (w.1 ≡ ok tt)
        × ((read l describe t2 t3 false w.0 h buf).1 ≡ ok bytes)
        × (verify_integrity l describe w.0 h (l.hash bytes) ≡ ok tt)
  unfolding verify_integrity confirmed
  write-read_back t0 t1 t2 t3 b h d alloc bytes packed buf r v i q e g same k m z s t =
      let h0 = l.hash bytes in
      let (done, kept, entries, _) = write-written t0 t1 b h d alloc bytes packed r v e g k z s t in
      let b' = (write l describe t0 t1 false b h bytes).0 in
      let entry = entry_after alloc bytes (header_size + length packed) in
      let g' : get d.chunk_id b'.allocations ≡ some entry =
        ap (get d.chunk_id) entries ∙ get-insert_self d.chunk_id entry b.allocations in
      let v' = write-IsReady t0 t1 b h d bytes v i q e k in
      let equal : bytes_eqb h0 h0 ≡ true = (bytes_eqb_iff h0 h0).1 refl in
      let exists : contains_key alloc.chunk_id b'.files ≡ true =
        ap (λ c. contains_key c b'.files) same
        ∙ read_chunk-contains_key b'.files d.chunk_id h0 bytes kept in
      (
        done,
        read-filled t2 t3 b' h d entry buf bytes v' e g' (omega (arith, m)) kept
            ∙ ap ok (fill-same buf bytes m),
        rw (e, g', verify_integrity, equal, exists, kept, confirmed, equal) refl,
      )
