-- ===== src/Tier/Disk/Requests.antt =====
-- The requests that reads and writes issue to the I/O scheduler, and the operations in flight.
use Prim.Native.String.{String}
use ghost_pages.Common.{
  ℕ, ◌+◌, ◌^◌, ◌<◌, ◌≤◌, ◌≡◌, ◌≢◌, refl, ◌∙◌, Bool, true, false, [], ◌∷◌, ◌&&◌, none, some, length,
  leb, ltb, ◌==◌, if◌then◌else◌, nat_ord, arith, Bool-cases, Option-cases, inl, inr,
}
use ghost_pages.Common.Bytes.{Bytes}
use ghost_pages.Common.BTreeMap.{BTreeMap, get, insert, length-insert_new}
use ghost_pages.Common.BTreeMap.Counting.{length-remove}
use ghost_pages.Core.Types.{ChunkId, disk, Result, ok, err}
use ghost_pages.Core.IoScheduler.{
  IoOperation, IoRequest, IoScheduler, new_request, issue, pending_count,
}
use ghost_pages.Core.IoScheduler.Accounts.{IsAccounted, issue-IsAccounted, complete-IsAccounted}
use ghost_pages.Core.Meta.{CompressionAlgorithm}
use ghost_pages.Tier.Backend.{BackendError, write_failed}
use ghost_pages.Tier.ChunkFile.{Libraries, write_chunk}
use ghost_pages.Tier.Disk.State.{
  DiskAllocation, DiskHandle, DiskBackend, add32, pred32, same_operation, find_request, finish,
  begin, compression_for, update_entry,
}
use ghost_pages.Tier.Disk.{end_write, write}

-- A scheduler in order that has ids left and room for one more request.
pub record IsReady (s : IoScheduler) : Type 0 where
  pub accounted : IsAccounted s
  pub ids_left : s.next_id + 1 < 2 ^ 64
  pub room : pending_count s < s.max_pending

pub below : (a b : ℕ) → a < b → leb b a ≡ false
below a b h = ground arith

same_operation_refl : (operation : IoOperation) → same_operation operation operation ≡ true
unfolding same_operation
same_operation_refl IoOperation.read = refl
same_operation_refl IoOperation.write = refl
same_operation_refl IoOperation.delete = refl
same_operation_refl IoOperation.flush_op = refl

find_request-insert :
    (now n : ℕ) (c : ChunkId) (operation : IoOperation) (m : BTreeMap ℕ IoRequest)
    → find_request c operation (insert n (new_request now n operation c disk) m) ≢ none
unfolding find_request insert
find_request-insert now n c operation [] = ground (arith, same_operation_refl operation)
find_request-insert now n c operation ((j, r) ∷ m) =
    ground (arith, same_operation_refl operation, find_request-insert now n c operation m)

find_request-get :
    (c : ChunkId) (operation : IoOperation) (id : ℕ) (m : BTreeMap ℕ IoRequest)
    → find_request c operation m ≡ some id
    → get id m ≢ none
unfolding find_request get
find_request-get c operation id [] e = ground arith
find_request-get c operation id ((j, r) ∷ m) e =
    elim (Bool-cases ((r.chunk_id == c) && same_operation r.operation operation)) [
      | inl q ↦ ground arith
      | inr q ↦ ground (arith, find_request-get c operation id m)
    ]

-- The end of a request: the books are kept and one request less is pending.
finish-IsAccounted :
    (now : ℕ) (s : IoScheduler) (c : ChunkId) (operation : IoOperation)
    (x : Result String (Unit {0}))
    → IsAccounted s
    → find_request c operation s.pending ≢ none
    → IsAccounted (finish now s c operation x)
      × (pending_count (finish now s c operation x) + 1 ≡ pending_count s)
unfolding finish pending_count
finish-IsAccounted now s c operation x v f =
    elim (Option-cases (find_request c operation s.pending)) [
      | inl e ↦ absurd (f e)
      | inr (id, e) ↦ elim (Option-cases (get id s.pending)) [
        | inl g ↦ absurd (find_request-get c operation id s.pending e g)
        | inr (r, g) ↦
            let k = complete-IsAccounted now s id x r g v in
            rw (e, k.0, finish) (k.1, length-remove id r s.pending v.sorted g)
      ]
    ]

issue_accepted :
    (now : ℕ) (s : IoScheduler) (operation : IoOperation) (c : ChunkId)
    → IsReady s
    → (issue now s operation c disk).1 ≡ ok s.next_id
unfolding issue pending_count
issue_accepted now s operation c v =
    let free : leb s.max_pending (length s.pending) ≡ false =
      below (length s.pending) s.max_pending v.room in
    rw (free, issue) refl

pub begin_accepted :
    (now : ℕ) (b : DiskBackend) (operation : IoOperation) (c : ChunkId)
    → IsReady b.io_scheduler
    → begin now b operation c ≡ (
      record b {
        io_scheduler = (issue now b.io_scheduler operation c disk).0;
        queue_depth = add32 b.queue_depth 1;
      },
      ok b.io_scheduler.next_id,
    )
unfolding begin
begin_accepted now b operation c v =
    rw (issue_accepted now b.io_scheduler operation c v, begin) refl

-- One more request is pending after it was issued, and it can be found.
pub issue-pending :
    (now : ℕ) (s : IoScheduler) (operation : IoOperation) (c : ChunkId)
    → IsReady s
    → let s' = (issue now s operation c disk).0 in
      IsAccounted s'
      × (pending_count s' ≡ pending_count s + 1)
      × (s'.max_pending ≡ s.max_pending)
      × (find_request c operation s'.pending ≢ none)
unfolding issue pending_count
issue-pending now s operation c v =
    let free : leb s.max_pending (length s.pending) ≡ false =
      below (length s.pending) s.max_pending v.room in
    let w = issue-IsAccounted now s operation c disk v.accounted v.ids_left in
    let r = new_request now s.next_id operation c disk in
    (
      w,
      rw (free, issue)
          (length-insert_new s.next_id r s.pending (v.accounted.fresh s.next_id (omega arith))),
      rw (free, issue) refl,
      rw (free, issue) (find_request-insert now s.next_id c operation s.pending),
    )

pub update_entry-io_scheduler :
    (b : DiskBackend) (id : ChunkId) (n : ℕ) (a : CompressionAlgorithm) (h : Bytes) (k : ℕ)
    → ((update_entry b id n a h k).io_scheduler ≡ b.io_scheduler)
      × ((update_entry b id n a h k).queue_depth ≡ b.queue_depth)
unfolding update_entry
update_entry-io_scheduler b id n a h k = elim (Option-cases (get id b.allocations)) [
  | inl e ↦ rw (e, update_entry) (refl, refl)
  | inr (d, e) ↦ rw (e, update_entry) (refl, refl)
]

-- The backend once a request is issued, with as many operations in flight as before.
abbrev pub calm : (now : ℕ) → DiskBackend → IoOperation → ChunkId → DiskBackend
calm now b operation c = record b {
  io_scheduler = (issue now b.io_scheduler operation c disk).0;
  queue_depth = pred32 (add32 b.queue_depth 1);
}

pub pred32-add32 : (n : ℕ) → n < 2 ^ 32 → pred32 (add32 n 1) ≡ n
pred32-add32 n h = omega arith

module _ (l : Libraries) (describe : BackendError → String) where
  -- A write of data that fit, on a scheduler with room.
  pub write-begun :
      (now now' : ℕ) (fails : Bool) (b : DiskBackend) (h : DiskHandle) (d : DiskAllocation)
      (bytes : Bytes)
      → IsReady b.io_scheduler
      → h.backend_data ≡ some d
      → length bytes ≤ h.size
      → write l describe now now' fails b h bytes ≡ (
          if fails
          then (calm now b IoOperation.write d.chunk_id, err write_failed)
          else end_write l describe now'
              (calm now b IoOperation.write d.chunk_id)
              h.size
              d.chunk_id
              bytes
              (write_chunk l b.files d.chunk_id bytes
                (l.hash bytes)
                (compression_for (length bytes))))
  unfolding write
  write-begun now now' fails b h d bytes v e k =
      let fits : ltb h.size (length bytes) ≡ false = above h.size (length bytes) k in
      rw (fits, e, begin_accepted now b IoOperation.write d.chunk_id v, write) refl
    where
      above : (a b : ℕ) → b ≤ a → ltb a b ≡ false
      above a b k = ground arith

  end_write-requests :
      (now : ℕ) (b : DiskBackend) (size : ℕ) (c : ChunkId) (bytes : Bytes)
      (r : BTreeMap ChunkId Bytes × Result BackendError ℕ)
      → IsAccounted b.io_scheduler
      → find_request c IoOperation.write b.io_scheduler.pending ≢ none
      → let b' = (end_write l describe now b size c bytes r).0 in
        IsAccounted b'.io_scheduler
        × (pending_count b'.io_scheduler + 1 ≡ pending_count b.io_scheduler)
        × (b'.queue_depth ≡ b.queue_depth)
  unfolding end_write
  end_write-requests now b size c bytes (files, ok n) v f =
      let u =
        update_entry-io_scheduler b c n (compression_for (length bytes)) (l.hash bytes)
          (length bytes) in
      let k = finish-IsAccounted now b.io_scheduler c IoOperation.write (ok tt) v f in
      rw (u.0, u.1) (k.0, k.1, refl)
  end_write-requests now b size c bytes (files, err e) v f =
      let k = finish-IsAccounted now b.io_scheduler c IoOperation.write (err (describe e)) v f in
      (k.0, k.1, refl)

  pub write-pending :
      (now now' : ℕ) (fails : Bool) (b : DiskBackend) (h : DiskHandle) (d : DiskAllocation)
      (bytes : Bytes)
      → IsReady b.io_scheduler
      → b.queue_depth < 2 ^ 32
      → h.backend_data ≡ some d
      → length bytes ≤ h.size
      → let b' = (write l describe now now' fails b h bytes).0 in
        IsAccounted b'.io_scheduler
        × (pending_count b'.io_scheduler ≡ pending_count b.io_scheduler + (if fails then 1 else 0))
        × (b'.queue_depth ≡ b.queue_depth)
  write-pending now now' true b h d bytes v q e k =
      let i = issue-pending now b.io_scheduler IoOperation.write d.chunk_id v in
      rw (write-begun now now' true b h d bytes v e k) (i.0, i.1, pred32-add32 b.queue_depth q)
  write-pending now now' false b h d bytes v q e k =
      let i = issue-pending now b.io_scheduler IoOperation.write d.chunk_id v in
      let w =
        end_write-requests now' (calm now b IoOperation.write d.chunk_id) h.size d.chunk_id bytes
          (write_chunk l b.files d.chunk_id bytes (l.hash bytes) (compression_for (length bytes)))
          i.0 i.3 in
      rw (write-begun now now' false b h d bytes v e k)
        (w.0, omega (arith, w.1, i.1), w.2 ∙ pred32-add32 b.queue_depth q)
