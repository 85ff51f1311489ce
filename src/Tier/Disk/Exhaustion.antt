-- ===== src/Tier/Disk/Exhaustion.antt =====
-- Writes that fail by the draw use up the scheduler.
use Prim.Native.String.{String}
use ghost_pages.Common.{
  ℕ, ◌+◌, ◌^◌, ◌<◌, ◌≤◌, ◌≡◌, refl, ap, ◌∙◌, Bool, true, false, List, [], ◌∷◌, some, length, leb,
  ltb, nat_ord, arith, All,
}
use ghost_pages.Common.Bytes.{Bytes}
use ghost_pages.Common.BTreeMap.{get}
use ghost_pages.Core.Types.{ChunkId, disk, GhostError, GhostResult, err}
use ghost_pages.Core.IoScheduler.{IoOperation, IoScheduler, issue, pending_count}
use ghost_pages.Core.IoScheduler.Accounts.{IsAccounted}
use ghost_pages.Tier.Backend.{BackendError, internal}
use ghost_pages.Tier.ChunkFile.{Libraries}
use ghost_pages.Tier.Disk.State.{DiskAllocation, DiskHandle, DiskBackend, on_data, begin}
use ghost_pages.Tier.Disk.{write, read}
use ghost_pages.Tier.Disk.Requests.{IsReady, below, issue-pending, calm, write-begun}

-- One call of `write`, with the readings of the clock.
pub record WriteCall : Type 0 where
  pub start : ℕ
  pub end : ℕ
  pub handle : DiskHandle
  pub bytes : Bytes

-- The data fit, and the allocation is one of a disk.
abbrev pub IsFitting : DiskHandle → Bytes → Type 0
IsFitting h bytes = (length bytes ≤ h.size) × ((d : DiskAllocation) × (h.backend_data ≡ some d))

pub issue-next_id :
    (now : ℕ) (s : IoScheduler) (operation : IoOperation) (c : ChunkId)
    → IsReady s
    → (issue now s operation c disk).0.next_id ≡ s.next_id + 1
unfolding issue pending_count
issue-next_id now s operation c v =
    let free : leb s.max_pending (length s.pending) ≡ false =
      below (length s.pending) s.max_pending v.room in
    rw (free, issue) (omega (arith, v.ids_left))

issue_refused :
    (now : ℕ) (s : IoScheduler) (operation : IoOperation) (c : ChunkId)
    → pending_count s ≡ s.max_pending
    → issue now s operation c disk ≡ (s, err GhostError.internal)
unfolding issue pending_count
issue_refused now s operation c e =
    let full : leb s.max_pending (length s.pending) ≡ true =
      reached (length s.pending) s.max_pending e in
    rw (full, issue) refl
  where
    reached : (a b : ℕ) → a ≡ b → leb b a ≡ true
    reached a b h = ground arith

begin_refused :
    (now : ℕ) (b : DiskBackend) (operation : IoOperation) (c : ChunkId)
    → pending_count b.io_scheduler ≡ b.io_scheduler.max_pending
    → begin now b operation c ≡ (b, err GhostError.internal)
unfolding begin
begin_refused now b operation c e =
    let r = issue_refused now b.io_scheduler operation c e in
    rw (ap (λ x. x.1) r, begin)
      (ap
        (λ (x : IoScheduler × GhostResult ℕ).
          (record b { io_scheduler = x.0 }, err GhostError.internal))
        r)

pub within : (a b : ℕ) → a ≤ b → ltb b a ≡ false
within a b h = ground arith

module _ (l : Libraries) (describe : BackendError → String) where
  -- The disk after writes that the draw lets fail.
  unfoldable pub after_failures : DiskBackend → List WriteCall → DiskBackend
  after_failures b [] = b
  after_failures b (w ∷ ws) =
      after_failures (write l describe w.start w.end true b w.handle w.bytes).0 ws

  after_failures-full :
      (b : DiskBackend) (ws : List WriteCall)
      → IsAccounted b.io_scheduler
      → b.io_scheduler.next_id + length ws < 2 ^ 64
      → pending_count b.io_scheduler + length ws ≡ b.io_scheduler.max_pending
      → All (λ w. IsFitting w.handle w.bytes) ws
      → let b' = after_failures b ws in
        (pending_count b'.io_scheduler ≡ b'.io_scheduler.max_pending)
        × (b'.allocations ≡ b.allocations)
  unfolding after_failures
  after_failures-full b [] v i p a = (omega arith, refl)
  after_failures-full b (w ∷ ws) v i p ((k, (d, e)), a) =
      let s = b.io_scheduler in
      let ready : IsReady s = record {
        accounted = v;
        ids_left = omega arith;
        room = omega arith;
      } in
      let c = calm w.start b IoOperation.write d.chunk_id in
      let (v', p', m', _) = issue-pending w.start s IoOperation.write d.chunk_id ready in
      let n' = issue-next_id w.start s IoOperation.write d.chunk_id ready in
      let (full, same) =
        after_failures-full c ws v' (omega (arith, n')) (omega (arith, p', m')) a in
      rw (after_failures, write-begun l describe w.start w.end true b w.handle d w.bytes ready e k)
        (full, same)

  -- On a disk whose books are in order and whose ids do not run out: once as many writes
  -- have failed by the draw as the scheduler had room for, every further write of data that fit, and
  -- every read of an allocation the disk has, is refused with an internal error, whatever is drawn.
  pub after_failures-refused :
      (b : DiskBackend) (ws : List WriteCall) (now now' : ℕ) (fails : Bool) (h h' : DiskHandle)
      (bytes buf : Bytes) (fitting : IsFitting h bytes) (fitting' : IsFitting h' buf)
      (alloc : DiskAllocation)
      → IsAccounted b.io_scheduler
      → b.io_scheduler.next_id + length ws < 2 ^ 64
      → pending_count b.io_scheduler + length ws ≡ b.io_scheduler.max_pending
      → All (λ w. IsFitting w.handle w.bytes) ws
      → get fitting'.1.0.chunk_id b.allocations ≡ some alloc
      → let b' = after_failures b ws in
        (write l describe now now' fails b' h bytes ≡ (b', err internal))
        × (read l describe now now' fails b' h' buf ≡ (b', err internal))
  unfolding write read
  after_failures-refused b ws now now' fails h h' bytes buf (k, (d, e)) (k', (d', e')) alloc v i p a
        g =
      let b' = after_failures b ws in
      let (full, same) = after_failures-full b ws v i p a in
      let fits = within (length bytes) h.size k in
      let fits' = within (length buf) h'.size k' in
      (
        rw (fits, e, begin_refused now b' IoOperation.write d.chunk_id full, write) refl,
        rw
            (
              fits',
              e',
              on_data,
              ap (get d'.chunk_id) same ∙ g,
              begin_refused now b' IoOperation.read d'.chunk_id full,
              read,
            )
            refl,
      )
