-- ===== src/Tier/Sim/Steps.antt =====
-- What one call of the simulated tier keeps.
use Prim.Native.String.{String}
use ghost_pages.Common.{
  ℕ, ◌+◌, ◌%◌, ◌^◌, ◌<◌, ◌≤◌, ◌≡◌, refl, sym, ap, subst, ◌∙◌, Bool, false, List, some, length, leb,
  ltb, ◌==◌, nat_ord, arith, Bool-cases, Option-cases, inl, inr,
}
use ghost_pages.Common.BTreeMap.{get, contains_key, get-insert_self, length-insert_new}
use ghost_pages.Common.BTreeMap.Counting.{length-remove}
use ghost_pages.Core.Types.{ChunkId, simulation, Result, ok, err}
use ghost_pages.Core.IoScheduler.{IoOperation, IoScheduler, new_request, issue, pending_count}
use ghost_pages.Core.IoScheduler.Accounts.{IsAccounted, issue-IsAccounted, complete-IsAccounted}
use ghost_pages.Tier.Backend.{Allocation}
use ghost_pages.Tier.Ram.{minus}
use ghost_pages.Tier.Sim.Metrics.{plus}
use ghost_pages.Tier.Sim.{
  SimConfig, SimBackend, delayed, failed, settle, effective_available, allocate, deallocate, write,
  found, read,
}

-- Nothing is pending, the books of the scheduler are in order with room for a request, and what is
-- in use is what was allocated less what was given back.
pub record IsSettled (b : SimBackend) : Type 0 where
  pub accounted : IsAccounted b.io_scheduler
  pub idle : pending_count b.io_scheduler ≡ 0
  pub room : 0 < b.io_scheduler.max_pending
  pub word : b.used < 2 ^ 64
  pub balanced : plus b.used b.metrics.bytes_deallocated ≡ b.metrics.bytes_allocated % 2 ^ 64

-- A request that is issued on an idle scheduler and ends leaves it idle.
module _ (now now' : ℕ) (s : IoScheduler) (operation : IoOperation) (c : ChunkId)
    (x : Result String (Unit {0})) (v : IsAccounted s) (idle : pending_count s ≡ 0)
    (room : 0 < s.max_pending) (ids : s.next_id + 1 < 2 ^ 64) where
  abbrev served : IoScheduler
  served = settle now' (issue now s operation c simulation).0 s.next_id x

  issue_accepted :
      issue now s operation c simulation ≡ ((issue now s operation c simulation).0, ok s.next_id)
  unfolding issue pending_count
  issue_accepted =
      let free : leb s.max_pending (length s.pending) ≡ false =
        below (length s.pending) s.max_pending (omega arith) in
      rw (free, issue) refl
    where
      below : (a b : ℕ) → a < b → leb b a ≡ false
      below a b h = ground arith

  served-IsAccounted :
      IsAccounted served
      × (pending_count served ≡ 0)
      × (served.max_pending ≡ s.max_pending)
      × (served.next_id ≡ s.next_id + 1)
  unfolding issue pending_count settle
  served-IsAccounted =
      let free : leb s.max_pending (length s.pending) ≡ false =
        below (length s.pending) s.max_pending (omega arith) in
      let r = new_request now s.next_id operation c simulation in
      let s1 = (issue now s operation c simulation).0 in
      let w = issue-IsAccounted now s operation c simulation v ids in
      let g : get s.next_id s1.pending ≡ some r =
        rw (free, issue) (get-insert_self s.next_id r s.pending) in
      let n : length s1.pending ≡ length s.pending + 1 =
        rw (free, issue)
          (length-insert_new s.next_id r s.pending (v.fresh s.next_id (omega arith))) in
      let k = complete-IsAccounted now' s1 s.next_id x r g w in
      let i : s1.next_id ≡ s.next_id + 1 = rw (free, issue) (omega arith) in
      let m : s1.max_pending ≡ s.max_pending = rw (free, issue) refl in
      rw (k.0, settle)
        (k.1, omega (arith, length-remove s.next_id r s1.pending w.sorted g, n), m, i)
    where
      below : (a b : ℕ) → a < b → leb b a ≡ false
      below a b h = ground arith

-- A step from one backend to the next that keeps all this and gives out one id at most.
pub record Keeps (b b' : SimBackend) : Type 0 where
  pub settled : IsSettled b'
  pub ids : b'.io_scheduler.next_id ≤ b.io_scheduler.next_id + 1

pub Keeps-books :
    (b b' : SimBackend)
    → IsSettled b
    → b'.io_scheduler ≡ b.io_scheduler
    → b'.used < 2 ^ 64
    → plus b'.used b'.metrics.bytes_deallocated ≡ b'.metrics.bytes_allocated % 2 ^ 64
    → Keeps b b'
Keeps-books b b' v e w q = record {
  settled = record {
    accounted = subst IsAccounted (sym e) v.accounted;
    idle = ap pending_count e ∙ v.idle;
    room = rw e v.room;
    word = w;
    balanced = q;
  };
  ids = rw e (omega arith);
}

Keeps-served :
    (now now' : ℕ) (operation : IoOperation) (c : ChunkId) (x : Result String (Unit {0}))
    (b b' : SimBackend)
    → (v : IsSettled b) → b.io_scheduler.next_id + 1 < 2 ^ 64
    → b'.io_scheduler
      ≡ settle now' (issue now b.io_scheduler operation c simulation).0 b.io_scheduler.next_id x
    → b'.used ≡ b.used
    → b'.metrics.bytes_deallocated ≡ b.metrics.bytes_deallocated
    → b'.metrics.bytes_allocated ≡ b.metrics.bytes_allocated
    → Keeps b b'
Keeps-served now now' operation c x b b' v i e u d a =
    let s = served-IsAccounted now now' b.io_scheduler operation c x v.accounted v.idle v.room i in
    record {
      settled = record {
        accounted = subst IsAccounted (sym e) s.0;
        idle = ap pending_count e ∙ s.1;
        room = rw (e, s.2) v.room;
        word = rw u v.word;
        balanced = rw (u, d, a) v.balanced;
      };
      ids = rw (e, s.3) (omega arith);
    }

pub allocate-Keeps :
    (cfg : SimConfig) (us : ℕ) (fails : Bool) (b : SimBackend) (size : ℕ)
    → IsSettled b
    → Keeps b (allocate cfg us fails b size).0
unfolding allocate
allocate-Keeps cfg us fails b size v =
    let b' = delayed us b in
    let free = effective_available cfg b' in
    elim (Bool-cases (size == 0)) [
      | inl e ↦ rw (e, allocate) (Keeps-books b b v refl v.word v.balanced)
      | inr e ↦ elim (Bool-cases fails) [
        | inl f ↦ rw (e, f, allocate) (Keeps-books b (failed b') v refl v.word v.balanced)
        | inr f ↦ elim (Bool-cases (ltb free size)) [
          | inl g ↦ rw (e, f, g, allocate) (Keeps-books b b' v refl v.word v.balanced)
          | inr g ↦
              rw (e, f, g, allocate)
                (Keeps-books b _ v refl (omega arith) (
                  both b.used b.metrics.bytes_deallocated b.metrics.bytes_allocated size
                    v.balanced))
        ]
      ]
    ]
  where
    both : (u d a n : ℕ) → plus u d ≡ a % 2 ^ 64 → plus (plus u n) d ≡ plus a n % 2 ^ 64
    both u d a n e = omega arith

pub deallocate-Keeps :
    (us : ℕ) (b : SimBackend) (a : Allocation)
    → IsSettled b
    → a.size < 2 ^ 64
    → Keeps b (deallocate us b a).0
unfolding deallocate
deallocate-Keeps us b a v h = elim (Bool-cases (contains_key a.offset b.allocated_offsets)) [
  | inl e ↦
      rw (e, deallocate)
        (Keeps-books b _ v refl (omega arith) (
          back b.used b.metrics.bytes_deallocated b.metrics.bytes_allocated a.size v.word h
            v.balanced))
  | inr e ↦ rw (e, deallocate) (Keeps-books b (delayed us b) v refl v.word v.balanced)
]
  where
    back :
        (u d a n : ℕ)
        → u < 2 ^ 64
        → n < 2 ^ 64
        → plus u d ≡ a % 2 ^ 64
        → plus (minus u n) (plus d n) ≡ a % 2 ^ 64
    back u d a n h k e = omega arith

module _ (cfg : SimConfig) (chunk_of : ℕ → ChunkId) where
  pub write-Keeps :
      (now now' us : ℕ) (fails : Bool) (b : SimBackend) (a : Allocation) (bytes : List ℕ)
      → IsSettled b
      → b.io_scheduler.next_id + 1 < 2 ^ 64
      → Keeps b (write cfg chunk_of now now' us fails b a bytes).0
  unfolding write
  write-Keeps now now' us fails b a bytes v i =
      let s = b.io_scheduler in
      let c = chunk_of a.offset in
      let begun =
        issue_accepted now now' s IoOperation.write c (ok tt) v.accounted v.idle v.room i in
      elim (Bool-cases (ltb a.size (length bytes))) [
        | inl e ↦ rw (e, write) (Keeps-books b b v refl v.word v.balanced)
        | inr e ↦ elim (Bool-cases fails) [
          | inl f ↦
              rw (e, begun, f, write)
                (Keeps-served now now' IoOperation.write c (err "simulated write failure") b _ v i
                  refl refl refl refl)
          | inr f ↦
              rw (e, begun, f, write)
                (Keeps-served now now' IoOperation.write c (ok tt) b _ v i refl refl refl refl)
        ]
      ]

  pub read-Keeps :
      (now now' us : ℕ) (fails : Bool) (b : SimBackend) (a : Allocation) (buf : List ℕ)
      → IsSettled b
      → b.io_scheduler.next_id + 1 < 2 ^ 64
      → Keeps b (read cfg chunk_of now now' us fails b a buf).0
  unfolding read found
  read-Keeps now now' us fails b a buf v i =
      let s = b.io_scheduler in
      let c = chunk_of a.offset in
      let serve = λ (x : Result String (Unit {0})) (b' : SimBackend).
        Keeps-served now now' IoOperation.read c x b b' v i in
      let begun =
        issue_accepted now now' s IoOperation.read c (ok tt) v.accounted v.idle v.room i in
      elim (Bool-cases (ltb a.size (length buf))) [
        | inl e ↦ rw (e, read) (Keeps-books b b v refl v.word v.balanced)
        | inr e ↦ elim (Bool-cases fails) [
          | inl f ↦
              rw (e, begun, f, read) (serve (err "simulated read failure") _ refl refl refl refl)
          | inr f ↦ elim (Option-cases (get a.offset b.storage)) [
            | inl g ↦
                rw (e, begun, f, read, g, found)
                  (serve (err "allocation not found") _ refl refl refl refl)
            | inr (bytes, g) ↦
                rw (e, begun, f, read, g, found) (serve (ok tt) _ refl refl refl refl)
          ]
        ]
      ]
