-- ===== src/Core/Dma/Polling.antt =====
-- Polling hands over exactly the finished transfers.
use ghost_pages.Common.{ℕ, ◌≡◌, ap, not, List, ◌++◌, map, filter, nat_ord}
use ghost_pages.Common.BTreeMap.{BTreeMap}
use ghost_pages.Common.BTreeMap.Sorted.{Sorted, keys, values, remove_each-filter}
use ghost_pages.Core.Dma.{DmaTransfer, DmaPipeline, queue_dequeue, terminal, poll}

module _ {S : Type 0} where
  -- From a pipeline whose transfers stand in the order of their ids, a poll hands over exactly
  -- those in a terminal stage, in that order, keeps exactly the others, and announces each id that
  -- it hands over.
  pub poll_lem :
      (p : DmaPipeline S)
      → Sorted p.transfers
      → poll p ≡ (
        record p {
          transfers = filter (λ e. not (terminal e)) p.transfers;
          emitted = p.emitted ++ map queue_dequeue (keys (filter terminal p.transfers));
        },
        values (filter terminal p.transfers),
      )
  unfolding poll
  poll_lem p s =
      ap
        (λ (r : BTreeMap ℕ (DmaTransfer S) × List (DmaTransfer S)). (
          record p {
            transfers = r.0;
            emitted = p.emitted ++ map queue_dequeue (keys (filter terminal p.transfers));
          },
          r.1,
        ))
        (remove_each-filter terminal p.transfers s)
