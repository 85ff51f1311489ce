-- ===== src/Tests/IoScheduler.antt =====
-- The I/O scheduler, with a completion of an id that is not pending at the end.
use ghost_pages.Common.{List, [], ◌∷◌, arith}
use ghost_pages.Core.Types.{disk, ok, err}
use ghost_pages.Core.IoScheduler.{new, read, write, Call, issues, completes, flushes}
use ghost_pages.Core.IoScheduler.Histories.{Ends, new-Ends}

abbrev calls : List Call
calls =
    issues 1 read 7 disk
    ∷ issues 2 write 8 disk
    ∷ completes 5 1 (err "lost")
    ∷ flushes 6 7
    ∷ completes 9 2 (ok tt)
    ∷ []

new-Ends_example : Ends (new 4) calls
new-Ends_example = new-Ends 4 calls (omega arith)
