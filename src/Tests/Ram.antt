-- ===== src/Tests/Ram.antt =====
-- The RAM tier, after one of three allocations was given back.
use ghost_pages.Common.{ℕ, ◌≡◌, refl, List, [], ◌∷◌, arith}
use ghost_pages.Core.Types.{ok}
use ghost_pages.Tier.Backend.{Allocation}
use ghost_pages.Tier.Ram.{RamBackend, new, allocate, write, read, verify_integrity}
use ghost_pages.Tier.Ram.Access.{write-read}

abbrev at : ℕ → ℕ → Allocation
at offset size = record { offset = offset; size = size }

abbrev some_bytes : List ℕ
some_bytes = 1 ∷ 2 ∷ []

write-read_example :
    let r = write (new 16) (at 0 4) some_bytes in
    (r.1 ≡ ok tt)
    × (read r.0 (at 0 4) (0 ∷ 0 ∷ []) ≡ ok some_bytes)
    × (verify_integrity (λ xs. 5) r.0 (at 0 4) 5 ≡ ok tt)
    × (read r.0 (at 4 4) (0 ∷ []) ≡ read (new 16) (at 4 4) (0 ∷ []))
write-read_example =
    write-read (new 16) (at 0 4) (at 4 4) some_bytes (0 ∷ 0 ∷ []) (0 ∷ []) (λ xs. 5) (omega arith)
      refl (omega arith)

abbrev first : RamBackend
first = (allocate (new 16) 4).0

abbrev second : RamBackend
second = (allocate first 8).0
