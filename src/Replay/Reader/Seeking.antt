-- ===== src/Replay/Reader/Seeking.antt =====
-- Seeking by time, and where the reader goes back to.
use ghost_pages.Common.{ℕ, List, [], ◌∷◌, leb, if◌then◌else◌}
use ghost_pages.Core.Trace.{TraceEvent, timestamp}
use ghost_pages.Common.Bytes.{Bytes}

-- The events from the first on that is not older.
abbrev pub from_time : {F : Type 0} → ℕ → List (TraceEvent F) → List (TraceEvent F)
from_time t [] = []
from_time t (e ∷ es) = let later = from_time t es in if leb t (timestamp e) then e ∷ es else later
