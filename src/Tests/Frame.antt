-- ===== src/Tests/Frame.antt =====
-- Frames, with bytes of a next frame behind them.
use ghost_pages.Common.{ℕ, ◌≡◌, List, [], ◌∷◌, ◌++◌, map, arith}
use ghost_pages.Core.Types.{ok}
use ghost_pages.Ipc.Frame.{max_frame_size, write_frames, read_frames}
use ghost_pages.Ipc.Frame.RoundTrip.{read_frames-write_frames}

abbrev frames : List (List ℕ)
frames = (7 ∷ 8 ∷ []) ∷ [] ∷ (1 ∷ []) ∷ []

read_frames-write_frames_example :
    read_frames frames (write_frames frames ++ 9 ∷ []) ≡ (9 ∷ [], map (λ f. ok f) frames)
unfolding max_frame_size
read_frames-write_frames_example =
    read_frames-write_frames frames (9 ∷ []) (omega arith, (omega arith, (omega arith, tt)))
