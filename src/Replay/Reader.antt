-- ===== src/Replay/Reader.antt =====
-- crates/ghost-replay/src/reader.rs: reading a trace file. The reader stands at a position of the
-- file, and reads from what is left of it. `metadata` moves the cursor of the file that the buffered
-- reader shares, and is left out.
pub mod RoundTrip
pub mod Seeking
pub mod Errors
use ghost_pages.Common.{
  ℕ, zero, suc, ◌+◌, ◌-◌, Bool, true, false, not, ◌&&◌, Option, none, some, List, [], ◌∷◌, length,
  drop, ltb, leb, ◌==◌, if◌then◌else◌,
}
use ghost_pages.Core.Types.{Result, GhostError, GhostResult, ok, err, replay_error}
use ghost_pages.Core.Trace.{TraceEvent}
use ghost_pages.Common.Bytes.{Bytes}
use ghost_pages.Replay.Format.{
  TraceFileHeader, header_size, read_header, has_checksum, TraceRecord, read_record,
}
use ghost_pages.Replay.Writer.{Codec}

pub record TraceReader : Type 0 where
  pub file : Bytes
  pub position : ℕ
  pub header : TraceFileHeader
  pub current_index : ℕ
  pub header_bytes : ℕ

-- The reader behind what was read, `rest` being what is left.
unfoldable pub moved : TraceReader → Bytes → TraceReader
moved r rest = record r { position = length r.file - length rest }

unfoldable pub opened : Bytes → Bytes × GhostResult TraceFileHeader → GhostResult TraceReader
opened file (rest, err e) = err e
opened file (rest, ok header) = ok (record {
  file = file;
  position = length file - length rest;
  header = header;
  current_index = 0;
  header_bytes = header_size + 2 + length header.domains;
})

-- `TraceReader::open`, of a file that is there.
unfoldable pub open_trace : Bytes → GhostResult TraceReader
unfolding opened
open_trace file = opened file (read_header file)

module _ {F : Type 0} where
  unfoldable pub decoded :
      TraceReader → Option (TraceEvent F) → TraceReader × GhostResult (Option (TraceEvent F))
  decoded r none = (r, err replay_error)
  decoded r (some e) = (record r { current_index = r.current_index + 1 }, ok (some e))

  abbrev pub keep :
      TraceEvent F
      → TraceReader × GhostResult (List (TraceEvent F))
      → TraceReader × GhostResult (List (TraceEvent F))
  keep e (r, ok es) = (r, ok (e ∷ es))
  keep e (r, err x) = (r, err x)

  abbrev pub on_next :
      TraceReader × GhostResult (Option (TraceEvent F))
      → (TraceReader → TraceReader × GhostResult (List (TraceEvent F)))
      → TraceReader × GhostResult (List (TraceEvent F))
  on_next (r, err x) f = (r, err x)
  on_next (r, ok none) f = (r, ok [])
  on_next (r, ok (some e)) f = keep e (f r)

module _ {F : Type 0} (c : Codec F) where
  unfoldable pub checked :
      TraceReader → TraceRecord → TraceReader × GhostResult (Option (TraceEvent F))
  unfolding decoded
  checked r rec =
      if has_checksum r.header && not (c.crc32 rec.payload == rec.crc32)
      then (r, err replay_error)
      else decoded r (c.deserialize rec.payload)

  unfoldable pub on_record :
      TraceReader
      → Bytes × GhostResult (Option TraceRecord)
      → TraceReader × GhostResult (Option (TraceEvent F))
  on_record r (rest, err e) = (moved r rest, err e)
  on_record r (rest, ok none) = (moved r rest, err replay_error)
  on_record r (rest, ok (some rec)) = checked (moved r rest) rec

  unfoldable pub read_next : TraceReader → TraceReader × GhostResult (Option (TraceEvent F))
  unfolding on_record
  read_next r =
      if leb r.header.chunk_count r.current_index
      then (r, ok none)
      else on_record r (read_record (drop r.position r.file))

  -- The loop of `read_all`, on the number of rounds: one for each record that the header counts,
  -- and one that finds the end.
  unfoldable pub read_events : ℕ → TraceReader → TraceReader × GhostResult (List (TraceEvent F))
  read_events zero r = (r, ok [])
  read_events (suc n) r = on_next (read_next r) (λ r'. read_events n r')

  unfoldable pub read_all : TraceReader → TraceReader × GhostResult (List (TraceEvent F))
  read_all r = read_events (suc (r.header.chunk_count - r.current_index)) r

-- Back to the first record, if one was read.
unfoldable pub rewound : TraceReader → TraceReader
rewound r =
    if ltb 0 r.current_index then record r { position = r.header_bytes; current_index = 0 } else r

-- What the loop does with a record: it goes back before the first that is not older, and goes on
-- behind the others.
unfoldable pub on_sought :
    TraceReader
    → (timestamp : ℕ) → (TraceReader → TraceReader × GhostResult (Unit {0}))
    → Bytes × GhostResult (Option TraceRecord)
    → TraceReader × GhostResult (Unit {0})
on_sought r timestamp f (rest, err e) = (moved r rest, err e)
on_sought r timestamp f (rest, ok none) = (moved r rest, err replay_error)
on_sought r timestamp f (rest, ok (some rec)) =
    let r' = moved r rest in
    if leb timestamp rec.timestamp
    then (record r' { position = r'.position - (8 + 2 + 4 + length rec.payload + 4) }, ok tt)
    else f (record r' { current_index = r'.current_index + 1 })

-- The loop, on the number of records that are left.
unfoldable pub seek_loop : ℕ → TraceReader → (timestamp : ℕ) → TraceReader × GhostResult (Unit {0})
seek_loop zero r timestamp = (r, ok tt)
seek_loop (suc n) r timestamp =
    on_sought r timestamp (λ r'. seek_loop n r' timestamp) (read_record (drop r.position r.file))

unfoldable pub seek_to_timestamp : TraceReader → ℕ → TraceReader × GhostResult (Unit {0})
unfolding seek_loop rewound
seek_to_timestamp r timestamp =
    let r' = rewound r in seek_loop (r'.header.chunk_count - r'.current_index) r' timestamp
