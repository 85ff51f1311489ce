-- ===== src/Tier/ChunkFile.antt =====
-- crates/ghost-tier/src/disk_persistence.rs and crates/ghost-compress/src/engine.rs: the files that
-- hold the chunks of the disk tier. blake3 and zstd are parameters. The path of a file is one to one
-- with the id of its chunk, so files are kept by id. Of the file system's errors only the missing
-- file is modelled; a temporary file is renamed at once.
pub mod RoundTrip
use ghost_pages.Common.{
  ℕ, ◌+◌, ◌*◌, ◌%◌, ◌^◌, ◌≤◌, ◌≡◌, Bool, true, false, not, List, [], ◌∷◌, ◌++◌, Option, none, some,
  length, take, drop, ltb, ◌==◌, if◌then◌else◌, nat_ord,
}
use ghost_pages.Common.Bytes.{Bytes, bytes_eqb, to_le_bytes, from_le_bytes}
use ghost_pages.Common.BTreeMap.{BTreeMap, get, insert, remove}
use ghost_pages.Core.Types.{ChunkId, Result, ok, err}
use ghost_pages.Core.Meta.{CompressionAlgorithm, uncompressed, zstd}
use ghost_pages.Tier.Backend.{BackendError, write_failed, read_failed, integrity_failed}

-- What the libraries offer: `zstd::bulk` at level 3, where the second argument of `decompress` is
-- the largest result, and `blake3::hash`.
pub record Libraries : Type 0 where
  pub compress : Bytes → Option Bytes
  pub decompress : Bytes → ℕ → Option Bytes
  pub hash : Bytes → Bytes

-- What is documented of them: what was compressed is decompressed again where there is room for it,
-- and a hash has 32 bytes.
pub record IsReliable (l : Libraries) : Type 0 where
  pub restores :
      (bytes packed : Bytes) (room : ℕ)
      → l.compress bytes ≡ some packed
      → length bytes ≤ room
      → l.decompress packed room ≡ some bytes
  pub hash_length : (bytes : Bytes) → length (l.hash bytes) ≡ 32

-- `b"GHOSTBLK"`.
abbrev pub chunk_magic : Bytes
chunk_magic = 0x47 ∷ 0x48 ∷ 0x4f ∷ 0x53 ∷ 0x54 ∷ 0x42 ∷ 0x4c ∷ 0x4b ∷ []

abbrev pub chunk_version : ℕ
chunk_version = 1

abbrev pub header_size : ℕ
header_size = 51

unfoldable pub algorithm_byte : CompressionAlgorithm → ℕ
algorithm_byte uncompressed = 0
algorithm_byte zstd = 1

unfoldable pub number : ℕ → Bytes → ℕ
number acc [] = acc
number acc (b ∷ bs) = number (acc * 256 + b) bs

unfoldable pub header_of : Bytes → Bytes → Bytes → CompressionAlgorithm → Bytes
header_of bytes content_hash compressed algorithm =
    chunk_magic
    ++ (to_le_bytes 2 chunk_version
        ++ (content_hash
            ++ (to_le_bytes 4 (length bytes % 2 ^ 32)
                ++ (to_le_bytes 4 (length compressed % 2 ^ 32) ++ algorithm_byte algorithm ∷ []))))

-- The bytes of a file from `at` on.
abbrev pub field : (at width : ℕ) → Bytes → Bytes
field at width file = take width (drop at file)

module _ (l : Libraries) where
  -- `ChunkId::from_data`.
  unfoldable pub from_data : Bytes → ChunkId
  unfolding number
  from_data bytes = number 0 (l.hash bytes)

  -- `ghost_compress::compress` and `decompress`.
  unfoldable pub compress : Bytes → CompressionAlgorithm → Option Bytes
  compress bytes uncompressed = some bytes
  compress bytes zstd = l.compress bytes

  unfoldable pub decompress : Bytes → CompressionAlgorithm → ℕ → Option Bytes
  decompress bytes uncompressed expected_size = some bytes
  decompress bytes zstd expected_size = l.decompress bytes expected_size

  unfoldable pub store :
      BTreeMap ChunkId Bytes
      → ChunkId
      → Bytes
      → Bytes
      → CompressionAlgorithm
      → Option Bytes
      → BTreeMap ChunkId Bytes × Result BackendError ℕ
  store files id bytes content_hash algorithm none = (files, err write_failed)
  store files id bytes content_hash algorithm (some compressed) =
      let header = header_of bytes content_hash compressed algorithm in
      (insert id (header ++ compressed) files, ok (length header + length compressed))

  -- The files after the call, and the space that the chunk takes.
  unfoldable pub write_chunk :
      BTreeMap ChunkId Bytes
      → ChunkId
      → Bytes
      → Bytes
      → CompressionAlgorithm
      → BTreeMap ChunkId Bytes × Result BackendError ℕ
  unfolding store compress
  write_chunk files id bytes content_hash algorithm =
      store files id bytes content_hash algorithm (compress bytes algorithm)

  unfoldable pub verified : Bytes → Option Bytes → Result BackendError Bytes
  verified expected_hash none = err read_failed
  verified expected_hash (some bytes) =
      if bytes_eqb (l.hash bytes) expected_hash then ok bytes else err integrity_failed

  -- The slice of the compressed data panics where the file is shorter than it says: `none`.
  unfoldable pub unpack : Bytes → Bytes → CompressionAlgorithm → Option (Result BackendError Bytes)
  unfolding verified decompress
  unpack file expected_hash algorithm =
      let original_size = from_le_bytes (field 42 4 file) in
      let compressed_size = from_le_bytes (field 46 4 file) in
      if ltb (length file) (header_size + compressed_size)
      then none
      else some (
          verified expected_hash
            (decompress (field header_size compressed_size file) algorithm original_size))

  unfoldable pub parse : Bytes → Bytes → Option (Result BackendError Bytes)
  unfolding unpack
  parse file expected_hash =
      let algorithm = from_le_bytes (field 50 1 file) in
      if ltb (length file) header_size
      then some (err read_failed)
      else if not (bytes_eqb (take 8 file) chunk_magic)
      then some (err read_failed)
      else if not (from_le_bytes (field 8 2 file) == chunk_version)
      then some (err read_failed)
      else if algorithm == 0
      then unpack file expected_hash uncompressed
      else if algorithm == 1
      then unpack file expected_hash zstd
      else some (err read_failed)

  unfoldable pub read_chunk :
      BTreeMap ChunkId Bytes → ChunkId → Bytes → Option (Result BackendError Bytes)
  unfolding parse
  read_chunk files id expected_hash = elim (get id files) [
    | none ↦ some (err read_failed)
    | some file ↦ parse file expected_hash
  ]

-- `fs::remove_file`, where the file is there.
unfoldable pub delete_chunk : BTreeMap ChunkId Bytes → ChunkId → BTreeMap ChunkId Bytes
delete_chunk files id = remove id files
