-- ===== src/Tier/ChunkFile/RoundTrip.antt =====
-- A chunk that was written is read back; what is read has the expected hash.
use ghost_pages.Common.{
  ℕ, ◌+◌, ◌%◌, ◌^◌, ◌<◌, ◌≡◌, ◌≢◌, refl, sym, ap, ◌∙◌, true, false, [], ◌∷◌, ◌++◌, Option, none,
  some, length, take, drop, ltb, ◌==◌, if◌then◌else◌, nat_ord, arith, length-append, take_all,
  Bool-cases, Option-cases, inl, inr, ltb,
}
use mathlib.Core.List.{append_assoc}
use ghost_pages.Common.Suffix.{drop-drop}
use ghost_pages.Common.Bytes.{
  Bytes, bytes_eqb, bytes_eqb_iff, to_le_bytes, from_le_bytes, length-to_le_bytes,
  take-append_length, drop-append_length, from_le_bytes-to_le_bytes,
}
use ghost_pages.Common.BTreeMap.{BTreeMap, get, get-insert_self, get-insert}
use ghost_pages.Core.Types.{ChunkId, ok, err}
use ghost_pages.Core.Meta.{CompressionAlgorithm, uncompressed, zstd}
use ghost_pages.Tier.Backend.{read_failed}
use ghost_pages.Tier.ChunkFile.{
  Libraries, IsReliable, chunk_magic, chunk_version, header_size, algorithm_byte, header_of, field,
  compress, decompress, store, write_chunk, verified, unpack, parse, read_chunk,
}

-- A field of a known width, and what stands behind it.
past :
    (at width : ℕ) (file mid rest : Bytes)
    → drop at file ≡ mid ++ rest
    → length mid ≡ width
    → (take width (drop at file) ≡ mid) × (drop (at + width) file ≡ rest)
past at width file mid rest e h = (
  ap (take width) e ∙ ap (λ n. take n (mid ++ rest)) (sym h) ∙ take-append_length mid rest,
  sym (drop-drop width at file)
      ∙ ap (drop width) e
      ∙ ap (λ n. drop n (mid ++ rest)) (sym h)
      ∙ drop-append_length mid rest,
)

not_below : (a b k : ℕ) → a ≡ b + k → ltb a b ≡ false
not_below a b k e = ground arith

others : (i j : ℕ) → i ≢ j → (j == i) ≡ false
others i j d = ground arith

-- A file and its fields.
record IsFileOf (bytes content_hash compressed : Bytes) (algorithm : CompressionAlgorithm)
    (file : Bytes) : Type 0 where
  magic : take 8 file ≡ chunk_magic
  version : from_le_bytes (field 8 2 file) ≡ chunk_version
  original_size : from_le_bytes (field 42 4 file) ≡ length bytes % 2 ^ 32
  compressed_size : from_le_bytes (field 46 4 file) ≡ length compressed % 2 ^ 32
  algorithm_field : from_le_bytes (field 50 1 file) ≡ algorithm_byte algorithm
  payload : drop header_size file ≡ compressed
  total : length file ≡ header_size + length compressed

pub length-header_of :
    (bytes content_hash compressed : Bytes) (algorithm : CompressionAlgorithm)
    → length content_hash ≡ 32
    → length (header_of bytes content_hash compressed algorithm) ≡ header_size
unfolding header_of
length-header_of bytes content_hash compressed algorithm h =
    let n = to_le_bytes 4 (length bytes % 2 ^ 32) in
    let m = to_le_bytes 4 (length compressed % 2 ^ 32) in
    let v = to_le_bytes 2 chunk_version in
    let a = algorithm_byte algorithm ∷ [] in
    omega (
      arith,
      length-append v (content_hash ++ (n ++ (m ++ a))),
      length-append content_hash (n ++ (m ++ a)),
      length-append n (m ++ a),
      length-append m a,
      length-to_le_bytes 4 (length bytes % 2 ^ 32),
      length-to_le_bytes 4 (length compressed % 2 ^ 32),
      length-to_le_bytes 2 chunk_version,
      h,
    )

-- The header in front of the compressed data, bracketed to the right.
spread :
    (bytes content_hash compressed : Bytes) (algorithm : CompressionAlgorithm)
    → header_of bytes content_hash compressed algorithm ++ compressed
      ≡ chunk_magic
        ++ (to_le_bytes 2 chunk_version
            ++ (content_hash
                ++ (to_le_bytes 4 (length bytes % 2 ^ 32)
                    ++ (to_le_bytes 4 (length compressed % 2 ^ 32)
                        ++ algorithm_byte algorithm ∷ compressed))))
unfolding header_of
spread bytes content_hash compressed algorithm = simp (append_assoc)

header_of-IsFileOf :
    (bytes content_hash compressed : Bytes) (algorithm : CompressionAlgorithm)
    → length content_hash ≡ 32
    → IsFileOf bytes content_hash compressed algorithm
        (header_of bytes content_hash compressed algorithm ++ compressed)
header_of-IsFileOf bytes content_hash compressed algorithm h =
    let file = header_of bytes content_hash compressed algorithm ++ compressed in
    let n = length bytes % 2 ^ 32 in
    let m = length compressed % 2 ^ 32 in
    let a = algorithm_byte algorithm in
    let e = spread bytes content_hash compressed algorithm in
    let at5 = a ∷ compressed in
    let at4 = to_le_bytes 4 m ++ at5 in
    let at3 = to_le_bytes 4 n ++ at4 in
    let p1 =
      past 0 8 file chunk_magic (to_le_bytes 2 chunk_version ++ (content_hash ++ at3)) e refl in
    let p2 =
      past 8 2 file (to_le_bytes 2 chunk_version) (content_hash ++ at3) p1.1
        (length-to_le_bytes 2 1) in
    let p3 = past 10 32 file content_hash at3 p2.1 h in
    let p4 = past 42 4 file (to_le_bytes 4 n) at4 p3.1 (length-to_le_bytes 4 n) in
    let p5 = past 46 4 file (to_le_bytes 4 m) at5 p4.1 (length-to_le_bytes 4 m) in
    let p6 = past 50 1 file (a ∷ []) compressed p5.1 refl in
    record {
      magic = p1.0;
      version = ap from_le_bytes p2.0 ∙ from_le_bytes-to_le_bytes 2 1 (omega arith);
      original_size = ap from_le_bytes p4.0 ∙ from_le_bytes-to_le_bytes 4 n (omega arith);
      compressed_size = ap from_le_bytes p5.0 ∙ from_le_bytes-to_le_bytes 4 m (omega arith);
      algorithm_field = ap from_le_bytes p6.0 ∙ single a;
      payload = p6.1;
      total =
          length-append (header_of bytes content_hash compressed algorithm) compressed
          ∙ ap (λ k. k + length compressed)
              (length-header_of bytes content_hash compressed algorithm h);
    }
  where
    single : (a : ℕ) → from_le_bytes (a ∷ []) ≡ a
    single a = unfold from_le_bytes in omega arith

module _ (l : Libraries) where
  -- The checks of the header pass.
  parse-file :
      (bytes content_hash compressed expected file : Bytes) (algorithm : CompressionAlgorithm)
      → IsFileOf bytes content_hash compressed algorithm file
      → parse l file expected ≡ unpack l file expected algorithm
  unfolding parse
  parse-file bytes content_hash compressed expected file algorithm f =
      let long : ltb (length file) header_size ≡ false =
        not_below (length file) header_size (length compressed) f.total in
      let genuine : bytes_eqb (take 8 file) chunk_magic ≡ true =
        (bytes_eqb_iff (take 8 file) chunk_magic).1 f.magic in
      rw (long, genuine, f.version, f.algorithm_field, parse) (by_algorithm algorithm)
    where
      by_algorithm :
          (algorithm : CompressionAlgorithm)
          → (if algorithm_byte algorithm == 0
              then unpack l file expected uncompressed
              else if algorithm_byte algorithm == 1
              then unpack l file expected zstd
              else some (err read_failed))
            ≡ unpack l file expected algorithm
      by_algorithm uncompressed = unfold algorithm_byte in refl
      by_algorithm zstd = unfold algorithm_byte in refl

  restored :
      IsReliable l
      → (bytes packed : Bytes) (algorithm : CompressionAlgorithm)
      → compress l bytes algorithm ≡ some packed
      → decompress l packed algorithm (length bytes) ≡ some bytes
  unfolding compress decompress
  restored v bytes packed uncompressed e = sym e
  restored v bytes packed zstd e = v.restores bytes packed (length bytes) e (omega arith)

  unpack-file :
      IsReliable l
      → (bytes content_hash packed file : Bytes) (algorithm : CompressionAlgorithm)
      → compress l bytes algorithm ≡ some packed
      → length bytes < 2 ^ 32
      → length packed < 2 ^ 32
      → IsFileOf bytes content_hash packed algorithm file
      → unpack l file (l.hash bytes) algorithm ≡ some (ok bytes)
  unfolding unpack verified
  unpack-file v bytes content_hash packed file algorithm e hb hp f =
      let n : from_le_bytes (field 42 4 file) ≡ length bytes = omega (arith, f.original_size) in
      let m : from_le_bytes (field 46 4 file) ≡ length packed = omega (arith, f.compressed_size) in
      let long : ltb (length file) (header_size + length packed) ≡ false =
        not_below (length file) (header_size + length packed) 0 (omega (arith, f.total)) in
      let all_of : take (length packed) packed ≡ packed = take_all packed in
      let same : bytes_eqb (l.hash bytes) (l.hash bytes) ≡ true =
        (bytes_eqb_iff (l.hash bytes) (l.hash bytes)).1 refl in
      rw (n, m, long, f.payload, unpack, all_of, restored v bytes packed algorithm e, same) refl

  -- A chunk of less than four gigabytes, before and after compression, is stored in the space of
  -- its header and its compressed data and is read back; the other chunks' files are as they were.
  pub read_chunk-write_chunk :
      IsReliable l
      → (files : BTreeMap ChunkId Bytes) (id other : ChunkId) (bytes packed : Bytes)
      → (algorithm : CompressionAlgorithm) (expected : Bytes)
      → compress l bytes algorithm ≡ some packed
      → length bytes < 2 ^ 32
      → length packed < 2 ^ 32
      → id ≢ other
      → let w = write_chunk l files id bytes (l.hash bytes) algorithm in
        (w.1 ≡ ok (header_size + length packed))
        × (read_chunk l w.0 id (l.hash bytes) ≡ some (ok bytes))
        × (read_chunk l w.0 other expected ≡ read_chunk l files other expected)
  unfolding write_chunk store read_chunk
  read_chunk-write_chunk v files id other bytes packed algorithm expected e hb hp d =
      let h = l.hash bytes in
      let f = header_of-IsFileOf bytes h packed algorithm (v.hash_length bytes) in
      let file = header_of bytes h packed algorithm ++ packed in
      let apart : (other == id) ≡ false = others id other d in
      (
        rw (e, write_chunk, store)
            (ap (λ k. ok (k + length packed))
              (length-header_of bytes h packed algorithm (v.hash_length bytes))),
        rw (e, write_chunk, store, read_chunk, get-insert_self)
            (parse-file bytes h packed h file algorithm f
              ∙ unpack-file v bytes h packed file algorithm e hb hp f),
        rw (e, write_chunk, store, read_chunk, get-insert, apart) refl,
      )

  verified-hash :
      (expected bytes : Bytes) (o : Option Bytes)
      → verified l expected o ≡ ok bytes
      → l.hash bytes ≡ expected
  unfolding verified
  verified-hash expected bytes none e = ground arith
  verified-hash expected bytes (some b) e = elim (Bool-cases (bytes_eqb (l.hash b) expected)) [
    | inl q ↦ ground (arith, (bytes_eqb_iff (l.hash b) expected).0 q)
    | inr q ↦ ground arith
  ]

  unpack-hash :
      (file expected bytes : Bytes) (algorithm : CompressionAlgorithm)
      → unpack l file expected algorithm ≡ some (ok bytes)
      → l.hash bytes ≡ expected
  unfolding unpack
  unpack-hash file expected bytes algorithm e =
      let n = from_le_bytes (field 42 4 file) in
      let m = from_le_bytes (field 46 4 file) in
      let o = decompress l (field header_size m file) algorithm n in
      grind (arith, verified-hash expected bytes o)

  parse-hash :
      (file expected bytes : Bytes)
      → parse l file expected ≡ some (ok bytes)
      → l.hash bytes ≡ expected
  unfolding parse
  parse-hash file expected bytes e =
      grind
        (arith, unpack-hash file expected bytes uncompressed, unpack-hash file expected bytes zstd)

  -- Whatever the files hold, what is read has the hash that was asked for.
  pub read_chunk-hash :
      (files : BTreeMap ChunkId Bytes) (id : ChunkId) (expected bytes : Bytes)
      → read_chunk l files id expected ≡ some (ok bytes)
      → l.hash bytes ≡ expected
  unfolding read_chunk
  read_chunk-hash files id expected bytes e = elim (Option-cases (get id files)) [
    | inl q ↦ ground arith
    | inr (file, q) ↦ parse-hash file expected bytes (ground arith)
  ]
