-- ===== src/Segment.antt =====
-- embedding-store/src/segment.rs: the segment that is being appended to.
-- `writer` is a `BufWriter`: `file` is what has reached the file and `buffer` what has not. The
-- operating system is the parameter `Disk`: how many of the bytes handed over it takes before it
-- reports an error, and whether it cuts, syncs, opens and removes a file. A file's position is its end, and a `seek`
-- does not fail.
pub mod Log
pub mod Rewind
use embedding_processing_rs.Base.{
  ℕ, ◌+◌, ◌-◌, ◌≤◌, Bool, true, false, Option, none, some, List, [], ◌++◌, ltb, leb, length, take,
  drop, replicate, Result, ok, err, if◌then◌else◌,
}
use embedding_processing_rs.Base.Action.{Action, pure, raise, lift, gets, modify, ◌>>=◌, ◌>>◌}
use embedding_processing_rs.Errors.{Error, io, past_end}
use embedding_processing_rs.Replay.{or_else}

pub record Disk : Type 0 where
  -- file contents, bytes to write
  pub accepts : List ℕ → List ℕ → ℕ
  -- file contents, new length
  pub can_cut : List ℕ → ℕ → Bool
  pub can_sync : List ℕ → Bool
  -- segment id
  pub can_open : ℕ → Bool
  -- up to the rename, and the sync of the directory behind it
  pub can_store_manifest : Bool
  pub can_sync_manifest : Bool
  pub can_store_snapshot : Bool
  pub can_sync_snapshot : Bool
  -- segment id
  pub can_remove : ℕ → Bool
  pub can_remove_snapshot : Bool

pub record ActiveSegment : Type 0 where
  pub id : ℕ
  pub file : List ℕ
  pub buffer : List ℕ
  pub len : ℕ
  pub first_seq : Option ℕ
  pub last_seq : ℕ
  pub unflushed : Bool

-- The capacity of a `BufWriter`.
abbrev pub buf_capacity : ℕ
buf_capacity = 8192

-- `ActiveSegment::open` on a file with these bytes.
abbrev pub open_segment : ℕ → List ℕ → ActiveSegment
open_segment id bytes = record {
  id = id;
  file = bytes;
  buffer = [];
  len = length bytes;
  first_seq = none;
  last_seq = 0;
  unflushed = false;
}

module _ (disk : Disk) where
  -- `File::write_all`: on an error a part of the bytes is in the file.
  unfoldable pub file_write_all : List ℕ → Action Error ActiveSegment (Unit {0})
  file_write_all bytes s =
      if leb (length bytes) (disk.accepts s.file bytes)
      then (ok tt, record s { file = s.file ++ bytes })
      else (err io, record s { file = s.file ++ take (disk.accepts s.file bytes) bytes })

  -- `BufWriter::flush_buf`: what the file took leaves the buffer.
  unfoldable pub flush_buf : Action Error ActiveSegment (Unit {0})
  flush_buf s =
      if leb (length s.buffer) (disk.accepts s.file s.buffer)
      then (ok tt, record s { file = s.file ++ s.buffer; buffer = [] })
      else (
        err io,
        record s {
          file = s.file ++ take (disk.accepts s.file s.buffer) s.buffer;
          buffer = drop (disk.accepts s.file s.buffer) s.buffer;
        },
      )

  unfoldable pub make_room : List ℕ → Action Error ActiveSegment (Unit {0})
  make_room bytes s =
      if ltb (buf_capacity - length s.buffer) (length bytes) then flush_buf s else (ok tt, s)

  unfoldable pub buffer_or_write : List ℕ → Action Error ActiveSegment (Unit {0})
  buffer_or_write bytes s =
      if leb buf_capacity (length bytes)
      then file_write_all bytes s
      else (ok tt, record s { buffer = s.buffer ++ bytes })

  -- `BufWriter::write_all`
  unfoldable pub write_all : List ℕ → Action Error ActiveSegment (Unit {0})
  write_all bytes = do make_room bytes; buffer_or_write bytes

  -- The offset that the record landed at.
  unfoldable pub append : List ℕ → ℕ → Action Error ActiveSegment ℕ
  append bytes seq = do
    offset ← gets (λ s. s.len)
    write_all bytes
    modify (λ s. record s {
      len = s.len + length bytes;
      unflushed = true;
      first_seq = or_else s.first_seq seq;
      last_seq = seq;
    })
    pure offset

  unfoldable pub flush : Action Error ActiveSegment (Unit {0})
  flush s =
      if s.unflushed
      then (do flush_buf; modify (λ t. record t { unflushed = false })) s
      else (ok tt, s)

  unfoldable pub sync_data : Action Error ActiveSegment (Unit {0})
  sync_data s = if disk.can_sync s.file then (ok tt, s) else (err io, s)

  unfoldable pub sync : Action Error ActiveSegment (Unit {0})
  sync = do flush; sync_data

  -- `File::set_len`, which fills a longer file with zeros.
  unfoldable pub set_len : ℕ → Action Error ActiveSegment (Unit {0})
  set_len len s =
      if disk.can_cut s.file len
      then (ok tt, record s { file = take len (s.file ++ replicate (len - length s.file) 0) })
      else (err io, s)

  unfoldable pub truncate_to : ℕ → Action Error ActiveSegment (Unit {0})
  truncate_to len = do flush; set_len len; modify (λ s. record s { len = len })

-- `read_exact_at` on the file: bytes that are still in the buffer are not seen.
unfoldable pub read_at : ActiveSegment → ℕ → ℕ → Result Error (List ℕ)
read_at s offset len =
    if leb (offset + len) (length s.file) then ok (take len (drop offset s.file)) else err io

unfoldable pub read_all : ActiveSegment → Result Error (List ℕ)
unfolding read_at
read_all s = if ltb 0 s.len then read_at s 0 s.len else ok []

-- `SealedSegment::slice` on the mapped bytes.
unfoldable pub sealed_slice : ℕ → List ℕ → ℕ → ℕ → Result Error (List ℕ)
sealed_slice id map offset len =
    if ltb (length map) (offset + len)
    then err (past_end offset (offset + len) id (length map))
    else ok (take len (drop offset map))
