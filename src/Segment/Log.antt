-- ===== src/Segment/Log.antt =====
-- embedding-store/src/segment.rs: the bytes that the active segment stands for, those in the file and
-- those still in the buffer.
use embedding_processing_rs.Base.{
  ℕ, ◌+◌, ◌≤◌, ◌≡◌, ap, true, false, List, [], ◌++◌, append_assoc, append-nil, arith, length,
  length-append, nil_of_length, ok,
}
use embedding_processing_rs.Base.Action.{◌>>=◌, ◌>>◌, >>-ok}
use embedding_processing_rs.Segment.{
  Disk, ActiveSegment, buf_capacity, append, flush, write_all, make_room, buffer_or_write,
  flush_buf, file_write_all,
}

-- Every byte that was appended, in order.
abbrev pub log : ActiveSegment → List ℕ
log s = s.file ++ s.buffer

-- `len` counts the buffered bytes too, and nothing is buffered unless `unflushed` says so.
pub record IsSegment (s : ActiveSegment) : Type 0 where
  pub len_log : s.len ≡ length (log s)
  pub flushed : s.unflushed ≡ false → s.buffer ≡ []

-- The same segment with other bytes in its file and buffer.
pub record SameBut (s t : ActiveSegment) : Type 0 where
  pub id : t.id ≡ s.id
  pub len : t.len ≡ s.len
  pub unflushed : t.unflushed ≡ s.unflushed

module _ (disk : Disk) where
  pub flush_buf-ok :
      (s t : ActiveSegment)
      → flush_buf disk s ≡ (ok tt, t)
      → t ≡ record s { file = s.file ++ s.buffer; buffer = [] }
  unfolding flush_buf
  flush_buf-ok s t h = ground arith

  make_room-ok :
      (bytes : List ℕ) (s t : ActiveSegment)
      → make_room disk bytes s ≡ (ok tt, t)
      → (log t ≡ log s) × SameBut s t × (buf_capacity ≤ length bytes → t.buffer ≡ [])
  unfolding make_room flush_buf
  make_room-ok bytes s t h = (
    ground (arith, append-nil (s.file ++ s.buffer)),
    ground arith,
    λ big. ground (arith, nil_of_length s.buffer),
  )

  buffer_or_write-ok :
      (bytes : List ℕ) (s t : ActiveSegment)
      → buffer_or_write disk bytes s ≡ (ok tt, t)
      → (buf_capacity ≤ length bytes → s.buffer ≡ [])
      → (log t ≡ log s ++ bytes) × SameBut s t
  unfolding buffer_or_write file_write_all
  buffer_or_write-ok bytes s t h empty = (
    ground (
      arith,
      append-nil s.file,
      append-nil (s.file ++ bytes),
      append_assoc s.file s.buffer bytes,
    ),
    ground arith,
  )

  write_all-ok :
      (bytes : List ℕ) (s t : ActiveSegment)
      → write_all disk bytes s ≡ (ok tt, t)
      → (log t ≡ log s ++ bytes) × SameBut s t
  unfolding write_all
  write_all-ok bytes s t h =
      let (u, s', room, wrote) = >>-ok (make_room disk bytes) (buffer_or_write disk bytes) s h in
      let (same_log, same, empty) = make_room-ok bytes s s' room in
      let (longer, same') = buffer_or_write-ok bytes s' t wrote empty in
      (rw (← same_log) longer, ground (arith, same, same'))

  appended :
      (bytes : List ℕ) (s s' t : ActiveSegment)
      → log s' ≡ log s ++ bytes
      → SameBut s s'
      → IsSegment s
      → t.file ≡ s'.file
      → t.buffer ≡ s'.buffer
      → t.len ≡ s'.len + length bytes
      → t.unflushed ≡ true
      → (log t ≡ log s ++ bytes) × (t.len ≡ s.len + length bytes) × IsSegment t
  appended bytes s s' t longer same valid ef eb el eu =
      ground (arith, longer, ap length longer, length-append (log s) bytes)

  -- An append that succeeds puts the bytes at the end of the log, returns the length before as their
  -- offset, and keeps the id and the segment well formed, whether the bytes were buffered or written
  -- through; the segment was well formed.
  pub append-ok :
      (bytes : List ℕ) (seq offset : ℕ) (s t : ActiveSegment)
      → append disk bytes seq s ≡ (ok offset, t)
      → IsSegment s
      → (log t ≡ log s ++ bytes)
        × (offset ≡ s.len)
        × (t.id ≡ s.id)
        × (t.len ≡ s.len + length bytes)
        × IsSegment t
  unfolding append ◌>>=◌ ◌>>◌
  append-ok bytes seq offset s t h valid =
      let (u, s', wrote, rest) = >>-ok (write_all disk bytes) _ s h in
      let (longer, same) = write_all-ok bytes s s' wrote in
      let (logged, counted, valid') =
        appended bytes s s' t longer same valid (ground (arith, rest)) (ground (arith, rest))
          (ground (arith, rest)) (ground (arith, rest)) in
      (logged, ground (arith, rest), ground (arith, rest, same), counted, valid')

  pub append-last_seq :
      (bytes : List ℕ) (seq offset : ℕ) (s t : ActiveSegment)
      → append disk bytes seq s ≡ (ok offset, t)
      → t.last_seq ≡ seq
  unfolding append ◌>>=◌ ◌>>◌
  append-last_seq bytes seq offset s t h =
      let (u, s', wrote, rest) = >>-ok (write_all disk bytes) _ s h in ground (arith, rest)

  -- A flush that succeeds leaves nothing in the buffer and the log as it was.
  pub flush-ok :
      (s t : ActiveSegment)
      → flush disk s ≡ (ok tt, t)
      → IsSegment s
      → (log t ≡ log s)
        × (t.buffer ≡ [])
        × (t.id ≡ s.id)
        × (t.len ≡ s.len)
        × (t.first_seq ≡ s.first_seq)
        × (t.last_seq ≡ s.last_seq)
        × IsSegment t
  unfolding flush flush_buf ◌>>◌
  flush-ok s t h valid = ground (arith, append-nil (s.file ++ s.buffer))
