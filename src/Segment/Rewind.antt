-- ===== src/Segment/Rewind.antt =====
-- embedding-store/src/segment.rs: an append that fails leaves the log as a prefix, and `truncate_to` cuts off
-- what is behind it.
use embedding_processing_rs.Base.{
  ℕ, ◌-◌, ◌≤◌, ◌≡◌, refl, ap, sym, ◌∙◌, subst, false, Bool-cases, inl, inr, List, [], ◌++◌,
  append_assoc, append-nil, arith, length, take, drop, replicate, nil_of_length, ok, err,
  Result-cases, take-append-drop, drop-nil, take_first,
}
use embedding_processing_rs.Base.Action.{◌>>=◌, ◌>>◌, >>-ok, modify}
use embedding_processing_rs.Errors.{Error}
use embedding_processing_rs.Segment
use embedding_processing_rs.Segment.{
  Disk, ActiveSegment, buf_capacity, append, flush, write_all, make_room, buffer_or_write,
  flush_buf, file_write_all,
}
use embedding_processing_rs.Segment.Log.{log, IsSegment}

-- From `s` to `t` bytes were written behind the log, and nothing is buffered unless `unflushed` says so.
pub record Grows (s t : ActiveSegment) : Type 0 where
  pub extra : List ℕ
  pub longer : log t ≡ log s ++ extra
  pub flushed : t.unflushed ≡ false → t.buffer ≡ []
  pub id : t.id ≡ s.id

pub Grows-refl : (s : ActiveSegment) → (s.unflushed ≡ false → s.buffer ≡ []) → Grows s s
Grows-refl s f = record { extra = []; longer = sym (append-nil (log s)); flushed = f; id = refl }

pub Grows-trans : (s t u : ActiveSegment) → Grows s t → Grows t u → Grows s u
Grows-trans s t u g h = record {
  extra = g.extra ++ h.extra;
  longer =
      h.longer ∙ ap (λ (l : List ℕ). l ++ h.extra) g.longer ∙ append_assoc (log s) g.extra h.extra;
  flushed = h.flushed;
  id = h.id ∙ g.id;
}

module _ (disk : Disk) where
  make_room-log : (bytes : List ℕ) (s : ActiveSegment) → log (make_room disk bytes s).1 ≡ log s
  unfolding make_room flush_buf
  make_room-log bytes s = ground (
    arith,
    append-nil (s.file ++ s.buffer),
    append_assoc s.file (take (disk.accepts s.file s.buffer) s.buffer)
        (drop (disk.accepts s.file s.buffer) s.buffer),
    take-append-drop (disk.accepts s.file s.buffer) s.buffer,
  )

  make_room-flushed :
      (bytes : List ℕ) (s : ActiveSegment)
      → (s.unflushed ≡ false → s.buffer ≡ [])
      → (make_room disk bytes s).1.unflushed ≡ false
      → (make_room disk bytes s).1.buffer ≡ []
  unfolding make_room flush_buf
  make_room-flushed bytes s f u =
      let e : s.unflushed ≡ false = ground (arith, u) in
      ground (arith, f e, drop-nil {A = ℕ} (disk.accepts s.file s.buffer))

  make_room-Grows :
      (bytes : List ℕ) (s : ActiveSegment)
      → (s.unflushed ≡ false → s.buffer ≡ [])
      → Grows s (make_room disk bytes s).1
  unfolding make_room flush_buf
  make_room-Grows bytes s f = record {
    extra = [];
    longer = make_room-log bytes s ∙ sym (append-nil (log s));
    flushed = make_room-flushed bytes s f;
    id = ground arith;
  }

  make_room-empty :
      (bytes : List ℕ) (s : ActiveSegment)
      → (make_room disk bytes s).0 ≡ ok tt
      → buf_capacity ≤ length bytes
      → (make_room disk bytes s).1.buffer ≡ []
  unfolding make_room flush_buf
  make_room-empty bytes s h big = ground (arith, h, nil_of_length s.buffer)

  -- A write that fails has put a part of its bytes into the file, behind an empty buffer.
  write-failed :
      (bytes : List ℕ) (s : ActiveSegment) (e : Error)
      → (buf_capacity ≤ length bytes → s.buffer ≡ [])
      → (buffer_or_write disk bytes s).0 ≡ err e
      → Grows s (buffer_or_write disk bytes s).1
  unfolding buffer_or_write file_write_all
  write-failed bytes s e empty h =
      let none_left : s.buffer ≡ [] = empty (ground (arith, h)) in
      record {
        extra = take (disk.accepts s.file bytes) bytes;
        longer = ground (
          arith,
          h,
          none_left,
          append-nil s.file,
          append-nil (s.file ++ take (disk.accepts s.file bytes) bytes),
        );
        flushed = λ u. ground (arith, h, none_left);
        id = ground (arith, h);
      }

  wrote :
      (bytes : List ℕ) (s : ActiveSegment)
      → (buf_capacity ≤ length bytes → s.buffer ≡ [])
      → (buffer_or_write disk bytes s).0 ≡ ok tt
      → (log (buffer_or_write disk bytes s).1 ≡ log s ++ bytes)
        × ((buffer_or_write disk bytes s).1.id ≡ s.id)
  unfolding buffer_or_write file_write_all
  wrote bytes s empty h = (
    ground (
      arith,
      h,
      empty,
      append-nil s.file,
      append-nil (s.file ++ bytes),
      append_assoc s.file s.buffer bytes,
    ),
    ground (arith, h),
  )

  -- However an append ends, the log was only added to.
  pub append-Grows :
      (bytes : List ℕ) (seq : ℕ) (s : ActiveSegment)
      → (s.unflushed ≡ false → s.buffer ≡ [])
      → Grows s (append disk bytes seq s).1
  unfolding append write_all ◌>>=◌ ◌>>◌
  append-Grows bytes seq s f =
      let m : ActiveSegment = (make_room disk bytes s).1 in
      let g : Grows s m = make_room-Grows bytes s f in
      elim (Result-cases (make_room disk bytes s).0) [
        | inr (e, h) ↦ subst (Grows s) (ground (arith, h)) g
        | inl (u, h) ↦
            let room = make_room-empty bytes s h in
            elim (Result-cases (buffer_or_write disk bytes m).0) [
              | inr (e, k) ↦ subst (Grows s) (ground (arith, h, k)) (
                  Grows-trans s m (buffer_or_write disk bytes m).1 g
                    (write-failed bytes m e room k))
              | inl (v, k) ↦
                  let (longer, same) = wrote bytes m room k in
                  Grows-trans s m (append disk bytes seq s).1 g (record {
                    extra = bytes;
                    longer = ground (arith, h, k, longer);
                    flushed = λ q. ground (arith, h, k, q);
                    id = ground (arith, h, k, same);
                  })
            ]
      ]

  flushed-file :
      (t u : ActiveSegment)
      → (t.unflushed ≡ false → t.buffer ≡ [])
      → flush disk t ≡ (ok tt, u)
      → (u.file ≡ log t) × (u.buffer ≡ []) × (u.id ≡ t.id)
  unfolding flush flush_buf ◌>>◌
  flushed-file t u f h = elim (Bool-cases t.unflushed) [
    | inl e ↦ (ground (arith, e, h), ground (arith, e, h), ground (arith, e, h))
    | inr e ↦ (
      ground (arith, e, h, f e, append-nil t.file),
      ground (arith, e, h, f e),
      ground (arith, e, h),
    )
  ]

  cut-file :
      (n : ℕ) (t u : ActiveSegment)
      → (Segment.set_len disk n >> modify (λ x. record x { len = n })) t ≡ (ok tt, u)
      → (u.file ≡ take n (t.file ++ replicate (n - length t.file) 0))
        × (u.buffer ≡ t.buffer)
        × (u.len ≡ n)
        × (u.id ≡ t.id)
  unfolding Segment.set_len ◌>>◌
  cut-file n t u h = (ground (arith, h), ground (arith, h), ground (arith, h), ground (arith, h))

  -- `truncate_to` a length that the log had: the file is that log again.
  pub truncate_to-ok :
      (s t u : ActiveSegment)
      → Grows s t
      → s.len ≡ length (log s)
      → Segment.truncate_to disk s.len t ≡ (ok tt, u)
      → (log u ≡ log s) × (u.len ≡ s.len) × (u.id ≡ s.id) × IsSegment u
  unfolding Segment.truncate_to
  truncate_to-ok s t u g len h =
      let (v, t₁, e, e') =
        >>-ok (flush disk) (Segment.set_len disk s.len >> modify (λ x. record x { len = s.len })) t
          h in
      let (file, empty, id) = flushed-file t t₁ g.flushed e in
      let (cut, buffer, len', id') = cut-file s.len t₁ u e' in
      let zeros = replicate (s.len - length t₁.file) 0 in
      let back : u.file ≡ log s =
        cut
        ∙ ap (λ (l : List ℕ). take s.len (l ++ zeros)) (file ∙ g.longer)
        ∙ ap (take s.len) (append_assoc (log s) g.extra zeros)
        ∙ take_first s.len (log s) (g.extra ++ zeros) (sym len) in
      let none_left : u.buffer ≡ [] = buffer ∙ empty in
      let whole : log u ≡ log s =
        ap (λ (b : List ℕ). u.file ++ b) none_left ∙ append-nil u.file ∙ back in
      (
        whole,
        len',
        id' ∙ id ∙ g.id,
        record { len_log = len' ∙ len ∙ ap length (sym whole); flushed = λ _. none_left },
      )
