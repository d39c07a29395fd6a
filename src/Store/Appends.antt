-- ===== src/Store/Appends.antt =====
-- embedding-store/src/store.rs: which records the append phase writes, and what it leaves alone.
use embedding_processing_rs.Base.{
  ℕ, ◌+◌, ◌%◌, ◌^◌, ◌<◌, ◌≤◌, ◌≡◌, refl, ap, sym, ◌∙◌, List, [], ◌∷◌, ◌++◌, append-nil,
  append_assoc, arith, length, is_empty, All, All-append, Result, Result-cases, ok, inl, inr,
  if◌then◌else◌,
}
use embedding_processing_rs.Base.Action.{◌>>=◌}
use embedding_processing_rs.Record.{Frame, RecordKind, no_vector}
use embedding_processing_rs.Record.Encode.{encode_frame, size, Fits, length-encode}
use embedding_processing_rs.Maps.{Loc, no_maps}
use embedding_processing_rs.Crates.{Crates}
use embedding_processing_rs.Errors.{Error}
use embedding_processing_rs.Segment
use embedding_processing_rs.Segment.{Disk, ActiveSegment, open_segment}
use embedding_processing_rs.Segment.Log.{log, IsSegment, append-ok, append-last_seq}
use embedding_processing_rs.Replay.Frames.{encode_all, encode_all-append, total_size}
use embedding_processing_rs.Store.Types.{Store}
use embedding_processing_rs.Store.Write.{append, next_seq}

-- Every frame fits its length field, if the log's length fits a u32 and the next sequence number is
-- one at most past a u64.
abbrev pub IsInRange : Store → Type 0
IsInRange s = (s.active.len < 2 ^ 32) × (s.manifest.next_seq ≤ 2 ^ 64)

-- What a step that only appends, or only changes the maps and what they weigh, leaves alone.
abbrev pub untouched : Store → Store
untouched s = record s {
  manifest = record (s.manifest) { next_seq = 0; tombstone_bytes = 0 };
  active = open_segment 0 [];
  maps = no_maps;
  pending_tombstone_bytes = 0;
}

module _ (crates : Crates) where
  -- From `s` to `t` the records `fs` were written behind the log, and nothing else changed that the
  -- maps depend on.
  pub record Appends (s t : Store) (fs : List Frame) : Type 0 where
    pub log : log t.active ≡ log s.active ++ encode_all crates.crc32 fs
    pub len : t.active.len ≡ s.active.len + total_size fs
    pub id : t.active.id ≡ s.active.id
    pub maps : t.maps ≡ s.maps
    pub opts : t.opts ≡ s.opts
    pub seq : s.manifest.next_seq ≤ t.manifest.next_seq
    pub valid : IsSegment t.active
    pub fits : IsInRange t → All Fits fs
    pub rest : untouched t ≡ untouched s

  pub Appends-nil : (s : Store) → IsSegment s.active → Appends s s []
  Appends-nil s v = record {
    log = sym (append-nil (log s.active));
    len = omega arith;
    id = refl;
    maps = refl;
    opts = refl;
    seq = omega arith;
    valid = v;
    fits = λ _. tt;
    rest = refl;
  }

  total_size-append : (fs gs : List Frame) → total_size (fs ++ gs) ≡ total_size fs + total_size gs
  total_size-append [] gs = omega arith
  total_size-append (f ∷ fs) gs = omega (arith, total_size-append fs gs)

  pub Appends-trans :
      (s t u : Store) (fs gs : List Frame)
      → Appends s t fs
      → Appends t u gs
      → Appends s u (fs ++ gs)
  Appends-trans s t u fs gs a b = record {
    log =
        b.log
        ∙ ap (λ (l : List ℕ). l ++ encode_all crates.crc32 gs) a.log
        ∙ append_assoc (log s.active) (encode_all crates.crc32 fs) (encode_all crates.crc32 gs)
        ∙ ap (λ (l : List ℕ). log s.active ++ l) (sym (encode_all-append crates.crc32 fs gs));
    len = omega (arith, a.len, b.len, total_size-append fs gs);
    id = b.id ∙ a.id;
    maps = b.maps ∙ a.maps;
    opts = b.opts ∙ a.opts;
    seq = omega (arith, a.seq, b.seq);
    valid = b.valid;
    fits = λ r. All-append Fits fs gs (a.fits (omega (arith, b.len, b.seq))) (b.fits r);
    rest = b.rest ∙ a.rest;
  }

  module _ (disk : Disk) where
    -- What `append` writes.
    abbrev pub frame_of : RecordKind → List ℕ → List ℕ → Store → Frame
    frame_of kind meta vector s = record {
      seq = s.manifest.next_seq;
      kind = kind;
      dtype = if is_empty vector then no_vector else s.opts.dtype;
      meta = meta;
      vector = vector;
    }

    -- The active segment once the record of `kind` is appended.
    abbrev written : RecordKind → List ℕ → List ℕ → Store → Result Error ℕ × ActiveSegment
    written kind meta vector s =
        Segment.append disk (encode_frame crates.crc32 (frame_of kind meta vector s))
          s.manifest.next_seq s.active

    append_result :
        (kind : RecordKind) (meta vector : List ℕ) (s t : Store) (loc : Loc)
        → append crates disk kind meta vector s ≡ (ok loc, t)
        → (offset : ℕ) × ((written kind meta vector s).0 ≡ ok offset)
          × (t ≡ record s {
            manifest = record (s.manifest) { next_seq = s.manifest.next_seq + 1 };
            active = (written kind meta vector s).1;
          })
          × (loc ≡ record {
            segment = (written kind meta vector s).1.id;
            offset = offset;
            len = length (encode_frame crates.crc32 (frame_of kind meta vector s)) % 2 ^ 32;
          })
    unfolding append next_seq ◌>>=◌
    append_result kind meta vector s t loc h = elim (Result-cases (written kind meta vector s).0) [
      | inl (offset, e) ↦ (offset, e, ground (arith, h, e), ground (arith, h, e))
      | inr (x, e) ↦ absurd (ground (arith, h, e))
    ]

    written-Appends :
        (kind : RecordKind) (meta vector : List ℕ) (s : Store) (offset : ℕ)
        → (written kind meta vector s).0 ≡ ok offset
        → IsSegment s.active
        → Appends s
            (record s {
              manifest = record (s.manifest) { next_seq = s.manifest.next_seq + 1 };
              active = (written kind meta vector s).1;
            })
            (frame_of kind meta vector s ∷ [])
          × (offset ≡ s.active.len)
          × ((written kind meta vector s).1.id ≡ s.active.id)
          × ((written kind meta vector s).1.last_seq ≡ s.manifest.next_seq)
    written-Appends kind meta vector s offset e valid =
        let f = frame_of kind meta vector s in
        let (longer, at, same, grown, valid') =
          append-ok disk (encode_frame crates.crc32 f) s.manifest.next_seq offset s.active
            (written kind meta vector s).1 (λ i. (e i, (written kind meta vector s).1)) valid in
        let counted : length (encode_frame crates.crc32 f) ≡ size f =
          length-encode crates.crc32 f.seq f.kind f.dtype f.meta f.vector in
        (
          record {
            log =
                longer
                ∙ ap (λ (l : List ℕ). log s.active ++ l)
                    (sym (append-nil (encode_frame crates.crc32 f)));
            len = omega (arith, grown, counted);
            id = same;
            maps = refl;
            opts = refl;
            seq = omega arith;
            valid = valid';
            fits = λ r. (
              record {
                seq_u64 = omega (arith, r.1);
                size_u32 = omega (arith, r.0, grown, counted);
              },
              tt,
            );
            rest = refl;
          },
          at,
          same,
          append-last_seq disk (encode_frame crates.crc32 f) s.manifest.next_seq offset s.active
              (written kind meta vector s).1 (λ i. (e i, (written kind meta vector s).1)),
        )

    pub append-Appends :
        (kind : RecordKind) (meta vector : List ℕ) (s t : Store) (loc : Loc)
        → append crates disk kind meta vector s ≡ (ok loc, t)
        → IsSegment s.active
        → Appends s t (frame_of kind meta vector s ∷ [])
          × (loc ≡ record {
            segment = s.active.id;
            offset = s.active.len;
            len = size (frame_of kind meta vector s) % 2 ^ 32;
          })
          × (t.active.last_seq ≡ s.manifest.next_seq)
    append-Appends kind meta vector s t loc h valid =
        let f = frame_of kind meta vector s in
        let (offset, e, et, el) = append_result kind meta vector s t loc h in
        let (appends, at, same, last) = written-Appends kind meta vector s offset e valid in
        (
          rw et appends,
          cc (el, at, same, length-encode crates.crc32 f.seq f.kind f.dtype f.meta f.vector),
          ap (λ (u : Store). u.active.last_seq) et ∙ last,
        )
