-- ===== src/Store/Reopen.antt =====
-- embedding-store/src/store.rs and replay.rs: the maps of an open store are those that `scan_segment`
-- rebuilds from the log of its active segment.
use embedding_processing_rs.Base.{
  ℕ, ◌+◌, ◌<◌, ◌≡◌, ap, sym, ◌∙◌, subst, Bool, List, [], ◌++◌, arith, length, ok, Result, All,
  All-append, ◌>>=◌,
}
use embedding_processing_rs.Record.{Frame}
use embedding_processing_rs.Record.Encode.{Fits}
use embedding_processing_rs.Maps.{Maps, RemovedDoc}
use embedding_processing_rs.Crates.{Crates, IsFaithful}
use embedding_processing_rs.Errors.{Error}
use embedding_processing_rs.Segment.{Disk}
use embedding_processing_rs.Segment.Log.{log, IsSegment}
use embedding_processing_rs.Replay.{SegmentScan, Scanning, no_scan, scan_segment}
use embedding_processing_rs.Replay.Frames.{
  encode_all, encode_all-append, length-encode_all, total_size,
}
use embedding_processing_rs.Replay.Torn.{scan_segment_whole, outcome}
use embedding_processing_rs.Replay.Records.{Replays, Replays-append}
use embedding_processing_rs.Dto.{DocumentDto}
use embedding_processing_rs.Store.Types.{Store, Replaced}
use embedding_processing_rs.Store.Write.{record_document}
use embedding_processing_rs.Store.Seal.{record_delete}
use embedding_processing_rs.Store.Appends.{IsInRange}
use embedding_processing_rs.Store.Durable.{
  Durable, IsConsistent, record_document-Durable, record_delete-Durable,
}

-- The active segment holds whole records, whose replay from `base` makes the maps of the store and
-- leaves no entity waiting.
pub record IsRecoverable (crates : Crates) (snapshot_seq : ℕ) (base : Maps) (s : Store)
    : Type 0 where
  pub frames : List Frame
  pub log_frames : log s.active ≡ encode_all crates.crc32 frames
  pub fits : All Fits frames
  pub valid : IsSegment s.active
  pub replays : Replays crates s.active.id snapshot_seq frames 0 base [] s.maps []

module _ (crates : Crates) (disk : Disk) (snapshot_seq : ℕ) (base : Maps)
    (faithful : IsFaithful crates) where
  -- Where the log and the maps of a store are in step and the crates are faithful, a scan of the log
  -- succeeds and returns exactly those maps, whether or not a torn tail is allowed.
  pub scan_segment-IsRecoverable :
      (s : Store) (allow_torn_tail : Bool)
      → IsRecoverable crates snapshot_seq base s
      → (scan : SegmentScan) × (scan_segment crates
            (log s.active)
            s.active.id
            snapshot_seq
            base
            allow_torn_tail
          ≡ ok (scan, s.maps))
  scan_segment-IsRecoverable s allow rec =
      let (scan, e) = rec.replays.at no_scan in
      (
        scan,
        ap (λ l. scan_segment crates l s.active.id snapshot_seq base allow) rec.log_frames
            ∙ scan_segment_whole crates faithful.crc_u32 s.active.id snapshot_seq allow base
                rec.frames rec.fits
            ∙ ap (λ (r : Result Error Scanning). r >>= outcome) e,
      )

  pub Durable-IsRecoverable :
      (s t : Store) (fs : List Frame)
      → Durable crates snapshot_seq s t fs
      → IsRecoverable crates snapshot_seq base s
      → IsRecoverable crates snapshot_seq base t
  Durable-IsRecoverable s t fs d rec =
      let len : s.active.len ≡ 0 + total_size rec.frames = omega (
        arith,
        rec.valid.len_log,
        ap length rec.log_frames,
        length-encode_all crates.crc32 rec.frames,
      ) in
      record {
        frames = rec.frames ++ fs;
        log_frames =
            d.log
            ∙ ap (λ (l : List ℕ). l ++ encode_all crates.crc32 fs) rec.log_frames
            ∙ sym (encode_all-append crates.crc32 rec.frames fs);
        fits = All-append Fits rec.frames fs rec.fits d.fits;
        valid = d.valid;
        replays =
            subst (λ id. Replays crates id snapshot_seq (rec.frames ++ fs) 0 base [] t.maps [])
              (sym d.id)
              (Replays-append crates s.active.id snapshot_seq rec.replays (
                subst (λ n. Replays crates s.active.id snapshot_seq fs n s.maps [] t.maps []) len
                  d.replays));
      }

  -- If the log and the maps of a store are in step, they still are after an insert that is recorded
  -- in full: a replay of the longer log makes the new maps. The crates are faithful, the document's
  -- splits and summaries name it, the next sequence number is above the snapshot's, and the log and
  -- the sequence numbers that result are in range.
  pub record_document-IsRecoverable :
      (doc : DocumentDto) (s t : Store) (replaced : Replaced)
      → record_document crates disk doc s ≡ (ok replaced, t)
      → IsConsistent doc
      → snapshot_seq < s.manifest.next_seq
      → IsInRange t
      → IsRecoverable crates snapshot_seq base s
      → IsRecoverable crates snapshot_seq base t
  record_document-IsRecoverable doc s t replaced h consistent newer r rec =
      let (fs, d) =
        record_document-Durable crates disk doc s t replaced snapshot_seq faithful h consistent
          rec.valid newer r in
      Durable-IsRecoverable s t fs d rec

  -- If the log and the maps of a store are in step, they still are after a delete of a document that
  -- is recorded. The crates are faithful, the next sequence number is above the snapshot's, and the
  -- log and the sequence numbers that result are in range.
  pub record_delete-IsRecoverable :
      (doc_id : ℕ) (s t : Store) (removed : RemovedDoc)
      → record_delete crates disk doc_id s ≡ (ok removed, t)
      → snapshot_seq < s.manifest.next_seq
      → IsInRange t
      → IsRecoverable crates snapshot_seq base s
      → IsRecoverable crates snapshot_seq base t
  record_delete-IsRecoverable doc_id s t removed h newer r rec =
      let (fs, d) =
        record_delete-Durable crates disk doc_id s t removed snapshot_seq faithful h rec.valid newer
          r in
      Durable-IsRecoverable s t fs d rec
