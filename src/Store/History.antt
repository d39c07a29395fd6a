-- ===== src/Store/History.antt =====
-- embedding-store/src/store.rs and replay.rs: what a run of inserts and deletes leaves is what a replay of
-- its log rebuilds.
use embedding_processing_rs.Base.{ℕ, ◌<◌, ◌≡◌, Bool, [], arith, ok}
use embedding_processing_rs.Maps.{RemovedDoc}
use embedding_processing_rs.Crates.{Crates, IsFaithful}
use embedding_processing_rs.Segment.{Disk}
use embedding_processing_rs.Segment.Log.{log, IsSegment}
use embedding_processing_rs.Replay.{SegmentScan, scan_segment}
use embedding_processing_rs.Replay.Records.{Replays-nil}
use embedding_processing_rs.Dto.{DocumentDto}
use embedding_processing_rs.Store.Types.{Store, Replaced}
use embedding_processing_rs.Store.Write.{record_document}
use embedding_processing_rs.Store.Seal.{record_delete}
use embedding_processing_rs.Store.Appends.{IsInRange}
use embedding_processing_rs.Store.Durable.{
  IsConsistent, record_document-Durable, record_delete-Durable,
}
use embedding_processing_rs.Store.Reopen.{
  IsRecoverable, Durable-IsRecoverable, scan_segment-IsRecoverable,
}

module _ (crates : Crates) (disk : Disk) where
  -- Inserts and deletes that are recorded one after another, from the store `s` on. The splits and
  -- summaries of each document name it, and the log and the sequence numbers stay in range.
  pub data History (s : Store) : Store → Type 0 where
    unchanged : History s s
    inserted :
        {t u : Store} (doc : DocumentDto) (replaced : Replaced)
        → History s t
        → record_document crates disk doc t ≡ (ok replaced, u)
        → IsConsistent doc
        → IsInRange u
        → History s u
    deleted :
        {t u : Store} (doc_id : ℕ) (removed : RemovedDoc)
        → History s t
        → record_delete crates disk doc_id t ≡ (ok removed, u)
        → IsInRange u
        → History s u

  module _ (faithful : IsFaithful crates) (snapshot_seq : ℕ) (s : Store)
      (valid : IsSegment s.active) (empty : log s.active ≡ [])
      (newer : snapshot_seq < s.manifest.next_seq) where
    History-IsRecoverable :
        {t : Store}
        → History s t
        → IsRecoverable crates snapshot_seq s.maps t × (snapshot_seq < t.manifest.next_seq)
    History-IsRecoverable unchanged = (
      record {
        frames = [];
        log_frames = empty;
        fits = tt;
        valid = valid;
        replays = Replays-nil crates s.active.id snapshot_seq 0 s.maps [];
      },
      newer,
    )
    History-IsRecoverable (inserted {t} {u} doc replaced past h consistent range) =
        let (rec, above) = History-IsRecoverable past in
        let (fs, d) =
          record_document-Durable crates disk doc t u replaced snapshot_seq faithful h consistent
            rec.valid above range in
        (
          Durable-IsRecoverable crates disk snapshot_seq s.maps faithful t u fs d rec,
          omega (arith, above, d.seq),
        )
    History-IsRecoverable (deleted {t} {u} doc_id removed past h range) =
        let (rec, above) = History-IsRecoverable past in
        let (fs, d) =
          record_delete-Durable crates disk doc_id t u removed snapshot_seq faithful h rec.valid
            above range in
        (
          Durable-IsRecoverable crates disk snapshot_seq s.maps faithful t u fs d rec,
          omega (arith, above, d.seq),
        )

    -- Inserts and deletes are recorded one after another in a store whose active segment was empty. Then
    -- scan_segment over the log that they leave, from the maps the store began with, returns the maps that
    -- they left, whether or not a torn tail is allowed. The crates are faithful, the sequence numbers start
    -- above the snapshot's and stay in range with the log, and the documents' splits and summaries name
    -- them.
    pub scan_segment-History :
        (t : Store) (allow_torn_tail : Bool)
        → History s t
        → (scan : SegmentScan) × (scan_segment crates
              (log t.active)
              t.active.id
              snapshot_seq
              s.maps
              allow_torn_tail
            ≡ ok (scan, t.maps))
    scan_segment-History t allow past =
        scan_segment-IsRecoverable crates disk snapshot_seq s.maps faithful t allow
          (History-IsRecoverable past).0
