-- ===== src/Store/Reopened.antt =====
-- embedding-store/src/store.rs: opening the directory that a store leaves behind gives its maps again.
use embedding_processing_rs.Base.{
  ℕ, ◌<◌, ◌≤◌, ◌≡◌, ◌≢◌, refl, ap, sym, ◌∙◌, subst, Bool, false, List, [], ◌∷◌, ◌++◌, append-nil,
  arith, ==_refl, ok, All,
}
use embedding_processing_rs.Base.Action.{continue, ◌>>=◌}
use embedding_processing_rs.HashMap
use embedding_processing_rs.HashMap.{HashMap, get-insert, get-remove}
use embedding_processing_rs.Maps.{Maps}
use embedding_processing_rs.Crates.{Crates, IsFaithful}
use embedding_processing_rs.Manifest.{Manifest, segment_ids}
use embedding_processing_rs.Segment.{Disk, ActiveSegment, open_segment}
use embedding_processing_rs.Segment.Log.{log}
use embedding_processing_rs.Replay.{SegmentScan}
use embedding_processing_rs.Replay.Frames.{encode_all}
use embedding_processing_rs.Store.Types.{Store}
use embedding_processing_rs.Store.Seal.{file_of}
use embedding_processing_rs.Store.Opening.{check_manifest, choose_snapshot, replay_all}
use embedding_processing_rs.Store.Open.{
  Directory, discard_snapshot, open_replayed, open_segments, open_store,
}
use embedding_processing_rs.Snapshot.File.{load}
use embedding_processing_rs.Store.Files.{
  IsWilling, directory_of, get-remaining, opened_sealed, All-of_ids, opened_sealed-congr,
  AllThere-congr, SealedReplays-AllThere, get-opened_segments, All-trans, get-others, AllThere,
}
use embedding_processing_rs.Store.Whole.{IsWhole, on_disk_part}
use embedding_processing_rs.Store.Rescanned.{replay_all-SealedReplays, scanned, open_replayed-ok}
use embedding_processing_rs.Store.Steps.{cleaned, completed, open_store-steps}

-- The sealed segments and the active one, as they are opened.
abbrev pub reopened_sealed : Store → HashMap (List ℕ)
reopened_sealed s = opened_sealed s.manifest.sealed s.files []

abbrev pub reopened_active : Store → ActiveSegment
reopened_active s = open_segment s.active.id s.active.file

module _ (crates : Crates) (faithful : IsFaithful crates) (is_utf8 : List ℕ → Bool) (disk : Disk)
    (willing : IsWilling disk) (start : Maps) (s : Store) (w : IsWhole crates start s)
    (flushed : s.active.buffer ≡ []) where
  module _ (checked : check_manifest s.opts s.manifest ≡ ok tt)
      (trusted : choose_snapshot
          (load crates.crc32 is_utf8 s.snapshot)
          s.manifest.snapshot_seq
          (reopened_sealed s)
          (reopened_active s)
        ≡ (false, (start, s.manifest.snapshot_seq))) where
    same_file : s.active.file ≡ encode_all crates.crc32 w.active.frames
    same_file =
        sym (append-nil s.active.file)
        ∙ ap (λ (b : List ℕ). s.active.file ++ b) (sym flushed)
        ∙ w.active.log_frames

    AllThere-files : AllThere s.manifest.sealed s.files
    AllThere-files = AllThere-congr s.manifest.sealed s.files s.sealed w.stored.files (
        SealedReplays-AllThere crates s.manifest.snapshot_seq s.manifest.sealed s.sealed start
          w.base w.sealed)

    replayed :
        (n : ℕ) × (replay_all crates s.manifest.snapshot_seq
            (reopened_sealed s)
            s.manifest.sealed
            start
            s.manifest.snapshot_seq
          ≡ ok (w.base, n))
        × (s.manifest.snapshot_seq ≤ n)
    replayed =
        replay_all-SealedReplays crates faithful s.manifest.snapshot_seq s.manifest.sealed s.sealed
          (reopened_sealed s) start w.base s.manifest.snapshot_seq
          (All-trans (λ k. HashMap.get k (reopened_sealed s)) (λ k. HashMap.get k s.files)
            (λ k. HashMap.get k s.sealed) s.manifest.sealed
            (get-opened_segments s.manifest.sealed s.manifest.sealed s.files
              (All-of_ids _ s.manifest.sealed (λ k h. h)) AllThere-files)
            w.stored.files)
          w.sealed

    -- From the open segments on, with any manifest that agrees with that of the store.
    open_segments-ok :
        (m : Manifest) (d : Directory)
        → m.snapshot_seq ≡ s.manifest.snapshot_seq
        → m.sealed ≡ s.manifest.sealed
        → d.snapshot ≡ s.snapshot
        → (scan : SegmentScan) × (open_segments disk crates is_utf8 s.opts m
              (reopened_sealed s)
              (reopened_active s)
              d
            ≡ (
              ok (
                  scanned crates faithful s.manifest.snapshot_seq disk is_utf8 s.opts m
                    (reopened_sealed s)
                    (reopened_active s)
                    start
                    w.base
                    s.maps
                    d
                    w.active.frames
                    scan
                    replayed.0),
              d,
            ))
    unfolding open_segments ◌>>=◌
    open_segments-ok m d seq is snap =
        let (scan, e) =
          open_replayed-ok crates faithful s.manifest.snapshot_seq disk is_utf8 s.opts m
            (reopened_sealed s) (reopened_active s) start w.base s.maps d w.active.frames replayed.0
            (rw is replayed.1) refl same_file w.active.fits w.active.replays in
        let chosen : choose_snapshot (load crates.crc32 is_utf8 d.snapshot) m.snapshot_seq
              (reopened_sealed s) (reopened_active s)
            ≡ (false, (start, s.manifest.snapshot_seq)) =
          (λ i.
            choose_snapshot (load crates.crc32 is_utf8 (snap i)) (seq i) (reopened_sealed s)
              (reopened_active s))
          ∙ trusted in
        (
          scan,
          ap
                (λ (c : Bool × (Maps × ℕ)). continue (discard_snapshot disk c.0 m d) (λ m'.
                  open_replayed disk crates is_utf8 s.opts m' (reopened_sealed s)
                    (reopened_active s) c.1.0 c.1.1))
                chosen
              ∙ e,
        )

    -- The manifest on disk names the files of the store, and they stay.
    module _ (m : Manifest) (is : m.sealed ≡ s.manifest.sealed) (id : m.active ≡ s.active.id) where
      abbrev d₁ : Directory
      d₁ = cleaned crates is_utf8 disk willing s.opts (directory_of s) m

      sealed_files : All (λ i. HashMap.get i.id d₁.segments ≡ HashMap.get i.id s.files) m.sealed
      unfolding segment_ids
      sealed_files =
          All-trans (λ k. HashMap.get k d₁.segments) (λ k. HashMap.get k (directory_of s).segments)
            (λ k. HashMap.get k s.files) m.sealed
            (All-of_ids _ m.sealed (λ k h.
              get-remaining (m.active ∷ segment_ids m) (HashMap.keys (directory_of s).segments)
                (directory_of s).segments k (ground (arith, h))))
            (get-others m.sealed s.active.id s.active.file s.files
              (subst (All (λ i. i.id ≢ s.active.id)) (sym is) w.ids.others))

      all_there : AllThere m.sealed d₁.segments
      all_there =
          AllThere-congr m.sealed d₁.segments s.files sealed_files
            (subst (λ l. AllThere l s.files) (sym is) AllThere-files)

      same_sealed : opened_sealed m.sealed d₁.segments [] ≡ (reopened_sealed s)
      same_sealed =
          opened_sealed-congr m.sealed d₁.segments s.files [] sealed_files
          ∙ ap (λ l. opened_sealed l s.files []) is

      same_active : file_of (HashMap.get m.active d₁.segments) ≡ s.active.file
      same_active =
          ap file_of (
            get-remaining (m.active ∷ segment_ids m) (HashMap.keys (directory_of s).segments)
              (directory_of s).segments m.active (ground (arith, ==_refl m.active)))
          ∙ ground (arith, id, get-insert s.active.id m.active s.active.file s.files)

    -- A store is opened again from the directory that it leaves behind, its buffer flushed: the
    -- maps and the log of its active segment are the ones it had, and the sequence numbers go on
    -- above the snapshot's. Its files were in step with its maps, its manifest fits its options,
    -- the snapshot is the one that the maps start from and is not rejected, the crates are faithful
    -- and the operating system opens and removes every segment file.
    pub open_store-directory_of :
        (t : Store) × (d : Directory) × (open_store disk crates is_utf8 s.opts (directory_of s)
          ≡ (ok t, d))
        × (t.maps ≡ s.maps)
        × (log t.active ≡ log s.active)
        × (s.manifest.snapshot_seq < t.manifest.next_seq)
    open_store-directory_of =
        let m : Manifest = w.stored.on_disk in
        let ag : on_disk_part m ≡ on_disk_part s.manifest = w.stored.agrees in
        let check : check_manifest s.opts m ≡ ok tt =
          ap (λ u. check_manifest s.opts u) ag ∙ checked in
        let is : m.sealed ≡ s.manifest.sealed = ap (λ (u : Manifest). u.sealed) ag in
        let id : m.active ≡ s.active.id = ap (λ (u : Manifest). u.active) ag ∙ w.ids.active in
        let seq : m.snapshot_seq ≡ s.manifest.snapshot_seq =
          ap (λ (u : Manifest). u.snapshot_seq) ag in
        let d₂ = completed crates is_utf8 disk willing s.opts (directory_of s) m in
        let (scan, e) = open_segments-ok m d₂ seq is refl in
        (
          _,
          d₂,
          open_store-steps crates is_utf8 disk willing s.opts (directory_of s) m w.stored.stored
                check (all_there m is id)
              ∙ (λ i.
                  open_segments disk crates is_utf8 s.opts m (same_sealed m is id i)
                    (open_segment (id i) (same_active m is id i)) d₂)
              ∙ e,
          refl,
          ap (λ (b : List ℕ). s.active.file ++ b) (sym flushed),
          omega (arith, replayed.2),
        )
