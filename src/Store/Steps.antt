-- ===== src/Store/Steps.antt =====
-- embedding-store/src/store.rs: the steps of `open` in front of the snapshot.
use embedding_processing_rs.Base.{
  ℕ, ◌≡◌, refl, ap, ◌∙◌, Bool, Option, some, List, [], ◌∷◌, Result, ok,
}
use embedding_processing_rs.Base.Action.{pure, continue, ◌>>=◌, ◌>>◌}
use embedding_processing_rs.HashMap
use embedding_processing_rs.HashMap.{HashMap, get-insert, get-remove}
use embedding_processing_rs.Crates.{Crates}
use embedding_processing_rs.Errors.{Error}
use embedding_processing_rs.Manifest.{Manifest, segment_ids}
use embedding_processing_rs.Segment.{Disk, ActiveSegment, open_segment}
use embedding_processing_rs.Store.Types.{Store, StoreOptions}
use embedding_processing_rs.Store.Seal.{file_of}
use embedding_processing_rs.Store.Opening.{check_manifest}
use embedding_processing_rs.Store.Open.{
  Directory, load_manifest, remove_orphan_segments, open_all, open_active, open_segments,
  open_store,
}
use embedding_processing_rs.Store.Files.{
  IsWilling, remaining, remove_orphans-remaining, opened_sealed, open_all-opened_sealed, AllThere,
}

-- The steps of `open` before the snapshot, on a directory with a manifest that fits.
module _ (crates : Crates) (is_utf8 : List ℕ → Bool) (disk : Disk) (willing : IsWilling disk)
    (opts : StoreOptions) (d : Directory) (m : Manifest) where
  abbrev pub cleaned : Directory
  cleaned = record d {
    segments = remaining (m.active ∷ segment_ids m) (HashMap.keys d.segments) d.segments;
  }

  abbrev active_file : List ℕ
  active_file = file_of (HashMap.get m.active cleaned.segments)

  abbrev pub completed : Directory
  completed = record cleaned { segments = HashMap.insert m.active active_file cleaned.segments }

  open_active-ok :
      open_active disk m.active cleaned ≡ (ok (open_segment m.active active_file), completed)
  unfolding open_active
  open_active-ok = rw (willing.opens m.active, open_active) refl

  load_manifest-ok :
      d.manifest ≡ some m
      → check_manifest opts m ≡ ok tt
      → load_manifest disk opts d.manifest d ≡ (ok m, d)
  unfolding ◌>>◌
  load_manifest-ok here check =
      ap (λ (o : Option Manifest). load_manifest disk opts o d) here
      ∙ ap (λ (r : Result Error (Unit {0})). continue (r, d) (λ _. pure m)) check

  -- `open` behind each of its steps.
  abbrev after_active :
      HashMap (List ℕ)
      → Manifest
      → Result Error ActiveSegment × Directory
      → Result Error Store × Directory
  after_active sealed m' r = continue r (open_segments disk crates is_utf8 opts m' sealed)

  abbrev after_all :
      Manifest → Result Error (HashMap (List ℕ)) × Directory → Result Error Store × Directory
  after_all m' r = continue r (λ sealed d'. after_active sealed m' (open_active disk m'.active d'))

  abbrev after_clean :
      Manifest → Result Error (Unit {0}) × Directory → Result Error Store × Directory
  after_clean m' r = continue r (λ _ d'. after_all m' (open_all disk m'.sealed [] d'))

  abbrev after_load : Result Error Manifest × Directory → Result Error Store × Directory
  after_load r = continue r (λ m' d'. after_clean m' (remove_orphan_segments disk m' d'))

  pub open_store-steps :
      d.manifest ≡ some m
      → check_manifest opts m ≡ ok tt
      → AllThere m.sealed cleaned.segments
      → open_store disk crates is_utf8 opts d
        ≡ open_segments disk crates is_utf8 opts m
            (opened_sealed m.sealed cleaned.segments [])
            (open_segment m.active active_file)
            completed
  unfolding open_store ◌>>=◌ ◌>>◌ remove_orphan_segments
  open_store-steps here check there =
      ap after_load (load_manifest-ok here check)
      ∙ ap (after_clean m) (
          remove_orphans-remaining disk willing (m.active ∷ segment_ids m) (HashMap.keys d.segments)
            d)
      ∙ ap (after_all m) (open_all-opened_sealed disk willing m.sealed [] cleaned there)
      ∙ ap (after_active (opened_sealed m.sealed cleaned.segments []) m) open_active-ok
