-- ===== src/Store/Opening.antt =====
-- embedding-store/src/store.rs: what `open` checks and rebuilds from what it has read.
use embedding_processing_rs.Base.{
  ℕ, ◌+◌, max, Bool, true, false, not, ◌&&◌, Option, none, some, List, [], ◌∷◌, length, leb, ltb,
  ◌==◌, if◌then◌else◌, Result, ok, err, reject_if, ◌>>=◌, ◌>>◌,
}
use embedding_processing_rs.HashMap
use embedding_processing_rs.HashMap.{HashMap}
use embedding_processing_rs.Maps.{Loc, Maps, no_maps}
use embedding_processing_rs.Record.{dtype_to_u8}
use embedding_processing_rs.Crates.{Crates}
use embedding_processing_rs.Errors.{
  Error, panicked, newer_manifest, other_model, other_dimensions, other_dtype,
}
use embedding_processing_rs.Manifest.{Manifest, SegmentInfo, manifest_version}
use embedding_processing_rs.Segment.{ActiveSegment}
use embedding_processing_rs.Replay.{scan_segment}
use embedding_processing_rs.Snapshot.{SnapshotError}
use embedding_processing_rs.Store.Types.{StoreOptions}

-- The checks on a manifest that is there.
abbrev pub check_manifest : StoreOptions → Manifest → Result Error (Unit {0})
check_manifest opts m = do
  reject_if (ltb manifest_version m.version) (newer_manifest m.version)
  reject_if (not (m.model_id == opts.model_id)) (other_model m.model_id opts.model_id)
  reject_if (not (m.n_embd == opts.n_embd)) (other_dimensions m.n_embd opts.n_embd)
  reject_if (not (m.dtype == dtype_to_u8 opts.dtype)) (other_dtype m.dtype (dtype_to_u8 opts.dtype))

abbrev pub fits_in : HashMap (List ℕ) → ActiveSegment → Loc → Bool
fits_in sealed active loc =
    if loc.segment == active.id
    then leb (loc.offset + loc.len) active.len
    else elim (HashMap.get loc.segment sealed) [
      | some segment ↦ leb (loc.offset + loc.len) (length segment)
      | none ↦ false
    ]

abbrev pub every_value : {V : Type 0} → (V → Bool) → HashMap V → Bool
every_value f [] = true
every_value f ((k, v) ∷ m) = f v && every_value f m

-- Does every location in the maps sit inside a segment that is actually that long?
abbrev pub locations_fit : Maps → HashMap (List ℕ) → ActiveSegment → Bool
locations_fit maps sealed active =
    every_value (λ e. fits_in sealed active e.loc) maps.docs
    && every_value (λ e. fits_in sealed active e.loc) maps.splits
    && every_value (λ e. fits_in sealed active e.loc) maps.summaries

-- Whether the snapshot was rejected, and the maps and the sequence number to start from.
abbrev pub choose_snapshot :
    Result SnapshotError (Option (Maps × ℕ))
    → ℕ
    → HashMap (List ℕ)
    → ActiveSegment
    → Bool × (Maps × ℕ)
choose_snapshot (ok (some (maps, seq))) snapshot_seq sealed active =
    if not (seq == snapshot_seq)
    then (true, (no_maps, 0))
    else if locations_fit maps sealed active
    then (false, (maps, seq))
    else (true, (no_maps, 0))
choose_snapshot (ok none) snapshot_seq sealed active = (false, (no_maps, 0))
choose_snapshot (err e) snapshot_seq sealed active = (true, (no_maps, 0))

module _ (crates : Crates) (snapshot_seq : ℕ) (sealed : HashMap (List ℕ)) where
  -- One round of the loop over the sealed segments.
  unfoldable pub replay_sealed : SegmentInfo → Maps → ℕ → Result Error (Maps × ℕ)
  replay_sealed info maps max_seq =
      if leb info.last_seq snapshot_seq
      then ok (maps, max_seq)
      else elim (HashMap.get info.id sealed) [
        | some bytes ↦
            scan_segment crates bytes info.id snapshot_seq maps false >>= λ (scan, maps').
            ok (maps', max max_seq scan.last_seq)
        | none ↦ err panicked
      ]

  abbrev pub replay_all : List SegmentInfo → Maps → ℕ → Result Error (Maps × ℕ)
  replay_all [] maps max_seq = ok (maps, max_seq)
  replay_all (i ∷ is) maps max_seq = do
    (maps', max_seq') ← replay_sealed i maps max_seq
    replay_all is maps' max_seq'
