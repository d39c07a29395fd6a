-- ===== src/Replay/Fuel.antt =====
-- embedding-store/src/replay.rs: the loop of `scan_segment` ends on every input.
use embedding_processing_rs.Base.{
  ℕ, zero, suc, ◌+◌, ◌≤◌, ◌≡◌, ◌≢◌, refl, Bool, List, [], ◌∷◌, arith, length, drop, length-drop,
  Result, ok, err, Result-cases, ◌>>=◌, >>=-congr, >>=-ne-err, inl, inr,
}
use embedding_processing_rs.Record.{RecordKind, RecordView, DecodeError, decode}
use embedding_processing_rs.Record.Bounds.{decode_bounds}
use embedding_processing_rs.Crates.{Crates}
use embedding_processing_rs.Errors.{Error, out_of_fuel}
use embedding_processing_rs.Maps.{Loc, Maps}
use embedding_processing_rs.Replay.{
  Scanning, Pending, scan_loop, scan_record, scan_bad, scan_segment, apply,
}

module _ (crates : Crates) (segment_id snapshot_seq : ℕ) (allow : Bool) where
  abbrev loop : ℕ → List ℕ → ℕ → Scanning → Result Error Scanning
  loop = scan_loop crates segment_id snapshot_seq allow

  abbrev body : RecordView → ℕ → Scanning → Result Error Scanning
  body view offset s = scan_record crates segment_id snapshot_seq offset view s

  -- One round at a record that decodes.
  pub scan_loop_ok :
      (fuel b : ℕ) (bs : List ℕ) (offset : ℕ) (s : Scanning) (view : RecordView)
      → decode crates.crc32 (b ∷ bs) ≡ ok view
      → loop (suc fuel) (b ∷ bs) offset s
        ≡ (body view offset s >>= λ s'. loop fuel (drop view.len (b ∷ bs)) (offset + view.len) s')
  unfolding scan_loop
  scan_loop_ok fuel b bs offset s view e = rw (e, scan_loop)

  -- Every round leaves fewer bytes.
  pub shorter :
      (b : ℕ) (bs : List ℕ) (view : RecordView)
      → decode crates.crc32 (b ∷ bs) ≡ ok view
      → length (drop view.len (b ∷ bs)) ≤ length bs
  shorter b bs view e =
      omega (arith, length-drop view.len (b ∷ bs), decode_bounds crates.crc32 (b ∷ bs) view e)

  -- Fuel that covers the bytes left gives one result.
  pub scan_loop_fuel :
      (f g : ℕ) (rest : List ℕ) (offset : ℕ) (s : Scanning)
      → length rest ≤ f
      → length rest ≤ g
      → loop f rest offset s ≡ loop g rest offset s
  unfolding scan_loop
  scan_loop_fuel f g [] offset s hf hg = refl
  scan_loop_fuel zero g (b ∷ bs) offset s hf hg = absurd (omega arith)
  scan_loop_fuel (suc f) zero (b ∷ bs) offset s hf hg = absurd (omega arith)
  scan_loop_fuel (suc f) (suc g) (b ∷ bs) offset s hf hg =
      elim (Result-cases (decode crates.crc32 (b ∷ bs))) [
        | inl (view, e) ↦
            rw (e, scan_loop)
              (>>=-congr (body view offset s) (λ s'.
                scan_loop_fuel f g (drop view.len (b ∷ bs)) (offset + view.len) s'
                  (omega (arith, shorter b bs view e)) (omega (arith, shorter b bs view e))))
        | inr (x, e) ↦ rw (e, scan_loop)
      ]

  apply-ne-out_of_fuel :
      (kind : RecordKind) (seq : ℕ) (meta : List ℕ) (loc : Loc) (maps : Maps)
      (pending : List Pending)
      → apply crates kind seq meta loc maps pending ≢ err out_of_fuel
  unfolding apply
  apply-ne-out_of_fuel RecordKind.doc seq meta loc maps pending h = ground arith
  apply-ne-out_of_fuel _ seq meta loc maps pending h = ground arith

  body-ne-out_of_fuel :
      (view : RecordView) (offset : ℕ) (s : Scanning) → body view offset s ≢ err out_of_fuel
  unfolding scan_record
  body-ne-out_of_fuel view offset s h = ground (
    arith,
    apply-ne-out_of_fuel view.kind view.seq view.meta
        (record { segment = segment_id; offset = offset; len = view.len }) s.maps s.pending,
  )

  scan_bad-ne-out_of_fuel :
      (offset : ℕ) (x : DecodeError) (rest : List ℕ) (s : Scanning)
      → scan_bad segment_id allow offset x rest s ≢ err out_of_fuel
  unfolding scan_bad
  scan_bad-ne-out_of_fuel offset x rest s h = ground arith

  scan_loop-ne-out_of_fuel :
      (fuel : ℕ) (rest : List ℕ) (offset : ℕ) (s : Scanning)
      → length rest ≤ fuel
      → loop fuel rest offset s ≢ err out_of_fuel
  unfolding scan_loop
  scan_loop-ne-out_of_fuel fuel [] offset s hf h = cc
  scan_loop-ne-out_of_fuel zero (b ∷ bs) offset s hf h = absurd (omega arith)
  scan_loop-ne-out_of_fuel (suc fuel) (b ∷ bs) offset s hf h =
      elim (Result-cases (decode crates.crc32 (b ∷ bs))) [
        | inl (view, e) ↦
            >>=-ne-err (body view offset s) _ out_of_fuel (body-ne-out_of_fuel view offset s)
              (λ s'.
                scan_loop-ne-out_of_fuel fuel (drop view.len (b ∷ bs)) (offset + view.len) s'
                  (omega (arith, shorter b bs view e)))
              (rw (e, scan_loop) at h)
        | inr (x, e) ↦ scan_bad-ne-out_of_fuel offset x (b ∷ bs) s (rw (e, scan_loop) at h)
      ]

  -- The scan of any bytes, from any maps, does not run out of its fuel.
  pub scan_segment-ne-out_of_fuel :
      (bytes : List ℕ) (maps : Maps)
      → scan_segment crates bytes segment_id snapshot_seq maps allow ≢ err out_of_fuel
  unfolding scan_segment
  scan_segment-ne-out_of_fuel bytes maps =
      >>=-ne-err _ _ out_of_fuel (scan_loop-ne-out_of_fuel (length bytes) bytes 0 _ (omega arith))
        (λ s' h. cc)
