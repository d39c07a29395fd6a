-- ===== src/Manifest.antt =====
-- embedding-store/src/manifest.rs: which segments exist, how far the derived files are caught up, and
-- the model the shard is committed to.
use embedding_processing_rs.Base.{ℕ, ◌+◌, List, [], ◌∷◌, map}

abbrev pub manifest_version : ℕ
manifest_version = 1

pub record SegmentInfo : Type 0 where
  pub id : ℕ
  pub bytes : ℕ
  pub first_seq : ℕ
  pub last_seq : ℕ

pub record Manifest : Type 0 where
  pub version : ℕ
  pub model_id : ℕ
  pub n_embd : ℕ
  pub dtype : ℕ
  pub sealed : List SegmentInfo
  pub active : ℕ
  pub next_segment_id : ℕ
  pub next_seq : ℕ
  pub snapshot_seq : ℕ
  pub tombstone_bytes : ℕ

-- `Manifest::new`
abbrev pub new_manifest : ℕ → ℕ → ℕ → Manifest
new_manifest model_id n_embd dtype = record {
  version = manifest_version;
  model_id = model_id;
  n_embd = n_embd;
  dtype = dtype;
  sealed = [];
  active = 0;
  next_segment_id = 1;
  next_seq = 1;
  snapshot_seq = 0;
  tombstone_bytes = 0;
}

abbrev sum_bytes : List SegmentInfo → ℕ
sum_bytes [] = 0
sum_bytes (i ∷ is) = i.bytes + sum_bytes is

-- The denominator of the compaction ratio.
unfoldable pub sealed_bytes : Manifest → ℕ
sealed_bytes m = sum_bytes m.sealed

unfoldable pub segment_ids : Manifest → List ℕ
segment_ids m = map (λ i. i.id) m.sealed
