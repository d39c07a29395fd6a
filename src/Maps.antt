-- ===== src/Maps.antt =====
-- embedding-store/src/maps.rs: where the record of every live entity is, and the membership lists.
-- The byte counts are sums of record lengths; they are taken as plain numbers, without the bound of
-- a u64.
pub mod Remove
use embedding_processing_rs.Base.{
  ℕ, ◌+◌, Bool, Option, none, some, List, [], ◌∷◌, ◌++◌, ◌&&◌, ◌==◌, if◌then◌else◌, is_empty,
}
use embedding_processing_rs.HashMap
use embedding_processing_rs.HashMap.{HashMap}

pub record Loc : Type 0 where
  pub segment : ℕ
  pub offset : ℕ
  pub len : ℕ

pub record DocEntry : Type 0 where
  pub url : List ℕ
  pub split_ids : List ℕ
  pub summary_ids : Option (List ℕ)
  pub extra_summary_ids : List ℕ
  pub seq : ℕ
  pub loc : Loc

pub record SplitEntry : Type 0 where
  pub doc_id : ℕ
  pub loc : Loc

pub record SummaryEntry : Type 0 where
  pub doc_id : ℕ
  pub split_id : ℕ
  pub loc : Loc

pub record Maps : Type 0 where
  pub docs : HashMap DocEntry
  pub splits : HashMap SplitEntry
  pub summaries : HashMap SummaryEntry

-- `Maps::default()`
abbrev pub no_maps : Maps
no_maps = record { docs = []; splits = []; summaries = [] }

abbrev pub maps_is_empty : Maps → Bool
maps_is_empty m = is_empty m.docs && is_empty m.splits && is_empty m.summaries

-- `ids.iter().flatten()` on an optional list
abbrev pub flatten_ids : Option (List ℕ) → List ℕ
flatten_ids none = []
flatten_ids (some ids) = ids

abbrev pub owned_summary_ids : DocEntry → List ℕ
owned_summary_ids e = flatten_ids e.summary_ids ++ e.extra_summary_ids

pub record RemovedDoc : Type 0 where
  pub entry : DocEntry
  pub split_ids : List ℕ
  pub summary_ids : List ℕ
  pub sealed_bytes : ℕ
  pub active_bytes : ℕ

-- The two counters that `account` adds to.
pub record Freed : Type 0 where
  pub sealed_bytes : ℕ
  pub active_bytes : ℕ

abbrev pub account : ℕ → Loc → Freed → Freed
account active_segment loc f =
    if loc.segment == active_segment
    then record f { active_bytes = f.active_bytes + loc.len }
    else record f { sealed_bytes = f.sealed_bytes + loc.len }

-- A map after some of its keys are removed, the keys that were there, and the counters.
pub record Swept {ℓ} (V : Type ℓ) : Type ℓ where
  pub map : HashMap V
  pub ids : List ℕ
  pub freed : Freed

-- The loops over `entry.split_ids` and over `entry.owned_summary_ids()`. `at` gives the location of
-- an entry.
unfoldable pub remove_each {ℓ} : {V : Type ℓ} → (V → Loc) → ℕ → List ℕ → HashMap V → Freed → Swept V
remove_each at active [] m f = record { map = m; ids = []; freed = f }
remove_each at active (id ∷ ids) m f = elim (HashMap.get id m) [
  | none ↦ remove_each at active ids m f
  | some e ↦
      let rest = remove_each at active ids (HashMap.remove id m) (account active (at e) f) in
      record rest { ids = id ∷ rest.ids }
]

-- What `remove_doc` does once `entry` is taken out of `docs`.
unfoldable pub sweep_doc : DocEntry → ℕ → ℕ → Maps → RemovedDoc × Maps
sweep_doc entry doc_id active_segment m =
    let start = account active_segment entry.loc (record { sealed_bytes = 0; active_bytes = 0 }) in
    let splits =
      remove_each (λ (e : SplitEntry). e.loc) active_segment entry.split_ids m.splits start in
    let summaries =
      remove_each (λ (e : SummaryEntry). e.loc) active_segment (owned_summary_ids entry) m.summaries
        splits.freed in
    (
      record {
        entry = entry;
        split_ids = splits.ids;
        summary_ids = summaries.ids;
        sealed_bytes = summaries.freed.sealed_bytes;
        active_bytes = summaries.freed.active_bytes;
      },
      record {
        docs = HashMap.remove doc_id m.docs;
        splits = splits.map;
        summaries = summaries.map;
      },
    )

-- `None` leaves the maps as they are.
unfoldable pub remove_doc : ℕ → ℕ → Maps → Option RemovedDoc × Maps
unfolding sweep_doc
remove_doc doc_id active_segment m = elim (HashMap.get doc_id m.docs) [
  | none ↦ (none, m)
  | some entry ↦ let (removed, m') = sweep_doc entry doc_id active_segment m in (some removed, m')
]
