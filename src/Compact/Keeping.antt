-- ===== src/Compact/Keeping.antt =====
-- embedding-store/src/compact.rs: what a compaction keeps, and that the relocation of the copies keeps it.
use embedding_processing_rs.Base.{
  ℕ, ◌^◌, ◌<◌, ◌≡◌, ◌≢◌, refl, ap, sym, subst, true, some, List, [], ◌∷◌, ◌++◌, arith, contains,
  length, length-append, append-nil, All, ok,
}
use embedding_processing_rs.HashMap
use embedding_processing_rs.HashMap.{HashMap}
use embedding_processing_rs.Maps.{Loc, DocEntry, SplitEntry, SummaryEntry, Maps, owned_summary_ids}
use embedding_processing_rs.Segment.{open_segment}
use embedding_processing_rs.Segment.Log.{log, IsSegment}
use embedding_processing_rs.Store.Types.{Store}
use embedding_processing_rs.Store.Read.{read_record}
use embedding_processing_rs.Compact.{
  NewLocs, Copying, relocate_each, relocate_all, put_split, put_summary, put_doc,
}
use embedding_processing_rs.Compact.Copies.{
  Held, IsCopy, IsCopying, is_noted, split_loc, summary_loc, doc_loc,
}
use embedding_processing_rs.Compact.Documents.{Covers}
use embedding_processing_rs.Compact.Reading.{is_sealed, KeepsKey, relocate_each-KeepsKey}

-- A document whose record is sealed owns each entity whose record is.
pub record IsGrouped (s : Store) : Type 0 where
  pub splits :
      (k : ℕ) (e : SplitEntry)
      → HashMap.get k s.maps.splits ≡ some e
      → is_sealed s e.loc.segment ≡ true
      → (d : ℕ) × (entry : DocEntry) × (HashMap.get d s.maps.docs ≡ some entry)
        × (is_sealed s entry.loc.segment ≡ true)
        × (contains entry.split_ids k ≡ true)
  pub summaries :
      (k : ℕ) (e : SummaryEntry)
      → HashMap.get k s.maps.summaries ≡ some e
      → is_sealed s e.loc.segment ≡ true
      → (d : ℕ) × (entry : DocEntry) × (HashMap.get d s.maps.docs ≡ some entry)
        × (is_sealed s entry.loc.segment ≡ true)
        × (contains (owned_summary_ids entry) k ≡ true)

-- The lengths of records are those of a u32.
pub record AreShort (m : Maps) : Type 0 where
  pub docs : (k : ℕ) (e : DocEntry) → HashMap.get k m.docs ≡ some e → e.loc.len < 2 ^ 32
  pub splits : (k : ℕ) (e : SplitEntry) → HashMap.get k m.splits ≡ some e → e.loc.len < 2 ^ 32
  pub summaries :
      (k : ℕ) (e : SummaryEntry) → HashMap.get k m.summaries ≡ some e → e.loc.len < 2 ^ 32

pub record IsCompactable (s : Store) : Type 0 where
  pub active : IsSegment s.active
  pub below : s.active.id < s.manifest.next_segment_id
  pub grouped : IsGrouped s
  pub short : AreShort s.maps

-- The same documents, splits and summaries, and every record that was read reads the same.
pub record Keeps (s t : Store) : Type 0 where
  pub docs : (k : ℕ) → KeepsKey doc_loc put_doc s t s.maps.docs t.maps.docs k
  pub splits : (k : ℕ) → KeepsKey split_loc put_split s t s.maps.splits t.maps.splits k
  pub summaries : (k : ℕ) → KeepsKey summary_loc put_summary s t s.maps.summaries t.maps.summaries k

-- The copy loop over the documents that are sealed, once it has returned.
pub record IsCopied (s : Store) (new_id : ℕ) (c : Copying) : Type 0 where
  pub copying : IsCopying s new_id c
  pub covers :
      (d : ℕ) (entry : DocEntry)
      → HashMap.get d s.maps.docs ≡ some entry
      → is_sealed s entry.loc.segment ≡ true
      → Covers s c d entry

module _ (s : Store) (new_id : ℕ) (c : Copying) (w : IsCopied s new_id c) (grouped : IsGrouped s)
    (short : AreShort s.maps) (t : Store) (id : t.active.id ≡ s.active.id)
    (file : t.active.file ≡ log s.active)
    (copies : (old new : Loc) (h : Held s (log c.writer) new_id old new)
      → length h.bytes < 2 ^ 32
      → read_record t new ≡ ok h.bytes)
    (maps : t.maps ≡ relocate_all c s.maps) where
  split_covered :
      (k : ℕ) (e : SplitEntry)
      → HashMap.get k s.maps.splits ≡ some e
      → is_sealed s e.loc.segment ≡ true
      → is_noted c.split_locs k ≡ true
  split_covered k e found sealed =
      let (d, entry, there, sealed', owns) = grouped.splits k e found sealed in
      (w.covers d entry there sealed').splits k owns (ground (arith, found))

  summary_covered :
      (k : ℕ) (e : SummaryEntry)
      → HashMap.get k s.maps.summaries ≡ some e
      → is_sealed s e.loc.segment ≡ true
      → is_noted c.summary_locs k ≡ true
  summary_covered k e found sealed =
      let (d, entry, there, sealed', owns) = grouped.summaries k e found sealed in
      (w.covers d entry there sealed').summaries k owns (ground (arith, found))

  pub relocated-Keeps : Keeps s t
  unfolding relocate_all
  relocated-Keeps = record {
    docs = λ k.
        subst (λ m. KeepsKey doc_loc put_doc s t s.maps.docs m k)
          (sym (ap (λ (m : Maps). m.docs) maps))
          (relocate_each-KeepsKey s t new_id (log c.writer) id file copies doc_loc put_doc
            (λ v. refl) (λ v l. refl) (λ v l l'. refl) s.maps.docs short.docs c.doc_locs
            w.copying.docs (λ j e found sealed. (w.covers j e found sealed).doc) k);
    splits = λ k.
        subst (λ m. KeepsKey split_loc put_split s t s.maps.splits m k)
          (sym (ap (λ (m : Maps). m.splits) maps))
          (relocate_each-KeepsKey s t new_id (log c.writer) id file copies split_loc put_split
            (λ v. refl) (λ v l. refl) (λ v l l'. refl) s.maps.splits short.splits c.split_locs
            w.copying.splits split_covered k);
    summaries = λ k.
        subst (λ m. KeepsKey summary_loc put_summary s t s.maps.summaries m k)
          (sym (ap (λ (m : Maps). m.summaries) maps))
          (relocate_each-KeepsKey s t new_id (log c.writer) id file copies summary_loc put_summary
            (λ v. refl) (λ v l. refl) (λ v l l'. refl) s.maps.summaries short.summaries
            c.summary_locs w.copying.summaries summary_covered k);
  }

-- A writer that took no bytes holds no record.
pub no_room :
    (s : Store) (written : List ℕ) (new_id : ℕ) (old new : Loc)
    → Held s written new_id old new
    → length written ≢ 0
no_room s written new_id old new held none_written = omega (
  arith,
  none_written,
  held.not_empty,
  ap length held.placed,
  length-append held.before (held.bytes ++ held.after),
  length-append held.bytes held.after,
)

pub no_copies :
    {V : Type 0} (s : Store) (at : V → Loc) (m : HashMap V) (written : List ℕ) (new_id : ℕ)
    (locs : NewLocs)
    → length written ≡ 0
    → All (IsCopy s at m written new_id) locs
    → locs ≡ []
no_copies s at m written new_id [] none_written h = refl
no_copies s at m written new_id ((id, new) ∷ locs) none_written ((e, found, held), h) =
    absurd (no_room s written new_id (at e) new held none_written)

pub relocate_all-nothing :
    (c : Copying) (m : Maps)
    → c.doc_locs ≡ []
    → c.split_locs ≡ []
    → c.summary_locs ≡ []
    → relocate_all c m ≡ m
unfolding relocate_all
relocate_all-nothing c m docs splits summaries = λ i. record {
  docs = relocate_each put_doc (docs i) m.docs;
  splits = relocate_each put_split (splits i) m.splits;
  summaries = relocate_each put_summary (summaries i) m.summaries;
}

pub open_segment-IsSegment : (id : ℕ) (bytes : List ℕ) → IsSegment (open_segment id bytes)
open_segment-IsSegment id bytes = record {
  len_log = ap length (sym (append-nil bytes));
  flushed = λ _. refl;
}
