-- ===== src/Store/Document.antt =====
-- embedding-store/src/store.rs and replay.rs: the append phase of a whole document, and its replay.
use embedding_processing_rs.Base.{
  ℕ, ◌%◌, ◌^◌, ◌<◌, ◌≡◌, refl, ap, sym, ◌∙◌, subst, Bool, true, false, not, some, none, is_some,
  List, [], ◌∷◌, ◌++◌, map, arith, length, ok, ok_or, ok_or-ok, Result, All, filter_by, contains,
  dedup_seen, if◌then◌else◌,
}
use embedding_processing_rs.Base.Action.{continue, pure, gets, ◌>>=◌, ◌>>◌, >>-ok, lift-ok, last-ok}
use embedding_processing_rs.HashMap
use embedding_processing_rs.Record.{Frame, RecordKind, encode, no_vector}
use embedding_processing_rs.Maps.{Loc, Maps, DocEntry, flatten_ids, remove_doc}
use embedding_processing_rs.Maps.Remove.{remove_doc_absent}
use embedding_processing_rs.Crates.{Crates, IsFaithful}
use embedding_processing_rs.Errors.{Error, bad_meta}
use embedding_processing_rs.Segment
use embedding_processing_rs.Segment.{Disk}
use embedding_processing_rs.Segment.Log.{IsSegment}
use embedding_processing_rs.Replay.{Pending, u32_max, insert_pending, split_summary_ids}
use embedding_processing_rs.Replay.Records.{Replays, Replays-delete, Replays-doc, loc_of}
use embedding_processing_rs.Replay.Commit.{OnlyOf, NoneOf, commit_doc_entered, keep-NoneOf}
use embedding_processing_rs.Dto.{SummaryDto, SplitDto, DocumentDto}
use embedding_processing_rs.Store.Types.{Store, Placed}
use embedding_processing_rs.Store.Write.{
  append, append_delete, append_doc, next_seq, on_active, doc_meta, enter_summaries, enter_splits,
  named_by_splits, list_ids, extra_ids,
}
use embedding_processing_rs.Store.Appends.{append-Appends, frame_of}
use embedding_processing_rs.Store.Logged.{
  Logged, Logged-nil, pending_summary, pending_split, same_loc,
}

-- The buffered entities enter the maps as `insert` enters the locations.
insert_pending-splits :
    (qs : List (Placed SplitDto)) (m : Maps)
    → insert_pending (map pending_split qs) m ≡ enter_splits qs m
unfolding insert_pending
insert_pending-splits [] m = refl
insert_pending-splits (q ∷ qs) m = insert_pending-splits qs _

pub insert_pending-enter :
    (ps : List (Placed SummaryDto)) (qs : List (Placed SplitDto)) (m : Maps)
    → insert_pending (map pending_summary ps ++ map pending_split qs) m
      ≡ enter_splits qs (enter_summaries ps m)
unfolding insert_pending
insert_pending-enter [] qs m = insert_pending-splits qs m
insert_pending-enter (p ∷ ps) qs m = insert_pending-enter ps qs _

split_summary_ids-splits :
    (qs : List (Placed SplitDto))
    → split_summary_ids (map pending_split qs) ≡ named_by_splits (map (λ p. p.0) qs)
split_summary_ids-splits [] = refl
split_summary_ids-splits (q ∷ qs) = rw (split_summary_ids-splits qs)

pub split_summary_ids-pending :
    (ps : List (Placed SummaryDto)) (qs : List (Placed SplitDto))
    → split_summary_ids (map pending_summary ps ++ map pending_split qs)
      ≡ named_by_splits (map (λ p. p.0) qs)
split_summary_ids-pending [] qs = split_summary_ids-splits qs
split_summary_ids-pending (p ∷ ps) qs = split_summary_ids-pending ps qs

pub OnlyOf-summaries :
    (d : ℕ) (ps : List (Placed SummaryDto))
    → All (λ s. s.document_id ≡ d) (map (λ p. p.0) ps)
    → OnlyOf d (map pending_summary ps)
OnlyOf-summaries d [] h = tt
OnlyOf-summaries d (p ∷ ps) h = (h.0, OnlyOf-summaries d ps h.1)

pub OnlyOf-splits :
    (d : ℕ) (qs : List (Placed SplitDto))
    → All (λ s. s.doc_id ≡ d) (map (λ p. p.0) qs)
    → OnlyOf d (map pending_split qs)
OnlyOf-splits d [] h = tt
OnlyOf-splits d (q ∷ qs) h = (h.0, OnlyOf-splits d qs h.1)

module _ (crates : Crates) (snapshot_seq : ℕ) (disk : Disk) (faithful : IsFaithful crates) where
  append_by_active :
      (kind : RecordKind) (meta : List ℕ) (s t : Store) (offset : ℕ)
      → on_active
          (Segment.append disk
            (encode crates.crc32 s.manifest.next_seq kind no_vector meta [])
            s.manifest.next_seq)
          (next_seq s).1
        ≡ (ok offset, t)
      → append crates disk kind meta [] s ≡ (
        ok (record {
          segment = t.active.id;
          offset = offset;
          len = length (encode crates.crc32 s.manifest.next_seq kind no_vector meta []) % 2 ^ 32;
        }),
        t,
      )
  unfolding append next_seq ◌>>=◌
  append_by_active kind meta s t offset e =
      ap
        (λ (r : Result Error ℕ × Store). continue r (λ at. gets (λ u. u.active.id) >>= λ id.
          pure (record {
            segment = id;
            offset = at;
            len = length (encode crates.crc32 s.manifest.next_seq kind no_vector meta []) % 2 ^ 32;
          })))
        e

  append_delete-ok :
      (d : ℕ) (s t : Store)
      → append_delete crates disk d s ≡ (ok tt, t)
      → (meta : List ℕ) × (loc : Loc) × (crates.delete.to_vec (record { doc_id = d }) ≡ some meta)
        × (append crates disk RecordKind.delete_doc meta [] s ≡ (ok loc, t))
  unfolding append_delete append next_seq ◌>>=◌ ◌>>◌
  append_delete-ok d s t h =
      let (meta, em, h₁) =
        lift-ok (ok_or (crates.delete.to_vec (record { doc_id = d })) bad_meta) _ _ h in
      let (offset, s₂, e₂, h₂) =
        >>-ok (on_active (Segment.append disk _ s.manifest.next_seq)) _ _ h₁ in
      (
        meta,
        _,
        ok_or-ok _ bad_meta em,
        append_by_active RecordKind.delete_doc meta s t offset (e₂ ∙ cc h₂),
      )

  append_doc-ok :
      (doc : DocumentDto) (s t : Store) (entry : DocEntry)
      → append_doc crates disk doc s ≡ (ok entry, t)
      → (meta : List ℕ) × (loc : Loc) × (crates.doc.to_vec (doc_meta doc) ≡ some meta)
        × (append crates disk RecordKind.doc meta [] s ≡ (ok loc, t))
        × (entry ≡ record {
          url = doc.document_url;
          split_ids = map (λ x. x.split_id) doc.splits;
          summary_ids = list_ids doc.summaries;
          extra_summary_ids = extra_ids doc;
          seq = s.manifest.next_seq;
          loc = loc;
        })
  unfolding append_doc ◌>>=◌
  append_doc-ok doc s t entry h =
      let (meta, em, h₁) = lift-ok (ok_or (crates.doc.to_vec (doc_meta doc)) bad_meta) _ s h in
      let (loc, ea, ee) = last-ok (append crates disk RecordKind.doc meta []) _ s h₁ in
      (meta, loc, ok_or-ok _ bad_meta em, ea, ee)

  pub append_delete-Logged :
      (d : ℕ) (s t : Store) (pending : List Pending)
      → append_delete crates disk d s ≡ (ok tt, t)
      → IsSegment s.active
      → snapshot_seq < s.manifest.next_seq
      → NoneOf d pending
      → (t.active.last_seq ≡ s.manifest.next_seq)
        × (fs : List Frame) × Logged crates snapshot_seq s t fs s.maps pending
            (remove_doc d u32_max s.maps).1
            pending
  append_delete-Logged d s t pending h valid newer others =
      let (meta, loc, em, ea) = append_delete-ok d s t h in
      let f : Frame = frame_of crates disk RecordKind.delete_doc meta [] s in
      (
        (append-Appends crates disk RecordKind.delete_doc meta [] s t loc ea valid).2,
        f ∷ [],
        record {
          appends = (append-Appends crates disk RecordKind.delete_doc meta [] s t loc ea valid).0;
          replays = λ _.
              subst
                (λ p.
                  Replays crates s.active.id snapshot_seq (f ∷ []) s.active.len s.maps pending
                    (remove_doc d u32_max s.maps).1 p)
                (keep-NoneOf d pending others)
                (Replays-delete crates s.active.id snapshot_seq f s.active.len newer
                  (record { doc_id = d }) s.maps pending refl (faithful.delete_trips _ meta em));
        },
      )

  -- The tombstone, which is written where the document is there.
  pub clear_step :
      (replaces : Bool) (d : ℕ) (s t : Store) (pending : List Pending)
      → is_some (HashMap.get d s.maps.docs) ≡ replaces
      → (if replaces then append_delete crates disk d else pure tt) s ≡ (ok tt, t)
      → IsSegment s.active
      → snapshot_seq < s.manifest.next_seq
      → NoneOf d pending
      → (fs : List Frame) × Logged crates snapshot_seq s t fs s.maps pending
          (remove_doc d u32_max s.maps).1
          pending
  clear_step true d s t pending e h valid newer others =
      let (last, fs, logged) = append_delete-Logged d s t pending h valid newer others in
      (fs, logged)
  clear_step false d s t pending e h valid newer others =
      let e' : s ≡ t = cc h in
      (
        [],
        rw (← e', remove_doc_absent d u32_max s.maps (ground (arith, e)))
            (Logged-nil crates snapshot_seq s s.maps pending valid),
      )

  -- The entry of a document whose splits name these summaries.
  abbrev committed : DocumentDto → List ℕ → ℕ → Loc → DocEntry
  committed doc named seq loc = record {
    url = doc.document_url;
    split_ids = map (λ x. x.split_id) doc.splits;
    summary_ids = list_ids doc.summaries;
    extra_summary_ids =
        dedup_seen []
          (filter_by (λ id. not (contains (flatten_ids (list_ids doc.summaries)) id)) named);
    seq = seq;
    loc = loc;
  }

  -- The `Doc` record behind the document's entities.
  pub append_doc-Logged :
      (doc : DocumentDto) (s t : Store) (entry : DocEntry) (m : Maps) (pending mine : List Pending)
      → append_doc crates disk doc s ≡ (ok entry, t)
      → IsSegment s.active
      → snapshot_seq < s.manifest.next_seq
      → HashMap.get doc.document_id m.docs ≡ none
      → NoneOf doc.document_id pending
      → OnlyOf doc.document_id mine
      → split_summary_ids mine ≡ named_by_splits doc.splits
      → (t.active.last_seq ≡ s.manifest.next_seq)
        × (fs : List Frame) × Logged crates snapshot_seq s t fs m
            (pending ++ mine)
            (record (insert_pending mine m) {
              docs = HashMap.insert doc.document_id entry (insert_pending mine m).docs;
            })
            pending
  append_doc-Logged doc s t entry m pending mine h valid newer absent others only named =
      let (meta, loc, em, ea, ee) = append_doc-ok doc s t entry h in
      let f : Frame = frame_of crates disk RecordKind.doc meta [] s in
      (
        (append-Appends crates disk RecordKind.doc meta [] s t loc ea valid).2,
        f ∷ [],
        record {
          appends = (append-Appends crates disk RecordKind.doc meta [] s t loc ea valid).0;
          replays = λ r.
              let here : Loc = loc_of crates s.active.id snapshot_seq f s.active.len newer in
              let same : entry ≡ committed doc (split_summary_ids mine) s.manifest.next_seq here =
                ee ∙ λ i. committed doc (sym named i) s.manifest.next_seq (
                  same_loc crates snapshot_seq disk faithful RecordKind.doc meta [] s t loc ea valid
                    r i) in
              subst
                (λ c.
                  Replays crates s.active.id snapshot_seq (f ∷ []) s.active.len m (pending ++ mine)
                    c.0 c.1)
                (commit_doc_entered (doc_meta doc) s.manifest.next_seq here m pending mine absent
                    others only
                  ∙ λ i. (
                    record (insert_pending mine m) {
                      docs =
                          HashMap.insert doc.document_id (sym same i) (insert_pending mine m).docs;
                    },
                    pending,
                  ))
                (Replays-doc crates s.active.id snapshot_seq f s.active.len newer (doc_meta doc) m
                  (pending ++ mine) refl (faithful.doc_trips _ meta em));
        },
      )
