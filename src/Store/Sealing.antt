-- ===== src/Store/Sealing.antt =====
-- embedding-store/src/store.rs: sealing keeps the files in step with the maps, and so do `insert` and
-- `delete` as a whole.
use embedding_processing_rs.Base.{
  ℕ, ◌+◌, ◌≡◌, ◌≢◌, refl, ap, sym, ◌∙◌, subst, Bool-cases, ◌||◌, Option, none, some, List, [], ◌∷◌,
  ◌++◌, arith, Result-cases, ok, All, inl, inr, ◌==◌, ltb, append-nil,
}
use embedding_processing_rs.Base.Action.{pure, ◌>>=◌, ◌>>◌, >>=-ok, >>-ok}
use embedding_processing_rs.HashMap
use embedding_processing_rs.HashMap.{HashMap, get-insert}
use embedding_processing_rs.Maps.{Maps, RemovedDoc}
use embedding_processing_rs.Manifest.{SegmentInfo}
use embedding_processing_rs.Crates.{Crates, IsFaithful}
use embedding_processing_rs.Segment
use embedding_processing_rs.Segment.{Disk, ActiveSegment, open_segment}
use embedding_processing_rs.Segment.Log.{log, flush-ok}
use embedding_processing_rs.Replay.Records.{Replays-nil}
use embedding_processing_rs.Dto.{DocumentDto}
use embedding_processing_rs.Store.Types.{Store, Replaced}
use embedding_processing_rs.Store.Write.{record_document, on_active}
use embedding_processing_rs.Store.Seal.{
  record_delete, seal_active, seal_nonempty, seal_if_needed, seal_old, claim_segment_id,
  replace_active, store_manifest, note_sealed, info_of, file_of, insert, delete, delete_present,
}
use embedding_processing_rs.Store.Appends.{IsInRange}
use embedding_processing_rs.Store.Durable.{IsConsistent}
use embedding_processing_rs.Store.Whole.{
  SegmentReplays, SealedReplays, IsWhole, flush-IsWhole, record_document-IsWhole,
  record_delete-IsWhole,
}

SealedReplays-snoc :
    (crates : Crates) (snapshot_seq : ℕ) (is : List SegmentInfo) (i : SegmentInfo)
    (sealed : HashMap (List ℕ)) (bytes : List ℕ) (m mid m' : Maps)
    → SealedReplays crates snapshot_seq is sealed m mid
    → All (λ j. j.id ≢ i.id) is
    → SegmentReplays crates snapshot_seq i bytes mid m'
    → SealedReplays crates snapshot_seq (is ++ (i ∷ [])) (HashMap.insert i.id bytes sealed) m m'
SealedReplays-snoc crates n [] i sealed bytes m mid m' e others r = (
  bytes,
  m',
  ground (arith, get-insert i.id i.id bytes sealed),
  subst (λ u. SegmentReplays crates n i bytes u m') (sym e) r,
  refl,
)
SealedReplays-snoc crates n (j ∷ is) i sealed bytes m mid m' (b, u, found, rj, rest) others r = (
  b,
  u,
  ground (arith, get-insert i.id j.id bytes sealed, others.0, found),
  rj,
  SealedReplays-snoc crates n is i sealed bytes u mid m' rest others.1 r,
)

-- Both maps of segments gain the same entry.
files-insert :
    (is : List SegmentInfo) (k : ℕ) (bytes : List ℕ) (files sealed : HashMap (List ℕ))
    → All (λ i. HashMap.get i.id files ≡ HashMap.get i.id sealed) is
    → All
        (λ i.
          HashMap.get i.id (HashMap.insert k bytes files)
          ≡ HashMap.get i.id (HashMap.insert k bytes sealed))
        is
files-insert [] k bytes files sealed h = tt
files-insert (i ∷ is) k bytes files sealed h = (
  ground (arith, h.0, get-insert k i.id bytes files, get-insert k i.id bytes sealed),
  files-insert is k bytes files sealed h.1,
)

All-snoc {ℓ κ} :
    {A : Type ℓ} (P : A → Type κ) (xs : List A) (x : A) → All P xs → P x → All P (xs ++ (x ∷ []))
All-snoc P [] x h hx = (hx, tt)
All-snoc P (y ∷ xs) x h hx = (h.0, All-snoc P xs x h.1 hx)

All-map {ℓ κ μ} :
    {A : Type ℓ} (P : A → Type κ) (Q : A → Type μ) (xs : List A)
    → ((x : A) → P x → Q x)
    → All P xs
    → All Q xs
All-map P Q [] f h = tt
All-map P Q (x ∷ xs) f h = (f x h.0, All-map P Q xs f h.1)

module _ (disk : Disk) where
  sync-ok :
      (s t : ActiveSegment) → Segment.sync disk s ≡ (ok tt, t) → Segment.flush disk s ≡ (ok tt, t)
  unfolding Segment.sync Segment.sync_data ◌>>◌
  sync-ok s t h =
      let (u, s', e, e') = >>-ok (Segment.flush disk) (Segment.sync_data disk) s h in
      e ∙ ground (arith, e')

  -- What a store is once its active segment `s` is sealed as `a` (the same, flushed).
  abbrev resealed : Store → ActiveSegment → Store
  resealed s a =
      let t : Store = record s {
        manifest = record (s.manifest) { next_segment_id = s.manifest.next_segment_id + 1 };
        active =
            open_segment s.manifest.next_segment_id
              (file_of (HashMap.get s.manifest.next_segment_id s.files));
        files = HashMap.insert a.id a.file s.files;
      } in
      let u : Store = note_sealed disk s.active s.manifest.next_segment_id a.file t in
      record u { stored = some u.manifest }

  seal_nonempty-ok :
      (s t : Store)
      → seal_nonempty disk s ≡ (ok tt, t)
      → (a : ActiveSegment) × (Segment.flush disk s.active ≡ (ok tt, a)) × (t ≡ resealed s a)
  unfolding seal_nonempty claim_segment_id replace_active seal_old store_manifest ◌>>=◌ ◌>>◌
  seal_nonempty-ok s t h = elim (Result-cases (Segment.sync disk s.active).0) [
    | inl (u, e) ↦ (
      (Segment.sync disk s.active).1,
      sync-ok s.active (Segment.sync disk s.active).1 (λ i. (e i, (Segment.sync disk s.active).1)),
      ground (arith, h, e),
    )
    | inr (x, e) ↦ absurd (ground (arith, h, e))
  ]

module _ (crates : Crates) (disk : Disk) (start : Maps) where
  resealed-IsWhole :
      (s : Store) (a : ActiveSegment)
      → Segment.flush disk s.active ≡ (ok tt, a)
      → IsWhole crates start s
      → IsWhole crates start (resealed disk s a)
  resealed-IsWhole s a e w =
      let (same, empty, id, len, first, last, valid) = flush-ok disk s.active a e w.active.valid in
      let n = s.manifest.snapshot_seq in
      let bytes : a.file ≡ log s.active =
        sym (append-nil a.file) ∙ ap (λ (b : List ℕ). a.file ++ b) (sym empty) ∙ same in
      let fresh : HashMap.get s.manifest.next_segment_id s.files ≡ none =
        w.ids.unused s.manifest.next_segment_id (omega arith) in
      record {
        base = s.maps;
        sealed =
            SealedReplays-snoc crates n s.manifest.sealed (info_of disk s.active) s.sealed a.file
              start w.base s.maps w.sealed w.ids.others
              (record {
                frames = w.active.frames;
                bytes_frames = bytes ∙ w.active.log_frames;
                fits = w.active.fits;
                replays = w.active.replays;
                covered = w.covered;
              });
        active = record {
          frames = [];
          log_frames = rw fresh;
          fits = tt;
          valid = record { len_log = rw fresh; flushed = λ _. refl };
          replays = Replays-nil crates s.manifest.next_segment_id n 0 s.maps [];
        };
        covered = λ _. refl;
        newer = w.newer;
        ids = record {
          others =
              All-snoc _ s.manifest.sealed (info_of disk s.active)
                (All-map _ _ s.manifest.sealed (λ i h. λ q. omega (arith, h, q)) w.ids.below)
                (λ q. omega (arith, q, w.ids.active_below));
          below =
              All-snoc _ s.manifest.sealed (info_of disk s.active)
                (All-map _ _ s.manifest.sealed (λ i h. omega (arith, h)) w.ids.below)
                (omega (arith, w.ids.active_below));
          active_below = omega arith;
          active = refl;
          unused = λ k h.
              ground
                (arith, id, w.ids.active_below, w.ids.unused k, get-insert a.id k a.file s.files);
        };
        stored = record {
          on_disk = (resealed disk s a).manifest;
          stored = refl;
          agrees = refl;
          files =
              All-snoc _ s.manifest.sealed (info_of disk s.active)
                (rw id (
                  files-insert s.manifest.sealed s.active.id a.file s.files s.sealed
                    w.stored.files))
                (ground (
                  arith,
                  id,
                  get-insert a.id s.active.id a.file s.files,
                  get-insert s.active.id s.active.id a.file s.sealed,
                ));
        };
      }

  resealed-buffer : (s : Store) (a : ActiveSegment) → (resealed disk s a).active.buffer ≡ []
  resealed-buffer s a = refl

  -- Sealing the active segment, or leaving it where it is empty or small.
  pub seal_active-IsWhole :
      (s t : Store)
      → seal_active disk s ≡ (ok tt, t)
      → IsWhole crates start s
      → s.active.buffer ≡ []
      → IsWhole crates start t × (t.active.buffer ≡ [])
  unfolding seal_active
  seal_active-IsWhole s t h w b = elim (Bool-cases (s.active.len == 0)) [
    | inl e ↦
        let same : s ≡ t = ground (arith, e, h) in
        (subst (IsWhole crates start) same w, subst (λ (u : Store). u.active.buffer ≡ []) same b)
    | inr e ↦
        let (a, ea, et) = seal_nonempty-ok disk s t (ground (arith, e, h)) in
        (rw et (resealed-IsWhole s a ea w), rw et)
  ]

  pub seal_if_needed-IsWhole :
      (s t : Store)
      → seal_if_needed disk s ≡ (ok tt, t)
      → IsWhole crates start s
      → s.active.buffer ≡ []
      → IsWhole crates start t × (t.active.buffer ≡ [])
  unfolding seal_if_needed
  seal_if_needed-IsWhole s t h w b =
      elim (Bool-cases (ltb s.active.len s.opts.segment_max_bytes || s.active.len == 0)) [
        | inl e ↦
            let same : s ≡ t = ground (arith, e, h) in
            (
              subst (IsWhole crates start) same w,
              subst (λ (u : Store). u.active.buffer ≡ []) same b,
            )
        | inr e ↦ seal_active-IsWhole s t (ground (arith, e, h)) w b
      ]

  -- What `insert` and `delete` do behind their records.
  settled :
      {A : Type 0} (a : A) (s t : Store) {b : A}
      → (on_active (Segment.flush disk) >> (seal_if_needed disk >> pure a)) s ≡ (ok b, t)
      → IsWhole crates start s
      → IsWhole crates start t × (t.active.buffer ≡ [])
  settled a s t h w =
      let (u, s', e, e') =
        >>-ok (on_active (Segment.flush disk)) (seal_if_needed disk >> pure a) s h in
      let (v, s'', f, f') = >>-ok (seal_if_needed disk) (pure a) s' e' in
      let (w', b) = flush-IsWhole crates disk start s s' e w in
      seal_if_needed-IsWhole s' t (f ∙ (λ i. (ok tt, (f' i).1))) w' b

  module _ (faithful : IsFaithful crates) where
    -- If the files of a store are in step with its maps, they still are after an insert that returns,
    -- be the active segment sealed or not, and nothing is left to flush. The crates are faithful, the
    -- document's splits and summaries name it, and the log and the sequence numbers behind its records
    -- are in range.
    pub insert-IsWhole :
        (doc : DocumentDto) (s t : Store) (replaced : Replaced)
        → insert crates disk doc s ≡ (ok replaced, t)
        → IsConsistent doc
        → IsInRange (record_document crates disk doc s).1
        → IsWhole crates start s
        → IsWhole crates start t × (t.active.buffer ≡ [])
    unfolding insert
    insert-IsWhole doc s t replaced h consistent r w =
        let (a, s', e, e') = >>=-ok (record_document crates disk doc) _ s h in
        settled a s' t e' (
          record_document-IsWhole crates disk start doc s s' a faithful e consistent
            (subst IsInRange (λ i. (e i).1) r) w)

    delete_present-IsWhole :
        (doc_id : ℕ) (s t : Store) (removed : Option RemovedDoc)
        → delete_present crates disk doc_id s ≡ (ok removed, t)
        → IsInRange (record_delete crates disk doc_id s).1
        → IsWhole crates start s
        → IsWhole crates start t × (t.active.buffer ≡ [])
    unfolding delete_present
    delete_present-IsWhole doc_id s t removed h r w =
        let (a, s', f, f') = >>=-ok (record_delete crates disk doc_id) _ s h in
        settled (some a) s' t f' (
          record_delete-IsWhole crates disk start doc_id s s' a faithful f
            (subst IsInRange (λ i. (f i).1) r) w)

    -- So they are after a delete that returns, of a document that is there or not, and where nothing
    -- was left to flush, nothing is. The crates are faithful and the log and the sequence numbers
    -- behind its record are in range.
    pub delete-IsWhole :
        (doc_id : ℕ) (s t : Store) (removed : Option RemovedDoc)
        → delete crates disk doc_id s ≡ (ok removed, t)
        → IsInRange (record_delete crates disk doc_id s).1
        → IsWhole crates start s
        → s.active.buffer ≡ []
        → IsWhole crates start t × (t.active.buffer ≡ [])
    unfolding delete
    delete-IsWhole doc_id s t removed h r w b =
        elim (Bool-cases (HashMap.contains_key doc_id s.maps.docs)) [
          | inl e ↦ delete_present-IsWhole doc_id s t removed (ground (arith, h, e)) r w
          | inr e ↦
              let same : s ≡ t = ground (arith, e, h) in
              (
                subst (IsWhole crates start) same w,
                subst (λ (u : Store). u.active.buffer ≡ []) same b,
              )
        ]
