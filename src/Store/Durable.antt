-- ===== src/Store/Durable.antt =====
-- embedding-store/src/store.rs and replay.rs: what `insert` and `delete` append, a later open replays
-- to the same maps.
use embedding_processing_rs.Base.{
  Option, ◌≢◌, ℕ, ◌<◌, ◌≤◌, ◌≡◌, refl, ap, sym, ◌∙◌, Bool, true, false, none, some, List, [], ◌++◌,
  arith, ok, err, Result, All,
}
use embedding_processing_rs.Base.Action.{◌>>=◌, ◌>>◌, >>=-ok, >>-ok, lift-ok, last-ok}
use embedding_processing_rs.HashMap
use embedding_processing_rs.Record.{Frame}
use embedding_processing_rs.Maps.{Maps, RemovedDoc, remove_doc}
use embedding_processing_rs.Maps.Remove.{remove_doc_maps, remove_doc_absent}
use embedding_processing_rs.Crates.{Crates, IsFaithful}
use embedding_processing_rs.Errors.{Error}
use embedding_processing_rs.Segment
use embedding_processing_rs.Segment.{Disk}
use embedding_processing_rs.Segment.Log
use embedding_processing_rs.Segment.Log.{IsSegment}
use embedding_processing_rs.Record.Encode.{Fits}
use embedding_processing_rs.Replay.Frames.{encode_all}
use embedding_processing_rs.Replay.{u32_max}
use embedding_processing_rs.Replay.Records.{Replays}
use embedding_processing_rs.Dto.{SummaryDto, DocumentDto}
use embedding_processing_rs.Store.Types.{Store, Appended, Replaced}
use embedding_processing_rs.Store.Validate.{validate}
use embedding_processing_rs.Store.Write.{
  append_delete, append_document, append_or_rewind, record_document, displace, remove_from_maps,
  on_active, rewind, take_out, or_rewind, enter_document, account_removed,
}
use embedding_processing_rs.Store.Appends.{IsInRange, untouched}
use embedding_processing_rs.Store.Logged.{Logged}
use embedding_processing_rs.Store.Checked.{all_summaries, validate-All}
use embedding_processing_rs.Store.Seal.{record_delete}
use embedding_processing_rs.Store.Document.{append_delete-Logged}
use embedding_processing_rs.Store.Recovery.{append_document-Logged}

-- The document's splits and summaries name the document.
pub record IsConsistent (doc : DocumentDto) : Type 0 where
  pub summaries : All (λ x. x.document_id ≡ doc.document_id) (all_summaries doc)
  pub splits : All (λ x. x.doc_id ≡ doc.document_id) doc.splits

-- `fs` was written behind the log between `s` and `t`, and replaying them turns the maps of `s` into
-- those of `t` and leaves no entity waiting.
pub record Durable (crates : Crates) (snapshot_seq : ℕ) (s t : Store) (fs : List Frame)
    : Type 0 where
  pub log : Segment.Log.log t.active ≡ Segment.Log.log s.active ++ encode_all crates.crc32 fs
  pub id : t.active.id ≡ s.active.id
  pub fits : All Fits fs
  pub valid : IsSegment t.active
  pub rest : untouched t ≡ untouched s
  pub seq : s.manifest.next_seq ≤ t.manifest.next_seq
  pub last : s.manifest.next_seq ≤ t.active.last_seq
  pub replays : Replays crates s.active.id snapshot_seq fs s.active.len s.maps [] t.maps []

-- What the phase behind the append changes: the maps, and counters of freed bytes.
take_out-ok :
    (r : Option RemovedDoc × Maps) (s t : Store) (removed : RemovedDoc)
    → take_out r s ≡ (ok removed, t)
    → t ≡ account_removed removed (record s { maps = r.1 })
take_out-ok (none, m) s t removed h = cc
take_out-ok (some x, m) s t removed h = cc h

displace-ok :
    (there : Bool) (d : ℕ) (s t : Store) (replaced : Replaced)
    → there ≡ HashMap.contains_key d s.maps.docs
    → displace there d s ≡ (ok replaced, t)
    → (t.active ≡ s.active)
      × (t.manifest.next_seq ≡ s.manifest.next_seq)
      × (untouched t ≡ untouched s)
      × (t.maps ≡ (remove_doc d u32_max s.maps).1)
unfolding displace remove_from_maps ◌>>=◌ account_removed
displace-ok false d s t replaced e h =
    let e' : s ≡ t = cc h in
    rw (← e', remove_doc_absent d u32_max s.maps (ground (arith, e))) (refl, refl, refl, refl)
displace-ok true d s t replaced e h =
    let (removed, e₁, e₂) = last-ok (remove_from_maps d) _ s h in
    let e' = take_out-ok (remove_doc d s.active.id s.maps) s t removed e₁ in
    rw e' (refl, refl, refl, remove_doc_maps d s.active.id u32_max s.maps)

module _ (crates : Crates) (disk : Disk) where
  or_rewind-ok :
      (len seq : ℕ) (r : Result Error Appended × Store) (a : Appended) (t : Store)
      → or_rewind crates disk len seq r ≡ (ok a, t)
      → r ≡ (ok a, t)
  unfolding rewind
  or_rewind-ok len seq (ok x, s) a t h = h
  or_rewind-ok len seq (err x, s) a t h =
      absurd (never (on_active (Segment.truncate_to disk len) s) h)
    where
      never : (r : Result Error (Unit {0}) × Store) → rewind len seq x r ≢ (ok a, t)
      never (ok u, s') = λ e. cc
      never (err y, s') = λ e. cc

  -- The phases of an `insert` that is recorded in full.
  record_document-ok :
      (doc : DocumentDto) (s t : Store) (replaced : Replaced)
      → record_document crates disk doc s ≡ (ok replaced, t)
      → (ss : List SummaryDto) × (a : Appended) × (s₁ s₂ : Store) × (before : Replaced) × (validate
            s.opts doc
          ≡ ok ss)
        × (append_document crates disk doc ss s ≡ (ok a, s₁))
        × (displace a.replaces doc.document_id s₁ ≡ (ok before, s₂))
        × (t ≡ record s₂ { maps = enter_document doc a s₂.maps })
  unfolding record_document append_or_rewind ◌>>=◌ ◌>>◌
  record_document-ok doc s t replaced h =
      let (ss, ev, h₁) = lift-ok (validate s.opts doc) _ s h in
      let (a, s₁, e₁, h₂) = >>=-ok (append_or_rewind crates disk doc ss) _ s h₁ in
      let (before, s₂, e₂, h₃) = >>=-ok (displace a.replaces doc.document_id) _ s₁ h₂ in
      (
        ss,
        a,
        s₁,
        s₂,
        before,
        ev,
        or_rewind-ok s.active.len s.manifest.next_seq (append_document crates disk doc ss s) a s₁
            e₁,
        e₂,
        cc h₃,
      )

  -- The segment and the maps that the append phase leaves decide what is durable.
  durable :
      (snapshot_seq : ℕ) (s s₁ t : Store) (fs : List Frame) (m : Maps)
      → Logged crates snapshot_seq s s₁ fs s.maps [] m []
      → t.active ≡ s₁.active
      → t.manifest.next_seq ≡ s₁.manifest.next_seq
      → untouched t ≡ untouched s₁
      → s.manifest.next_seq ≤ s₁.active.last_seq
      → t.maps ≡ m
      → IsInRange t
      → Durable crates snapshot_seq s t fs
  durable snapshot_seq s s₁ t fs m logged active seq rest last maps r =
      let there : IsInRange s₁ = (rw (← active) r.0, rw (← seq) r.1) in
      record {
        log = ap Segment.Log.log active ∙ logged.appends.log;
        id = ap (λ a. a.id) active ∙ logged.appends.id;
        fits = logged.appends.fits there;
        valid = rw active logged.appends.valid;
        rest = rest ∙ logged.appends.rest;
        seq = rw seq logged.appends.seq;
        last = rw active last;
        replays = rw maps (logged.replays there);
      }

  -- Every step that `insert` records, replayed from the maps it found, makes the maps it left. The
  -- document is consistent, the active segment well formed, the next sequence number above the
  -- snapshot's, and the log and the sequence numbers in range.
  pub record_document-Durable :
      (doc : DocumentDto) (s t : Store) (replaced : Replaced) (snapshot_seq : ℕ)
      → IsFaithful crates
      → record_document crates disk doc s ≡ (ok replaced, t)
      → IsConsistent doc
      → IsSegment s.active
      → snapshot_seq < s.manifest.next_seq
      → IsInRange t
      → (fs : List Frame) × Durable crates snapshot_seq s t fs
  record_document-Durable doc s t replaced snapshot_seq faithful h consistent valid newer r =
      let (ss, a, s₁, s₂, before, ev, e₁, e₂, e₃) = record_document-ok doc s t replaced h in
      let (there, last, fs, logged) =
        append_document-Logged crates snapshot_seq disk faithful doc ss s s₁ a [] e₁ valid newer tt
          (validate-All (λ x. x.document_id ≡ doc.document_id) s.opts doc ss ev
            consistent.summaries)
          consistent.splits in
      let (active, seq, rest, swept) =
        displace-ok a.replaces doc.document_id s₁ s₂ before
          (there
            ∙ ap (λ (m : Maps). HashMap.contains_key doc.document_id m.docs)
                (sym logged.appends.maps))
          e₂ in
      (
        fs,
        durable snapshot_seq s s₁ t fs _ logged (ap (λ (u : Store). u.active) e₃ ∙ active)
            (ap (λ (u : Store). u.manifest.next_seq) e₃ ∙ seq) (ap untouched e₃ ∙ rest) last
            (ap (λ (u : Store). u.maps) e₃
              ∙ ap (enter_document doc a) (
                  swept
                  ∙ ap (λ (m : Maps). (remove_doc doc.document_id u32_max m).1)
                      logged.appends.maps))
            r,
      )

  -- The same for the record of a `delete`.
  pub record_delete-Durable :
      (d : ℕ) (s t : Store) (removed : RemovedDoc) (snapshot_seq : ℕ)
      → IsFaithful crates
      → record_delete crates disk d s ≡ (ok removed, t)
      → IsSegment s.active
      → snapshot_seq < s.manifest.next_seq
      → IsInRange t
      → (fs : List Frame) × Durable crates snapshot_seq s t fs
  unfolding record_delete remove_from_maps account_removed ◌>>=◌ ◌>>◌
  record_delete-Durable d s t removed snapshot_seq faithful h valid newer r =
      let (u, s₁, e₁, e₂) = >>-ok (append_delete crates disk d) (remove_from_maps d) s h in
      let (last, fs, logged) =
        append_delete-Logged crates snapshot_seq disk faithful d s s₁ [] e₁ valid newer tt in
      let e₃ = take_out-ok (remove_doc d s₁.active.id s₁.maps) s₁ t removed e₂ in
      (
        fs,
        durable snapshot_seq s s₁ t fs _ logged (ap (λ (v : Store). v.active) e₃)
            (ap (λ (v : Store). v.manifest.next_seq) e₃) (ap untouched e₃) (omega (arith, last))
            (ap (λ (v : Store). v.maps) e₃
              ∙ remove_doc_maps d s₁.active.id u32_max s₁.maps
              ∙ ap (λ (m : Maps). (remove_doc d u32_max m).1) logged.appends.maps)
            r,
      )
