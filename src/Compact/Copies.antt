-- ===== src/Compact/Copies.antt =====
-- embedding-store/src/compact.rs: what the copy loop has written, and where.
use embedding_processing_rs.Base.{
  ℕ, ◌%◌, ◌^◌, ◌<◌, ◌≡◌, refl, ap, sym, ◌∙◌, subst, Bool, true, false, Option, none, some, List, [],
  ◌∷◌, ◌++◌, append_assoc, append-nil, ◌==◌, ==→eq, Bool-cases, ◌||◌, arith, length, contains,
  is_some, All, Result, ok, err, map_err, inl, inr,
}
use embedding_processing_rs.Base.Action.{◌>>=◌, ◌>>◌, >>=-ok, >>-ok, lift-ok}
use embedding_processing_rs.HashMap
use embedding_processing_rs.HashMap.{HashMap}
use embedding_processing_rs.Record.{decode}
use embedding_processing_rs.Record.Bounds.{decode_bounds}
use embedding_processing_rs.Maps.{Loc, DocEntry, SplitEntry, SummaryEntry}
use embedding_processing_rs.Crates.{Crates}
use embedding_processing_rs.Errors.{Error, bad_record}
use embedding_processing_rs.Segment
use embedding_processing_rs.Segment.{Disk, ActiveSegment}
use embedding_processing_rs.Segment.Log.{log, IsSegment, append-ok}
use embedding_processing_rs.Store.Types.{Store}
use embedding_processing_rs.Store.Read.{read_record}
use embedding_processing_rs.Compact.{
  NewLocs, Copying, copy_record, copy_at, copy_found, copy_each, note_seq, on_writer,
}

-- The bytes at `old` in the store stand in `written` at the place that `new` names.
pub record Held (s : Store) (written : List ℕ) (new_id : ℕ) (old new : Loc) : Type 0 where
  pub bytes : List ℕ
  pub before : List ℕ
  pub after : List ℕ
  pub read : read_record s old ≡ ok bytes
  pub not_empty : 0 < length bytes
  pub placed : written ≡ before ++ (bytes ++ after)
  pub new_loc :
      new ≡ record { segment = new_id; offset = length before; len = length bytes % 2 ^ 32 }

Held-append :
    (s : Store) (written more : List ℕ) (new_id : ℕ) (old new : Loc)
    → Held s written new_id old new
    → Held s (written ++ more) new_id old new
Held-append s written more new_id old new h = record {
  bytes = h.bytes;
  before = h.before;
  after = h.after ++ more;
  read = h.read;
  not_empty = h.not_empty;
  placed =
      ap (λ (l : List ℕ). l ++ more) h.placed
      ∙ append_assoc h.before (h.bytes ++ h.after) more
      ∙ ap (λ (l : List ℕ). h.before ++ l) (append_assoc h.bytes h.after more);
  new_loc = h.new_loc;
}

-- A location that was noted is that of the copy of an entry's record.
abbrev pub IsCopy : {V : Type 0} → Store → (V → Loc) → HashMap V → List ℕ → ℕ → ℕ × Loc → Type 0
IsCopy s at m written new_id p =
    (e : _) × (HashMap.get p.0 m ≡ some e) × Held s written new_id (at e) p.1

All-IsCopy :
    {V : Type 0} (s : Store) (at : V → Loc) (m : HashMap V) (written more : List ℕ) (new_id : ℕ)
    (locs : NewLocs)
    → All (IsCopy s at m written new_id) locs
    → All (IsCopy s at m (written ++ more) new_id) locs
All-IsCopy s at m written more new_id [] h = tt
All-IsCopy s at m written more new_id ((id, new) ∷ locs) ((e, found, held), h) = (
  (e, found, Held-append s written more new_id (at e) new held),
  All-IsCopy s at m written more new_id locs h,
)

abbrev pub split_loc : SplitEntry → Loc
split_loc e = e.loc

abbrev pub summary_loc : SummaryEntry → Loc
summary_loc e = e.loc

abbrev pub doc_loc : DocEntry → Loc
doc_loc e = e.loc

pub record IsCopying (s : Store) (new_id : ℕ) (c : Copying) : Type 0 where
  pub writer : IsSegment c.writer
  pub id : c.writer.id ≡ new_id
  pub splits : All (IsCopy s split_loc s.maps.splits (log c.writer) new_id) c.split_locs
  pub summaries : All (IsCopy s summary_loc s.maps.summaries (log c.writer) new_id) c.summary_locs
  pub docs : All (IsCopy s doc_loc s.maps.docs (log c.writer) new_id) c.doc_locs

abbrev pub is_noted : NewLocs → ℕ → Bool
is_noted locs k = contains (HashMap.keys locs) k

-- What was noted stays noted.
pub record Grows (c c' : Copying) : Type 0 where
  pub splits : (k : ℕ) → is_noted c.split_locs k ≡ true → is_noted c'.split_locs k ≡ true
  pub summaries : (k : ℕ) → is_noted c.summary_locs k ≡ true → is_noted c'.summary_locs k ≡ true
  pub docs : (k : ℕ) → is_noted c.doc_locs k ≡ true → is_noted c'.doc_locs k ≡ true

pub Grows-trans : (a b c : Copying) → Grows a b → Grows b c → Grows a c
Grows-trans a b c g h = record {
  splits = λ k e. h.splits k (g.splits k e);
  summaries = λ k e. h.summaries k (g.summaries k e);
  docs = λ k e. h.docs k (g.docs k e);
}

pub Grows-refl : (c : Copying) → Grows c c
Grows-refl c = record { splits = λ k e. e; summaries = λ k e. e; docs = λ k e. e }

pub is_noted-append :
    (locs : NewLocs) (id k : ℕ) (loc : Loc)
    → is_noted (locs ++ ((id, loc) ∷ [])) k ≡ (is_noted locs k || k == id)
is_noted-append [] id k loc = ground arith
is_noted-append ((j, l) ∷ locs) id k loc = ground (arith, is_noted-append locs id k loc)

-- What the noted locations say when the writer has grown by `more`.
module _ (s : Store) (new_id : ℕ) (c : Copying) (w : IsCopying s new_id c) (writer : ActiveSegment)
    (more : List ℕ) (grown : log writer ≡ log c.writer ++ more) (same : writer.id ≡ c.writer.id)
    (valid : IsSegment writer) where
  longer :
      {V : Type 0} (at : V → Loc) (m : HashMap V) (locs : NewLocs)
      → All (IsCopy s at m (log c.writer) new_id) locs
      → All (IsCopy s at m (log writer) new_id) locs
  longer at m locs h =
      subst (λ l. All (IsCopy s at m l new_id) locs) (sym grown)
        (All-IsCopy s at m (log c.writer) more new_id locs h)

  IsCopying-written : (seq : ℕ) → IsCopying s new_id (note_seq seq (record c { writer = writer }))
  IsCopying-written seq = record {
    writer = valid;
    id = same ∙ w.id;
    splits = longer split_loc s.maps.splits c.split_locs w.splits;
    summaries = longer summary_loc s.maps.summaries c.summary_locs w.summaries;
    docs = longer doc_loc s.maps.docs c.doc_locs w.docs;
  }

map_err-ok : {E F A : Type 0} {a : A} (f : E → F) (r : Result E A) → map_err f r ≡ ok a → r ≡ ok a
map_err-ok f (ok b) h = cc
map_err-ok f (err e) h = cc

module _ (crates : Crates) (disk : Disk) (s : Store) (new_id : ℕ) where
  -- What a copied record adds.
  pub copy_record-ok :
      (old new : Loc) (c c' : Copying)
      → copy_record crates disk s old c ≡ (ok new, c')
      → IsCopying s new_id c
      → IsCopying s new_id c' × Grows c c' × Held s (log c'.writer) new_id old new
  unfolding copy_record ◌>>=◌ ◌>>◌
  copy_record-ok old new c c' h w =
      let (bytes, read, h₁) = lift-ok (read_record s old) _ c h in
      let (view, decoded, h₂) =
        lift-ok (map_err (bad_record old) (decode crates.crc32 bytes)) _ c h₁ in
      let (offset, c₁, wrote, h₃) =
        >>=-ok (on_writer crates disk s (Segment.append disk bytes view.seq)) _ c h₂ in
      let writer : ActiveSegment = (Segment.append disk bytes view.seq c.writer).1 in
      let appended : Segment.append disk bytes view.seq c.writer ≡ (ok offset, writer) =
        λ i. ((wrote i).0, writer) in
      let (grown, at_end, same, counted, valid) =
        append-ok disk bytes view.seq offset c.writer writer appended w.writer in
      let d : Copying = note_seq view.seq (record c { writer = writer }) in
      let end : d ≡ c' = ap (note_seq view.seq) (λ i. (wrote i).1) ∙ (λ i. (h₃ i).1) in
      let loc : Loc = record {
        segment = c₁.writer.id;
        offset = offset;
        len = length bytes % 2 ^ 32;
      } in
      let returned : ◌≡◌ {A = Result Error Loc} (ok loc) (ok new) = λ i. (h₃ i).0 in
      let id : c₁.writer.id ≡ new_id =
        ap (λ (x : Copying). x.writer.id) (sym (λ i. (wrote i).1)) ∙ same ∙ w.id in
      subst (λ x. IsCopying s new_id x × Grows c x × Held s (log x.writer) new_id old new) end
        (
          IsCopying-written s new_id c w writer bytes grown same valid view.seq,
          record { splits = λ k e. e; summaries = λ k e. e; docs = λ k e. e },
          record {
            bytes = bytes;
            before = log c.writer;
            after = [];
            read = read;
            not_empty = omega (
              arith,
              decode_bounds crates.crc32 bytes view
                  (map_err-ok (bad_record old) (decode crates.crc32 bytes) decoded),
            );
            placed = grown ∙ ap (λ (l : List ℕ). log c.writer ++ l) (sym (append-nil bytes));
            new_loc = ground (arith, returned, id, at_end, w.writer.len_log);
          },
        )

  module _ {V : Type 0} (at : V → Loc) (note : ℕ → Loc → Copying → Copying) (m : HashMap V)
      (pick : Copying → NewLocs)
      (pick_grows : (c c' : Copying) (k : ℕ)
        → Grows c c'
        → is_noted (pick c) k ≡ true
        → is_noted (pick c') k ≡ true)
      (noted : (id : ℕ) (loc : Loc) (e : V) (c : Copying)
        → HashMap.get id m ≡ some e
        → Held s (log c.writer) new_id (at e) loc
        → IsCopying s new_id c
        → IsCopying s new_id (note id loc c)
          × Grows c (note id loc c)
          × (is_noted (pick (note id loc c)) id ≡ true)) where
    copy_at-ok :
        (id : ℕ) (o : Option V) (c c' : Copying)
        → HashMap.get id m ≡ o
        → copy_at crates disk s at note m id o c ≡ (ok tt, c')
        → IsCopying s new_id c
        → IsCopying s new_id c' × Grows c c' × (is_some o ≡ true → is_noted (pick c') id ≡ true)
    unfolding ◌>>=◌
    copy_at-ok id none c c' e h w =
        subst (λ x. IsCopying s new_id x × Grows c x × (false ≡ true → is_noted (pick x) id ≡ true))
          (λ i. (h i).1) (w, Grows-refl c, (λ there. cc))
    copy_at-ok id (some v) c c' e h w =
        let (loc, c₁, copied, h₁) = >>=-ok (copy_record crates disk s (at v)) _ c h in
        let (w₁, g₁, held) = copy_record-ok (at v) loc c c₁ copied w in
        let (w₂, g₂, here) = noted id loc v c₁ e held w₁ in
        subst (λ x. IsCopying s new_id x × Grows c x × (true ≡ true → is_noted (pick x) id ≡ true))
          (λ i. (h₁ i).1) (w₂, Grows-trans c c₁ (note id loc c₁) g₁ g₂, (λ _. here))

    pub copy_each-ok :
        (ids : List ℕ) (c c' : Copying)
        → copy_each crates disk s at note m ids c ≡ (ok tt, c')
        → IsCopying s new_id c
        → IsCopying s new_id c'
          × Grows c c'
          × ((k : ℕ)
              → contains ids k ≡ true
              → HashMap.contains_key k m ≡ true
              → is_noted (pick c') k ≡ true)
    unfolding ◌>>◌
    copy_each-ok [] c c' h w =
        subst
          (λ x.
            IsCopying s new_id x
            × Grows c x
            × ((k : ℕ)
                → false ≡ true
                → HashMap.contains_key k m ≡ true
                → is_noted (pick x) k ≡ true))
          (λ i. (h i).1) (w, Grows-refl c, (λ k l there. cc))
    copy_each-ok (id ∷ ids) c c' h w =
        let (u, c₁, first, rest) = >>-ok (copy_found crates disk s at note m id) _ c h in
        let (w₁, g₁, here) = copy_at-ok id (HashMap.get id m) c c₁ refl first w in
        let (w₂, g₂, there) = copy_each-ok ids c₁ c' rest w₁ in
        (
          w₂,
          Grows-trans c c₁ c' g₁ g₂,
          (λ k l known. elim (Bool-cases (k == id)) [
            | inl e ↦ pick_grows c₁ c' k g₂ (
                subst (λ j. is_noted (pick c₁) j ≡ true) (sym (==→eq k id e))
                  (here (subst (λ j. HashMap.contains_key j m ≡ true) (==→eq k id e) known)))
            | inr e ↦ there k (ground (arith, l, e)) known
          ]),
        )
