-- ===== src/Examples/Codecs.antt =====
-- A checksum, conversions and metadata codecs that the store could be run with.
use embedding_processing_rs.Base.{
  ℕ, zero, suc, ◌+◌, ◌%◌, ◌^◌, ◌<◌, Option, Option-cases, inl, inr, none, some, List, [], ◌∷◌, ◌++◌,
  length, take, drop, take-append_length, drop-append_length, arith,
}
use embedding_processing_rs.Record.{DocMeta, SplitMeta, SummaryMeta, DeleteMeta}
use embedding_processing_rs.Crates.{Crates, RoundTrips, IsFaithful}

abbrev sum_mod : List ℕ → ℕ
sum_mod [] = 7
sum_mod (b ∷ bs) = b + sum_mod bs

abbrev checksum : List ℕ → ℕ
checksum bytes = sum_mod bytes % 2 ^ 32

-- Two lists, the first measured.
abbrev two_lists : List ℕ → List ℕ → List ℕ
two_lists xs ys = length xs ∷ (xs ++ ys)

abbrev doc_to_vec : DocMeta → Option (List ℕ)
doc_to_vec m = elim m.summary_ids [
  | none ↦ some (m.doc_id ∷ 0 ∷ two_lists m.url m.split_ids)
  | some ids ↦ some (m.doc_id ∷ 1 ∷ two_lists m.url (two_lists m.split_ids ids))
]

abbrev doc_from_slice : List ℕ → Option DocMeta
doc_from_slice (d ∷ zero ∷ n ∷ rest) =
    some (record { doc_id = d; url = take n rest; split_ids = drop n rest; summary_ids = none })
doc_from_slice (d ∷ suc _ ∷ n ∷ rest) = elim (drop n rest) [
  | [] ↦ none
  | k ∷ more ↦ some (record {
    doc_id = d;
    url = take n rest;
    split_ids = take k more;
    summary_ids = some (drop k more);
  })
]
doc_from_slice _ = none

abbrev split_to_vec : SplitMeta → Option (List ℕ)
split_to_vec m =
    some
      (m.split_id ∷ m.seq_id ∷ m.doc_id ∷ m.token_len ∷ m.model_id ∷ two_lists m.text m.summary_ids)

abbrev split_from_slice : List ℕ → Option SplitMeta
split_from_slice (a ∷ b ∷ c ∷ d ∷ e ∷ n ∷ rest) = some (record {
  split_id = a;
  seq_id = b;
  doc_id = c;
  token_len = d;
  text = take n rest;
  summary_ids = drop n rest;
  model_id = e;
})
split_from_slice _ = none

abbrev summary_to_vec : SummaryMeta → Option (List ℕ)
summary_to_vec m = some (
    m.summary_id ∷ m.doc_id ∷ m.split_id ∷ m.split_seq_id ∷ m.token_len ∷ m.centrality ∷ m.model_id
    ∷ m.text)

abbrev summary_from_slice : List ℕ → Option SummaryMeta
summary_from_slice (a ∷ b ∷ c ∷ d ∷ e ∷ f ∷ g ∷ rest) = some (record {
  summary_id = a;
  doc_id = b;
  split_id = c;
  split_seq_id = d;
  token_len = e;
  centrality = f;
  text = rest;
  model_id = g;
})
summary_from_slice _ = none

abbrev delete_to_vec : DeleteMeta → Option (List ℕ)
delete_to_vec m = some (m.doc_id ∷ [])

abbrev delete_from_slice : List ℕ → Option DeleteMeta
delete_from_slice (d ∷ []) = some (record { doc_id = d })
delete_from_slice _ = none

abbrev pub plain_crates : Crates
plain_crates = record {
  crc32 = checksum;
  doc = record { to_vec = doc_to_vec; from_slice = doc_from_slice };
  split = record { to_vec = split_to_vec; from_slice = split_from_slice };
  summary = record { to_vec = summary_to_vec; from_slice = summary_from_slice };
  delete = record { to_vec = delete_to_vec; from_slice = delete_from_slice };
  to_half = λ x. x % 2 ^ 16;
  from_half = λ x. x;
}

mod_below : (n : ℕ) → n % 2 ^ 32 < 2 ^ 32
mod_below n = omega arith

doc_trips : RoundTrips (record { to_vec = doc_to_vec; from_slice = doc_from_slice })
doc_trips m bytes h = elim (Option-cases m.summary_ids) [
  | inl e ↦
      ground
        (arith, e, h, take-append_length m.url m.split_ids, drop-append_length m.url m.split_ids)
  | inr (ids, e) ↦ ground (
    arith,
    e,
    h,
    take-append_length m.url (two_lists m.split_ids ids),
    drop-append_length m.url (two_lists m.split_ids ids),
    take-append_length m.split_ids ids,
    drop-append_length m.split_ids ids,
  )
]

split_trips : RoundTrips (record { to_vec = split_to_vec; from_slice = split_from_slice })
split_trips m bytes h =
    ground
      (arith, h, take-append_length m.text m.summary_ids, drop-append_length m.text m.summary_ids)

summary_trips : RoundTrips (record { to_vec = summary_to_vec; from_slice = summary_from_slice })
summary_trips m bytes h = ground (arith, h)

delete_trips : RoundTrips (record { to_vec = delete_to_vec; from_slice = delete_from_slice })
delete_trips m bytes h = ground (arith, h)

pub plain_crates-IsFaithful : IsFaithful plain_crates
plain_crates-IsFaithful = record {
  crc_u32 = λ bytes. mod_below (sum_mod bytes);
  half_u16 = λ x. omega arith;
  doc_trips = doc_trips;
  split_trips = split_trips;
  summary_trips = summary_trips;
  delete_trips = delete_trips;
}
