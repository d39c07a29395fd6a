-- ===== src/Pool/Recency.antt =====
-- embedding-store/src/pool.rs: a shard that was just asked for is the last that the budget demotes.
use embedding_processing_rs.Base.{
  ℕ, ◌+◌, ◌≤◌, ◌≡◌, ◌≢◌, ap, subst, true, false, Bool-cases, inl, inr, Option, none, some, [], ◌==◌,
  ne→==_false, arith, Option-cases,
}
use embedding_processing_rs.HashMap
use embedding_processing_rs.HashMap.{
  HashMap, All-get, HasUniqueKeys, get-insert, insert-HasUniqueKeys,
}
use embedding_processing_rs.Pool.{Entry, ShardPool, touch, touched, victim, is_unheld}
use embedding_processing_rs.Pool.Victim.{IsVictim, victim-IsVictim}

module _ {I : Type 0} where
  -- No shard was used later than the pool's clock says.
  abbrev pub IsTicked : ShardPool I → Type 0
  IsTicked p = (k : ℕ) (e : Entry I) → HashMap.get k p.shards ≡ some e → e.last_used ≤ p.tick

  abbrev after : ℕ → ShardPool I → Entry I → ShardPool I
  after ws p e = record {
    shards = HashMap.insert ws (record e { last_used = p.tick + 1 }) p.shards;
    tick = p.tick + 1;
  }

  touch-after :
      (ws : ℕ) (p : ShardPool I) (e : Entry I)
      → HashMap.get ws p.shards ≡ some e
      → (touch ws p).1 ≡ after ws p e
  unfolding touch
  touch-after ws p e h =
      ap (λ (o : Option (Entry I)). (touched ws (record p { tick = p.tick + 1 }) o).1) h

  -- The victim is not the entry at `ws`, which was used last, where another could be taken.
  another_first :
      (ws j k : ℕ) (p : ShardPool I) (e d : Entry I) (v : Option (ℕ × Entry I)) (x : Entry I)
      → HashMap.get j p.shards ≡ some d
      → is_unheld d ≡ true
      → (ws == j) ≡ false
      → d.last_used ≤ p.tick
      → IsVictim [] (after ws p e).shards v
      → v ≡ some (k, x)
      → (ws == k) ≡ false
  another_first ws j k p e d none x there unheld other le w q = cc
  another_first ws j k p e d (some (l, y)) x there unheld other le (taken, is_free, least) q =
      elim (Bool-cases (ws == l)) [
        | inl b ↦
            let still : HashMap.get j (after ws p e).shards ≡ some d = ground (
              arith,
              other,
              there,
              get-insert ws j (record e { last_used = p.tick + 1 }) p.shards,
            ) in
            let first : y.last_used ≤ d.last_used =
              All-get _ (after ws p e).shards j d least still (ground (arith, unheld)) in
            let last : y.last_used ≡ p.tick + 1 =
              ground
                (arith, b, taken, get-insert ws l (record e { last_used = p.tick + 1 }) p.shards) in
            absurd (omega (arith, first, last, le))
        | inr b ↦ ground (arith, b, q)
      ]

  -- A shard that was just asked for is not the one that enforce_budget takes, as long as another one that
  -- nobody holds could be taken. Each workspace is in the pool once, and the clock is past every use.
  pub touch-victim :
      (ws j k : ℕ) (p : ShardPool I) (d x : Entry I)
      → HasUniqueKeys p.shards
      → IsTicked p
      → HashMap.contains_key ws p.shards ≡ true
      → HashMap.get j p.shards ≡ some d
      → is_unheld d ≡ true
      → ws ≢ j
      → victim [] (touch ws p).1.shards ≡ some (k, x)
      → ws ≢ k
  touch-victim ws j k p d x unique ticked open_now there unheld other q same =
      elim (Option-cases (HashMap.get ws p.shards)) [
        | inl gone ↦ absurd (ground (arith, gone, open_now))
        | inr (e, here) ↦
            let after_q : victim [] (after ws p e).shards ≡ some (k, x) =
              subst (λ (r : ShardPool I). victim [] r.shards ≡ some (k, x))
                (touch-after ws p e here) q in
            let differ : (ws == k) ≡ false =
              another_first ws j k p e d (victim [] (after ws p e).shards) x there unheld
                (ne→==_false ws j other) (ticked j d there)
                (victim-IsVictim [] (after ws p e).shards
                  (insert-HasUniqueKeys ws (record e { last_used = p.tick + 1 }) p.shards unique))
                after_q in
            absurd (ground (arith, same, differ))
      ]
