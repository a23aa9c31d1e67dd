-- ===== src/Mempool/Pool.antt =====
-- The transactions of src/mempool.h and mempool.cpp and the snapshot that its readers share.
-- Transactions are of a type `T` of Monero's, with `get_transaction_hash`. The map is an association list; a
-- snapshot is an immutable copy of it. Every operation holds the mutex, so a run is a sequence of calls.
use monero_lws.Base.{
  ℕ, ◌≡◌, refl, sym, ◌∙◌, ap, arith, Bool, true, false, inl, inr, ◌⊎◌, Option, none, some, List, [],
  ◌∷◌, ◌==◌, if◌then◌else◌,
}

-- `mempool::pool_entry`
pub record PoolEntry (T : Type 0) : Type 0 where
  pub tx : T
  pub timestamp : ℕ

abbrev pub Table : Type 0 → Type 0
Table T = List (ℕ × PoolEntry T)

pub record Pool (T : Type 0) : Type 0 where
  pub state : Table T
  pub snapshot : Option (Table T)

pub data PoolCall (T : Type 0) : Type 0 where
  add : ℕ → List T → PoolCall T
  reset : Table T → PoolCall T
  scan : PoolCall T

module _ {T : Type 0} where
  abbrev pub try_emplace : ℕ → PoolEntry T → Table T → Table T
  try_emplace k e [] = (k, e) ∷ []
  try_emplace k e (x ∷ m) = if x.0 == k then x ∷ m else x ∷ try_emplace k e m

  unfoldable pub reset_txs : Table T → Pool T → Pool T
  reset_txs txs p = record p { state = txs; snapshot = none }

  -- The snapshot that `scan_account` works on.
  abbrev pub shared : Pool T → Option (Table T) → Pool T × Table T
  shared p none = (record p { snapshot = some p.state }, p.state)
  shared p (some snapshot) = (p, snapshot)

  unfoldable pub take_snapshot : Pool T → Pool T × Table T
  take_snapshot p = shared p p.snapshot

  abbrev pub IsFresh : Pool T → Type 0
  IsFresh p = (p.snapshot ≡ none) ⊎ (p.snapshot ≡ some p.state)

  shared-IsFresh :
      (p : Pool T) (o : Option (Table T))
      → p.snapshot ≡ o
      → IsFresh p
      → IsFresh (shared p o).0 × (((shared p o).0.state ≡ p.state) × ((shared p o).1 ≡ p.state))
  shared-IsFresh p none e f = (inr refl, (refl, refl))
  shared-IsFresh p (some m) e (inl f) = absurd (ground (arith, sym e ∙ f))
  shared-IsFresh p (some m) e (inr f) =
      (inr f, (refl, ap (λ o. elim o [ none ↦ m | some s ↦ s ]) (sym e ∙ f)))

  abbrev pub find_tx : ℕ → Table T → Option (PoolEntry T)
  find_tx k [] = none
  find_tx k (x ∷ m) = if x.0 == k then some x.1 else find_tx k m

  abbrev pub or_else : Option (PoolEntry T) → Option (PoolEntry T) → Option (PoolEntry T)
  or_else none o = o
  or_else (some e) o = some e

  find_tx-try_emplace :
      (k j : ℕ) (e : PoolEntry T) (m : Table T)
      → find_tx k (try_emplace j e m) ≡ or_else (find_tx k m) (if j == k then some e else none)
  find_tx-try_emplace k j e [] = refl
  find_tx-try_emplace k j e (x ∷ m) = ground (arith, find_tx-try_emplace k j e m)

  or_else_assoc :
      (o : Option (PoolEntry T)) (b : Bool) (e : PoolEntry T) (p : Option (PoolEntry T))
      → or_else (or_else o (if b then some e else none)) p ≡ or_else o (if b then some e else p)
  or_else_assoc none true e p = refl
  or_else_assoc none false e p = refl
  or_else_assoc (some x) b e p = refl

  or_else-none : (o : Option (PoolEntry T)) → o ≡ or_else o none
  or_else-none none = refl
  or_else-none (some e) = refl

module _ {T : Type 0} (get_transaction_hash : T → ℕ) where
  abbrev pub add_each : ℕ → List T → Table T → Table T
  add_each now [] m = m
  add_each now (tx ∷ txs) m =
      add_each now txs
        (try_emplace (get_transaction_hash tx) (record { tx = tx; timestamp = now }) m)

  unfoldable pub add_txs : ℕ → List T → Pool T → Pool T
  add_txs now txs p = record p { state = add_each now txs p.state; snapshot = none }

  abbrev pub step : PoolCall T → Pool T → Pool T
  step (add now txs) p = add_txs now txs p
  step (reset txs) p = reset_txs txs p
  step scan p = (take_snapshot p).0

  abbrev pub run : List (PoolCall T) → Pool T → Pool T
  run [] p = p
  run (call ∷ calls) p = run calls (step call p)

  -- The table after each call, the snapshot left out.
  abbrev pub tables : List (PoolCall T) → Table T → Table T
  tables [] m = m
  tables (add now txs ∷ calls) m = tables calls (add_each now txs m)
  tables (reset txs ∷ calls) m = tables calls txs
  tables (scan ∷ calls) m = tables calls m

  -- Whatever calls came before, a reader gets the transactions that were added and not reset since.
  pub take_snapshot-run :
      (calls : List (PoolCall T)) (p : Pool T)
      → IsFresh p
      → (take_snapshot (run calls p)).1 ≡ tables calls p.state
  unfolding take_snapshot add_txs reset_txs
  take_snapshot-run [] p f = (shared-IsFresh p p.snapshot refl f).1.1
  take_snapshot-run (add now txs ∷ calls) p f = take_snapshot-run calls _ (inl refl)
  take_snapshot-run (reset txs ∷ calls) p f = take_snapshot-run calls _ (inl refl)
  take_snapshot-run (scan ∷ calls) p f =
      let s = shared-IsFresh p p.snapshot refl f in
      take_snapshot-run calls _ s.0 ∙ ap (tables calls) s.1.0

  -- The first of the transactions with that hash, found at that time.
  abbrev pub first_with : ℕ → ℕ → List T → Option (PoolEntry T)
  first_with k now [] = none
  first_with k now (tx ∷ txs) =
      if get_transaction_hash tx == k
      then some (record { tx = tx; timestamp = now })
      else first_with k now txs

  find_tx-add_each :
      (k now : ℕ) (txs : List T) (m : Table T)
      → find_tx k (add_each now txs m) ≡ or_else (find_tx k m) (first_with k now txs)
  find_tx-add_each k now [] m = or_else-none (find_tx k m)
  find_tx-add_each k now (tx ∷ txs) m =
      find_tx-add_each k now txs _
      ∙ ap (λ o. or_else o (first_with k now txs))
          (find_tx-try_emplace k (get_transaction_hash tx) (record { tx = tx; timestamp = now }) m)
      ∙ or_else_assoc (find_tx k m) _ _ _

  -- A transaction that is in the pool stays as it is, with the time it was found; of the added ones with another hash, the first
  -- one is taken.
  pub find_tx-add_txs :
      (k now : ℕ) (txs : List T) (p : Pool T)
      → find_tx k (add_txs now txs p).state ≡ or_else (find_tx k p.state) (first_with k now txs)
  unfolding add_txs
  find_tx-add_txs k now txs p = find_tx-add_each k now txs p.state
