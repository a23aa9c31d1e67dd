-- ===== src/Db/Storage/Chain.antt =====
-- `append_block_hashes`, `append_pow`, `storage::sync_chain` and `storage::sync_pow` of src/db/storage.cpp.
use monero_lws.Base.{
  ℕ, suc, ◌+◌, ◌-◌, ◌%◌, ◌^◌, Bool, true, false, not, ◌&&◌, leb, ◌==◌, if◌then◌else◌, Option, none,
  some, List, [], ◌∷◌, ◌++◌, length, drop,
}
use monero_lws.Base.Results.{Result, ok, err, ◌>>=◌}
use monero_lws.Db.Storage.{Error, bad_blockchain, found, require}
use monero_lws.Db.Storage.Erase.{bulk_put, bulk_insert}
use monero_lws.Db.Storage.Rows.{
  BlockInfo, BlockPow, PowSync, Tables, Txn, blocks_version, pows_version,
}
use monero_lws.Db.Storage.Rollback.{rollback_chain}

-- `++height`, on 64 bits.
abbrev pub next : ℕ → ℕ
next height = (height + 1) % 2 ^ 64

module _ {A B S : Type 0} (capacity : ℕ) (make : ℕ → A → B) (insert : List B → S → S) where
  -- The loop of `append_block_hashes` and of `append_pow`: records are gathered in a vector of fixed capacity and
  -- inserted when it is full, and at the end.
  unfoldable pub append_loop : ℕ → List B → List A → S → S
  append_loop height gathered [] s = insert gathered s
  append_loop height gathered (x ∷ chain) s =
      let full = length gathered == capacity in
      append_loop (next height) ((if full then [] else gathered) ++ make height x ∷ []) chain
        (if full then insert gathered s else s)

abbrev pub block_info : ℕ → ℕ → BlockInfo
block_info height hash = record { id = height; hash = hash }

abbrev pub block_pow : ℕ → PowSync → BlockPow
block_pow height p = record {
  id = height;
  timestamp = p.timestamp;
  cumulative_diff = p.cumulative_diff;
}

module _ (T : Tables) where
  unfoldable pub append_block_hashes : ℕ → List ℕ → T.blocks.State → T.blocks.State
  append_block_hashes first = append_loop 25 block_info (bulk_put T.blocks blocks_version) first []

  unfoldable pub append_pow : ℕ → List PowSync → T.pows.State → T.pows.State
  append_pow first = append_loop 31 block_pow (bulk_insert T.pows pows_version) first []

  -- What the loops of `sync_chain` and `sync_pow` end with: the height and the hashes that are left, and the stored chain.
  pub record Fork : Type 0 where
    pub current : ℕ
    pub chain : List ℕ
    pub txn : Txn T

  abbrev pub fork : ℕ → List ℕ → Txn T → Fork
  fork current chain txn = record { current = current; chain = chain; txn = txn }

  -- `max_height` is that of the last checkpoint.
  module _ (max_height : ℕ) (regtest : Bool) where
    -- The stored block of the height of a new hash, with the loop from the next height on.
    abbrev pub on_block :
        ℕ
        → ℕ
        → List ℕ
        → (ℕ × BlockInfo) × T.blocks.Cursor
        → Txn T
        → Result Error Fork
        → Result Error Fork
    on_block current h chain x txn rest =
        if x.0.1.hash == h
        then rest
        else if not regtest && leb current max_height
        then err bad_blockchain
        else rollback_chain T current x.1 txn >>= λ after. ok (fork current (h ∷ chain) after)

    unfoldable pub sync_chain_loop : ℕ → List ℕ → T.blocks.Cursor → Txn T → Result Error Fork
    sync_chain_loop current [] c txn = ok (fork current [] txn)
    sync_chain_loop current (h ∷ chain) c txn =
        found (T.blocks.next_dup c) (ok (fork current (h ∷ chain) txn))
          λ x. on_block current h chain x txn (sync_chain_loop (next current) chain x.1 txn)

    abbrev pub sync_chain_from :
        ℕ → ℕ → List ℕ → Txn T → (ℕ × BlockInfo) × T.blocks.Cursor → Result Error (Txn T)
    sync_chain_from height first hashes txn x =
        if not (x.0.1.hash == first)
        then err bad_blockchain
        else sync_chain_loop (next height) hashes x.1 txn >>= λ f.
            ok (record f.txn { blocks = append_block_hashes f.current f.chain f.txn.blocks })

    -- The hashes are not empty: the first one, and the others.
    unfoldable pub sync_chain : ℕ → ℕ → List ℕ → Txn T → Result Error (Txn T)
    sync_chain height first hashes txn =
        require (T.blocks.get_both blocks_version (λ b. b.id == height) txn.blocks)
        >>= sync_chain_from height first hashes txn

  -- The checkpoints are those of Monero, and the hash that has been given for a height.
  module _ (max_height : ℕ) (points : ℕ → Option ℕ) where
    abbrev pub missed : ℕ → ℕ → Bool
    missed current hash = elim (points current) [ none ↦ false | some p ↦ not (p == hash) ]

    -- The stored block that comes next, with the loop from the next height on.
    abbrev pub on_pow_block :
        ℕ
        → ℕ
        → List ℕ
        → (ℕ × BlockInfo) × T.blocks.Cursor
        → Txn T
        → Result Error Fork
        → Result Error Fork
    on_pow_block current h chain x txn rest =
        if not (x.0.1.id == current)
        then ok (fork current (h ∷ chain) txn)
        else if x.0.1.hash == h
        then rest
        else if leb current max_height
        then err bad_blockchain
        else rollback_chain T current x.1 txn >>= λ after. ok (fork current (h ∷ chain) after)

    unfoldable pub sync_pow_loop : ℕ → List ℕ → T.blocks.Cursor → Txn T → Result Error Fork
    sync_pow_loop current [] c txn = ok (fork current [] txn)
    sync_pow_loop current (h ∷ chain) c txn =
        if missed current h
        then err bad_blockchain
        else found (T.blocks.next_dup c) (ok (fork current (h ∷ chain) txn))
            λ x. on_pow_block current h chain x txn (sync_pow_loop (next current) chain x.1 txn)

    -- "scan checkpoints, this is hardened mode!"
    unfoldable pub scan_checkpoints : ℕ → List ℕ → Bool
    scan_checkpoints current [] = true
    scan_checkpoints current (h ∷ chain) =
        let rest = scan_checkpoints (next current) chain in if missed current h then false else rest

    -- The rest of both lists is stored, if no checkpoint is missed.
    abbrev pub store_pow : List ℕ → List PowSync → Fork → Result Error (Txn T)
    store_pow hashes pow f =
        if scan_checkpoints f.current f.chain
        then ok (record f.txn {
          blocks = append_block_hashes f.current f.chain f.txn.blocks;
          pows = append_pow f.current (drop (suc (length hashes) - length f.chain) pow) f.txn.pows;
        })
        else err bad_blockchain

    abbrev pub sync_pow_from :
        ℕ
        → ℕ
        → List ℕ
        → List PowSync
        → Txn T
        → (ℕ × BlockInfo) × T.blocks.Cursor
        → Result Error (Txn T)
    sync_pow_from height first hashes pow txn x =
        if not (x.0.1.hash == first)
        then err bad_blockchain
        else sync_pow_loop (next height) hashes x.1 txn >>= store_pow hashes pow

    unfoldable pub sync_pow : ℕ → ℕ → List ℕ → List PowSync → Txn T → Result Error (Txn T)
    sync_pow height first hashes pow txn =
        require (T.blocks.get_both blocks_version (λ b. b.id == height) txn.blocks)
        >>= sync_pow_from height first hashes pow txn
