-- ===== src/Db/Storage/Readers.antt =====
-- `do_get_block_hash`, `get_blocks_tail`, `get_blocks`, `get_last_block`, `get_block_hash` and `get_chain_sync` of
-- src/db/storage.cpp: the hashes that are sent to the daemon to find the fork.
use monero_lws.Base.{
  ℕ, zero, suc, ◌+◌, ◌%◌, ◌-◌, ◌*◌, ◌^◌, Bool, not, ◌||◌, min, ltb, ◌==◌, List, [], ◌∷◌, map,
  if◌then◌else◌,
}
use mathlib.Core.List.{reverse}
use monero_lws.Base.Results.{Result, ok, err, ◌>>=◌}
use monero_lws.Db.Storage.{LmdbTable, Error, bad_blockchain, found, require}
use monero_lws.Db.Storage.Rows.{BlockInfo, blocks_version}

abbrev pub hash_of : BlockInfo → ℕ
hash_of b = b.hash

abbrev pub back_id : List BlockInfo → ℕ
back_id [] = 0
back_id (b ∷ out) = b.id

-- `2 << i`, of an `int` of 32 bits, as a number of 64 bits. From 2 ^ 31 on, at `i = 30`, it is negative; what it is from
-- `i = 32` on the language does not say.
unfoldable pub shifted : ℕ → ℕ
shifted i =
    let bits = 2 * 2 ^ i % 2 ^ 32 in if ltb bits (2 ^ 31) then bits else bits + (2 ^ 64 - 2 ^ 32)

module _ (B : LmdbTable ℕ BlockInfo) where
  unfoldable pub do_get_block : ℕ → B.State → Result Error BlockInfo
  do_get_block id s = require (B.get_both blocks_version (λ b. b.id == id) s) >>= λ x. ok x.0.1

  -- `storage_reader::get_block_hash`
  unfoldable pub get_block_hash : ℕ → B.State → Result Error ℕ
  get_block_hash height s = do_get_block height s >>= λ b. ok b.hash

  -- `storage_reader::get_last_block`
  unfoldable pub get_last_block : B.State → Result Error BlockInfo
  get_last_block s = require (B.last_of blocks_version s) >>= λ x. ok x.0.1

  -- `add_block`. The newest entry of the vector, `out.back()`, comes first.
  unfoldable pub add_block : ℕ → List BlockInfo → B.State → Result Error (List BlockInfo)
  add_block id out s = do_get_block id s >>= λ b. ok (record { id = id; hash = b.hash } ∷ out)

  -- The loop over the offsets, each twice the one before while the shift fits.
  unfoldable pub add_offsets :
      ℕ → ℕ → ℕ → ℕ → List BlockInfo → B.State → Result Error (List BlockInfo)
  add_offsets zero i checkpoint anchor out s = ok out
  add_offsets (suc n) i checkpoint anchor out s =
      let offset = shifted i in
      if ltb anchor offset || ltb (anchor - offset) checkpoint
      then ok out
      else add_block (anchor - offset) out s >>= λ more.
          add_offsets n (suc i) checkpoint anchor more s

  abbrev pub add_if : Bool → ℕ → B.State → List BlockInfo → Result Error (List BlockInfo)
  add_if b id s out = if b then add_block id out s else ok out

  unfoldable pub add_sparse : ℕ → ℕ → List BlockInfo → B.State → Result Error (List BlockInfo)
  add_sparse max_internal checkpoint out s =
      add_offsets max_internal 1 checkpoint (back_id out) out s >>= λ more.
      add_if (ltb checkpoint (back_id more)) checkpoint s more >>= λ all.
      add_if (not (back_id all == 0)) 0 s all

  -- The loop over the last blocks, which ends early at the first one.
  unfoldable pub get_blocks_tail :
      ℕ
      → ℕ
      → ℕ
      → List BlockInfo
      → (ℕ × BlockInfo) × B.Cursor
      → B.State
      → Result Error (List BlockInfo)
  get_blocks_tail zero max_internal checkpoint out x s = add_sparse max_internal checkpoint out s
  get_blocks_tail (suc n) max_internal checkpoint out x s =
      found (B.prev_dup x.1) (if x.0.1.id == 0 then ok (x.0.1 ∷ out) else err bad_blockchain)
        λ y. get_blocks_tail n max_internal checkpoint (x.0.1 ∷ out) y s

  unfoldable pub get_blocks : ℕ → ℕ → B.State → Result Error (List BlockInfo)
  get_blocks max_internal checkpoint s = require (B.last_of blocks_version s) >>= λ x.
      get_blocks_tail 10 (min 64 max_internal) checkpoint [] x s

  -- `storage_reader::get_chain_sync`, with the height of the last checkpoint.
  unfoldable pub get_chain_sync : ℕ → B.State → Result Error (List ℕ)
  get_chain_sync checkpoint s =
      get_blocks 64 checkpoint s >>= λ blocks. ok (map hash_of (reverse blocks))
