-- ===== src/Db/Storage/Outcome.antt =====
-- When `storage::sync_chain` of src/db/storage.cpp ends well, and when it refuses the hashes.
use monero_lws.Base.{ℕ, Bool, ◌==◌, Option, none, some, List, [], ◌∷◌, if◌then◌else◌}
use monero_lws.Base.Results.{Result, ok}
use monero_lws.Db.Storage.{Error}
use monero_lws.Db.Storage.Rows.{Tables, Txn, AreLawful}
use monero_lws.Db.Storage.Chain.{next, Fork, append_block_hashes}

-- The height of the first new hash that is not the stored one.
abbrev pub first_difference : ℕ → List ℕ → List ℕ → Option ℕ
first_difference n old [] = none
first_difference n [] (h ∷ chain) = none
first_difference n (o ∷ old) (h ∷ chain) =
    let rest = first_difference (next n) old chain in if o == h then rest else some n

module _ (T : Tables) (L : AreLawful T) (max_height : ℕ) (regtest : Bool) where
  abbrev finish : Fork T → Result Error (Txn T)
  finish f = ok (record f.txn { blocks = append_block_hashes T f.current f.chain f.txn.blocks })
