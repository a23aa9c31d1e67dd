-- ===== src/Db/Storage/Rows.antt =====
-- The records of the tables in src/db/storage.cpp, with those of src/db/data.h that `Db.Data` lacks, and the tables.
use monero_lws.Base.{ℕ, ◌≡◌, ◌==◌, ltb}
use monero_lws.Db.Data.{
  TransactionLink, OutputId, Output, Spend, AccountAddress, AddressIndex, BlockDifficulty,
}
use monero_lws.Db.Storage.{LmdbTable, IsLawful}

pub record BlockInfo : Type 0 where
  pub id : ℕ
  pub hash : ℕ

pub record BlockPow : Type 0 where
  pub id : ℕ
  pub timestamp : ℕ
  pub cumulative_diff : BlockDifficulty

pub record PowSync : Type 0 where
  pub timestamp : ℕ
  pub cumulative_diff : BlockDifficulty

-- `db::account`
pub record AccountRow : Type 0 where
  pub id : ℕ
  pub access : ℕ
  pub address : AccountAddress
  pub key : ℕ
  pub scan_height : ℕ
  pub start_height : ℕ
  pub creation : ℕ
  pub flags : ℕ
  pub lookahead : AddressIndex
  pub lookahead_fail : ℕ

pub record AccountLookup : Type 0 where
  pub id : ℕ
  pub status : ℕ

pub record KeyImage : Type 0 where
  pub value : ℕ
  pub link : TransactionLink

pub record WebhookOutput : Type 0 where
  pub tx : TransactionLink
  pub out : OutputId

pub record WebhookDupsort : Type 0 where
  pub payment_id : ℕ
  pub event_id : ℕ

pub record WebhookEvent : Type 0 where
  pub link : WebhookOutput
  pub link_webhook : WebhookDupsort

-- `blocks_version`, `pows_version`
abbrev pub blocks_version : ℕ
blocks_version = 0

abbrev pub pows_version : ℕ
pows_version = 0

-- The tables that a change of the chain touches, `storage_internal::tables_`.
pub record Tables : Type 1 where
  pub blocks : LmdbTable ℕ BlockInfo
  pub pows : LmdbTable ℕ BlockPow
  pub accounts : LmdbTable ℕ AccountRow
  pub accounts_bh : LmdbTable ℕ AccountLookup
  pub outputs : LmdbTable ℕ Output
  pub spends : LmdbTable ℕ Spend
  pub images : LmdbTable OutputId KeyImage
  pub events : LmdbTable ℕ WebhookEvent

-- What a transaction that writes works on: the tables of the accounts, and all of them.
pub record Users (T : Tables) : Type 0 where
  pub accounts : T.accounts.State
  pub accounts_bh : T.accounts_bh.State
  pub outputs : T.outputs.State
  pub spends : T.spends.State
  pub images : T.images.State
  pub events : T.events.State

pub record Txn (T : Tables) : Type 0 where
  pub blocks : T.blocks.State
  pub pows : T.pows.State
  pub users : Users T

pub record AreLawful (T : Tables) : Type 0 where
  pub blocks : IsLawful T.blocks
  pub pows : IsLawful T.pows
  pub accounts : IsLawful T.accounts
  pub accounts_bh : IsLawful T.accounts_bh
  pub outputs : IsLawful T.outputs
  pub spends : IsLawful T.spends
  pub images : IsLawful T.images
  pub events : IsLawful T.events
  -- Keys are compared as numbers, and `MONERO_SORT_BY(block_info, id)` as the heights.
  pub blocks_same : (j k : ℕ) → T.blocks.same j k ≡ (j == k)
  pub blocks_less :
      (a b : BlockInfo) → T.blocks.less (blocks_version, a) (blocks_version, b) ≡ ltb a.id b.id
