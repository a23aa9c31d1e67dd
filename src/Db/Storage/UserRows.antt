-- ===== src/Db/Storage/UserRows.antt =====
-- What `rollback_account` of src/db/storage.cpp does to the tables of the accounts, on the lists of their records.
use monero_lws.Base.{ℕ, Bool, ◌&&◌, ◌==◌, min, Option, none, some, List, [], ◌∷◌}
use monero_lws.Db.Data.{Output, Spend, OutputId}
use monero_lws.Db.Storage.Rows.{AccountRow, AccountLookup, KeyImage, Tables, Users}
use monero_lws.Db.Storage.Kept.{IsOrdered, kept, lost}
use monero_lws.Db.Storage.Undone.{output_height, spend_height}
use monero_lws.Db.Storage.Images.{without_images}
use monero_lws.Db.Storage.Changed.{change_first}

-- The records of the tables that an account is undone in.
pub record UserRows : Type 0 where
  pub accounts : List (ℕ × AccountRow)
  pub outputs : List (ℕ × Output)
  pub spends : List (ℕ × Spend)
  pub images : List (OutputId × KeyImage)

module _ (T : Tables) where
  abbrev pub rows_of : Users T → UserRows
  rows_of users = record {
    accounts = T.accounts.rows users.accounts;
    outputs = T.outputs.rows users.outputs;
    spends = T.spends.rows users.spends;
    images = T.images.rows users.images;
  }

  abbrev pub AreOrdered : UserRows → Type 0
  AreOrdered u =
      IsOrdered T.outputs output_height u.outputs × IsOrdered T.spends spend_height u.spends

  module _ (height new_height : ℕ) where
    -- The account is to be scanned from the new height on, and starts there at the latest.
    abbrev pub relisted : AccountRow → AccountRow
    relisted a = record a { scan_height = new_height; start_height = min new_height a.start_height }

    abbrev pub is_account : AccountLookup → ℕ → AccountRow → Bool
    is_account k status a = T.accounts.same status k.status && a.id == k.id

    abbrev pub with_images :
        AccountLookup
        → UserRows
        → List (ℕ × AccountRow)
        → Option (List (OutputId × KeyImage))
        → Option UserRows
    with_images k u accounts none = none
    with_images k u accounts (some images) = some (record {
      accounts = accounts;
      outputs = kept T.outputs output_height k.id height u.outputs;
      spends = kept T.spends spend_height k.id height u.spends;
      images = images;
    })

    abbrev pub with_accounts :
        AccountLookup → UserRows → Option (List (ℕ × AccountRow)) → Option UserRows
    with_accounts k u none = none
    with_accounts k u (some accounts) =
        with_images k u accounts
          (without_images T.images (lost T.spends spend_height k.id height u.spends) u.images)

    -- The account of a lookup is relisted, and its outputs, its spends and their key images from the height on are
    -- left out; none where the account or a key image is missing.
    abbrev pub undone : AccountLookup → UserRows → Option UserRows
    undone k u = with_accounts k u (change_first (is_account k) relisted u.accounts)

    abbrev pub undone_each : List AccountLookup → UserRows → Option UserRows
    undone_each [] u = some u
    undone_each (k ∷ ks) u = elim (undone k u) [ none ↦ none | some v ↦ undone_each ks v ]
