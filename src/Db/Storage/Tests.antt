-- ===== src/Db/Storage/Tests.antt =====
-- A chain of three blocks with an account, in tables that are lists, and the theorems at it.
use monero_lws.Base.{
  ℕ, ◌⊎◌, ◌≡◌, ◌≢◌, refl, Bool, false, ◌&&◌, ◌||◌, arith, ltb, ◌==◌, Option, none, some, List, [],
  ◌∷◌, map, All, In, if◌then◌else◌,
}
use mathlib.Core.List.{reverse}
use monero_lws.Base.Results.{ok, err}
use monero_lws.Db.Data.{OutputId, Output, Spend, output_id_eq, output_id_less, link_less}
use monero_lws.Db.Storage.{not_found, unbounded}
use monero_lws.Db.Storage.Rows.{
  BlockInfo, AccountRow, AccountLookup, KeyImage, WebhookEvent, PowSync, Tables, Users, Txn,
  AreLawful,
}
use monero_lws.Db.Storage.Memory.{list_table, list_table-IsLawful}
use monero_lws.Db.Storage.Erase.{erase_dups, bulk_put, bulk_insert}
use monero_lws.Db.Storage.Rollback.{
  erase_from, rollback_outputs, rollback_spends, lower, rollback_events_loop, rollback_events,
  rollback_account, next_lookup, rollback_accounts_loop, rollback_accounts, rollback_pows,
  rollback_chain,
}
use monero_lws.Db.Storage.Append.{records, row}
use monero_lws.Db.Storage.Chain.{
  append_loop, append_block_hashes, append_pow, block_info, block_pow, sync_chain_loop, sync_chain,
  sync_pow_loop, scan_checkpoints, sync_pow,
}
use monero_lws.Db.Storage.Sync.{merged, rows-sync_chain}
use monero_lws.Db.Storage.Kept.{kept}
use monero_lws.Db.Storage.Undone.{spend_height}
use monero_lws.Db.Storage.Images.{without_images, rows-rollback_spends}
use monero_lws.Db.Storage.Events.{rows-rollback_events}
use monero_lws.Db.Storage.Changed.{put_missing}
use monero_lws.Db.Storage.UserRows.{rows_of, undone_each}
use monero_lws.Db.Storage.Relisted.{rows-rollback_accounts}
use monero_lws.Db.Storage.Ending.{sync_chain_ends}
use monero_lws.Db.Storage.Readers.{hash_of, back_id, get_chain_sync}
use monero_lws.Db.Storage.Locator.{IsRising, get_chain_sync-IsRising}
use monero_lws.Db.Storage.Checkpoints.{Passes, sync_pow-Passes}

abbrev by_key : {V : Type 0} → (V → V → Bool) → ℕ × V → ℕ × V → Bool
by_key less x y = ltb x.0 y.0 || x.0 == y.0 && less x.1 y.1

abbrev tables : Tables
tables = record {
  blocks = list_table (λ j k. j == k) (by_key λ a b. ltb a.id b.id);
  pows = list_table (λ j k. j == k) (by_key λ a b. ltb a.id b.id);
  accounts = list_table (λ j k. j == k) (by_key λ a b. ltb a.id b.id);
  accounts_bh = list_table (λ j k. j == k) (by_key λ a b. ltb a.id b.id);
  outputs = list_table (λ j k. j == k) (by_key λ a b. link_less a.link b.link);
  spends = list_table (λ j k. j == k) (by_key λ a b. link_less a.link b.link);
  images =
      list_table output_id_eq
        (λ x y. output_id_less x.0 y.0 || output_id_eq x.0 y.0 && ltb x.1.value y.1.value);
  events = list_table (λ j k. j == k) (by_key λ a b. link_less a.link.tx b.link.tx);
}

tables-AreLawful : AreLawful tables
tables-AreLawful = record {
  blocks = list_table-IsLawful _ _;
  pows = list_table-IsLawful _ _;
  accounts = list_table-IsLawful _ _;
  accounts_bh = list_table-IsLawful _ _;
  outputs = list_table-IsLawful _ _;
  spends = list_table-IsLawful _ _;
  images = list_table-IsLawful _ _;
  events = list_table-IsLawful _ _;
  blocks_same = λ j k. refl;
  blocks_less = λ a b. refl;
}

abbrev user : AccountRow
user = record {
  id = 1;
  access = 0;
  address = record { view_public = 3; spend_public = 4 };
  key = 5;
  scan_height = 12;
  start_height = 11;
  creation = 0;
  flags = 0;
  lookahead = record { maj_i = 0; min_i = 0 };
  lookahead_fail = 0;
}

abbrev txn : Txn tables
txn = record {
  blocks = (0, block_info 10 100) ∷ (0, block_info 11 101) ∷ (0, block_info 12 102) ∷ [];
  pows = [];
  users = record {
    accounts = (0, user) ∷ [];
    accounts_bh = (12, record { id = 1; status = 0 }) ∷ [];
    outputs = [];
    spends = [];
    images = [];
    events = [];
  };
}

-- The block of height 12 is replaced, and the account is to be scanned from 11 on again.
abbrev forked : Txn tables
forked = record txn {
  blocks =
      (0, block_info 10 100)
      ∷ (0, block_info 11 101)
      ∷ (0, block_info 12 202)
      ∷ (0, block_info 13 203)
      ∷ [];
  users = record {
    accounts = (0, record user { scan_height = 11 }) ∷ [];
    accounts_bh = (11, record { id = 1; status = 0 }) ∷ [];
    outputs = [];
    spends = [];
    images = [];
    events = [];
  };
}

sync_chain_of_fork : sync_chain tables 10 false 10 100 (101 ∷ 202 ∷ 203 ∷ []) txn ≡ ok forked
unfolding sync_chain sync_chain_loop rollback_chain erase_dups rollback_pows erase_from
    rollback_accounts rollback_accounts_loop rollback_account rollback_outputs rollback_spends
    next_lookup rollback_events rollback_events_loop append_block_hashes lower bulk_insert
    append_loop bulk_put
sync_chain_of_fork = refl

rows-sync_chain_example :
    ◌≡◌ {A = ℕ} 100 100
    × (forked.blocks
        ≡ row (block_info 10 100)
          ∷ map row (records block_info 11 (merged (101 ∷ 102 ∷ []) (101 ∷ 202 ∷ 203 ∷ []))))
rows-sync_chain_example =
    rows-sync_chain tables tables-AreLawful 10 false 10 100 100 (101 ∷ 102 ∷ [])
      (101 ∷ 202 ∷ 203 ∷ []) [] txn forked refl tt (omega arith) sync_chain_of_fork

abbrev spent : ℕ → ℕ → Spend
spent height image = record {
  link = record { height = height; tx_hash = 1 };
  image = image;
  source = record { high = 0; low = 7 };
  timestamp = 0;
  unlock_time = 0;
  mixin_count = 15;
  length = 0;
  payment_id = 0;
  sender = record { maj_i = 0; min_i = 0 };
}

abbrev all_spends : List (ℕ × Spend)
all_spends = (1, spent 11 8) ∷ (1, spent 12 9) ∷ (2, spent 12 10) ∷ []

abbrev image : ℕ → OutputId × KeyImage
image value = (
  record { high = 0; low = 7 },
  record { value = value; link = record { height = 12; tx_hash = 1 } },
)

abbrev all_images : List (OutputId × KeyImage)
all_images = image 8 ∷ image 9 ∷ image 10 ∷ []

rows-rollback_spends_example :
    ((without_images tables.images (spent 12 9 ∷ []) all_images ≡ none)
      × (rollback_spends tables.spends tables.images 1 12 all_spends all_images ≡ err not_found))
    ⊎ ((t : List (ℕ × Spend)) × ((i : List (OutputId × KeyImage)) × ((rollback_spends tables.spends
                tables.images 1 12 all_spends all_images
              ≡ ok (t, i))
            × ((t ≡ kept tables.spends spend_height 1 12 all_spends)
                × (without_images tables.images (spent 12 9 ∷ []) all_images ≡ some i)))))
rows-rollback_spends_example =
    rows-rollback_spends tables.spends tables.images (list_table-IsLawful _ _)
      (list_table-IsLawful _ _) (λ j k. refl) 1 12 all_spends all_images
      (
        ((omega arith, λ e. omega arith), ((omega arith, λ e. omega arith), tt)),
        (((omega arith, λ e. omega arith), tt), (tt, tt)),
      )

abbrev event : ℕ → WebhookEvent
event height = record {
  link = record {
    tx = record { height = height; tx_hash = 1 };
    out = record { high = 0; low = 7 };
  };
  link_webhook = record { payment_id = 0; event_id = 1 };
}

abbrev all_events : List (ℕ × WebhookEvent)
all_events = (1, event 11) ∷ (1, event 12) ∷ (2, event 10) ∷ []

rows-rollback_events_example :
    (t : List (ℕ × WebhookEvent)) × ((rollback_events tables.events 12 all_events ≡ ok t)
      × (t ≡ (1, event 11) ∷ (2, event 10) ∷ []))
rows-rollback_events_example =
    rows-rollback_events tables.events (λ j k. refl) 12 (list_table-IsLawful _ _) all_events
      (
        ((omega arith, λ e. omega arith), ((omega arith, λ e. omega arith), tt)),
        (((omega arith, λ e. omega arith), tt), (tt, tt)),
      )

abbrev lookups : List AccountLookup
lookups = record { id = 1; status = 0 } ∷ []

rows-rollback_accounts_example :
    ((undone_each tables 12 11 lookups (rows_of tables txn.users) ≡ none)
      × (rollback_accounts tables 12 txn.users ≡ err not_found))
    ⊎ ((after : Users tables) × ((rollback_accounts tables 12 txn.users ≡ ok after)
          × ((undone_each tables 12 11 lookups (rows_of tables txn.users)
                ≡ some (rows_of tables after))
              × ((after.accounts_bh ≡ put_missing tables.accounts_bh 11 lookups [])
                  × (after.events ≡ [])))))
rows-rollback_accounts_example =
    rows-rollback_accounts tables tables-AreLawful (λ j k. refl) (λ j k. refl) 12 txn.users lookups
      (tt, tt) refl

sync_chain_ends_example : sync_chain tables 10 false 10 100 (101 ∷ 202 ∷ []) txn ≢ err unbounded
sync_chain_ends_example =
    sync_chain_ends tables tables-AreLawful 10 false 10 100 (101 ∷ 202 ∷ []) txn

-- A checkpoint at height 12.
abbrev points : ℕ → Option ℕ
points n = if n == 12 then some 202 else none

abbrev pow : PowSync
pow = record { timestamp = 0; cumulative_diff = record { high = 0; low = 1 } }

-- The stored chain ends at height 11.
abbrev short : Txn tables
short = record txn { blocks = (0, block_info 10 100) ∷ (0, block_info 11 101) ∷ [] }

abbrev longer : Txn tables
longer = record short {
  blocks = (0, block_info 10 100) ∷ (0, block_info 11 101) ∷ (0, block_info 12 202) ∷ [];
  pows = (0, block_pow 12 pow) ∷ [];
}

sync_pow_of_longer :
    sync_pow tables 12 points 10 100 (101 ∷ 202 ∷ []) (pow ∷ pow ∷ pow ∷ []) short ≡ ok longer
unfolding sync_pow sync_pow_loop scan_checkpoints append_block_hashes append_pow append_loop
    bulk_put bulk_insert
sync_pow_of_longer = refl

sync_pow-Passes_example : Passes points 11 (101 ∷ 202 ∷ [])
sync_pow-Passes_example =
    sync_pow-Passes tables 12 points 10 100 (101 ∷ 202 ∷ []) (pow ∷ pow ∷ pow ∷ []) short longer
      sync_pow_of_longer

abbrev received : ℕ → Output
received height = record {
  link = record { height = height; tx_hash = 1 };
  spend_meta = record {
    id = record { high = 0; low = 7 };
    amount = 5;
    mixin_count = 0;
    index = 0;
    tx_public = 3;
  };
  timestamp = 0;
  unlock_time = 0;
  tx_prefix_hash = 0;
  public_key = 2;
  ringct_mask = 0;
  extra = 0;
  payment_id = 0;
  fee = 0;
  recipient = record { maj_i = 0; min_i = 0 };
}

abbrev all_outputs : List (ℕ × Output)
all_outputs = (1, received 11) ∷ (1, received 12) ∷ (2, received 12) ∷ []

-- A chain that was begun with the first block and a checkpoint at height 5.
abbrev seeded_chain : List (ℕ × BlockInfo)
seeded_chain = (0, block_info 0 100) ∷ (0, block_info 5 101) ∷ (0, block_info 6 102) ∷ []

get_chain_sync-IsRising_example :
    (top : BlockInfo) × ((blocks : List BlockInfo) × ((get_chain_sync tables.blocks 5 seeded_chain
          ≡ ok (map hash_of (reverse blocks)))
        × ((IsRising blocks × (back_id blocks ≡ 0))
            × (All (λ b. In (row b) seeded_chain) blocks × (In top blocks × (top.id ≡ 6))))))
get_chain_sync-IsRising_example =
    get_chain_sync-IsRising tables tables-AreLawful 100 5 101 (102 ∷ []) seeded_chain refl 5
      (omega arith) (omega arith) (omega arith)
