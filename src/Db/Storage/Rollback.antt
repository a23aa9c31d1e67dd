-- ===== src/Db/Storage/Rollback.antt =====
-- The functions of src/db/storage.cpp that undo what was stored from a height on: `rollback_outputs`, `rollback_spends`,
-- `rollback_accounts`, `rollback_events`, `rollback_chain` and `storage::rollback`. Each round of a loop deletes a record,
-- or leaves a key behind, so that a loop has as many rounds as the table has records.
use monero_lws.Base.{
  ℕ, zero, suc, ◌-◌, min, max, ltb, leb, ◌==◌, if◌then◌else◌, Option, none, some, List, [], ◌∷◌,
  ◌++◌, length,
}
use monero_lws.Base.Results.{Result, ok, err, ◌>>=◌}
use monero_lws.Db.Data.{Output, Spend, OutputId}
use monero_lws.Db.Storage.{LmdbTable, Error, unbounded, found, require}
use monero_lws.Db.Storage.Erase.{erase_dups, bulk_insert}
use monero_lws.Db.Storage.Rows.{
  AccountRow, AccountLookup, KeyImage, WebhookEvent, Tables, Users, Txn, blocks_version,
  pows_version,
}

module _ {K V : Type 0} (T : LmdbTable K V) where
  -- The rounds that a loop over the table may take.
  abbrev pub bound : T.State → ℕ
  bound s = suc (length (T.rows s))

  -- The record's table without those of its key from it on, where the search found one.
  unfoldable pub erase_from : Option ((K × V) × T.Cursor) → T.State → Result Error T.State
  erase_from none s = ok s
  erase_from (some x) s = erase_dups T (bound s) x.1

module _ (O : LmdbTable ℕ Output) where
  unfoldable pub rollback_outputs : ℕ → ℕ → O.State → Result Error O.State
  rollback_outputs user height s =
      erase_from O (O.get_both user (λ o. leb height o.link.height) s) s

module _ (S : LmdbTable ℕ Spend) (I : LmdbTable OutputId KeyImage) where
  unfoldable pub erase_image : Spend → I.State → Result Error I.State
  erase_image s images = require (I.get_both s.source (λ i. i.value == s.image) images) >>= λ x.
      ok (I.table (I.del x.1))

  unfoldable pub rollback_spends_loop :
      ℕ → Spend → S.Cursor → I.State → Result Error (S.State × I.State)
  rollback_spends_loop zero s c images = err unbounded
  rollback_spends_loop (suc n) s c images = erase_image s images >>= λ rest.
      found (S.next_dup (S.del c)) (ok (S.table (S.del c), rest))
        (λ x. rollback_spends_loop n x.0.1 x.1 rest)

  abbrev pub rollback_spends_from :
      Option ((ℕ × Spend) × S.Cursor) → S.State → I.State → Result Error (S.State × I.State)
  rollback_spends_from none spends images = ok (spends, images)
  rollback_spends_from (some x) spends images =
      rollback_spends_loop (bound S spends) x.0.1 x.1 images

  unfoldable pub rollback_spends : ℕ → ℕ → S.State → I.State → Result Error (S.State × I.State)
  rollback_spends user height spends images =
      rollback_spends_from (S.get_both user (λ s. leb height s.link.height) spends) spends images

-- `user->scan_height = ...; user->start_height = ...;`
unfoldable pub lower : ℕ → AccountRow → AccountRow
lower new_height user = record user {
  scan_height = new_height;
  start_height = min new_height user.start_height;
}

module _ (E : LmdbTable ℕ WebhookEvent) where
  -- The record that a round goes on to, and the table after it.
  unfoldable pub event_step :
      ℕ → (ℕ × WebhookEvent) × E.Cursor → Option ((ℕ × WebhookEvent) × E.Cursor) × E.State
  event_step height x =
      if ltb x.0.1.link.tx.height height
      then (E.prev_nodup x.1, E.table x.1)
      else (E.prev (E.del x.1), E.table (E.del x.1))

  unfoldable pub rollback_events_loop :
      ℕ → ℕ → Option ((ℕ × WebhookEvent) × E.Cursor) → E.State → Result Error E.State
  rollback_events_loop n height none s = ok s
  rollback_events_loop zero height (some x) s = err unbounded
  rollback_events_loop (suc n) height (some x) s =
      let r = event_step height x in rollback_events_loop n height r.0 r.1

  unfoldable pub rollback_events : ℕ → E.State → Result Error E.State
  rollback_events height s = rollback_events_loop (bound E s) height (E.last s) s

module _ (T : Tables) where
  -- A round of the loop of `rollback_accounts`: the account of a lookup, its outputs and its spends.
  abbrev pub with_user :
      Users T → T.accounts.State → T.outputs.State → T.spends.State × T.images.State → Users T
  with_user users accounts outputs r = record users {
    accounts = accounts;
    outputs = outputs;
    spends = r.0;
    images = r.1;
  }

  -- The account has been read, with the cursor on it.
  abbrev pub undo_user :
      ℕ → ℕ → Users T → (ℕ × AccountRow) × T.accounts.Cursor → Result Error (Users T)
  undo_user height new_height users x =
      rollback_outputs T.outputs x.0.1.id height users.outputs >>= λ outputs.
      rollback_spends T.spends T.images x.0.1.id height users.spends users.images >>= λ r. ok (
        with_user users (T.accounts.table (T.accounts.put_current (lower new_height x.0.1) x.1))
          outputs r)

  unfoldable pub rollback_account : ℕ → ℕ → AccountLookup → Users T → Result Error (Users T)
  rollback_account height new_height lookup users =
      require (T.accounts.get_both lookup.status (λ a. a.id == lookup.id) users.accounts)
      >>= undo_user height new_height users

  -- The next lookup of the height, or the first of the next height.
  unfoldable pub next_lookup :
      T.accounts_bh.Cursor → Option ((ℕ × AccountLookup) × T.accounts_bh.Cursor)
  next_lookup c = found (T.accounts_bh.next_dup c) (T.accounts_bh.next_nodup c) (λ x. some x)

  unfoldable pub rollback_accounts_loop :
      ℕ
      → ℕ
      → ℕ
      → AccountLookup
      → T.accounts_bh.Cursor
      → List AccountLookup
      → Users T
      → Result Error (Users T)
  rollback_accounts_loop zero height new_height lookup c new_by_heights users = err unbounded
  rollback_accounts_loop (suc n) height new_height lookup c new_by_heights users =
      rollback_account height new_height lookup users >>= λ after.
      found (next_lookup (T.accounts_bh.del c))
        (ok (record after {
          accounts_bh =
              bulk_insert T.accounts_bh new_height (new_by_heights ++ lookup ∷ [])
                (T.accounts_bh.table (T.accounts_bh.del c));
        }))
        (λ x.
          rollback_accounts_loop n height new_height x.0.1 x.1 (new_by_heights ++ lookup ∷ [])
            after)

  unfoldable pub rollback_accounts : ℕ → Users T → Result Error (Users T)
  rollback_accounts height users =
      found (T.accounts_bh.set_range (leb height) users.accounts_bh) (ok users) (λ x.
        rollback_accounts_loop (bound T.accounts_bh users.accounts_bh) height (max height 1 - 1)
          x.0.1 x.1 [] users)

  unfoldable pub rollback_pows : ℕ → T.pows.State → Result Error T.pows.State
  rollback_pows height s =
      erase_from T.pows (T.pows.get_both pows_version (λ p. p.id == height) s) s

  -- The cursor stands on the first block to undo.
  unfoldable pub rollback_chain : ℕ → T.blocks.Cursor → Txn T → Result Error (Txn T)
  rollback_chain height c txn = erase_dups T.blocks (bound T.blocks txn.blocks) c >>= λ blocks.
      rollback_pows height txn.pows >>= λ pows. rollback_accounts height txn.users >>= λ users.
      rollback_events T.events height users.events >>= λ events.
      ok (record { blocks = blocks; pows = pows; users = record users { events = events } })

  -- `storage::rollback`
  unfoldable pub rollback : ℕ → Txn T → Result Error (Txn T)
  rollback height txn =
      found (T.blocks.get_both blocks_version (λ b. b.id == height) txn.blocks) (ok txn)
        (λ x. rollback_chain height x.1 txn)
