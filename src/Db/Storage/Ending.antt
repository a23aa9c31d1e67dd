-- ===== src/Db/Storage/Ending.antt =====
-- `rollback_chain`, `storage::rollback` and `storage::sync_chain` of src/db/storage.cpp come to an end.
use mathlib.Core.List.{append-nil}
use monero_lws.Base.{
  ℕ, zero, suc, ◌-◌, ◌<◌, ◌≡◌, ◌≢◌, refl, sym, ap, ◌∙◌, arith, ◌⊎◌, inl, inr, Bool, Bool-cases,
  if_true, if_false, true, not, ◌&&◌, max, leb, ◌==◌, Option, none, some, List, [], ◌∷◌, map,
  length,
}
use monero_lws.Base.Results.{Result, ok, err, ◌>>=◌}
use monero_lws.Db.Storage.{
  LmdbTable, IsLawful, position, unzip, step, dup, back, back_nodup, remove, viewed-none,
  viewed-some, Error, unbounded, found, require,
}
use monero_lws.Db.Storage.Erase.{erase_dups}
use monero_lws.Db.Storage.Rows.{
  BlockInfo, AccountLookup, WebhookEvent, Tables, Users, Txn, AreLawful, blocks_version,
  pows_version,
}
use monero_lws.Db.Storage.Rollback.{
  bound, rollback_outputs, rollback_spends, lower, event_step, rollback_events_loop,
  rollback_events, with_user, undo_user, rollback_account, rollback_accounts, rollback_pows,
  rollback_chain, rollback,
}
use monero_lws.Db.Storage.Chain.{
  next, Fork, fork, append_block_hashes, on_block, sync_chain_loop, sync_chain_from, sync_chain,
}
use monero_lws.Db.Storage.Fork.{length-unzip, unzip-behind, loop_none, loop_some}
use monero_lws.Db.Storage.Accounts.{
  lookup_of, from_height, rollback_each, reinsert, rollback_accounts_lem,
}
use monero_lws.Db.Storage.Events.{seek_last_lem, is_old}
use monero_lws.Db.Storage.Halting.{
  halted, halted-bind, halted-regular, regular, regular-bind, regular-require, seek_shape,
  seek_back_shape, erase_dups_halts, erase_from_halts, spends_halt,
}

module _ (E : LmdbTable ℕ WebhookEvent) (L : IsLawful E) (height : ℕ) where
  abbrev RoundResult : Type 0
  RoundResult = Option ((ℕ × WebhookEvent) × E.Cursor) × E.State

  -- A round goes on before the record, if at all.
  round_shape :
      (x : ℕ × WebhookEvent) (c : E.Cursor) (l r : List (ℕ × WebhookEvent))
      → E.view c ≡ position l (x ∷ r) none
      → ((event_step E height (x, c)).0 ≡ none)
        ⊎ ((y : ℕ × WebhookEvent) × ((d : E.Cursor) × ((l' : List (ℕ × WebhookEvent)) × ((r' : List
                    (ℕ × WebhookEvent))
                  × (((event_step E height (x, c)).0 ≡ some (y, d))
                      × ((E.view d ≡ position l' (y ∷ r') none) × (length l' < length l)))))))
  unfolding event_step
  round_shape x c l r e = elim (Bool-cases (is_old height x)) [
    | inl o ↦
        let next =
          ap (λ (p : RoundResult). p.0)
            (if_true (E.prev_nodup c, E.table c) (E.prev (E.del c), E.table (E.del c)) o) in
        let seen = L.prev_nodup_lem c ∙ ap (back_nodup E.same) e in
        elim (seek_back_shape (λ j. not (E.same j x.0)) l (x ∷ r)) [
          | inl a ↦ inl (next ∙ viewed-none E _ (seen ∙ a))
          | inr (y, (l', (r', (a, b)))) ↦
              let (d, (there, on)) = viewed-some E _ y (position l' (y ∷ r') none) (seen ∙ a) in
              inr (y, (d, (l', (r', (next ∙ there, (on, b))))))
        ]
    | inr o ↦
        let next =
          ap (λ (p : RoundResult). p.0)
            (if_false (E.prev_nodup c, E.table c) (E.prev (E.del c), E.table (E.del c)) o) in
        let seen = L.prev_lem (E.del c) ∙ ap back (L.del_lem c ∙ ap remove e) in
        elim (seek_back_shape (λ k. true) l r) [
          | inl a ↦ inl (next ∙ viewed-none E _ (seen ∙ a))
          | inr (y, (l', (r', (a, b)))) ↦
              let (d, (there, on)) = viewed-some E _ y (position l' (y ∷ r') none) (seen ∙ a) in
              inr (y, (d, (l', (r', (next ∙ there, (on, b))))))
        ]
  ]

  events_loop_halts :
      (n : ℕ) (x : ℕ × WebhookEvent) (c : E.Cursor) (s : E.State) (l r : List (ℕ × WebhookEvent))
      → E.view c ≡ position l (x ∷ r) none
      → length l < n
      → regular (rollback_events_loop E n height (some (x, c)) s) ≡ true
  unfolding rollback_events_loop
  events_loop_halts zero x c s l r e h = absurd (omega arith)
  events_loop_halts (suc n) x c s l r e h = elim (round_shape x c l r e) [
    | inl a ↦ ap (λ o. regular (rollback_events_loop E n height o (event_step E height (x, c)).1)) a
    | inr (y, (d, (l', (r', (a, (on, b)))))) ↦
        ap (λ o. regular (rollback_events_loop E n height o (event_step E height (x, c)).1)) a
        ∙ events_loop_halts n y d _ l' r' on (omega (arith, h, b))
  ]

  events_halt : (s : E.State) → regular (rollback_events E height s) ≡ true
  unfolding rollback_events rollback_events_loop
  events_halt s = elim (seek_last_lem E [] (E.rows s)) [
    | inl (a, b) ↦
        ap (λ o. regular (rollback_events_loop E (bound E s) height o s))
          (viewed-none E _ (L.last_lem s ∙ a))
    | inr (x, (l, (a, b))) ↦
        let (c, (there, on)) = viewed-some E _ x (position l (x ∷ []) none) (L.last_lem s ∙ a) in
        let whole : unzip (x ∷ l) [] ≡ E.rows s =
          ap (λ l. unzip l []) b ∙ unzip-behind [] (E.rows s) [] ∙ append-nil _ in
        ap (λ o. regular (rollback_events_loop E (bound E s) height o s)) there
        ∙ events_loop_halts (bound E s) x c s l [] on
            (omega (arith, ap length whole, length-unzip l (x ∷ [])))
  ]

module _ (T : Tables) (L : AreLawful T) where
  account_halts :
      (height new_height : ℕ) (k : AccountLookup) (users : Users T)
      → regular (rollback_account T height new_height k users) ≡ true
  unfolding rollback_account rollback_outputs rollback_spends
  account_halts height new_height k users =
      regular-bind (require (T.accounts.get_both k.status (λ a. a.id == k.id) users.accounts))
        (undo_user T height new_height users) (regular-require _)
        λ x.
          regular-bind (rollback_outputs T.outputs x.0.1.id height users.outputs)
            (λ outputs.
              rollback_spends T.spends T.images x.0.1.id height users.spends users.images >>= λ r.
              ok (
                with_user T users
                  (T.accounts.table (T.accounts.put_current (lower new_height x.0.1) x.1)) outputs
                  r))
            (erase_from_halts T.outputs L.outputs x.0.1.id (λ o. leb height o.link.height)
              users.outputs)
            λ outputs.
              regular-bind {B = Users T}
                (rollback_spends T.spends T.images x.0.1.id height users.spends users.images)
                (λ r. ok (
                  with_user T users
                    (T.accounts.table (T.accounts.put_current (lower new_height x.0.1) x.1)) outputs
                    r))
                (spends_halt T.spends T.images L.spends x.0.1.id (λ s. leb height s.link.height)
                  users.spends users.images)
                λ r. refl

  each_halts :
      (height new_height : ℕ) (ks : List AccountLookup) (users : Users T)
      → regular (rollback_each T height new_height ks users) ≡ true
  each_halts height new_height [] users = refl
  each_halts height new_height (k ∷ ks) users =
      regular-bind (rollback_account T height new_height k users)
        (rollback_each T height new_height ks) (account_halts height new_height k users)
        (each_halts height new_height ks)

  accounts_halt : (height : ℕ) (users : Users T) → regular (rollback_accounts T height users) ≡ true
  accounts_halt height users =
      let (t, (rows, run)) = rollback_accounts_lem T L.accounts_bh height users in
      let ks = map lookup_of (from_height height (T.accounts_bh.rows users.accounts_bh)) in
      ap regular run
      ∙ regular-bind (rollback_each T height (max height 1 - 1) ks users)
          (reinsert T height (max height 1 - 1) ks t)
          (each_halts height (max height 1 - 1) ks users) λ u. refl

  -- The cursor stands on a record of the table of blocks.
  abbrev pub IsOn : T.blocks.Cursor → T.blocks.State → Type 0
  IsOn c s =
      (x : ℕ × BlockInfo) × ((l : List (ℕ × BlockInfo)) × ((r : List (ℕ × BlockInfo))
          × ((T.blocks.view c ≡ position l (x ∷ r) none) × (unzip l (x ∷ r) ≡ T.blocks.rows s))))

  abbrev finish : T.blocks.State → T.pows.State → Users T → T.events.State → Result Error (Txn T)
  finish blocks pows users events =
      ok (record { blocks = blocks; pows = pows; users = record users { events = events } })

  abbrev rest : ℕ → Txn T → T.blocks.State → T.pows.State → Result Error (Txn T)
  rest height txn blocks pows = rollback_accounts T height txn.users >>= λ users.
      rollback_events T.events height users.events >>= finish blocks pows users

  pub chain_halts :
      (height : ℕ) (c : T.blocks.Cursor) (txn : Txn T)
      → IsOn c txn.blocks
      → regular (rollback_chain T height c txn) ≡ true
  unfolding rollback_chain rollback_pows
  chain_halts height c txn (x, (l, (r, (e, d)))) =
      regular-bind (erase_dups T.blocks (bound T.blocks txn.blocks) c)
        (λ blocks. rollback_pows T height txn.pows >>= rest height txn blocks)
        (erase_dups_halts T.blocks L.blocks txn.blocks c x l r e d)
        λ blocks.
          regular-bind (rollback_pows T height txn.pows) (rest height txn blocks)
            (erase_from_halts T.pows L.pows pows_version (λ p. p.id == height) txn.pows)
            λ pows.
              regular-bind (rollback_accounts T height txn.users)
                (λ users. rollback_events T.events height users.events >>= finish blocks pows users)
                (accounts_halt height txn.users)
                λ users.
                  regular-bind (rollback_events T.events height users.events)
                    (finish blocks pows users) (events_halt T.events L.events height users.events)
                    λ events. refl

  lookup_shape :
      (k : ℕ) (p : BlockInfo → Bool) (s : T.blocks.State)
      → (T.blocks.get_both k p s ≡ none)
        ⊎ ((x : (ℕ × BlockInfo) × T.blocks.Cursor) × ((T.blocks.get_both k p s ≡ some x)
              × IsOn x.1 s))
  lookup_shape k p s = elim (seek_shape (λ j v. T.blocks.same j k && p v) [] (T.blocks.rows s)) [
    | inl e ↦ inl (viewed-none T.blocks _ (L.blocks.get_both_lem k p s ∙ e))
    | inr (x, (l, (r, (e, d)))) ↦
        let (c, (there, on)) =
          viewed-some T.blocks _ x (position l (x ∷ r) none) (L.blocks.get_both_lem k p s ∙ e) in
        inr ((x, c), (there, (x, (l, (r, (on, d))))))
  ]

  -- `storage::rollback` ends.
  pub rollback_ends : (height : ℕ) (txn : Txn T) → rollback T height txn ≢ err unbounded
  unfolding rollback
  rollback_ends height txn h = elim (lookup_shape blocks_version (λ b. b.id == height) txn.blocks) [
    | inl e ↦ absurd (
        ground (
          arith,
          sym (ap regular h)
              ∙ ap (λ o. regular (found o (ok txn) λ x. rollback_chain T height x.1 txn)) e,
        ))
    | inr (x, (e, on)) ↦ absurd (
        ground (
          arith,
          sym (ap regular h)
              ∙ ap (λ o. regular (found o (ok txn) λ x. rollback_chain T height x.1 txn)) e
              ∙ chain_halts height x.1 txn on,
        ))
  ]

  next_shape :
      (c : T.blocks.Cursor) (s : T.blocks.State)
      → IsOn c s
      → (T.blocks.next_dup c ≡ none)
        ⊎ ((y : (ℕ × BlockInfo) × T.blocks.Cursor) × ((T.blocks.next_dup c ≡ some y) × IsOn y.1 s))
  next_shape c s (x, (l, ([], (e, d)))) =
      inl (viewed-none T.blocks _ (L.blocks.next_dup_lem c ∙ ap (step (dup T.blocks.same)) e))
  next_shape c s (x, (l, (y ∷ r, (e, d)))) = elim (Bool-cases (T.blocks.same y.0 x.0)) [
    | inl t ↦
        let (b, (there, on)) =
          viewed-some T.blocks _ y (position (x ∷ l) (y ∷ r) none)
            (L.blocks.next_dup_lem c ∙ ap (step (dup T.blocks.same)) e ∙ if_true _ _ t) in
        inr ((y, b), (there, (y, (x ∷ l, (r, (on, d))))))
    | inr f ↦ inl (
        viewed-none T.blocks _
          (L.blocks.next_dup_lem c ∙ ap (step (dup T.blocks.same)) e ∙ if_false _ _ f))
  ]

  module _ (max_height : ℕ) (regtest : Bool) where
    block_halts :
        (n x : ℕ) (chain : List ℕ) (y : (ℕ × BlockInfo) × T.blocks.Cursor) (txn : Txn T)
        (rest : Result Error (Fork T))
        → IsOn y.1 txn.blocks
        → halted rest ≡ true
        → halted (on_block T max_height regtest n x chain y txn rest) ≡ true
    block_halts n x chain y txn rest on h = elim (Bool-cases (y.0.1.hash == x)) [
      | inl e ↦ ap halted (if_true _ _ e) ∙ h
      | inr e ↦ elim (Bool-cases (not regtest && leb n max_height)) [
        | inl g ↦ ap halted (if_false _ _ e ∙ if_true _ _ g)
        | inr g ↦
            ap halted (if_false _ _ e ∙ if_false _ _ g)
            ∙ halted-bind (rollback_chain T n y.1 txn) (λ after. ok (fork T n (x ∷ chain) after))
                (halted-regular _ (chain_halts n y.1 txn on)) λ after. refl
      ]
    ]

    sync_loop_halts :
        (n : ℕ) (chain : List ℕ) (c : T.blocks.Cursor) (txn : Txn T)
        → IsOn c txn.blocks
        → halted (sync_chain_loop T max_height regtest n chain c txn) ≡ true
    unfolding sync_chain_loop
    sync_loop_halts n [] c txn on = refl
    sync_loop_halts n (x ∷ chain) c txn on = elim (next_shape c txn.blocks on) [
      | inl e ↦ ap halted (loop_none T max_height regtest n x chain c txn e)
      | inr (y, (e, on')) ↦
          ap halted (loop_some T max_height regtest n x chain c txn y e)
          ∙ block_halts n x chain y txn _ on' (sync_loop_halts (next n) chain y.1 txn on')
    ]

    from_halts :
        (height first : ℕ) (hashes : List ℕ) (txn : Txn T) (x : (ℕ × BlockInfo) × T.blocks.Cursor)
        → IsOn x.1 txn.blocks
        → halted (sync_chain_from T max_height regtest height first hashes txn x) ≡ true
    from_halts height first hashes txn x on = elim (Bool-cases (not (x.0.1.hash == first))) [
      | inl e ↦ ap halted (if_true _ _ e)
      | inr e ↦
          ap halted (if_false _ _ e)
          ∙ halted-bind (sync_chain_loop T max_height regtest (next height) hashes x.1 txn)
              (λ f.
                ok (record f.txn { blocks = append_block_hashes T f.current f.chain f.txn.blocks }))
              (sync_loop_halts (next height) hashes x.1 txn on) λ f. refl
    ]

    sync_chain_halts :
        (height first : ℕ) (hashes : List ℕ) (txn : Txn T)
        → halted (sync_chain T max_height regtest height first hashes txn) ≡ true
    unfolding sync_chain
    sync_chain_halts height first hashes txn =
        elim (lookup_shape blocks_version (λ b. b.id == height) txn.blocks) [
          | inl e ↦
              ap
                (λ o.
                  halted
                    (require o >>= sync_chain_from T max_height regtest height first hashes txn))
                e
          | inr (x, (e, on)) ↦
              ap
                (λ o.
                  halted
                    (require o >>= sync_chain_from T max_height regtest height first hashes txn))
                e
              ∙ from_halts height first hashes txn x on
        ]

    -- `storage::sync_chain` ends.
    pub sync_chain_ends :
        (height first : ℕ) (hashes : List ℕ) (txn : Txn T)
        → sync_chain T max_height regtest height first hashes txn ≢ err unbounded
    sync_chain_ends height first hashes txn h =
        absurd (ground (arith, sym (ap halted h) ∙ sync_chain_halts height first hashes txn))
