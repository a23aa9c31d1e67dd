-- ===== src/Db/Storage/Fork.antt =====
-- What the loop of `storage::sync_chain` in src/db/storage.cpp meets: the next block, the fork, and a rollback.
use monero_lws.Base.{
  ℕ, suc, ◌+◌, ◌<◌, ◌^◌, ◌≡◌, refl, sym, ap, subst, ◌∙◌, arith, Bool, if_true, if_false, ◌==◌, ◌&&◌,
  none, some, List, [], ◌∷◌, ◌++◌, length, map, All,
}
use monero_lws.Base.Results.{Result, ok, err, ◌>>=◌, bind_ok, ok_inj}
use monero_lws.Db.Storage.{
  behind, position, unzip, seek, step, dup, viewed, viewed-none, viewed-some, found, Error,
}
use monero_lws.Db.Storage.Erase.{erase_dups, drop_dups, rows-erase_dups}
use monero_lws.Db.Storage.Rows.{BlockInfo, Tables, Users, Txn, AreLawful, blocks_version}
use monero_lws.Db.Storage.Rollback.{
  bound, rollback_pows, rollback_accounts, rollback_events, rollback_chain,
}
use monero_lws.Db.Storage.Chain.{
  next, append_block_hashes, block_info, Fork, fork, on_block, sync_chain_loop,
}
use monero_lws.Db.Storage.Append.{records, IsBelow, row, rows-append_block_hashes}

pub length-unzip : {K V : Type 0} (l r : List (K × V)) → length (unzip l r) ≡ length l + length r
length-unzip [] r = omega arith
length-unzip (x ∷ l) r = omega (arith, length-unzip l (x ∷ r))

-- A record of the only key of the chain.
abbrev pub IsBlock : ℕ × BlockInfo → Type 0
IsBlock x = x.0 ≡ blocks_version

module _ (T : Tables) where
  abbrev make_txn : T.blocks.State → T.pows.State → Users T → Txn T
  make_txn blocks pows users = record { blocks = blocks; pows = pows; users = users }

  -- A rollback of the chain that ends well has deleted the blocks.
  blocks-rollback_chain :
      (b : Result Error T.blocks.State) (p : Result Error T.pows.State) (u : Result Error (Users T))
      (e : T.events.State → Result Error T.events.State) (after : Txn T)
      → (b >>= λ blocks. p >>= λ pows. u >>= λ users.
          e users.events >>= λ events. ok (make_txn blocks pows (record users { events = events })))
        ≡ ok after
      → b ≡ ok after.blocks
  blocks-rollback_chain (err x) p u e after h = absurd (ground (arith, h))
  blocks-rollback_chain (ok b) (err x) u e after h = absurd (ground (arith, h))
  blocks-rollback_chain (ok b) (ok p) (err x) e after h = absurd (ground (arith, h))
  blocks-rollback_chain (ok b) (ok p) (ok u) e after h =
      let (events, (_, g)) =
        bind_ok (e u.events) (λ events. ok (make_txn b p (record u { events = events }))) after h in
      ap (λ (t : Txn T). ok t.blocks) (ok_inj g)

  module _ (L : AreLawful T) where
    drop_dups_all :
        (k : ℕ) (r : List (ℕ × BlockInfo))
        → k ≡ blocks_version
        → All IsBlock r
        → drop_dups T.blocks k r ≡ []
    drop_dups_all k [] z h = refl
    drop_dups_all k (x ∷ r) z (e, h) =
        if_true _ _ (L.blocks_same x.0 k ∙ ground (arith, z, e)) ∙ drop_dups_all x.0 r e h

    -- The blocks before the cursor are left.
    pub rows-rollback_chain :
        (height : ℕ) (c : T.blocks.Cursor) (txn after : Txn T) (x : ℕ × BlockInfo)
        (l r : List (ℕ × BlockInfo))
        → T.blocks.view c ≡ position l (x ∷ r) none
        → T.blocks.rows txn.blocks ≡ unzip l (x ∷ r)
        → All IsBlock (x ∷ r)
        → rollback_chain T height c txn ≡ ok after
        → T.blocks.rows after.blocks ≡ unzip l []
    unfolding rollback_chain
    rows-rollback_chain height c txn after x l r seen rows (k, keys) h =
        let (s, (run, left)) =
          rows-erase_dups T.blocks L.blocks (bound T.blocks txn.blocks) c x.0 x.1 l r seen
            (omega (arith, ap length rows, length-unzip l (x ∷ r))) in
        ap T.blocks.rows (
          ok_inj (
            sym (
              blocks-rollback_chain (erase_dups T.blocks (bound T.blocks txn.blocks) c)
                (rollback_pows T height txn.pows) (rollback_accounts T height txn.users)
                (rollback_events T.events height) after h)
            ∙ run))
        ∙ left
        ∙ ap (unzip l) (drop_dups_all x.0 r k keys)

pub All-unzip :
    {K V : Type 0} (P : K × V → Type 0) (l r : List (K × V)) → All P l → All P r → All P (unzip l r)
All-unzip P [] r hl hr = hr
All-unzip P (x ∷ l) r (h, hl) hr = All-unzip P l (x ∷ r) hl (h, hr)

pub unzip-behind :
    {K V : Type 0} (l before r : List (K × V)) → unzip (behind l before) r ≡ unzip l (before ++ r)
unzip-behind l [] r = refl
unzip-behind l (x ∷ before) r = unzip-behind (x ∷ l) before r

pub All-behind :
    {K V : Type 0} (P : K × V → Type 0) (l before : List (K × V))
    → All P l
    → All P before
    → All P (behind l before)
All-behind P l [] hl h = hl
All-behind P l (x ∷ before) hl (p, h) = All-behind P (x ∷ l) before (p, hl) h

pub unzip-append : {K V : Type 0} (l r s : List (K × V)) → unzip l r ++ s ≡ unzip l (r ++ s)
unzip-append [] r s = refl
unzip-append (x ∷ l) r s = unzip-append l (x ∷ r) s

pub IsBelow-suc :
    (n : ℕ) (rows : List (ℕ × BlockInfo)) → All (IsBelow n) rows → All (IsBelow (suc n)) rows
IsBelow-suc n [] h = tt
IsBelow-suc n (x ∷ rows) ((e, low), h) = ((e, omega (arith, low)), IsBelow-suc n rows h)

pub records-IsBlock :
    (n : ℕ) (hashes : List ℕ) → All IsBlock (map row (records block_info n hashes))
records-IsBlock n [] = tt
records-IsBlock n (h ∷ hashes) = (refl, records-IsBlock (next n) hashes)

module _ (T : Tables) where
  abbrev pub appended : Fork T → T.blocks.State
  appended f = append_block_hashes T f.current f.chain f.txn.blocks

module _ (T : Tables) (L : AreLawful T) where
  view-next_dup :
      (c : T.blocks.Cursor) (x : ℕ × BlockInfo) (l r : List (ℕ × BlockInfo))
      → T.blocks.view c ≡ position l (x ∷ r) none
      → viewed T.blocks (T.blocks.next_dup c) ≡ dup T.blocks.same x.0 (x ∷ l) r
  view-next_dup c x l r e = L.blocks.next_dup_lem c ∙ ap (step (dup T.blocks.same)) e

  -- The cursor goes on to the next block.
  pub at_block :
      (n o : ℕ) (b : BlockInfo) (old : List ℕ) (l : List (ℕ × BlockInfo)) (c : T.blocks.Cursor)
      → T.blocks.view c ≡ position l (row b ∷ map row (records block_info n (o ∷ old))) none
      → (d : T.blocks.Cursor) × ((T.blocks.next_dup c ≡ some (row (block_info n o), d))
          × (T.blocks.view d
              ≡ position (row b ∷ l) (map row (records block_info n (o ∷ old))) none))
  at_block n o b old l c seen =
      viewed-some T.blocks _ (row (block_info n o))
        (position (row b ∷ l) (row (block_info n o) ∷ _) none)
        (view-next_dup c (row b) l _ seen ∙ if_true _ _ (L.blocks_same _ _))

  -- Behind the last block there is none.
  pub at_end :
      (b : BlockInfo) (l : List (ℕ × BlockInfo)) (c : T.blocks.Cursor)
      → T.blocks.view c ≡ position l (row b ∷ []) none
      → T.blocks.next_dup c ≡ none
  at_end b l c seen = viewed-none T.blocks _ (view-next_dup c (row b) l [] seen)

  pub rows-fork :
      (n : ℕ) (chain : List ℕ) (l : List (ℕ × BlockInfo)) (txn : Txn T) (f : Fork T)
      → T.blocks.rows txn.blocks ≡ unzip l []
      → All (IsBelow n) l
      → n + length chain < 2 ^ 64
      → fork T n chain txn ≡ f
      → T.blocks.rows (appended T f) ≡ unzip l (map row (records block_info n chain))
  rows-fork n chain l txn f rows low w h =
      ap (λ f. T.blocks.rows (appended T f)) (sym h)
      ∙ rows-append_block_hashes T L n chain txn.blocks
          (subst (All (IsBelow n)) (sym rows) (All-unzip (IsBelow n) l [] low tt)) w
      ∙ ap (λ r. r ++ map row (records block_info n chain)) rows
      ∙ unzip-append l [] (map row (records block_info n chain))

  -- `mdb_cursor_get` finds the block of a height behind those below it.
  pub seek_block :
      (height : ℕ) (b : BlockInfo) (before r l : List (ℕ × BlockInfo))
      → All (IsBelow height) before
      → b.id ≡ height
      → seek (λ j v. T.blocks.same j blocks_version && v.id == height) l (before ++ row b ∷ r)
        ≡ some (row b, position (behind l before) (row b ∷ r) none)
  seek_block height b [] r l low e = if_true _ _ (
      ap (λ t. t && b.id == height) (L.blocks_same blocks_version blocks_version)
      ∙ ground (arith, e))
  seek_block height b ((k, a) ∷ before) r l ((z, low), h) e =
      if_false _ _ {b = T.blocks.same k blocks_version && a.id == height} (ground (arith, low))
      ∙ seek_block height b before r ((k, a) ∷ l) h e

  -- The cursor of `sync_chain` on the block of the first hash.
  pub at_height :
      (height stored : ℕ) (old : List ℕ) (before : List (ℕ × BlockInfo)) (s : T.blocks.State)
      → T.blocks.rows s
        ≡ before ++ row (block_info height stored) ∷ map row (records block_info (next height) old)
      → All (IsBelow height) before
      → (d : T.blocks.Cursor) × ((T.blocks.get_both blocks_version (λ b. b.id == height) s
            ≡ some (row (block_info height stored), d))
          × (T.blocks.view d
              ≡ position
                  (behind [] before)
                  (row (block_info height stored) ∷ map row (records block_info (next height) old))
                  none))
  at_height height stored old before s rows low =
      viewed-some T.blocks _ (row (block_info height stored)) (position (behind [] before) _ none) (
        L.blocks.get_both_lem _ _ _
        ∙ ap (seek _ []) rows
        ∙ seek_block height (block_info height stored) before _ [] low refl)

module _ (T : Tables) (max_height : ℕ) (regtest : Bool) where
  pub loop_none :
      (n x : ℕ) (chain : List ℕ) (c : T.blocks.Cursor) (txn : Txn T)
      → T.blocks.next_dup c ≡ none
      → sync_chain_loop T max_height regtest n (x ∷ chain) c txn ≡ ok (fork T n (x ∷ chain) txn)
  unfolding sync_chain_loop
  loop_none n x chain c txn e =
      ap
        (λ o. found o (ok (fork T n (x ∷ chain) txn)) λ y.
          on_block T max_height regtest n x chain y txn
            (sync_chain_loop T max_height regtest (next n) chain y.1 txn))
        e

  pub loop_some :
      (n x : ℕ) (chain : List ℕ) (c : T.blocks.Cursor) (txn : Txn T)
      (y : (ℕ × BlockInfo) × T.blocks.Cursor)
      → T.blocks.next_dup c ≡ some y
      → sync_chain_loop T max_height regtest n (x ∷ chain) c txn
        ≡ on_block T max_height regtest n x chain y txn
            (sync_chain_loop T max_height regtest (next n) chain y.1 txn)
  unfolding sync_chain_loop
  loop_some n x chain c txn y e =
      ap
        (λ o. found o (ok (fork T n (x ∷ chain) txn)) λ y.
          on_block T max_height regtest n x chain y txn
            (sync_chain_loop T max_height regtest (next n) chain y.1 txn))
        e
