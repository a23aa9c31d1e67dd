-- ===== src/Db/Storage/Sync.antt =====
-- The stored chain after `storage::sync_chain` of src/db/storage.cpp.
use monero_lws.Base.{
  ℕ, suc, ◌+◌, ◌<◌, ◌^◌, ◌≡◌, refl, sym, ap, subst, ◌∙◌, arith, inl, inr, Bool, Bool-cases, if_true,
  if_false, ◌==◌, ==_iff, not, none, List, [], ◌∷◌, ◌++◌, length, map, All, if◌then◌else◌,
}
use monero_lws.Base.Results.{ok, ◌>>=◌, bind_ok, guard_ok, ok_inj}
use monero_lws.Db.Storage.{behind, position, unzip, require, bad_blockchain}
use monero_lws.Db.Storage.Erase.{bulk_put}
use monero_lws.Db.Storage.Rows.{BlockInfo, Tables, Txn, AreLawful}
use monero_lws.Db.Storage.Rollback.{rollback_chain}
use monero_lws.Db.Storage.Chain.{
  next, block_info, Fork, fork, sync_chain_loop, sync_chain_from, sync_chain,
}
use monero_lws.Db.Storage.Append.{records, IsBelow, row, next-suc, append_block_hashes_lem}
use monero_lws.Db.Storage.Fork.{
  rows-rollback_chain, unzip-behind, All-behind, IsBelow-suc, records-IsBlock, appended, at_block,
  at_end, at_height, rows-fork, loop_none, loop_some,
}

-- The hashes that are stored from a height on after a synchronization: the old ones where the new ones agree, and
-- from the first that differs on the new ones only.
abbrev pub merged : List ℕ → List ℕ → List ℕ
merged old [] = old
merged [] (h ∷ chain) = h ∷ chain
merged (o ∷ old) (h ∷ chain) = let rest = merged old chain in if o == h then o ∷ rest else h ∷ chain

module _ (T : Tables) (L : AreLawful T) (max_height : ℕ) (regtest : Bool) where
  -- The cursor stands on the block before the current one.
  rows-sync_chain_loop :
      (n : ℕ) (b : BlockInfo) (old chain : List ℕ) (l : List (ℕ × BlockInfo)) (c : T.blocks.Cursor)
      (txn : Txn T) (f : Fork T)
      → T.blocks.view c ≡ position l (row b ∷ map row (records block_info n old)) none
      → T.blocks.rows txn.blocks ≡ unzip l (row b ∷ map row (records block_info n old))
      → All (IsBelow n) (row b ∷ l)
      → n + length chain < 2 ^ 64
      → sync_chain_loop T max_height regtest n chain c txn ≡ ok f
      → T.blocks.rows (appended T f)
        ≡ unzip (row b ∷ l) (map row (records block_info n (merged old chain)))
  unfolding sync_chain_loop bulk_put
  rows-sync_chain_loop n b old [] l c txn f seen rows low w h =
      ap (λ f. T.blocks.rows (appended T f)) (sym (ok_inj h))
      ∙ ap T.blocks.rows (append_block_hashes_lem T n [] txn.blocks)
      ∙ rows
  rows-sync_chain_loop n b [] (x ∷ chain) l c txn f seen rows low w h =
      rows-fork T L n (x ∷ chain) (row b ∷ l) txn f rows low w
        (ok_inj (sym (loop_none T max_height regtest n x chain c txn (at_end T L b l c seen)) ∙ h))
  rows-sync_chain_loop n b (o ∷ old) (x ∷ chain) l c txn f seen rows low w h =
      let (d, (there, on)) = at_block T L n o b old l c seen in
      let judged =
        sym (loop_some T max_height regtest n x chain c txn (row (block_info n o), d) there) ∙ h in
      elim (Bool-cases (o == x)) [
        | inl e ↦
            subst
              (λ m.
                T.blocks.rows (appended T f) ≡ unzip (row b ∷ l) (map row (records block_info n m)))
              (sym (if_true _ _ e))
              (rows-sync_chain_loop (next n) (block_info n o) old chain (row b ∷ l) d txn f on rows
                (subst (λ m. All (IsBelow m) (row (block_info n o) ∷ row b ∷ l))
                  (sym (next-suc n (omega (arith, w))))
                  ((refl, omega arith), IsBelow-suc n (row b ∷ l) low))
                (omega (arith, w, next-suc n (omega (arith, w)))) (sym (if_true _ _ e) ∙ judged))
        | inr e ↦
            subst
              (λ m.
                T.blocks.rows (appended T f) ≡ unzip (row b ∷ l) (map row (records block_info n m)))
              (sym (if_false _ _ e))
              (let rolled = guard_ok _ bad_blockchain _ f (sym (if_false _ _ e) ∙ judged) in
                let (after, (run, made)) =
                  bind_ok (rollback_chain T n d txn) (λ after. ok (fork T n (x ∷ chain) after)) f
                    rolled in
                rows-fork T L n (x ∷ chain) (row b ∷ l) after f
                  (rows-rollback_chain T L n d txn after (row (block_info n o)) (row b ∷ l) _ on
                    rows (refl, records-IsBlock _ old) run)
                  low w (ok_inj made))
      ]

  -- A synchronization that ends well found the first hash stored, and leaves the old hashes up to the first that differs
  -- and the new ones from there on; where none differs the longer of the two chains is stored.
  pub rows-sync_chain :
      (height stored first : ℕ) (old hashes : List ℕ) (before : List (ℕ × BlockInfo))
      (txn after : Txn T)
      → T.blocks.rows txn.blocks
        ≡ before ++ row (block_info height stored) ∷ map row (records block_info (next height) old)
      → All (IsBelow height) before
      → suc height + length hashes < 2 ^ 64
      → sync_chain T max_height regtest height first hashes txn ≡ ok after
      → (stored ≡ first)
        × (T.blocks.rows after.blocks
            ≡ before
              ++ row (block_info height stored)
                ∷ map row (records block_info (next height) (merged old hashes)))
  unfolding sync_chain
  rows-sync_chain height stored first old hashes before txn after rows low w h =
      let (d, (there, on)) = at_height T L height stored old before txn.blocks rows low in
      let up = next-suc height (omega (arith, w)) in
      let begun =
        sym (
          ap (λ o. require o >>= sync_chain_from T max_height regtest height first hashes txn)
            there)
        ∙ h in
      elim (Bool-cases (stored == first)) [
        | inl e ↦
            let (f, (run, made)) =
              bind_ok (sync_chain_loop T max_height regtest (next height) hashes d txn)
                (λ f. ok (record f.txn { blocks = appended T f })) after
                (sym (if_false _ _ (ap not e)) ∙ begun) in
            (
              (==_iff stored first).0 e,
              ap (λ (t : Txn T). T.blocks.rows t.blocks) (sym (ok_inj made))
                  ∙ rows-sync_chain_loop (next height) (block_info height stored) old hashes
                      (behind [] before) d txn f on (rows ∙ sym (unzip-behind [] before _))
                      (subst
                        (λ m. All (IsBelow m) (row (block_info height stored) ∷ behind [] before))
                        (sym up)
                        (
                          (refl, omega arith),
                          IsBelow-suc height _ (All-behind (IsBelow height) [] before tt low),
                        ))
                      (omega (arith, w, up)) run
                  ∙ unzip-behind [] before _,
            )
        | inr e ↦ absurd (ground (arith, sym (if_true _ _ (ap not e)) ∙ begun))
      ]
