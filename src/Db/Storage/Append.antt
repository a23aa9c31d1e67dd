-- ===== src/Db/Storage/Append.antt =====
-- What `append_block_hashes` of src/db/storage.cpp stores, whatever the size of its batches.
use mathlib.Core.List.{append_assoc, append-nil}
use native.Mathlib.Nat.{mod-eq_of_lt}
use monero_lws.Base.{
  ℕ, suc, ◌+◌, ◌<◌, ◌^◌, ◌≡◌, refl, sym, ap, subst, ◌∙◌, arith, inl, inr, Bool-cases, if_true, ◌==◌,
  List, [], ◌∷◌, ◌++◌, length, map, All, if◌then◌else◌,
}
use monero_lws.Db.Storage.{LmdbTable, insert}
use monero_lws.Db.Storage.Erase.{bulk_put, bulk_insert}
use monero_lws.Db.Storage.Rows.{BlockInfo, PowSync, Tables, AreLawful, blocks_version, pows_version}
use monero_lws.Db.Storage.Chain.{
  next, append_loop, append_block_hashes, append_pow, block_info, block_pow,
}

-- The records of consecutive heights, on 64 bits.
abbrev pub records : {A B : Type 0} → (ℕ → A → B) → ℕ → List A → List B
records make height [] = []
records make height (x ∷ chain) = make height x ∷ records make (next height) chain

-- Below the width the height is the successor.
pub next-suc : (n : ℕ) → suc n < 2 ^ 64 → next n ≡ suc n
next-suc n h = mod-eq_of_lt {n = n + 1} {m = 2 ^ 64} (omega (arith, h)) ∙ omega arith

module _ {A B S : Type 0} (capacity : ℕ) (make : ℕ → A → B) (insert : List B → S → S) where
  module _
      (insert-append : (a b : List B) (s : S) → insert (a ++ b) s ≡ insert b (insert a s)) where
    append_loop_lem :
        (height : ℕ) (gathered : List B) (chain : List A) (s : S)
        → append_loop capacity make insert height gathered chain s
          ≡ insert (gathered ++ records make height chain) s
    unfolding append_loop
    append_loop_lem height gathered [] s = ap (λ g. insert g s) (sym (append-nil gathered))
    append_loop_lem height gathered (x ∷ chain) s =
        elim (Bool-cases (length gathered == capacity)) [
          | inl e ↦
              subst
                (λ full.
                  append_loop capacity make insert (next height)
                    ((if full then [] else gathered) ++ make height x ∷ []) chain
                    (if full then insert gathered s else s)
                  ≡ insert (gathered ++ records make height (x ∷ chain)) s)
                (sym e)
                (append_loop_lem (next height) (make height x ∷ []) chain (insert gathered s)
                  ∙ sym (insert-append gathered (records make height (x ∷ chain)) s))
          | inr e ↦
              subst
                (λ full.
                  append_loop capacity make insert (next height)
                    ((if full then [] else gathered) ++ make height x ∷ []) chain
                    (if full then insert gathered s else s)
                  ≡ insert (gathered ++ records make height (x ∷ chain)) s)
                (sym e)
                (append_loop_lem (next height) (gathered ++ make height x ∷ []) chain s
                  ∙ ap (λ g. insert g s) (append_assoc gathered (make height x ∷ []) _))
        ]

module _ {K V : Type 0} (T : LmdbTable K V) where
  bulk_put-append :
      (k : K) (a b : List V) (s : T.State)
      → bulk_put T k (a ++ b) s ≡ bulk_put T k b (bulk_put T k a s)
  unfolding bulk_put
  bulk_put-append k [] b s = refl
  bulk_put-append k (v ∷ a) b s = bulk_put-append k a b (T.put k v s)

  bulk_insert-append :
      (k : K) (a b : List V) (s : T.State)
      → bulk_insert T k (a ++ b) s ≡ bulk_insert T k b (bulk_insert T k a s)
  unfolding bulk_insert
  bulk_insert-append k [] b s = refl
  bulk_insert-append k (v ∷ a) b s = bulk_insert-append k a b _

module _ (T : Tables) where
  -- The batches of 25 blocks store what one insertion of all the blocks stores.
  pub append_block_hashes_lem :
      (first : ℕ) (chain : List ℕ) (s : T.blocks.State)
      → append_block_hashes T first chain s
        ≡ bulk_put T.blocks blocks_version (records block_info first chain) s
  unfolding append_block_hashes
  append_block_hashes_lem first chain s =
      append_loop_lem 25 block_info (bulk_put T.blocks blocks_version)
        (bulk_put-append T.blocks blocks_version) first [] chain s

  -- The batches of 31 records store what one insertion of them all stores.
  pub append_pow_lem :
      (first : ℕ) (chain : List PowSync) (s : T.pows.State)
      → append_pow T first chain s
        ≡ bulk_insert T.pows pows_version (records block_pow first chain) s
  unfolding append_pow
  append_pow_lem first chain s =
      append_loop_lem 31 block_pow (bulk_insert T.pows pows_version)
        (bulk_insert-append T.pows pows_version) first [] chain s

-- A record of the chain below a height.
abbrev pub IsBelow : ℕ → ℕ × BlockInfo → Type 0
IsBelow n x = (x.0 ≡ blocks_version) × (x.1.id < n)

abbrev pub row : BlockInfo → ℕ × BlockInfo
row b = (blocks_version, b)

module _ (T : Tables) (L : AreLawful T) where
  insert_last :
      (b : BlockInfo) (rows : List (ℕ × BlockInfo))
      → All (IsBelow b.id) rows
      → insert T.blocks.less (row b) rows ≡ rows ++ row b ∷ []
  insert_last b [] h = refl
  insert_last b ((k, a) ∷ rows) ((e, low), h) =
      subst (λ k. insert T.blocks.less (row b) ((k, a) ∷ rows) ≡ (k, a) ∷ rows ++ row b ∷ [])
        (sym e)
        (if_true _ _ (L.blocks_less a b ∙ ground (arith, low))
          ∙ ap (λ r. (blocks_version, a) ∷ r) (insert_last b rows h))

  All-IsBelow :
      (n : ℕ) (rows : List (ℕ × BlockInfo)) → All (IsBelow n) rows → All (IsBelow (suc n)) rows
  All-IsBelow n [] h = tt
  All-IsBelow n (x ∷ rows) ((e, low), h) = ((e, omega (arith, low)), All-IsBelow n rows h)

  pub All-append_last :
      (n : ℕ) (b : BlockInfo) (rows : List (ℕ × BlockInfo))
      → All (IsBelow n) rows
      → b.id ≡ n
      → All (IsBelow (suc n)) (rows ++ row b ∷ [])
  All-append_last n b [] h e = ((refl, omega (arith, e)), tt)
  All-append_last n b (x ∷ rows) ((z, low), h) e =
      ((z, omega (arith, low)), All-append_last n b rows h e)

  rows-bulk_put :
      (n : ℕ) (chain : List ℕ) (s : T.blocks.State)
      → All (IsBelow n) (T.blocks.rows s)
      → n + length chain < 2 ^ 64
      → T.blocks.rows (bulk_put T.blocks blocks_version (records block_info n chain) s)
        ≡ T.blocks.rows s ++ map row (records block_info n chain)
  unfolding bulk_put
  rows-bulk_put n [] s h w = sym (append-nil _)
  rows-bulk_put n (x ∷ chain) s h w =
      let t = T.blocks.put blocks_version (block_info n x) s in
      let rows_t =
        L.blocks.rows-put blocks_version (block_info n x) s
        ∙ insert_last (block_info n x) (T.blocks.rows s) h in
      subst
        (λ m.
          T.blocks.rows (bulk_put T.blocks blocks_version (records block_info m chain) t)
          ≡ T.blocks.rows s ++ row (block_info n x) ∷ map row (records block_info m chain))
        (sym (next-suc n (omega (arith, w))))
        (rows-bulk_put (suc n) chain t
            (subst (All (IsBelow (suc n))) (sym rows_t)
              (All-append_last n (block_info n x) (T.blocks.rows s) h refl))
            (omega (arith, w))
          ∙ ap (λ r. r ++ map row (records block_info (suc n) chain)) rows_t
          ∙ append_assoc (T.blocks.rows s) (row (block_info n x) ∷ []) _)

  -- Above the last stored height the new blocks are appended.
  pub rows-append_block_hashes :
      (n : ℕ) (chain : List ℕ) (s : T.blocks.State)
      → All (IsBelow n) (T.blocks.rows s)
      → n + length chain < 2 ^ 64
      → T.blocks.rows (append_block_hashes T n chain s)
        ≡ T.blocks.rows s ++ map row (records block_info n chain)
  rows-append_block_hashes n chain s h w =
      ap T.blocks.rows (append_block_hashes_lem T n chain s) ∙ rows-bulk_put n chain s h w
