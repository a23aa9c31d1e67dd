-- ===== src/Db/Storage/Checkpoints.antt =====
-- The hashes that `storage::sync_pow` of src/db/storage.cpp accepts at the heights of checkpoints.
use monero_lws.Base.{
  ℕ, ◌≡◌, refl, sym, ap, subst, ◌∙◌, arith, inl, inr, Bool-cases, if_true, if_false, true, false,
  not, ◌==◌, ==_iff, Option, none, some, List, [], ◌∷◌,
}
use monero_lws.Base.Results.{Result, ok, bind_ok, guard_ok, ok_inj}
use monero_lws.Db.Storage.{Error, bad_blockchain, found-cases, require}
use monero_lws.Db.Storage.Rows.{BlockInfo, PowSync, Tables, Txn, blocks_version}
use monero_lws.Db.Storage.Rollback.{rollback_chain}
use monero_lws.Db.Storage.Chain.{
  next, Fork, fork, missed, on_pow_block, sync_pow_loop, scan_checkpoints, store_pow, sync_pow_from,
  sync_pow,
}

-- Where a checkpoint has the height of a hash, it is the checkpoint's.
abbrev pub Passes : (ℕ → Option ℕ) → ℕ → List ℕ → Type 0
Passes points n [] = Unit
Passes points n (h ∷ chain) = ((p : ℕ) → points n ≡ some p → p ≡ h) × Passes points (next n) chain

module _ (T : Tables) (max_height : ℕ) (points : ℕ → Option ℕ) where
  scan-Passes :
      (n : ℕ) (chain : List ℕ)
      → scan_checkpoints T max_height points n chain ≡ true
      → Passes points n chain
  unfolding scan_checkpoints
  scan-Passes n [] h = tt
  scan-Passes n (x ∷ chain) h = elim (Bool-cases (missed T max_height points n x)) [
    | inl e ↦ absurd (ground (arith, sym (if_true _ _ e) ∙ h))
    | inr e ↦ (
      λ p q.
          (==_iff p x).0
            (ground (arith, sym (ap (λ o. elim o [ none ↦ false | some p ↦ not (p == x) ]) q) ∙ e)),
      scan-Passes (next n) chain (sym (if_false _ _ e) ∙ h),
    )
  ]

  abbrev Scanned : Fork T → Type 0
  Scanned f = scan_checkpoints T max_height points f.current f.chain ≡ true

  block-Scanned :
      (n x : ℕ) (chain : List ℕ) (y : (ℕ × BlockInfo) × T.blocks.Cursor) (txn : Txn T)
      (rest : Result Error (Fork T)) (f : Fork T)
      → missed T max_height points n x ≡ false
      → (rest ≡ ok f → scan_checkpoints T max_height points (next n) chain ≡ true)
      → on_pow_block T max_height points n x chain y txn rest ≡ ok f
      → Scanned f
      → scan_checkpoints T max_height points n (x ∷ chain) ≡ true
  unfolding scan_checkpoints
  block-Scanned n x chain y txn rest f m again h s = elim (Bool-cases (not (y.0.1.id == n))) [
    | inl e ↦ subst Scanned (sym (ok_inj (sym (if_true _ _ e) ∙ h))) s
    | inr e ↦ elim (Bool-cases (y.0.1.hash == x)) [
      | inl g ↦ if_false _ _ m ∙ again (sym (if_true _ _ g) ∙ sym (if_false _ _ e) ∙ h)
      | inr g ↦
          let rolled =
            guard_ok _ bad_blockchain _ f (sym (if_false _ _ g) ∙ sym (if_false _ _ e) ∙ h) in
          let (after, (run, made)) =
            bind_ok (rollback_chain T n y.1 txn) (λ after. ok (fork T n (x ∷ chain) after)) f
              rolled in
          subst Scanned (sym (ok_inj made)) s
    ]
  ]

  loop-Scanned :
      (n : ℕ) (chain : List ℕ) (c : T.blocks.Cursor) (txn : Txn T) (f : Fork T)
      → sync_pow_loop T max_height points n chain c txn ≡ ok f
      → Scanned f
      → scan_checkpoints T max_height points n chain ≡ true
  unfolding sync_pow_loop scan_checkpoints
  loop-Scanned n [] c txn f h s = refl
  loop-Scanned n (x ∷ chain) c txn f h s = elim (Bool-cases (missed T max_height points n x)) [
    | inl e ↦ absurd (ground (arith, sym (if_true _ _ e) ∙ h))
    | inr e ↦
        elim (found-cases (T.blocks.next_dup c) (ok (fork T n (x ∷ chain) txn))
          (λ y.
            on_pow_block T max_height points n x chain y txn
              (sync_pow_loop T max_height points (next n) chain y.1 txn))
          (ok f) (sym (if_false _ _ e) ∙ h)) [
            | inl (_, g) ↦ subst Scanned (sym (ok_inj g)) s
            | inr (y, (_, g)) ↦
                block-Scanned n x chain y txn _ f e
                  (λ run. loop-Scanned (next n) chain y.1 txn f run s) g s
          ]
  ]

  -- Hashes that `sync_pow` accepts agree with every checkpoint among their heights, wherever the stored chain ends or forks.
  pub sync_pow-Passes :
      (height first : ℕ) (hashes : List ℕ) (pow : List PowSync) (txn after : Txn T)
      → sync_pow T max_height points height first hashes pow txn ≡ ok after
      → Passes points (next height) hashes
  unfolding sync_pow
  sync_pow-Passes height first hashes pow txn after h =
      let (x, (_, h1)) =
        bind_ok (require (T.blocks.get_both blocks_version (λ b. b.id == height) txn.blocks))
          (sync_pow_from T max_height points height first hashes pow txn) after h in
      let h2 = guard_ok (not (x.0.1.hash == first)) bad_blockchain _ after h1 in
      let (f, (run, h3)) =
        bind_ok (sync_pow_loop T max_height points (next height) hashes x.1 txn)
          (store_pow T max_height points hashes pow) after h2 in
      elim (Bool-cases (scan_checkpoints T max_height points f.current f.chain)) [
        | inl s ↦
            scan-Passes (next height) hashes (loop-Scanned (next height) hashes x.1 txn f run s)
        | inr s ↦ absurd (ground (arith, sym (if_false _ _ s) ∙ h3))
      ]
