-- ===== src/Db/Storage/Erase.antt =====
-- The loops of src/db/storage.cpp that delete a record and go on to the next one of its key, and `bulk_insert`.
use monero_lws.Base.{
  ℕ, zero, suc, ◌<◌, ◌≡◌, sym, ap, ◌∙◌, arith, inl, inr, Bool-cases, if_true, if_false, none, some,
  List, [], ◌∷◌, length, if◌then◌else◌,
}
use monero_lws.Base.Results.{Result, ok, err}
use monero_lws.Db.Storage.{
  LmdbTable, IsLawful, position, unzip, step, dup, viewed, viewed-none, viewed-some, remove, Error,
  unbounded, found,
}

module _ {K V : Type 0} (T : LmdbTable K V) where
  -- `for (;;) { del; next_dup }`, of which each round deletes a record.
  unfoldable pub erase_dups : ℕ → T.Cursor → Result Error T.State
  erase_dups zero c = err unbounded
  erase_dups (suc n) c =
      found (T.next_dup (T.del c)) (ok (T.table (T.del c))) (λ x. erase_dups n x.1)

  -- `bulk_insert(cur, key, values, 0)`
  unfoldable pub bulk_put : K → List V → T.State → T.State
  bulk_put k [] s = s
  bulk_put k (v ∷ vs) s = bulk_put k vs (T.put k v s)

  -- `bulk_insert(cur, key, values)`: a value that is there already is passed over.
  unfoldable pub bulk_insert : K → List V → T.State → T.State
  bulk_insert k [] s = s
  bulk_insert k (v ∷ vs) s = bulk_insert k vs (found (T.put_new k v s) s (λ t. t))

  abbrev pub drop_dups : K → List (K × V) → List (K × V)
  drop_dups k [] = []
  drop_dups k (x ∷ r) = let rest = drop_dups x.0 r in if T.same x.0 k then rest else x ∷ r

  module _ (L : IsLawful T) where
    pub next_dup-del :
        (c : T.Cursor) (k : K) (v : V) (l r : List (K × V))
        → T.view c ≡ position l ((k, v) ∷ r) none
        → viewed T (T.next_dup (T.del c)) ≡ dup T.same k l r
    next_dup-del c k v l r e =
        L.next_dup_lem (T.del c) ∙ ap (step (dup T.same)) (L.del_lem c ∙ ap remove e)

    pub rows-del :
        (c : T.Cursor) (k : K) (v : V) (l r : List (K × V))
        → T.view c ≡ position l ((k, v) ∷ r) none
        → T.rows (T.table (T.del c)) ≡ unzip l r
    rows-del c k v l r e =
        L.rows-table (T.del c) ∙ ap (λ p. unzip p.left p.right) (L.del_lem c ∙ ap remove e)

    erase_dups-none :
        (n : ℕ) (c : T.Cursor)
        → T.next_dup (T.del c) ≡ none
        → erase_dups (suc n) c ≡ ok (T.table (T.del c))
    unfolding erase_dups
    erase_dups-none n c e = ap (λ o. found o (ok (T.table (T.del c))) (λ x. erase_dups n x.1)) e

    erase_dups-some :
        (n : ℕ) (c d : T.Cursor) (x : K × V)
        → T.next_dup (T.del c) ≡ some (x, d)
        → erase_dups (suc n) c ≡ erase_dups n d
    unfolding erase_dups
    erase_dups-some n c d x e = ap (λ o. found o (ok (T.table (T.del c))) (λ x. erase_dups n x.1)) e

    -- From a record on, the loop deletes those of its key, and ends.
    pub rows-erase_dups :
        (n : ℕ) (c : T.Cursor) (k : K) (v : V) (l r : List (K × V))
        → T.view c ≡ position l ((k, v) ∷ r) none
        → length r < n
        → (s : T.State) × ((erase_dups n c ≡ ok s) × (T.rows s ≡ unzip l (drop_dups k r)))
    rows-erase_dups zero c k v l r e h = absurd (omega arith)
    rows-erase_dups (suc n) c k v l [] e h = (
      T.table (T.del c),
      (erase_dups-none n c (viewed-none T _ (next_dup-del c k v l [] e)), rows-del c k v l [] e),
    )
    rows-erase_dups (suc n) c k v l (x ∷ r) e h = elim (Bool-cases (T.same x.0 k)) [
      | inl t ↦
          let small : length r < n = omega (arith, h) in
          let (d, (found, seen)) =
            viewed-some T _ x (position l (x ∷ r) none)
              (next_dup-del c k v l (x ∷ r) e ∙ if_true _ _ t) in
          let (s, (run, rest)) = rows-erase_dups n d x.0 x.1 l r seen small in
          (s, (erase_dups-some n c d x found ∙ run, rest ∙ ap (unzip l) (sym (if_true _ _ t))))
      | inr f ↦ (
        T.table (T.del c),
        (
          erase_dups-none n c (viewed-none T _ (next_dup-del c k v l (x ∷ r) e ∙ if_false _ _ f)),
          rows-del c k v l (x ∷ r) e ∙ ap (unzip l) (sym (if_false _ _ f)),
        ),
      )
    ]
