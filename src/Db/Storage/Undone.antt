-- ===== src/Db/Storage/Undone.antt =====
-- The outputs and the spends of an account after a rollback: `rollback_outputs` and `rollback_spends` of
-- src/db/storage.cpp.
use monero_lws.Base.{
  ℕ, zero, suc, ◌<◌, ◌≡◌, sym, ap, ◌∙◌, arith, inl, inr, Bool-cases, if_true, if_false, ◌==◌, none,
  some, List, [], ◌∷◌, length,
}
use monero_lws.Base.Results.{Result, ok, ◌>>=◌, bind_assoc, bind_congr}
use monero_lws.Db.Data.{Output, Spend, OutputId}
use monero_lws.Db.Storage.{
  LmdbTable, IsLawful, position, unzip, viewed-none, viewed-some, Error, found,
}
use monero_lws.Db.Storage.Erase.{drop_dups, next_dup-del, rows-del}
use monero_lws.Db.Storage.Rows.{KeyImage}
use monero_lws.Db.Storage.Rollback.{
  bound, rollback_outputs, erase_image, rollback_spends_loop, rollback_spends_from, rollback_spends,
}
use monero_lws.Db.Storage.Fork.{length-unzip}
use monero_lws.Db.Storage.Kept.{IsOrdered, kept, lost, run_of, seek-kept, rows-erase_from}

abbrev pub output_height : Output → ℕ
output_height o = o.link.height

abbrev pub spend_height : Spend → ℕ
spend_height s = s.link.height

module _ (O : LmdbTable ℕ Output) (L : IsLawful O) (same : (j k : ℕ) → O.same j k ≡ (j == k)) where
  -- In a table that is sorted by account and height, `rollback_outputs` ends and leaves all records but those of the
  -- account from the height on.
  pub rows-rollback_outputs :
      (user height : ℕ) (s : O.State)
      → IsOrdered O output_height (O.rows s)
      → (t : O.State) × ((rollback_outputs O user height s ≡ ok t)
          × (O.rows t ≡ kept O output_height user height (O.rows s)))
  unfolding rollback_outputs
  rows-rollback_outputs user height s o = rows-erase_from O output_height user height same L s o

module _ (S : LmdbTable ℕ Spend) (I : LmdbTable OutputId KeyImage) where
  -- The key images of spends, deleted one by one.
  abbrev pub erase_images : List Spend → I.State → Result Error I.State
  erase_images [] images = ok images
  erase_images (s ∷ spends) images = erase_image S I s images >>= erase_images spends

  module _ (L : IsLawful S) where
    loop_none :
        (n : ℕ) (v : Spend) (c : S.Cursor) (images : I.State)
        → S.next_dup (S.del c) ≡ none
        → rollback_spends_loop S I (suc n) v c images
          ≡ (erase_images (v ∷ []) images >>= λ rest. ok (S.table (S.del c), rest))
    unfolding rollback_spends_loop
    loop_none n v c images e =
        ap
          (λ o. erase_image S I v images >>= λ rest.
            found o (ok (S.table (S.del c), rest)) (λ x. rollback_spends_loop S I n x.0.1 x.1 rest))
          e
        ∙ sym (bind_assoc (erase_image S I v images) (λ i. ok i) _)

    loop_some :
        (n : ℕ) (v : Spend) (vs : List Spend) (c d : S.Cursor) (x : ℕ × Spend) (t : S.State)
        → S.next_dup (S.del c) ≡ some (x, d)
        → ((images : I.State)
            → rollback_spends_loop S I n x.1 d images
              ≡ (erase_images vs images >>= λ rest. ok (t, rest)))
        → (images : I.State)
        → rollback_spends_loop S I (suc n) v c images
          ≡ (erase_images (v ∷ vs) images >>= λ rest. ok (t, rest))
    unfolding rollback_spends_loop
    loop_some n v vs c d x t e h images =
        ap
          (λ o. erase_image S I v images >>= λ rest.
            found o (ok (S.table (S.del c), rest)) (λ x. rollback_spends_loop S I n x.0.1 x.1 rest))
          e
        ∙ bind_congr (erase_image S I v images) _ _ h
        ∙ sym (bind_assoc (erase_image S I v images) (erase_images vs) _)

    pub loop_lem :
        (n : ℕ) (c : S.Cursor) (k : ℕ) (v : Spend) (l r : List (ℕ × Spend))
        → S.view c ≡ position l ((k, v) ∷ r) none
        → length r < n
        → (t : S.State) × ((S.rows t ≡ unzip l (drop_dups S k r))
            × ((images : I.State)
                → rollback_spends_loop S I n v c images
                  ≡ (erase_images (v ∷ run_of S k r) images >>= λ rest. ok (t, rest))))
    loop_lem zero c k v l r e h = absurd (omega arith)
    loop_lem (suc n) c k v l [] e h = (
      S.table (S.del c),
      (
        rows-del S L c k v l [] e,
        λ images. loop_none n v c images (viewed-none S _ (next_dup-del S L c k v l [] e)),
      ),
    )
    loop_lem (suc n) c k v l (x ∷ r) e h = elim (Bool-cases (S.same x.0 k)) [
      | inl t ↦
          let small : length r < n = omega (arith, h) in
          let (d, (there, on)) =
            viewed-some S _ x (position l (x ∷ r) none)
              (next_dup-del S L c k v l (x ∷ r) e ∙ if_true _ _ t) in
          let (s, (rest, run)) = loop_lem n d x.0 x.1 l r on small in
          (
            s,
            (
              rest ∙ ap (unzip l) (sym (if_true _ _ t)),
              λ images.
                  loop_some n v (x.1 ∷ run_of S x.0 r) c d x s there run images
                  ∙ ap (λ vs. erase_images (v ∷ vs) images >>= λ rest. ok (s, rest))
                      (sym (if_true _ _ t)),
            ),
          )
      | inr f ↦ (
        S.table (S.del c),
        (
          rows-del S L c k v l (x ∷ r) e ∙ ap (unzip l) (sym (if_false _ _ f)),
          λ images.
              loop_none n v c images
                (viewed-none S _ (next_dup-del S L c k v l (x ∷ r) e ∙ if_false _ _ f))
              ∙ ap (λ vs. erase_images (v ∷ vs) images >>= λ rest. ok (S.table (S.del c), rest))
                  (sym (if_false _ _ f)),
        ),
      )
    ]

    -- In a table that is sorted by account and height, `rollback_spends` deletes the key images of the account's spends
    -- from the height on, in their order, and fails where one is missing; otherwise all other spends are left.
    pub rollback_spends_lem :
        (same : (j k : ℕ) → S.same j k ≡ (j == k)) (user height : ℕ) (s : S.State)
        (images : I.State)
        → IsOrdered S spend_height (S.rows s)
        → (t : S.State) × ((S.rows t ≡ kept S spend_height user height (S.rows s))
            × (rollback_spends S I user height s images ≡ (
                erase_images (lost S spend_height user height (S.rows s)) images >>= λ rest.
                ok (t, rest))))
    unfolding rollback_spends
    rollback_spends_lem same user height s images o =
        elim (seek-kept S spend_height user height same [] (S.rows s) o) [
          | inl (e, (k, n)) ↦ (
            s,
            (
              sym k,
              ap (λ o. rollback_spends_from S I o s images)
                    (viewed-none S _ (L.get_both_lem user _ s ∙ e))
                  ∙ ap (λ vs. erase_images vs images >>= λ rest. ok (s, rest)) (sym n),
            ),
          )
          | inr (x, (l, (r, (e, (k, (g, d)))))) ↦
              let (c, (there, on)) =
                viewed-some S _ x (position l (x ∷ r) none) (L.get_both_lem user _ s ∙ e) in
              let (t, (left, run)) =
                loop_lem (bound S s) c x.0 x.1 l r on
                  (omega (arith, ap length d, length-unzip l (x ∷ r))) in
              (
                t,
                (
                  left ∙ k,
                  ap (λ o. rollback_spends_from S I o s images) there
                      ∙ run images
                      ∙ ap (λ vs. erase_images vs images >>= λ rest. ok (t, rest)) g,
                ),
              )
        ]
