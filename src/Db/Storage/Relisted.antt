-- ===== src/Db/Storage/Relisted.antt =====
-- The tables of the accounts after `rollback_accounts` of src/db/storage.cpp, as lists of records.
use monero_lws.Base.{
  ℕ, ◌-◌, ◌≡◌, refl, sym, ap, subst, ◌∙◌, ◌⊎◌, inl, inr, ◌==◌, max, Option, none, some, some_inj,
  List, [], ◌∷◌, map, arith,
}
use monero_lws.Base.Results.{Result, ok, err, ◌>>=◌}
use monero_lws.Db.Data.{OutputId}
use monero_lws.Db.Storage.{
  position, unzip, replace, viewed-none, viewed-some, Error, not_found, require,
}
use monero_lws.Db.Storage.Erase.{bulk_insert}
use monero_lws.Db.Storage.Rows.{AccountRow, AccountLookup, KeyImage, Tables, Users, AreLawful}
use monero_lws.Db.Storage.Rollback.{
  rollback_spends, lower, with_user, undo_user, rollback_account, rollback_accounts,
}
use monero_lws.Db.Storage.Kept.{kept, lost}
use monero_lws.Db.Storage.Undone.{output_height, spend_height, rows-rollback_outputs}
use monero_lws.Db.Storage.Images.{without_images, rows-rollback_spends}
use monero_lws.Db.Storage.Changed.{
  change_first, seek-change_first, kept-IsOrdered, put_missing, rows-bulk_insert,
}
use monero_lws.Db.Storage.Accounts.{
  lookup_of, below, from_height, rollback_each, reinsert, rollback_accounts_lem,
}
use monero_lws.Db.Storage.UserRows.{
  UserRows, rows_of, AreOrdered, relisted, is_account, with_images, with_accounts, undone,
  undone_each,
}

some_rows :
    (u v : UserRows)
    → u.accounts ≡ v.accounts
    → u.outputs ≡ v.outputs
    → u.spends ≡ v.spends
    → u.images ≡ v.images
    → some u ≡ some v
some_rows u v a b c d = cc

module _ (T : Tables) (L : AreLawful T) (outputs_same : (j k : ℕ) → T.outputs.same j k ≡ (j == k))
    (spends_same : (j k : ℕ) → T.spends.same j k ≡ (j == k)) (height new_height : ℕ) where
  undo_lem :
      (k : AccountLookup) (users : Users T) (x : ℕ × AccountRow) (c : T.accounts.Cursor)
      (l r s : List (ℕ × AccountRow))
      → AreOrdered T (rows_of T users)
      → T.accounts.view c ≡ position l (x ∷ r) none
      → unzip l ((x.0, relisted T height new_height x.1) ∷ r) ≡ s
      → x.1.id ≡ k.id
      → change_first
          (is_account T height new_height k)
          (relisted T height new_height)
          (T.accounts.rows users.accounts)
        ≡ some s
      → ((undone T height new_height k (rows_of T users) ≡ none)
          × (undo_user T height new_height users (x, c) ≡ err not_found))
        ⊎ ((after : Users T) × ((undone T height new_height k (rows_of T users)
                ≡ some (rows_of T after))
              × ((undo_user T height new_height users (x, c) ≡ ok after)
                  × ((after.accounts_bh ≡ users.accounts_bh) × (after.events ≡ users.events)))))
  unfolding lower
  undo_lem k users x c l r s (o, p) seen made id first =
      let (outputs, (run, left)) =
        rows-rollback_outputs T.outputs L.outputs outputs_same x.1.id height users.outputs o in
      let images : (i : ℕ) → Option (List (OutputId × KeyImage)) = λ i.
        without_images T.images (lost T.spends spend_height i height (T.spends.rows users.spends))
          (T.images.rows users.images) in
      let spec : undone T height new_height k (rows_of T users)
          ≡ with_images T height new_height k (rows_of T users) s (images x.1.id) =
        ap (with_accounts T height new_height k (rows_of T users)) first
        ∙ ap (λ i. with_images T height new_height k (rows_of T users) s (images i)) (sym id) in
      let accounts = T.accounts.table (T.accounts.put_current (lower new_height x.1) c) in
      let changed : T.accounts.rows accounts ≡ s =
        L.accounts.rows-table _
        ∙ ap (λ p. unzip p.left p.right)
            (L.accounts.put_current_lem _ c ∙ ap (replace (lower new_height x.1)) seen)
        ∙ made in
      let first_run =
        ap
          (λ (r : Result Error T.outputs.State). r >>= λ outputs.
            rollback_spends T.spends T.images x.1.id height users.spends users.images >>= λ r.
            ok (with_user T users accounts outputs r))
          run in
      let finish : Result Error (T.spends.State × T.images.State) → Result Error (Users T) =
        λ r. r >>= λ r. ok (with_user T users accounts outputs r) in
      elim (rows-rollback_spends T.spends T.images L.images L.spends spends_same x.1.id height
        users.spends users.images p) [
          | inl (e, f) ↦ inl (
            spec ∙ ap (with_images T height new_height k (rows_of T users) s) e,
            first_run ∙ ap finish f,
          )
          | inr (t, (i, (f, (rest, e)))) ↦ inr (
            with_user T users accounts outputs (t, i),
            (
              spec
                  ∙ ap (with_images T height new_height k (rows_of T users) s) e
                  ∙ some_rows _ _ (sym changed)
                      (ap
                          (λ i.
                            kept T.outputs output_height i height (T.outputs.rows users.outputs))
                          (sym id)
                        ∙ sym left)
                      (ap (λ i. kept T.spends spend_height i height (T.spends.rows users.spends))
                          (sym id)
                        ∙ sym rest)
                      refl,
              (first_run ∙ ap finish f, (refl, refl)),
            ),
          )
        ]

  rows-rollback_account :
      (k : AccountLookup) (users : Users T)
      → AreOrdered T (rows_of T users)
      → ((undone T height new_height k (rows_of T users) ≡ none)
          × (rollback_account T height new_height k users ≡ err not_found))
        ⊎ ((after : Users T) × ((undone T height new_height k (rows_of T users)
                ≡ some (rows_of T after))
              × ((rollback_account T height new_height k users ≡ ok after)
                  × ((after.accounts_bh ≡ users.accounts_bh) × (after.events ≡ users.events)))))
  unfolding rollback_account
  rows-rollback_account k users o =
      let begin : Option ((ℕ × AccountRow) × T.accounts.Cursor) → Result Error (Users T) =
        λ o. require o >>= undo_user T height new_height users in
      elim (seek-change_first (is_account T height new_height k) (relisted T height new_height) []
        (T.accounts.rows users.accounts)) [
          | inl (e, f) ↦ inl (
            ap (with_accounts T height new_height k (rows_of T users)) f,
            ap begin (viewed-none T.accounts _ (L.accounts.get_both_lem k.status _ _ ∙ e)),
          )
          | inr (x, (l, (r, (s, (e, (f, (made, there))))))) ↦
              let (c, (run, seen)) =
                viewed-some T.accounts _ x (position l (x ∷ r) none)
                  (L.accounts.get_both_lem k.status _ _ ∙ e) in
              elim (undo_lem k users x c l r s o seen made (ground (arith, there)) f) [
                | inl (a, b) ↦ inl (a, ap begin run ∙ b)
                | inr (after, (a, (b, same))) ↦ inr (after, (a, (ap begin run ∙ b, same)))
              ]
        ]

  with_images-AreOrdered :
      (k : AccountLookup) (u v : UserRows) (accounts : List (ℕ × AccountRow))
      (images : Option (List (OutputId × KeyImage)))
      → AreOrdered T u
      → with_images T height new_height k u accounts images ≡ some v
      → AreOrdered T v
  with_images-AreOrdered k u v accounts none o h = absurd (ground (arith, h))
  with_images-AreOrdered k u v accounts (some images) (o, p) h = subst (AreOrdered T) (some_inj h) (
    kept-IsOrdered T.outputs output_height k.id height u.outputs o,
    kept-IsOrdered T.spends spend_height k.id height u.spends p,
  )

  undone-AreOrdered :
      (k : AccountLookup) (u v : UserRows) (accounts : Option (List (ℕ × AccountRow)))
      → AreOrdered T u
      → with_accounts T height new_height k u accounts ≡ some v
      → AreOrdered T v
  undone-AreOrdered k u v none o h = absurd (ground (arith, h))
  undone-AreOrdered k u v (some accounts) o h = with_images-AreOrdered k u v accounts _ o h

  abbrev next_undone : List AccountLookup → Option UserRows → Option UserRows
  next_undone ks o = elim o [ none ↦ none | some v ↦ undone_each T height new_height ks v ]

  rows-rollback_each :
      (ks : List AccountLookup) (users : Users T)
      → AreOrdered T (rows_of T users)
      → ((undone_each T height new_height ks (rows_of T users) ≡ none)
          × (rollback_each T height new_height ks users ≡ err not_found))
        ⊎ ((after : Users T) × ((undone_each T height new_height ks (rows_of T users)
                ≡ some (rows_of T after))
              × ((rollback_each T height new_height ks users ≡ ok after)
                  × ((after.accounts_bh ≡ users.accounts_bh) × (after.events ≡ users.events)))))
  rows-rollback_each [] users o = inr (users, (refl, (refl, (refl, refl))))
  rows-rollback_each (k ∷ ks) users o =
      let rest : Result Error (Users T) → Result Error (Users T) =
        λ r. r >>= rollback_each T height new_height ks in
      elim (rows-rollback_account k users o) [
        | inl (a, b) ↦ inl (ap (next_undone ks) a, ap rest b)
        | inr (mid, (a, (b, (c, d)))) ↦
            elim (rows-rollback_each ks mid
              (undone-AreOrdered k (rows_of T users) (rows_of T mid) _ o a)) [
                | inl (e, f) ↦ inl (ap (next_undone ks) a ∙ e, ap rest b ∙ f)
                | inr (after, (e, (f, (g, h)))) ↦
                    inr (after, (ap (next_undone ks) a ∙ e, (ap rest b ∙ f, (g ∙ c, h ∙ d))))
              ]
      ]

-- In tables of outputs and spends that are sorted by account and height, with keys compared as numbers,
-- `rollback_accounts` goes through the lookups from the height on, in the order of their table. For each it takes the
-- first account with its status and id, sets its scan height to the new height, which is one below the height or 0, lowers its
-- start height to it, and leaves out the account's outputs, spends and key images of those spends from the height on. If an
-- account or a key image is missing it fails with `MDB_NOTFOUND`. Otherwise it ends with exactly these changes, the
-- lookups from the height on are gone from their table and have been put in at the new height, but those that were there
-- already, and the events are as they were.
pub rows-rollback_accounts :
    (T : Tables) (L : AreLawful T) (outputs_same : (j k : ℕ) → T.outputs.same j k ≡ (j == k))
    (spends_same : (j k : ℕ) → T.spends.same j k ≡ (j == k)) (height : ℕ) (users : Users T)
    (ks : List AccountLookup)
    → AreOrdered T (rows_of T users)
    → ks ≡ map lookup_of (from_height height (T.accounts_bh.rows users.accounts_bh))
    → ((undone_each T height (max height 1 - 1) ks (rows_of T users) ≡ none)
        × (rollback_accounts T height users ≡ err not_found))
      ⊎ ((after : Users T) × ((rollback_accounts T height users ≡ ok after)
            × ((undone_each T height (max height 1 - 1) ks (rows_of T users)
                  ≡ some (rows_of T after))
                × ((T.accounts_bh.rows after.accounts_bh
                      ≡ put_missing T.accounts_bh
                          (max height 1 - 1)
                          ks
                          (below height (T.accounts_bh.rows users.accounts_bh)))
                    × (after.events ≡ users.events)))))
rows-rollback_accounts T L outputs_same spends_same height users ks o these =
    let (t, (left, run)) = rollback_accounts_lem T L.accounts_bh height users in
    let begun =
      run
      ∙ ap
          (λ ks.
            rollback_each T height (max height 1 - 1) ks users
            >>= reinsert T height (max height 1 - 1) ks t)
          (sym these) in
    let finish : Result Error (Users T) → Result Error (Users T) =
      λ r. r >>= reinsert T height (max height 1 - 1) ks t in
    elim (rows-rollback_each T L outputs_same spends_same height (max height 1 - 1) ks users o) [
      | inl (a, b) ↦ inl (a, begun ∙ ap finish b)
      | inr (after, (a, (b, (c, d)))) ↦ inr (
        record after { accounts_bh = bulk_insert T.accounts_bh (max height 1 - 1) ks t },
        (
          begun ∙ ap finish b,
          (
            a,
            (
              rows-bulk_insert T.accounts_bh L.accounts_bh (max height 1 - 1) ks t
                  ∙ ap (put_missing T.accounts_bh (max height 1 - 1) ks) left,
              d,
            ),
          ),
        ),
      )
    ]
