-- ===== src/Db/Storage/Images.antt =====
-- The key images that `rollback_spends` of src/db/storage.cpp deletes, as records of their table.
use monero_lws.Base.{
  ℕ, ◌≡◌, refl, sym, ap, ◌∙◌, ◌⊎◌, inl, inr, Bool, Bool-cases, if_true, if_false, ◌&&◌, ◌==◌,
  Option, none, some, List, [], ◌∷◌, if◌then◌else◌,
}
use monero_lws.Base.Results.{Result, ok, err, ◌>>=◌}
use monero_lws.Db.Data.{Spend, OutputId}
use monero_lws.Db.Storage.{
  LmdbTable, IsLawful, position, unzip, seek, viewed-none, viewed-some, Error, not_found, require,
}
use monero_lws.Db.Storage.Erase.{rows-del}
use monero_lws.Db.Storage.Rows.{KeyImage}
use monero_lws.Db.Storage.Rollback.{erase_image, rollback_spends}
use monero_lws.Db.Storage.Kept.{IsOrdered, kept, lost}
use monero_lws.Db.Storage.Undone.{spend_height, erase_images, rollback_spends_lem}

-- The records without the first one that passes the test; none where no record does.
abbrev pub without_first : {K V : Type 0} → (K → V → Bool) → List (K × V) → Option (List (K × V))
without_first p [] = none
without_first p (x ∷ r) =
    let rest = without_first p r in
    if p x.0 x.1 then some r else elim rest [ none ↦ none | some s ↦ some (x ∷ s) ]

pub seek-without_first :
    {K V : Type 0} (p : K → V → Bool) (l r : List (K × V))
    → ((seek p l r ≡ none) × (without_first p r ≡ none))
      ⊎ ((x : K × V) × ((l' : List (K × V)) × ((r' : List (K × V)) × ((s : List (K × V)) × ((seek p
                      l r
                    ≡ some (x, position l' (x ∷ r') none))
                  × ((without_first p r ≡ some s) × (unzip l' r' ≡ unzip l s)))))))
seek-without_first p l [] = inl (refl, refl)
seek-without_first p l (x ∷ r) = elim (Bool-cases (p x.0 x.1)) [
  | inl e ↦ inr (x, (l, (r, (r, (if_true _ _ e, (if_true _ _ e, refl))))))
  | inr e ↦ elim (seek-without_first p (x ∷ l) r) [
    | inl (a, b) ↦ inl (
      if_false _ _ e ∙ a,
      if_false _ _ e ∙ ap (λ o. elim o [ none ↦ none | some s ↦ some (x ∷ s) ]) b,
    )
    | inr (y, (l', (r', (s, (a, (b, c)))))) ↦ inr (
      y,
      (
        l',
        (
          r',
          (
            x ∷ s,
            (
              if_false _ _ e ∙ a,
              (if_false _ _ e ∙ ap (λ o. elim o [ none ↦ none | some s ↦ some (x ∷ s) ]) b, c),
            ),
          ),
        ),
      ),
    )
  ]
]

module _ (I : LmdbTable OutputId KeyImage) where
  -- The record of a spend's key image, under the output that it spends.
  abbrev pub is_image : Spend → OutputId → KeyImage → Bool
  is_image s k i = I.same k s.source && i.value == s.image

  -- The records without the key images of the spends, each taken out once, in order; none where one is missing.
  abbrev pub without_images :
      List Spend → List (OutputId × KeyImage) → Option (List (OutputId × KeyImage))
  without_images [] rows = some rows
  without_images (s ∷ spends) rows = elim (without_first (is_image s) rows) [
    | none ↦ none
    | some rest ↦ without_images spends rest
  ]

module _ (S : LmdbTable ℕ Spend) (I : LmdbTable OutputId KeyImage) (L : IsLawful I) where
  rows-erase_image :
      (s : Spend) (images : I.State)
      → ((without_first (is_image I s) (I.rows images) ≡ none)
          × (erase_image S I s images ≡ err not_found))
        ⊎ ((i : I.State) × ((without_first (is_image I s) (I.rows images) ≡ some (I.rows i))
              × (erase_image S I s images ≡ ok i)))
  unfolding erase_image
  rows-erase_image s images =
      let after = λ (o : Option ((OutputId × KeyImage) × I.Cursor)).
        require o >>= λ x. ok (I.table (I.del x.1)) in
      elim (seek-without_first (is_image I s) [] (I.rows images)) [
        | inl (e, g) ↦ inl (g, ap after (viewed-none I _ (L.get_both_lem s.source _ images ∙ e)))
        | inr (x, (l, (r, (rest, (e, (g, d)))))) ↦
            let (c, (there, on)) =
              viewed-some I _ x (position l (x ∷ r) none) (L.get_both_lem s.source _ images ∙ e) in
            inr (
              I.table (I.del c),
              (g ∙ ap some (sym (rows-del I L c x.0 x.1 l r on ∙ d)), ap after there),
            )
      ]

  pub rows-erase_images :
      (spends : List Spend) (images : I.State)
      → ((without_images I spends (I.rows images) ≡ none)
          × (erase_images S I spends images ≡ err not_found))
        ⊎ ((i : I.State) × ((without_images I spends (I.rows images) ≡ some (I.rows i))
              × (erase_images S I spends images ≡ ok i)))
  rows-erase_images [] images = inr (images, (refl, refl))
  rows-erase_images (s ∷ spends) images =
      let next : Option (List (OutputId × KeyImage)) → Option (List (OutputId × KeyImage)) =
        λ o. elim o [ none ↦ none | some rest ↦ without_images I spends rest ] in
      elim (rows-erase_image s images) [
        | inl (e, f) ↦ inl (ap next e, ap (λ r. r >>= erase_images S I spends) f)
        | inr (i, (e, f)) ↦ elim (rows-erase_images spends i) [
          | inl (a, b) ↦ inl (ap next e ∙ a, ap (λ r. r >>= erase_images S I spends) f ∙ b)
          | inr (j, (a, b)) ↦
              inr (j, (ap next e ∙ a, ap (λ r. r >>= erase_images S I spends) f ∙ b))
        ]
      ]

  -- In a table that is sorted by account and height, with keys compared as numbers, `rollback_spends` looks for the
  -- key images of the account's spends from the height on, each by the output that it spends and its value, and takes
  -- out the first record of each. If one is missing it fails with `MDB_NOTFOUND`; otherwise it ends with all other
  -- spends and all other key images, as they were.
  pub rows-rollback_spends :
      (M : IsLawful S) (same : (j k : ℕ) → S.same j k ≡ (j == k)) (user height : ℕ) (s : S.State)
      (images : I.State)
      → IsOrdered S spend_height (S.rows s)
      → ((without_images I (lost S spend_height user height (S.rows s)) (I.rows images) ≡ none)
          × (rollback_spends S I user height s images ≡ err not_found))
        ⊎ ((t : S.State) × ((i : I.State) × ((rollback_spends S I user height s images ≡ ok (t, i))
                × ((S.rows t ≡ kept S spend_height user height (S.rows s))
                    × (without_images I (lost S spend_height user height (S.rows s)) (I.rows images)
                        ≡ some (I.rows i))))))
  rows-rollback_spends M same user height s images o =
      let (t, (left, run)) = rollback_spends_lem S I M same user height s images o in
      let finish : Result Error I.State → Result Error (S.State × I.State) =
        λ r. r >>= λ rest. ok (t, rest) in
      elim (rows-erase_images (lost S spend_height user height (S.rows s)) images) [
        | inl (e, f) ↦ inl (e, run ∙ ap finish f)
        | inr (i, (e, f)) ↦ inr (t, (i, (run ∙ ap finish f, (left, e))))
      ]
