-- ===== src/Db/Storage/Changed.antt =====
-- The changes that `rollback_accounts` of src/db/storage.cpp makes to a table, on the list of its records: a record that
-- is changed, records that are kept, and values that are put in.
use mathlib.Core.Option
use monero_lws.Base.{
  ℕ, ◌≡◌, refl, ap, ◌∙◌, ◌⊎◌, inl, inr, Bool, true, Bool-cases, if_true, if_false, Option, none,
  some, List, [], ◌∷◌, All, if◌then◌else◌, arith,
}
use monero_lws.Db.Storage.{LmdbTable, IsLawful, position, unzip, seek, insert, has_equal, found}
use monero_lws.Db.Storage.Erase.{bulk_insert}
use monero_lws.Db.Storage.Kept.{IsOrdered, is_gone, kept}

-- The records with the first one that passes the test changed; none where no record does.
abbrev pub change_first :
    {K V : Type 0} → (K → V → Bool) → (V → V) → List (K × V) → Option (List (K × V))
change_first p f [] = none
change_first p f (x ∷ r) =
    let rest = change_first p f r in
    if p x.0 x.1 then some ((x.0, f x.1) ∷ r) else elim rest [ none ↦ none | some s ↦ some (x ∷ s) ]

pub seek-change_first :
    {K V : Type 0} (p : K → V → Bool) (f : V → V) (l r : List (K × V))
    → ((seek p l r ≡ none) × (change_first p f r ≡ none))
      ⊎ ((x : K × V) × ((l' : List (K × V)) × ((r' : List (K × V)) × ((s : List (K × V)) × ((seek p
                      l r
                    ≡ some (x, position l' (x ∷ r') none))
                  × ((change_first p f r ≡ some s)
                      × ((unzip l' ((x.0, f x.1) ∷ r') ≡ unzip l s) × (p x.0 x.1 ≡ true))))))))
seek-change_first p f l [] = inl (refl, refl)
seek-change_first p f l (x ∷ r) = elim (Bool-cases (p x.0 x.1)) [
  | inl e ↦ inr (x, (l, (r, ((x.0, f x.1) ∷ r, (if_true _ _ e, (if_true _ _ e, (refl, e)))))))
  | inr e ↦ elim (seek-change_first p f (x ∷ l) r) [
    | inl (a, b) ↦ inl (
      if_false _ _ e ∙ a,
      if_false _ _ e ∙ ap (λ o. elim o [ none ↦ none | some s ↦ some (x ∷ s) ]) b,
    )
    | inr (y, (l', (r', (s, (a, (b, (c, t))))))) ↦ inr (
      y,
      (
        l',
        (
          r',
          (
            x ∷ s,
            (
              if_false _ _ e ∙ a,
              (if_false _ _ e ∙ ap (λ o. elim o [ none ↦ none | some s ↦ some (x ∷ s) ]) b, (c, t)),
            ),
          ),
        ),
      ),
    )
  ]
]

module _ {V : Type 0} (T : LmdbTable ℕ V) (height_of : V → ℕ) (user height : ℕ) where
  All-kept :
      (P : ℕ × V → Type 0) (r : List (ℕ × V)) → All P r → All P (kept T height_of user height r)
  All-kept P [] h = tt
  All-kept P (x ∷ r) (p, h) = ground (arith, p, All-kept P r h)

  pub kept-IsOrdered :
      (r : List (ℕ × V))
      → IsOrdered T height_of r
      → IsOrdered T height_of (kept T height_of user height r)
  kept-IsOrdered [] h = tt
  kept-IsOrdered (x ∷ r) (f, h) = elim (Bool-cases (is_gone T height_of user height x)) [
    | inl e ↦ rw e (kept-IsOrdered r h)
    | inr e ↦ rw e (All-kept _ r f, kept-IsOrdered r h)
  ]

module _ {K V : Type 0} (T : LmdbTable K V) where
  -- The values are put under the key, but those that are there already.
  abbrev pub put_missing : K → List V → List (K × V) → List (K × V)
  put_missing k [] rows = rows
  put_missing k (v ∷ vs) rows =
      put_missing k vs (if has_equal T.less (k, v) rows then rows else insert T.less (k, v) rows)

  pub rows-bulk_insert :
      (L : IsLawful T) (k : K) (vs : List V) (s : T.State)
      → T.rows (bulk_insert T k vs s) ≡ put_missing k vs (T.rows s)
  unfolding bulk_insert
  rows-bulk_insert L k [] s = refl
  rows-bulk_insert L k (v ∷ vs) s =
      rows-bulk_insert L k vs (found (T.put_new k v s) s (λ t. t))
      ∙ ap (put_missing k vs) (one (T.put_new k v s) (L.rows-put_new k v s))
    where
      one :
          (o : Option T.State)
          → Option.map T.rows o ≡ (
              if has_equal T.less (k, v) (T.rows s)
              then none
              else some (insert T.less (k, v) (T.rows s)))
          → T.rows (found o s (λ t. t)) ≡ (
              if has_equal T.less (k, v) (T.rows s)
              then T.rows s
              else insert T.less (k, v) (T.rows s))
      one none h = ground (arith, h)
      one (some t) h = ground (arith, h)
