-- ===== src/Db/Storage/Kept.antt =====
-- What the deletions of src/db/storage.cpp from a height on leave of a table that is sorted by account and by height.
use monero_lws.Base.{
  ℕ, ◌≤◌, ◌<◌, ◌≡◌, refl, sym, ap, ◌∙◌, arith, ◌⊎◌, inl, inr, Bool, Bool-cases, if_true, if_false,
  ◌&&◌, leb, ◌==◌, true, false, none, some, List, [], ◌∷◌, length, All, if◌then◌else◌,
}
use monero_lws.Base.Results.{ok}
use monero_lws.Db.Storage.{LmdbTable, IsLawful, position, unzip, seek, viewed-none, viewed-some}
use monero_lws.Db.Storage.Erase.{drop_dups, rows-erase_dups}
use monero_lws.Db.Storage.Rollback.{bound, erase_from}
use monero_lws.Db.Storage.Fork.{length-unzip}

module _ {V : Type 0} (T : LmdbTable ℕ V) where
  -- The values of the key that follow.
  abbrev pub run_of : ℕ → List (ℕ × V) → List V
  run_of k [] = []
  run_of k (x ∷ r) = let rest = run_of x.0 r in if T.same x.0 k then x.1 ∷ rest else []

module _ {V : Type 0} (T : LmdbTable ℕ V) (height_of : V → ℕ) where
  -- Sorted by account and, within an account, by height.
  abbrev Follows : ℕ × V → ℕ × V → Type 0
  Follows x y = (x.0 ≤ y.0) × (x.0 ≡ y.0 → height_of x.1 ≤ height_of y.1)

  abbrev pub IsOrdered : List (ℕ × V) → Type 0
  IsOrdered [] = Unit
  IsOrdered (x ∷ r) = All (Follows x) r × IsOrdered r

  module _ (user height : ℕ) where
    abbrev pub is_gone : ℕ × V → Bool
    is_gone x = T.same x.0 user && leb height (height_of x.1)

    -- The records but those of the account from the height on.
    abbrev pub kept : List (ℕ × V) → List (ℕ × V)
    kept [] = []
    kept (x ∷ r) = let rest = kept r in if is_gone x then rest else x ∷ rest

    -- Those of the account from the height on.
    abbrev pub lost : List (ℕ × V) → List V
    lost [] = []
    lost (x ∷ r) = let rest = lost r in if is_gone x then x.1 ∷ rest else rest

    module _ (same : (j k : ℕ) → T.same j k ≡ (j == k)) where
      kept_beyond : (r : List (ℕ × V)) → All (λ y. user < y.0) r → (kept r ≡ r) × (lost r ≡ [])
      kept_beyond [] h = (refl, refl)
      kept_beyond (x ∷ r) (b, h) =
          let ne : (x.0 == user) ≡ false = ground (arith, b) in
          let e : is_gone x ≡ false =
            ap (λ t. t && leb height (height_of x.1)) (same x.0 user ∙ ne) in
          let (k, l) = kept_beyond r h in (if_false _ _ e ∙ ap (λ r. x ∷ r) k, if_false _ _ e ∙ l)

      beyond :
          (x : ℕ × V) (r : List (ℕ × V)) → user < x.0 → All (Follows x) r → All (λ y. user < y.0) r
      beyond x [] u h = tt
      beyond x (y ∷ r) u ((le, _), h) = (omega (arith, u, le), beyond x r u h)

      -- From a record that is gone on, those of the same key are gone.
      drop_dups-kept :
          (k : ℕ) (r : List (ℕ × V))
          → k ≡ user
          → All (λ y. (user ≤ y.0) × (user ≡ y.0 → height ≤ height_of y.1)) r
          → IsOrdered r
          → (drop_dups T k r ≡ kept r) × (run_of T k r ≡ lost r)
      drop_dups-kept k [] e h o = (refl, refl)
      drop_dups-kept k (x ∷ r) e ((le, late), h) (f, o) = elim (Bool-cases (T.same x.0 k)) [
        | inl s ↦
            let t : x.0 ≡ user = ground (arith, e, sym (same x.0 k) ∙ s) in
            let g : is_gone x ≡ true =
              ap (λ t. t && leb height (height_of x.1)) (same x.0 user)
              ∙ ground (arith, t, late (sym t)) in
            let (a, b) = drop_dups-kept x.0 r t h o in
            (
              if_true _ _ s ∙ a ∙ sym (if_true _ _ g),
              if_true _ _ s ∙ ap (λ l. x.1 ∷ l) b ∙ sym (if_true _ _ g),
            )
        | inr s ↦
            let u : user < x.0 = ground (arith, e, le, sym (same x.0 k) ∙ s) in
            let (a, b) = kept_beyond (x ∷ r) (u, beyond x r u f) in
            (if_false _ _ s ∙ sym a, if_false _ _ s ∙ sym b)
      ]

      late_enough :
          (x : ℕ × V) (r : List (ℕ × V))
          → x.0 ≡ user
          → height ≤ height_of x.1
          → All (Follows x) r
          → All (λ y. (user ≤ y.0) × (user ≡ y.0 → height ≤ height_of y.1)) r
      late_enough x [] e h f = tt
      late_enough x (y ∷ r) e h ((le, late), f) =
          ((omega (arith, le, e), λ u. omega (arith, h, late (e ∙ u))), late_enough x r e h f)

      -- The record that the search finds, if there is one, with what the loop from it on leaves and deletes.
      pub seek-kept :
          (l r : List (ℕ × V))
          → IsOrdered r
          → ((seek (λ j v. T.same j user && leb height (height_of v)) l r ≡ none)
              × ((kept r ≡ r) × (lost r ≡ [])))
            ⊎ ((x : ℕ × V) × ((l' : List (ℕ × V)) × ((r' : List (ℕ × V)) × ((seek
                          (λ j v. T.same j user && leb height (height_of v))
                          l
                          r
                        ≡ some (x, position l' (x ∷ r') none))
                      × ((unzip l' (drop_dups T x.0 r') ≡ unzip l (kept r))
                          × ((x.1 ∷ run_of T x.0 r' ≡ lost r)
                              × (unzip l' (x ∷ r') ≡ unzip l r)))))))
      seek-kept l [] o = inl (refl, (refl, refl))
      seek-kept l (x ∷ r) (f, o) = elim (Bool-cases (is_gone x)) [
        | inl g ↦
            let both : (x.0 == user && leb height (height_of x.1)) ≡ true =
              sym (ap (λ t. t && leb height (height_of x.1)) (same x.0 user)) ∙ g in
            let at_user : x.0 ≡ user = ground (arith, both) in
            let (a, b) =
              drop_dups-kept x.0 r at_user (late_enough x r at_user (ground (arith, both)) f) o in
            inr (
              x,
              (
                l,
                (
                  r,
                  (
                    if_true _ _ g,
                    (
                      ap (unzip l) (a ∙ sym (if_true _ _ g)),
                      (ap (λ l. x.1 ∷ l) b ∙ sym (if_true _ _ g), refl),
                    ),
                  ),
                ),
              ),
            )
        | inr g ↦ elim (seek-kept (x ∷ l) r o) [
          | inl (e, (k, n)) ↦
              inl (if_false _ _ g ∙ e, (if_false _ _ g ∙ ap (λ r. x ∷ r) k, if_false _ _ g ∙ n))
          | inr (y, (l', (r', (a, (b, (c, d)))))) ↦ inr (
            y,
            (
              l',
              (
                r',
                (
                  if_false _ _ g ∙ a,
                  (b ∙ ap (unzip l) (sym (if_false _ _ g)), (c ∙ sym (if_false _ _ g), d)),
                ),
              ),
            ),
          )
        ]
      ]

      module _ (L : IsLawful T) where
        pub rows-erase_from :
            (s : T.State)
            → IsOrdered (T.rows s)
            → (t : T.State) × ((erase_from T (T.get_both user (λ v. leb height (height_of v)) s) s
                  ≡ ok t)
                × (T.rows t ≡ kept (T.rows s)))
        unfolding erase_from
        rows-erase_from s o = elim (seek-kept [] (T.rows s) o) [
          | inl (e, (k, n)) ↦ (
            s,
            (ap (λ o. erase_from T o s) (viewed-none T _ (L.get_both_lem user _ s ∙ e)), sym k),
          )
          | inr (x, (l, (r, (e, (k, (g, d)))))) ↦
              let (c, (there, on)) =
                viewed-some T _ x (position l (x ∷ r) none) (L.get_both_lem user _ s ∙ e) in
              let (t, (run, left)) =
                rows-erase_dups T L (bound T s) c x.0 x.1 l r on
                  (omega (arith, ap length d, length-unzip l (x ∷ r))) in
              (t, (ap (λ o. erase_from T o s) there ∙ run, left ∙ k))
        ]
