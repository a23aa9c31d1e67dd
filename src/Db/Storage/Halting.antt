-- ===== src/Db/Storage/Halting.antt =====
-- The loops of `storage::sync_chain` and `storage::rollback` in src/db/storage.cpp end: none runs more rounds than the
-- table has records.
use monero_lws.Base.{
  ℕ, ◌<◌, ◌≡◌, refl, ap, ◌∙◌, arith, ◌⊎◌, inl, inr, Bool, Bool-cases, if_true, if_false, true,
  false, ◌&&◌, ◌==◌, Option, none, some, List, [], ◌∷◌, length,
}
use monero_lws.Base.Results.{Result, ok, err, ◌>>=◌}
use monero_lws.Db.Data.{Spend, OutputId}
use monero_lws.Db.Storage.{
  LmdbTable, IsLawful, position, unzip, seek, seek_back, viewed-none, viewed-some, Error,
  bad_blockchain, not_found, unbounded, require,
}
use monero_lws.Db.Storage.Erase.{erase_dups, rows-erase_dups}
use monero_lws.Db.Storage.Rows.{KeyImage}
use monero_lws.Db.Storage.Rollback.{bound, erase_from, erase_image, rollback_spends_from}
use monero_lws.Db.Storage.Kept.{run_of}
use monero_lws.Db.Storage.Fork.{length-unzip}
use monero_lws.Db.Storage.Undone.{erase_images, loop_lem}

abbrev pub halted : {A : Type 0} → Result Error A → Bool
halted (ok a) = true
halted (err bad_blockchain) = true
halted (err not_found) = true
halted (err unbounded) = false

-- What a rollback ends with: it is done, or a record that it looks up is missing.
abbrev pub regular : {A : Type 0} → Result Error A → Bool
regular (ok a) = true
regular (err bad_blockchain) = false
regular (err not_found) = true
regular (err unbounded) = false

pub regular-cases :
    {A : Type 0} (r : Result Error A)
    → regular r ≡ true
    → ((a : A) × (r ≡ ok a)) ⊎ (r ≡ err not_found)
regular-cases (ok a) h = inl (a, refl)
regular-cases (err bad_blockchain) h = absurd (ground (arith, h))
regular-cases (err not_found) h = inr refl
regular-cases (err unbounded) h = absurd (ground (arith, h))

pub halted-regular : {A : Type 0} (r : Result Error A) → regular r ≡ true → halted r ≡ true
halted-regular (ok a) h = refl
halted-regular (err bad_blockchain) h = refl
halted-regular (err not_found) h = refl
halted-regular (err unbounded) h = h

pub halted-bind :
    {A B : Type 0} (r : Result Error A) (f : A → Result Error B)
    → halted r ≡ true
    → ((a : A) → halted (f a) ≡ true)
    → halted (r >>= f) ≡ true
halted-bind (ok a) f h g = g a
halted-bind (err bad_blockchain) f h g = refl
halted-bind (err not_found) f h g = refl
halted-bind (err unbounded) f h g = h

pub regular-bind :
    {A B : Type 0} (r : Result Error A) (f : A → Result Error B)
    → regular r ≡ true
    → ((a : A) → regular (f a) ≡ true)
    → regular (r >>= f) ≡ true
regular-bind (ok a) f h g = g a
regular-bind (err bad_blockchain) f h g = h
regular-bind (err not_found) f h g = refl
regular-bind (err unbounded) f h g = h

pub regular-require : {A : Type 0} (o : Option A) → regular (require o) ≡ true
regular-require none = refl
regular-require (some a) = refl

-- Where a search ends.
pub seek_shape :
    {K V : Type 0} (p : K → V → Bool) (l r : List (K × V))
    → (seek p l r ≡ none)
      ⊎ ((x : K × V) × ((l' : List (K × V)) × ((r' : List (K × V)) × ((seek p l r
                  ≡ some (x, position l' (x ∷ r') none))
                × (unzip l' (x ∷ r') ≡ unzip l r)))))
seek_shape p l [] = inl refl
seek_shape p l (x ∷ r) = elim (Bool-cases (p x.0 x.1)) [
  | inl e ↦ inr (x, (l, (r, (if_true _ _ e, refl))))
  | inr e ↦ elim (seek_shape p (x ∷ l) r) [
    | inl a ↦ inl (if_false _ _ e ∙ a)
    | inr (y, (l', (r', (a, b)))) ↦ inr (y, (l', (r', (if_false _ _ e ∙ a, b))))
  ]
]

pub seek_back_shape :
    {K V : Type 0} (p : K → Bool) (l r : List (K × V))
    → (seek_back p l r ≡ none)
      ⊎ ((x : K × V) × ((l' : List (K × V)) × ((r' : List (K × V)) × ((seek_back p l r
                  ≡ some (x, position l' (x ∷ r') none))
                × (length l' < length l)))))
seek_back_shape p [] r = inl refl
seek_back_shape p (x ∷ l) r = elim (Bool-cases (p x.0)) [
  | inl e ↦ inr (x, (l, (r, (if_true _ _ e, omega arith))))
  | inr e ↦ elim (seek_back_shape p l (x ∷ r)) [
    | inl a ↦ inl (if_false _ _ e ∙ a)
    | inr (y, (l', (r', (a, b)))) ↦ inr (y, (l', (r', (if_false _ _ e ∙ a, omega (arith, b)))))
  ]
]

module _ {K V : Type 0} (T : LmdbTable K V) (L : IsLawful T) where
  pub erase_dups_halts :
      (s : T.State) (c : T.Cursor) (x : K × V) (l r : List (K × V))
      → T.view c ≡ position l (x ∷ r) none
      → unzip l (x ∷ r) ≡ T.rows s
      → regular (erase_dups T (bound T s) c) ≡ true
  erase_dups_halts s c x l r e d =
      let (t, (run, left)) =
        rows-erase_dups T L (bound T s) c x.0 x.1 l r e
          (omega (arith, ap length d, length-unzip l (x ∷ r))) in
      ap regular run

  pub erase_from_halts :
      (k : K) (p : V → Bool) (s : T.State) → regular (erase_from T (T.get_both k p s) s) ≡ true
  unfolding erase_from
  erase_from_halts k p s = elim (seek_shape (λ j v. T.same j k && p v) [] (T.rows s)) [
    | inl e ↦ ap (λ o. regular (erase_from T o s)) (viewed-none T _ (L.get_both_lem k p s ∙ e))
    | inr (x, (l, (r, (e, d)))) ↦
        let (c, (there, on)) =
          viewed-some T _ x (position l (x ∷ r) none) (L.get_both_lem k p s ∙ e) in
        ap (λ o. regular (erase_from T o s)) there ∙ erase_dups_halts s c x l r on d
  ]

module _ (S : LmdbTable ℕ Spend) (I : LmdbTable OutputId KeyImage) (L : IsLawful S) where
  erase_images_halts :
      (spends : List Spend) (images : I.State) → regular (erase_images S I spends images) ≡ true
  unfolding erase_image
  erase_images_halts [] images = refl
  erase_images_halts (s ∷ spends) images =
      regular-bind (erase_image S I s images) (erase_images S I spends)
        (regular-bind (require (I.get_both s.source (λ i. i.value == s.image) images))
          (λ x. ok (I.table (I.del x.1))) (regular-require _) (λ x. refl))
        (erase_images_halts spends)

  pub spends_halt :
      (k : ℕ) (p : Spend → Bool) (s : S.State) (images : I.State)
      → regular (rollback_spends_from S I (S.get_both k p s) s images) ≡ true
  spends_halt k p s images = elim (seek_shape (λ j v. S.same j k && p v) [] (S.rows s)) [
    | inl e ↦
        ap (λ o. regular (rollback_spends_from S I o s images))
          (viewed-none S _ (L.get_both_lem k p s ∙ e))
    | inr (x, (l, (r, (e, d)))) ↦
        let (c, (there, on)) =
          viewed-some S _ x (position l (x ∷ r) none) (L.get_both_lem k p s ∙ e) in
        let (t, (left, run)) =
          loop_lem S I L (bound S s) c x.0 x.1 l r on
            (omega (arith, ap length d, length-unzip l (x ∷ r))) in
        ap (λ o. regular (rollback_spends_from S I o s images)) there
        ∙ ap regular (run images)
        ∙ regular-bind {B = S.State × I.State} (erase_images S I (x.1 ∷ run_of S x.0 r) images)
            (λ rest. ok (t, rest)) (erase_images_halts (x.1 ∷ run_of S x.0 r) images) (λ i. refl)
  ]
