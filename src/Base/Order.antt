-- ===== src/Base/Order.antt =====
-- `std::lower_bound`, insertion at its result and `std::sort`, over the order that is passed in.
-- An iterator is the part of the sequence from it to the end. `lower_bound` answers for a sequence that is
-- partitioned by the test, as the source's sequences are by the invariants proved of them.
use Prim.Native.Nat.{suc}
use mathlib.Core.Path.{◌≡◌, refl}
use mathlib.Core.Logic.{◌⊎◌, inl, inr}
use mathlib.Core.Bool.{Bool, true, false}
use mathlib.Core.List.{List, [], ◌∷◌}
use native.Mathlib.Omega.{arith}
use monero_lws.Base.Tests.{if◌then◌else◌, Bool-cases}
use monero_lws.Base.Lists.{length, All, In}

module _ {ℓ} {A : Type ℓ} where
  -- The test says that an element stands before the value looked for.
  abbrev pub lower_bound : (A → Bool) → List A → List A
  lower_bound before [] = []
  lower_bound before (x ∷ xs) = if before x then lower_bound before xs else x ∷ xs

  -- `insert(lower_bound(...), v)`
  abbrev pub insert_at_bound : (A → Bool) → A → List A → List A
  insert_at_bound before v [] = v ∷ []
  insert_at_bound before v (x ∷ xs) =
      if before x then x ∷ insert_at_bound before v xs else v ∷ x ∷ xs

  pub length-insert_at_bound :
      (before : A → Bool) (v : A) (xs : List A)
      → length (insert_at_bound before v xs) ≡ suc (length xs)
  length-insert_at_bound before v [] = refl
  length-insert_at_bound before v (x ∷ xs) = ground (arith, length-insert_at_bound before v xs)

  pub All-insert_at_bound {κ} :
      (P : A → Type κ) (before : A → Bool) (v : A) (xs : List A)
      → P v
      → All P xs
      → All P (insert_at_bound before v xs)
  All-insert_at_bound P before v [] h hs = (h, tt)
  All-insert_at_bound P before v (x ∷ xs) h hs = elim (Bool-cases (before x)) [
    | inl e ↦ rw e (hs.0, All-insert_at_bound P before v xs h hs.1)
    | inr e ↦ rw e (h, hs)
  ]

-- A strict weak order whose equivalence is equality, as the comparisons of the source are.
pub record IsOrder {ℓ} {A : Type ℓ} (less : A → A → Bool) : Type ℓ where
  pub asym : (a b : A) → less a b ≡ true → less b a ≡ false
  pub trans : (a b c : A) → less b a ≡ false → less c b ≡ false → less c a ≡ false
  pub total : (a b : A) → less a b ≡ false → less b a ≡ false → a ≡ b

module _ {ℓ} {A : Type ℓ} (less : A → A → Bool) where
  -- No element is less than one that stands before it.
  abbrev pub IsSorted : List A → Type 0
  IsSorted [] = Unit {0}
  IsSorted (x ∷ xs) = All (λ y. less y x ≡ false) xs × IsSorted xs

  abbrev pub sort : List A → List A
  sort [] = []
  sort (x ∷ xs) = insert_at_bound (λ y. less y x) x (sort xs)

  abbrev pub insert_sorted : A → List A → List A
  insert_sorted v xs = insert_at_bound (λ y. less y v) v xs

module _ {ℓ} {A : Type ℓ} (less : A → A → Bool) (o : IsOrder less) where
  All-below :
      (v x : A) (xs : List A)
      → less x v ≡ false
      → All (λ y. less y x ≡ false) xs
      → All (λ y. less y v ≡ false) xs
  All-below v x [] e h = tt
  All-below v x (y ∷ ys) e h = (o.trans v x y e h.0, All-below v x ys e h.1)

  pub insert_sorted-IsSorted :
      (v : A) (xs : List A) → IsSorted less xs → IsSorted less (insert_sorted less v xs)
  insert_sorted-IsSorted v [] s = (tt, tt)
  insert_sorted-IsSorted v (x ∷ xs) s = elim (Bool-cases (less x v)) [
    | inl e ↦ rw e (
      All-insert_at_bound _ (λ y. less y v) v xs (o.asym x v e) s.0,
      insert_sorted-IsSorted v xs s.1,
    )
    | inr e ↦ rw e ((e, All-below v x xs e s.0), s)
  ]

  pub sort-IsSorted : (xs : List A) → IsSorted less (sort less xs)
  sort-IsSorted [] = tt
  sort-IsSorted (x ∷ xs) = insert_sorted-IsSorted x (sort less xs) (sort-IsSorted xs)

module _ {A : Type 0} (before : A → Bool) where
  pub In-insert_at_bound :
      (v a : A) (xs : List A) → (a ≡ v) ⊎ In a xs → In a (insert_at_bound before v xs)
  In-insert_at_bound v a [] h = h
  In-insert_at_bound v a (x ∷ xs) h = ground (arith, In-insert_at_bound v a xs)

  pub insert_at_bound-In :
      (v a : A) (xs : List A) → In a (insert_at_bound before v xs) → (a ≡ v) ⊎ In a xs
  insert_at_bound-In v a [] h = h
  insert_at_bound-In v a (x ∷ xs) h = ground (arith, insert_at_bound-In v a xs)
