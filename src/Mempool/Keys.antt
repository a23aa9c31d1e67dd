-- ===== src/Mempool/Keys.antt =====
-- The map and the list of addresses of src/mempool.cpp under changes of one key.
use monero_lws.Base.{
  ℕ, suc, ◌≡◌, refl, ap, sym, ◌∙◌, subst, arith, Bool, true, false, Bool-cases, inl, inr, Option,
  none, some, List, [], ◌∷◌, ◌==◌, ==_iff, if◌then◌else◌, length,
}
use monero_lws.Mempool.{Entry, find, erase, assign, remove, back, pop_back}

abbrev pub is_some : {A : Type 0} → Option A → Bool
is_some none = false
is_some (some a) = true

abbrev pub has : ℕ → List ℕ → Bool
has k [] = false
has k (x ∷ xs) = if x == k then true else has k xs

abbrev pub Distinct : List ℕ → Type 0
Distinct [] = Unit {0}
Distinct (x ∷ xs) = (has x xs ≡ false) × Distinct xs

pub ==_sym : (a b : ℕ) → (a == b) ≡ false → (b == a) ≡ false
==_sym a b h = ground (arith, h)

-- The list of addresses.
pub has-remove :
    (a k : ℕ) (xs : List ℕ)
    → Distinct xs
    → has k (remove a xs) ≡ (if a == k then false else has k xs)
has-remove a k [] d = ground arith
has-remove a k (x ∷ xs) d = ground (arith, d.0, has-remove a k xs d.1)

pub remove-absent : (a : ℕ) (xs : List ℕ) → has a xs ≡ false → remove a xs ≡ xs
remove-absent a [] h = refl
remove-absent a (x ∷ xs) h = ground (arith, h, remove-absent a xs)

pub Distinct-remove : (a : ℕ) (xs : List ℕ) → Distinct xs → Distinct (remove a xs)
Distinct-remove a [] d = tt
Distinct-remove a (x ∷ xs) d = ground (arith, d, has-remove a x xs d.1, Distinct-remove a xs d.1)

pub length-remove : (a : ℕ) (xs : List ℕ) → has a xs ≡ true → suc (length (remove a xs)) ≡ length xs
length-remove a [] h = absurd (ground (arith, h))
length-remove a (x ∷ xs) h = ground (arith, h, length-remove a xs)

pub has-back : (x : ℕ) (xs : List ℕ) → has (back x xs) (x ∷ xs) ≡ true
has-back x [] = ground arith
has-back x (y ∷ ys) = ground (arith, has-back y ys)

pub ==_refl : (a : ℕ) → (a == a) ≡ true
==_refl a = ground arith

pub has-same : (x y : ℕ) (xs : List ℕ) → has x xs ≡ true → (x == y) ≡ true → has y xs ≡ true
has-same x y xs e b = subst (λ z. has z xs ≡ true) ((==_iff x y).0 b) e

-- A number that stands there is not one that does not.
pub has-differs : (x y : ℕ) (xs : List ℕ) → has x xs ≡ false → has y xs ≡ true → (x == y) ≡ false
has-differs x y xs e f = elim (Bool-cases (x == y)) [
  | inl b ↦
      absurd
        (ground (arith, sym e ∙ subst (λ z. has z xs ≡ true) {x = y} (sym ((==_iff x y).0 b)) f))
  | inr b ↦ b
]

pub has-pop_back :
    (k x : ℕ) (xs : List ℕ)
    → Distinct (x ∷ xs)
    → has k (pop_back x xs) ≡ (if back x xs == k then false else has k (x ∷ xs))
has-pop_back k x [] d = ground arith
has-pop_back k x (y ∷ ys) d =
    ground (arith, has-pop_back k y ys d.1, has-differs x (back y ys) (y ∷ ys) d.0 (has-back y ys))

pub Distinct-pop_back : (x : ℕ) (xs : List ℕ) → Distinct (x ∷ xs) → Distinct (pop_back x xs)
Distinct-pop_back x [] d = tt
Distinct-pop_back x (y ∷ ys) d =
    (ground (arith, d.0, has-pop_back x y ys d.1), Distinct-pop_back y ys d.1)

pub length-pop_back : (x : ℕ) (xs : List ℕ) → length (pop_back x xs) ≡ length xs
length-pop_back x [] = refl
length-pop_back x (y ∷ ys) = ap suc (length-pop_back y ys)

module _ {D : Type 0} where
  abbrev pub Unique : List (ℕ × Entry D) → Type 0
  Unique [] = Unit {0}
  Unique (x ∷ m) = (is_some (find x.0 m) ≡ false) × Unique m

  pub find-erase :
      (a k : ℕ) (m : List (ℕ × Entry D))
      → Unique m
      → (a == k) ≡ false
      → find k (erase a m) ≡ find k m
  find-erase a k [] u n = refl
  find-erase a k (x ∷ m) u n = ground (arith, n, find-erase a k m u.1 n)

  pub find-erased :
      (a : ℕ) (m : List (ℕ × Entry D)) → Unique m → is_some (find a (erase a m)) ≡ false
  find-erased a [] u = refl
  find-erased a (x ∷ m) u = ground (arith, u.0, find-erased a m u.1)

  pub Unique-erase : (a : ℕ) (m : List (ℕ × Entry D)) → Unique m → Unique (erase a m)
  Unique-erase a [] u = tt
  Unique-erase a (x ∷ m) u = elim (Bool-cases (x.0 == a)) [
    | inl b ↦ rw b u.1
    | inr b ↦
        rw b (ap is_some (find-erase a x.0 m u.1 (==_sym x.0 a b)) ∙ u.0, Unique-erase a m u.1)
  ]

  pub length-erase :
      (a : ℕ) (m : List (ℕ × Entry D))
      → is_some (find a m) ≡ true
      → suc (length (erase a m)) ≡ length m
  length-erase a [] h = absurd (ground (arith, h))
  length-erase a (x ∷ m) h = ground (arith, h, length-erase a m)

  pub find-assign :
      (a k : ℕ) (e : Entry D) (m : List (ℕ × Entry D))
      → (a == k) ≡ false
      → find k (assign a e m) ≡ find k m
  find-assign a k e [] n = refl
  find-assign a k e (x ∷ m) n = ground (arith, n, find-assign a k e m n)

  pub find-assigned :
      (a : ℕ) (e : Entry D) (m : List (ℕ × Entry D))
      → is_some (find a m) ≡ true
      → find a (assign a e m) ≡ some e
  find-assigned a e [] h = absurd (ground (arith, h))
  find-assigned a e (x ∷ m) h = ground (arith, h, find-assigned a e m)

  pub length-assign :
      (a : ℕ) (e : Entry D) (m : List (ℕ × Entry D)) → length (assign a e m) ≡ length m
  length-assign a e [] = refl
  length-assign a e (x ∷ m) = ground (arith, length-assign a e m)

  pub is_some-assign :
      (a k : ℕ) (e : Entry D) (m : List (ℕ × Entry D))
      → is_some (find k (assign a e m)) ≡ is_some (find k m)
  is_some-assign a k e [] = refl
  is_some-assign a k e (x ∷ m) = ground (arith, is_some-assign a k e m)

  pub Unique-assign :
      (a : ℕ) (e : Entry D) (m : List (ℕ × Entry D)) → Unique m → Unique (assign a e m)
  Unique-assign a e [] u = tt
  Unique-assign a e (x ∷ m) u = elim (Bool-cases (x.0 == a)) [
    | inl b ↦ rw b (u.0, u.1)
    | inr b ↦ rw b (is_some-assign a x.0 e m ∙ u.0, Unique-assign a e m u.1)
  ]
