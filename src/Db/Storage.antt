-- ===== src/Db/Storage.antt =====
-- src/db/storage.cpp: the tables of the database, and their cursors, which are LMDB's. A table is a list of records,
-- sorted by key and then by value; a cursor stands on one of them, or where one was deleted.
pub mod Accounts
pub mod Append
pub mod Kept
pub mod Chain
pub mod Changed
pub mod Checkpoints
pub mod Ending
pub mod Erase
pub mod Events
pub mod Fork
pub mod Halting
pub mod Images
pub mod Memory
pub mod Outcome
pub mod Rollback
pub mod Locator
pub mod Readers
pub mod Relisted
pub mod Rows
pub mod Sync
mod Tests
pub mod Undone
pub mod UserRows
use monero_lws.Base.{
  ℕ, Bool, true, false, ◌⊎◌, inl, inr, Option, none, some, List, [], ◌∷◌, ◌≡◌, refl, ap, some_inj,
  arith, if◌then◌else◌, not, ◌&&◌, ◌||◌,
}
use mathlib.Core.Option
use monero_lws.Base.Results.{Result, ok, err}

-- What a cursor shows: the records before it, the nearest first, those from it on, and the key of the record that
-- it stood on if that was deleted.
pub record Position (K V : Type 0) : Type 0 where
  pub left : List (K × V)
  pub right : List (K × V)
  pub gone : Option K

-- The record that is found, with the position on it.
abbrev pub Found : Type 0 → Type 0 → Type 0
Found K V = Option ((K × V) × Position K V)

module _ {K V : Type 0} where
  abbrev pub position : List (K × V) → List (K × V) → Option K → Position K V
  position l r g = record { left = l; right = r; gone = g }

  -- The records of the table, in order.
  abbrev pub unzip : List (K × V) → List (K × V) → List (K × V)
  unzip [] r = r
  unzip (x ∷ l) r = unzip l (x ∷ r)

  -- Records that a search has passed, in front of those before them.
  abbrev pub behind : List (K × V) → List (K × V) → List (K × V)
  behind l [] = l
  behind l (x ∷ before) = behind (x ∷ l) before

  -- The first record that passes the test.
  abbrev pub seek : (K → V → Bool) → List (K × V) → List (K × V) → Found K V
  seek p l [] = none
  seek p l ((k, v) ∷ r) =
      let rest = seek p ((k, v) ∷ l) r in
      if p k v then some ((k, v), position l ((k, v) ∷ r) none) else rest

  abbrev pub seek_last : List (K × V) → List (K × V) → Found K V
  seek_last l [] = none
  seek_last l (x ∷ []) = some (x, position l (x ∷ []) none)
  seek_last l (x ∷ y ∷ r) = seek_last (x ∷ l) (y ∷ r)

  abbrev pub seek_back : (K → Bool) → List (K × V) → List (K × V) → Found K V
  seek_back p [] r = none
  seek_back p ((k, v) ∷ l) r =
      let rest = seek_back p l ((k, v) ∷ r) in
      if p k then some ((k, v), position l ((k, v) ∷ r) none) else rest

  abbrev pub remove : Position K V → Position K V
  remove p = elim p.right [ [] ↦ p | x ∷ r ↦ position p.left r (some x.0) ]

  abbrev pub replace : V → Position K V → Position K V
  replace v p = elim p.right [ [] ↦ p | x ∷ r ↦ position p.left ((x.0, v) ∷ r) p.gone ]

  -- The records from behind the key's that the cursor stands on, or stood on.
  abbrev pub step : (K → List (K × V) → List (K × V) → Found K V) → Position K V → Found K V
  step f p = elim p.gone [
    | some k ↦ f k p.left p.right
    | none ↦ elim p.right [ [] ↦ none | x ∷ r ↦ f x.0 (x ∷ p.left) r ]
  ]

  -- The record before, whatever was deleted.
  abbrev pub back : Position K V → Found K V
  back p = seek_back (λ k. true) p.left p.right

  module _ (same : K → K → Bool) where
    abbrev pub dup : K → List (K × V) → List (K × V) → Found K V
    dup k l [] = none
    dup k l (x ∷ r) = if same x.0 k then some (x, position l (x ∷ r) none) else none

    abbrev pub nodup : K → List (K × V) → List (K × V) → Found K V
    nodup k = seek (λ j v. not (same j k))

    -- The record before, if it has the key of the one that the cursor stands on.
    abbrev pub back_dup : Position K V → Found K V
    back_dup p = elim p.right [
      | [] ↦ none
      | x ∷ r ↦ elim p.left [
        | [] ↦ none
        | y ∷ l ↦ if same y.0 x.0 then some (y, position l (y ∷ x ∷ r) none) else none
      ]
    ]

    abbrev pub back_nodup : Position K V → Found K V
    back_nodup p = elim p.right [
      | [] ↦ none
      | x ∷ r ↦ seek_back (λ j. not (same j x.0)) p.left p.right
    ]

  -- The record goes before the first one that is not less, and in the place of one that is equal.
  abbrev pub insert : (K × V → K × V → Bool) → K × V → List (K × V) → List (K × V)
  insert less x [] = x ∷ []
  insert less x (y ∷ r) =
      let rest = insert less x r in
      if less y x then y ∷ rest else if less x y then x ∷ y ∷ r else x ∷ r

  abbrev pub has_equal : (K × V → K × V → Bool) → K × V → List (K × V) → Bool
  has_equal less x [] = false
  has_equal less x (y ∷ r) = not (less x y) && not (less y x) || has_equal less x r

-- What the functions below fail with. The failures of LMDB itself but `MDB_NOTFOUND` end in a transaction that is undone,
-- and are left out. `unbounded` is a loop that does not end.
pub data Error : Type 0 where
  bad_blockchain : Error
  not_found : Error
  unbounded : Error

-- `MLWS_LMDB_CHECK`
abbrev pub require {ℓ} : {A : Type ℓ} → Option A → Result Error A
require none = err not_found
require (some a) = ok a

-- A result of `MDB_NOTFOUND` and any other one.
abbrev pub found {ℓ κ} : {A : Type ℓ} {B : Type κ} → Option A → B → (A → B) → B
found none b f = b
found (some a) b f = f a

pub found-cases {ℓ κ} :
    {A : Type ℓ} {B : Type κ} (o : Option A) (b : B) (f : A → B) (y : B)
    → found o b f ≡ y
    → ((o ≡ none) × (b ≡ y)) ⊎ ((a : A) × ((o ≡ some a) × (f a ≡ y)))
found-cases none b f y h = inl (refl, h)
found-cases (some a) b f y h = inr (a, (refl, h))

-- The functions of LMDB that the code calls for a table. A comparison with a sought key or value is a test.
pub record LmdbTable (K V : Type 0) : Type 1 where
  pub State : Type 0
  pub Cursor : Type 0
  pub same : K → K → Bool
  pub less : K × V → K × V → Bool
  pub rows : State → List (K × V)
  pub table : Cursor → State
  pub view : Cursor → Position K V
  -- `MDB_GET_BOTH`, `MDB_GET_BOTH_RANGE`
  pub get_both : K → (V → Bool) → State → Option ((K × V) × Cursor)
  pub set_range : (K → Bool) → State → Option ((K × V) × Cursor)
  pub last : State → Option ((K × V) × Cursor)
  pub next_dup : Cursor → Option ((K × V) × Cursor)
  pub next_nodup : Cursor → Option ((K × V) × Cursor)
  -- `MDB_SET` and `MDB_LAST_DUP`: the last record of a key.
  pub last_of : K → State → Option ((K × V) × Cursor)
  pub prev_dup : Cursor → Option ((K × V) × Cursor)
  pub prev : Cursor → Option ((K × V) × Cursor)
  pub prev_nodup : Cursor → Option ((K × V) × Cursor)
  pub del : Cursor → Cursor
  pub put_current : V → Cursor → Cursor
  pub put : K → V → State → State
  -- `MDB_NODUPDATA`: `none` is `MDB_KEYEXIST`.
  pub put_new : K → V → State → Option State

module _ {K V : Type 0} (T : LmdbTable K V) where
  abbrev pub viewed : Option ((K × V) × T.Cursor) → Found K V
  viewed none = none
  viewed (some (x, c)) = some (x, T.view c)

-- What LMDB documents of them.
pub record IsLawful {K V : Type 0} (T : LmdbTable K V) : Type 0 where
  pub rows-table : (c : T.Cursor) → T.rows (T.table c) ≡ unzip (T.view c).left (T.view c).right
  pub get_both_lem :
      (k : K) (p : V → Bool) (s : T.State)
      → viewed T (T.get_both k p s) ≡ seek (λ j v. T.same j k && p v) [] (T.rows s)
  pub set_range_lem :
      (p : K → Bool) (s : T.State) → viewed T (T.set_range p s) ≡ seek (λ k v. p k) [] (T.rows s)
  pub last_lem : (s : T.State) → viewed T (T.last s) ≡ seek_last [] (T.rows s)
  pub next_dup_lem : (c : T.Cursor) → viewed T (T.next_dup c) ≡ step (dup T.same) (T.view c)
  pub next_nodup_lem : (c : T.Cursor) → viewed T (T.next_nodup c) ≡ step (nodup T.same) (T.view c)
  pub last_of_lem :
      (k : K) (s : T.State)
      → viewed T (T.last_of k s) ≡ seek_back (λ j. T.same j k) (behind [] (T.rows s)) []
  pub prev_dup_lem : (c : T.Cursor) → viewed T (T.prev_dup c) ≡ back_dup T.same (T.view c)
  pub prev_lem : (c : T.Cursor) → viewed T (T.prev c) ≡ back (T.view c)
  pub prev_nodup_lem : (c : T.Cursor) → viewed T (T.prev_nodup c) ≡ back_nodup T.same (T.view c)
  pub del_lem : (c : T.Cursor) → T.view (T.del c) ≡ remove (T.view c)
  pub put_current_lem : (v : V) (c : T.Cursor) → T.view (T.put_current v c) ≡ replace v (T.view c)
  pub rows-put :
      (k : K) (v : V) (s : T.State) → T.rows (T.put k v s) ≡ insert T.less (k, v) (T.rows s)
  pub rows-put_new :
      (k : K) (v : V) (s : T.State)
      → Option.map T.rows (T.put_new k v s) ≡ (
          if has_equal T.less (k, v) (T.rows s)
          then none
          else some (insert T.less (k, v) (T.rows s)))

module _ {K V : Type 0} (T : LmdbTable K V) where
  pub viewed-none : (o : Option ((K × V) × T.Cursor)) → viewed T o ≡ none → o ≡ none
  viewed-none none h = refl
  viewed-none (some x) h = absurd (ground (arith, h))

  pub viewed-some :
      (o : Option ((K × V) × T.Cursor)) (x : K × V) (p : Position K V)
      → viewed T o ≡ some (x, p)
      → (c : T.Cursor) × ((o ≡ some (x, c)) × (T.view c ≡ p))
  viewed-some none x p h = absurd (ground (arith, h))
  viewed-some (some (y, c)) x p h =
      (c, (ap (λ y. some (y, c)) (ap (λ z. z.0) (some_inj h)), ap (λ z. z.1) (some_inj h)))
