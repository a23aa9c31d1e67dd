-- ===== src/Db/Subaddress.antt =====
-- src/db/storage.cpp `do_upsert` and data.cpp `check_subaddress_dict`: the ranges of minor indexes that an account
-- has provisioned under one major index, and the merge of newly requested ranges into them.
-- All indexes are below 2^32. `count` is `subaddr_count`, which starts as the number of rows of the account in the
-- table `subaddress_indexes`.
pub mod Ranges
pub mod Union
pub mod Merge
pub mod Limit
pub mod Fresh
pub mod Reported
pub mod Stored
mod Tests
use monero_lws.Base.{
  ℕ, suc, ◌+◌, ◌-◌, ◌%◌, ◌^◌, ◌≤◌, Bool, true, false, not, ◌&&◌, List, [], ◌∷◌, ◌++◌, ltb, leb,
  ◌==◌, if◌then◌else◌,
}

-- `index_range`
pub record Range : Type 0 where
  pub first : ℕ
  pub last : ℕ

-- `subaddress_dict`
pub record Dict : Type 0 where
  pub major : ℕ
  pub ranges : List Range

-- The loop of `check_subaddress_dict`, with its two variables.
unfoldable pub check_ranges : Bool → ℕ → List Range → Bool
check_ranges is_first last [] = true
check_ranges is_first last (r ∷ rs) =
    if ltb r.last r.first
    then false
    else (if leb r.first (last + 1) && not is_first then false else check_ranges false r.last rs)

unfoldable pub check_subaddress_dict : Dict → Bool
check_subaddress_dict d = check_ranges true 0 d.ranges

pub data Error : Type 0 where
  max_subaddresses invalid_dict : Error

pub data Result {ℓ} (A : Type ℓ) : Type ℓ where
  ok : A → Result A
  err : Error → Result A

infixl 5 ◌>>=◌
abbrev pub ◌>>=◌ {ℓ κ} : {A : Type ℓ} {B : Type κ} → Result A → (A → Result B) → Result B
ok a >>= f = f a
err e >>= f = err e

-- The variables `subaddr_count`, `new_dict` and `out`.
pub record State : Type 0 where
  pub count : ℕ
  pub new_dict : List Range
  pub out : List Dict

-- The lambda `add_out`.
unfoldable pub add_out : List Dict → ℕ → Range → List Dict
add_out [] major r = record { major = major; ranges = r ∷ [] } ∷ []
add_out (d ∷ []) major r =
    if d.major == major
    then record d { ranges = d.ranges ++ r ∷ [] } ∷ []
    else d ∷ record { major = major; ranges = r ∷ [] } ∷ []
add_out (d ∷ e ∷ ds) major r = d ∷ add_out (e ∷ ds) major r

-- The lambda `check_max_range`: `more` and `more + 1` have 32 bits, the difference to the limit has 64.
unfoldable pub check_max_range : ℕ → Range → State → Result State
check_max_range max_subaddr r s =
    let more = (r.last + 2 ^ 32 - r.first) % 2 ^ 32 in
    if leb ((max_subaddr + 2 ^ 64 - s.count) % 2 ^ 64) more
    then err max_subaddresses
    else ok (record s { count = s.count + (more + 1) % 2 ^ 32 })

abbrev pub push_dict : Range → State → State
push_dict r s = record s { new_dict = s.new_dict ++ r ∷ [] }

abbrev pub push_out : ℕ → Range → State → State
push_out major r s = record s { out = add_out s.out major r }

-- A range that is new as a whole.
unfoldable pub insert_new : ℕ → ℕ → Range → State → Result State
unfolding check_max_range
insert_new max_subaddr major n s = do
  s' ← check_max_range max_subaddr n s
  ok (push_out major n (push_dict n s'))

-- The last loop: what is left of the new ranges.
unfoldable pub insert_rest : ℕ → ℕ → List Range → State → Result State
unfolding insert_new
insert_rest max_subaddr major [] s = ok s
insert_rest max_subaddr major (n ∷ ns) s = do
  s' ← insert_new max_subaddr major n s
  insert_rest max_subaddr major ns s'

-- "overlap at beginning" and "overlap at end": the part of `n` outside `o` is counted and reported.
unfoldable pub extend_first : ℕ → ℕ → Range → Range → State → Result State
unfolding check_max_range
extend_first max_subaddr major o n s =
    if ltb n.first o.first
    then (do
      let r : Range = record { first = n.first; last = o.first - 1 }
      s' ← check_max_range max_subaddr r s
      ok (push_out major r s'))
    else ok s

unfoldable pub extend_last : ℕ → ℕ → Range → Range → State → Result State
unfolding check_max_range
extend_last max_subaddr major o n s =
    if ltb o.last n.last
    then (do
      let r : Range = record { first = o.last + 1; last = n.last }
      s' ← check_max_range max_subaddr r s
      ok (push_out major r s'))
    else ok s

-- `old_loc` after both assignments.
abbrev pub extended : Range → Range → Range
extended o n = record {
  first = if ltb n.first o.first then n.first else o.first;
  last = if ltb o.last n.last then n.last else o.last;
}

-- The loop over `old_loc` and `new_loc`, the copy of the rest of the old ranges and the last loop.
unfoldable pub merge_ranges : ℕ → ℕ → List Range → List Range → State → Result State
unfolding insert_new insert_rest extend_first extend_last
merge_ranges max_subaddr major [] ns s = insert_rest max_subaddr major ns s
merge_ranges max_subaddr major (o ∷ os) [] s = ok (record s { new_dict = s.new_dict ++ o ∷ os })
merge_ranges max_subaddr major (o ∷ os) (n ∷ ns) s =
    let before =
      insert_new max_subaddr major n s >>= λ s'. merge_ranges max_subaddr major (o ∷ os) ns s' in
    let after = merge_ranges max_subaddr major os (n ∷ ns) (push_dict o s) in
    let within = merge_ranges max_subaddr major (o ∷ os) ns s in
    let overlap = extend_first max_subaddr major o n s >>= λ s'.
    extend_last max_subaddr major o n s' >>= λ t.
    merge_ranges max_subaddr major (extended o n ∷ os) ns t in
    if ltb (n.last + 1) o.first
    then before
    else (if ltb (o.last + 1) n.first
        then after
        else (if leb o.first n.first && leb n.last o.last then within else overlap))
