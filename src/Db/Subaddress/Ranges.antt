-- ===== src/Db/Subaddress/Ranges.antt =====
-- Lists of ranges as sets of indexes: what `check_subaddress_dict` accepts, and the merge without its limit.
use monero_lws.Base.{
  ℕ, ◌+◌, ◌-◌, ◌≤◌, ◌<◌, ◌≡◌, refl, ◌↔◌, ◌⊎◌, inl, inr, Bool, true, false, ◌&&◌, ◌||◌, List, [],
  ◌∷◌, ltb, leb, if◌then◌else◌, arith, All, dec_lt,
}
use monero_lws.Db.Subaddress.{Range, Dict, check_ranges, check_subaddress_dict, extended}

abbrev pub Ordered : Range → Type 0
Ordered r = r.first ≤ r.last

-- Every range is ordered, starts at `lo` or above, and leaves a gap to the next.
abbrev pub ValidFrom : ℕ → List Range → Type 0
ValidFrom lo [] = Unit {0}
ValidFrom lo (r ∷ rs) = (lo ≤ r.first) × (r.first ≤ r.last) × ValidFrom (r.last + 2) rs

ValidFrom-check_ranges :
    (last : ℕ) (rs : List Range) → (check_ranges false last rs ≡ true) ↔ ValidFrom (last + 2) rs
unfolding check_ranges
ValidFrom-check_ranges last [] = (λ e. tt, λ v. refl)
ValidFrom-check_ranges last (r ∷ rs) =
    let ih = ValidFrom-check_ranges r.last rs in
    (λ e. (ground arith, ground arith, ground (arith, ih)), λ v. ground (arith, ih))

check_ranges_iff : (rs : List Range) → (check_ranges true 0 rs ≡ true) ↔ ValidFrom 0 rs
unfolding check_ranges
check_ranges_iff [] = (λ e. tt, λ v. refl)
check_ranges_iff (r ∷ rs) =
    let ih = ValidFrom-check_ranges r.last rs in
    (λ e. (omega arith, ground arith, ground (arith, ih)), λ v. ground (arith, ih))

-- `check_subaddress_dict` accepts exactly the lists of ordered ranges with a gap between any two neighbours.
pub check_subaddress_dict_iff : (d : Dict) → (check_subaddress_dict d ≡ true) ↔ ValidFrom 0 d.ranges
unfolding check_subaddress_dict
check_subaddress_dict_iff d = check_ranges_iff d.ranges

-- The index lies in the range.
unfoldable pub in_range : Range → ℕ → Bool
in_range r x = leb r.first x && leb x r.last

-- The index lies in one of the ranges.
abbrev pub covers : List Range → ℕ → Bool
covers [] x = false
covers (r ∷ rs) x = in_range r x || covers rs x

-- How many indexes the ranges hold, each range counted by itself.
abbrev pub size : List Range → ℕ
size [] = 0
size (r ∷ rs) = r.last - r.first + 1 + size rs

-- The new ranges `new_dict` of the merge.
unfoldable pub merged : List Range → List Range → List Range
merged [] ns = ns
merged (o ∷ os) [] = o ∷ os
merged (o ∷ os) (n ∷ ns) =
    let before = n ∷ merged (o ∷ os) ns in
    let after = o ∷ merged os (n ∷ ns) in
    let within = merged (o ∷ os) ns in
    let overlap = merged (extended o n ∷ os) ns in
    if ltb (n.last + 1) o.first
    then before
    else (if ltb (o.last + 1) n.first
        then after
        else (if leb o.first n.first && leb n.last o.last then within else overlap))

-- The part of `n` behind `o`, and the parts in front of `o` and behind it, if there are such.
abbrev pub behind : Range → Range → List Range → List Range
behind o n rest =
    if ltb o.last n.last then record { first = o.last + 1; last = n.last } ∷ rest else rest

abbrev pub outside : Range → Range → List Range → List Range
outside o n rest =
    if ltb n.first o.first
    then record { first = n.first; last = o.first - 1 } ∷ behind o n rest
    else behind o n rest

-- The ranges that the merge counts and reports.
unfoldable pub fresh : List Range → List Range → List Range
fresh [] ns = ns
fresh (o ∷ os) [] = []
fresh (o ∷ os) (n ∷ ns) =
    let before = n ∷ fresh (o ∷ os) ns in
    let after = fresh os (n ∷ ns) in
    let within = fresh (o ∷ os) ns in
    let overlap = outside o n (fresh (extended o n ∷ os) ns) in
    if ltb (n.last + 1) o.first
    then before
    else (if ltb (o.last + 1) n.first
        then after
        else (if leb o.first n.first && leb n.last o.last then within else overlap))

-- No new range reaches from one old range to the next.
abbrev pub Apart : Range → Range → Range → Type 0
Apart o p n = (o.last + 1 < n.first) ⊎ (n.last + 1 < p.first)

abbrev pub NoBridge : List Range → List Range → Type 0
NoBridge [] ns = Unit {0}
NoBridge (o ∷ []) ns = Unit {0}
NoBridge (o ∷ p ∷ os) ns = All (Apart o p) ns × NoBridge (p ∷ os) ns

-- How an old and a new range lie to each other, and what the four branches of the loop choose.
pub data Position (o n : Range) : Type 0 where
  before : n.last + 1 < o.first → Position o n
  after : o.first ≤ n.last + 1 → o.last + 1 < n.first → Position o n
  within :
      o.first ≤ n.first
      → n.last ≤ o.last
      → o.first ≤ n.last + 1
      → n.first ≤ o.last + 1
      → Position o n
  overlap :
      o.first ≤ n.last + 1
      → n.first ≤ o.last + 1
      → (n.first < o.first) ⊎ (o.last < n.last)
      → Position o n

abbrev pub choose : {A : Type 0} → Range → Range → A → A → A → A → A
choose o n b a w v =
    if ltb (n.last + 1) o.first
    then b
    else (if ltb (o.last + 1) n.first
        then a
        else (if leb o.first n.first && leb n.last o.last then w else v))

pub position : (o n : Range) → Position o n
position o n = elim (dec_lt (n.last + 1) o.first) [
  | yes h ↦ before h
  | no h ↦ elim (dec_lt (o.last + 1) n.first) [
    | yes k ↦ after (omega arith) k
    | no k ↦ elim (dec_lt n.first o.first) [
      | yes l ↦ overlap (omega arith) (omega arith) (inl l)
      | no l ↦ elim (dec_lt o.last n.last) [
        | yes m ↦ overlap (omega arith) (omega arith) (inr m)
        | no m ↦ within (omega arith) (omega arith) (omega arith) (omega arith)
      ]
    ]
  ]
]

module _ {A : Type 0} (o n : Range) (b a w v : A) where
  pub choose_before : n.last + 1 < o.first → choose o n b a w v ≡ b
  choose_before h = ground arith

  pub choose_after : o.first ≤ n.last + 1 → o.last + 1 < n.first → choose o n b a w v ≡ a
  choose_after h k = ground arith

  pub choose_within :
      o.first ≤ n.first
      → n.last ≤ o.last
      → o.first ≤ n.last + 1
      → n.first ≤ o.last + 1
      → choose o n b a w v ≡ w
  choose_within h k l m = ground arith

  pub choose_overlap :
      o.first ≤ n.last + 1
      → n.first ≤ o.last + 1
      → (n.first < o.first) ⊎ (o.last < n.last)
      → choose o n b a w v ≡ v
  choose_overlap h k l = ground arith

pub merged_step :
    (o n : Range) (os ns : List Range)
    → merged (o ∷ os) (n ∷ ns)
      ≡ choose o n
          (n ∷ merged (o ∷ os) ns)
          (o ∷ merged os (n ∷ ns))
          (merged (o ∷ os) ns)
          (merged (extended o n ∷ os) ns)
unfolding merged
merged_step o n os ns = refl

pub merged-nil_left : (ns : List Range) → merged [] ns ≡ ns
unfolding merged
merged-nil_left ns = refl

pub merged-nil_right : (os : List Range) → merged os [] ≡ os
unfolding merged
merged-nil_right [] = refl
merged-nil_right (o ∷ os) = refl

pub fresh_step :
    (o n : Range) (os ns : List Range)
    → fresh (o ∷ os) (n ∷ ns)
      ≡ choose o n
          (n ∷ fresh (o ∷ os) ns)
          (fresh os (n ∷ ns))
          (fresh (o ∷ os) ns)
          (outside o n (fresh (extended o n ∷ os) ns))
unfolding fresh
fresh_step o n os ns = refl

pub fresh-nil_left : (ns : List Range) → fresh [] ns ≡ ns
unfolding fresh
fresh-nil_left ns = refl

pub fresh-nil_right : (os : List Range) → fresh os [] ≡ []
unfolding fresh
fresh-nil_right [] = refl
fresh-nil_right (o ∷ os) = refl
