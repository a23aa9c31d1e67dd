-- ===== src/Db/Subaddress/Union.antt =====
-- The merge as an operation on sets of indexes, and when its result is valid again.
use monero_lws.Base.{ℕ, ◌+◌, ◌≤◌, ◌≡◌, inr, ◌||◌, List, [], ◌∷◌, arith, All}
use monero_lws.Db.Subaddress.{Range, extended}
use monero_lws.Db.Subaddress.Ranges.{
  Ordered, ValidFrom, in_range, covers, merged, merged_step, merged-nil_left, merged-nil_right,
  Apart, NoBridge, before, after, within, overlap, position, choose_before, choose_after,
  choose_within, choose_overlap,
}

pub in_range-extended :
    (o n : Range) (x : ℕ)
    → Ordered o
    → Ordered n
    → o.first ≤ n.last + 1
    → n.first ≤ o.last + 1
    → in_range (extended o n) x ≡ (in_range o x || in_range n x)
unfolding in_range
in_range-extended o n x v w h k = ground arith

pub in_range_within :
    (o n : Range) (x : ℕ)
    → o.first ≤ n.first
    → n.last ≤ o.last
    → (in_range o x || in_range n x) ≡ in_range o x
unfolding in_range
in_range_within o n x h k = ground arith

-- The merge covers every index that an old or a new range covers, and no other.
pub covers-merged :
    (os ns : List Range) (x : ℕ)
    → All Ordered os
    → All Ordered ns
    → covers (merged os ns) x ≡ (covers os x || covers ns x)
covers-merged [] ns x v w = rw merged-nil_left
covers-merged (o ∷ os) [] x v w = rw merged-nil_right (ground arith)
covers-merged (o ∷ os) (n ∷ ns) x v w = elim (position o n) [
  | before h ↦
      rw (merged_step, choose_before o n _ _ _ _ h)
        (ground (arith, covers-merged (o ∷ os) ns x v w.1))
  | after h k ↦
      rw (merged_step, choose_after o n _ _ _ _ h k)
        (ground (arith, covers-merged os (n ∷ ns) x v.1 w))
  | within h k l m ↦
      rw (merged_step, choose_within o n _ _ _ _ h k l m)
        (ground (arith, covers-merged (o ∷ os) ns x v w.1, in_range_within o n x h k))
  | overlap h k l ↦
      rw (merged_step, choose_overlap o n _ _ _ _ h k l)
        (ground (
          arith,
          covers-merged (extended o n ∷ os) ns x (ground arith, v.1) w.1,
          in_range-extended o n x v.0 w.0 h k,
        ))
]

pub ValidFrom-weaken : (lo hi : ℕ) (rs : List Range) → lo ≤ hi → ValidFrom hi rs → ValidFrom lo rs
ValidFrom-weaken lo hi [] h v = tt
ValidFrom-weaken lo hi (r ∷ rs) h v = (omega arith, v.1, v.2)

ValidFrom-All : (lo : ℕ) (rs : List Range) → ValidFrom lo rs → All (λ r. lo ≤ r.first) rs
ValidFrom-All lo [] v = tt
ValidFrom-All lo (r ∷ rs) v =
    (v.0, ValidFrom-All lo rs (ValidFrom-weaken lo (r.last + 2) rs (omega arith) v.2))

pub NoBridge-tail_new :
    (os : List Range) (n : Range) (ns : List Range) → NoBridge os (n ∷ ns) → NoBridge os ns
NoBridge-tail_new [] n ns b = tt
NoBridge-tail_new (o ∷ []) n ns b = tt
NoBridge-tail_new (o ∷ p ∷ os) n ns b = (b.0.1, NoBridge-tail_new (p ∷ os) n ns b.1)

pub NoBridge-tail_old : (o : Range) (os ns : List Range) → NoBridge (o ∷ os) ns → NoBridge os ns
NoBridge-tail_old o [] ns b = tt
NoBridge-tail_old o (p ∷ os) ns b = b.1

Apart-extended :
    (o p n : Range) (ns : List Range)
    → All (λ r. n.last + 2 ≤ r.first) ns
    → All (Apart o p) ns
    → All (Apart (extended o n) p) ns
Apart-extended o p n [] l a = tt
Apart-extended o p n (m ∷ ns) l a = (ground arith, Apart-extended o p n ns l.1 a.1)

pub NoBridge-extended :
    (o n : Range) (os ns : List Range)
    → ValidFrom (n.last + 2) ns
    → NoBridge (o ∷ os) (n ∷ ns)
    → NoBridge (extended o n ∷ os) ns
NoBridge-extended o n [] ns w b = tt
NoBridge-extended o n (p ∷ os) ns w b =
    (Apart-extended o p n ns (ValidFrom-All _ ns w) b.0.1, NoBridge-tail_new (p ∷ os) n ns b.1)

pub ValidFrom-extended :
    (lo : ℕ) (o n : Range) (os ns : List Range)
    → n.first ≤ o.last + 1
    → lo ≤ n.first
    → NoBridge (o ∷ os) (n ∷ ns)
    → ValidFrom lo (o ∷ os)
    → ValidFrom lo (extended o n ∷ os)
ValidFrom-extended lo o n [] ns h l b v = (ground arith, ground arith, tt)
ValidFrom-extended lo o n (p ∷ os) ns h l b v =
    let a : Apart o p n = b.0.0 in (ground arith, ground arith, (ground arith, v.2.1, v.2.2))

-- Where no new range reaches from one old range to the next, the merge of two valid lists is valid.
pub merged-ValidFrom :
    (lo : ℕ) (os ns : List Range)
    → NoBridge os ns
    → ValidFrom lo os
    → ValidFrom lo ns
    → ValidFrom lo (merged os ns)
merged-ValidFrom lo [] ns b v w = rw merged-nil_left w
merged-ValidFrom lo (o ∷ os) [] b v w = rw merged-nil_right v
merged-ValidFrom lo (o ∷ os) (n ∷ ns) b v w = elim (position o n) [
  | before h ↦
      rw (merged_step, choose_before o n _ _ _ _ h)
        (
          w.0,
          w.1,
          merged-ValidFrom (n.last + 2) (o ∷ os) ns (NoBridge-tail_new (o ∷ os) n ns b)
              (omega arith, v.1, v.2) w.2,
        )
  | after h k ↦
      rw (merged_step, choose_after o n _ _ _ _ h k)
        (
          v.0,
          v.1,
          merged-ValidFrom (o.last + 2) os (n ∷ ns) (NoBridge-tail_old o os (n ∷ ns) b) v.2
              (omega arith, w.1, w.2),
        )
  | within h k l m ↦
      rw (merged_step, choose_within o n _ _ _ _ h k l m)
        (merged-ValidFrom lo (o ∷ os) ns (NoBridge-tail_new (o ∷ os) n ns b) v
          (ValidFrom-weaken lo (n.last + 2) ns (omega arith) w.2))
  | overlap h k l ↦
      rw (merged_step, choose_overlap o n _ _ _ _ h k l)
        (merged-ValidFrom lo (extended o n ∷ os) ns (NoBridge-extended o n os ns w.2 b)
          (ValidFrom-extended lo o n os ns k w.0 b v)
          (ValidFrom-weaken lo (n.last + 2) ns (omega arith) w.2))
]

-- Where one does, it is not: a new range that reaches from the first old range to the second one leaves both in the
-- list, and `check_subaddress_dict` refuses what was stored.
pub merged_bridge :
    (o p n : Range) (os : List Range)
    → ValidFrom 0 (o ∷ p ∷ os)
    → Ordered n
    → n.first ≤ o.last + 1
    → p.first ≤ n.last + 1
    → ¬ ValidFrom 0 (merged (o ∷ p ∷ os) (n ∷ []))
merged_bridge o p n os v w h k =
    rw
      (
        merged_step,
        choose_overlap o n _ _ _ _ (omega arith) h (inr (omega arith)),
        merged-nil_right,
      )
      (λ valid. ground arith)
