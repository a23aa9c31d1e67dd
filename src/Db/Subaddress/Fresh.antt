-- ===== src/Db/Subaddress/Fresh.antt =====
-- The reported ranges: the new indexes that were not there before.
use monero_lws.Base.{ℕ, ◌+◌, ◌≤◌, ◌<◌, ◌≡◌, refl, false, not, ◌&&◌, ◌||◌, List, [], ◌∷◌, arith}
use monero_lws.Db.Subaddress.{Range, extended}
use monero_lws.Db.Subaddress.Ranges.{
  Ordered, ValidFrom, in_range, covers, fresh, fresh_step, fresh-nil_left, fresh-nil_right, outside,
  Apart, NoBridge, before, after, within, overlap, position, choose_before, choose_after,
  choose_within, choose_overlap,
}
use monero_lws.Db.Subaddress.Union.{
  in_range_within, in_range-extended, NoBridge-tail_new, NoBridge-tail_old, NoBridge-extended,
  ValidFrom-extended,
}

covers_below : (lo x : ℕ) (rs : List Range) → x < lo → ValidFrom lo rs → covers rs x ≡ false
unfolding in_range
covers_below lo x [] h v = refl
covers_below lo x (r ∷ rs) h v = ground (arith, covers_below (r.last + 2) x rs)

in_range-covers :
    (n : Range) (x lo : ℕ) (rs : List Range)
    → n.last < lo
    → ValidFrom lo rs
    → (in_range n x && covers rs x) ≡ false
unfolding in_range
in_range-covers n x lo rs h v = ground (arith, covers_below lo x rs)

NoBridge-covers :
    (o n : Range) (x : ℕ) (os ns : List Range)
    → n.first ≤ o.last + 1
    → NoBridge (o ∷ os) (n ∷ ns)
    → ValidFrom (o.last + 2) os
    → (in_range n x && covers os x) ≡ false
NoBridge-covers o n x [] ns h b v = ground arith
NoBridge-covers o n x (p ∷ os) ns h b v =
    let a : Apart o p n = b.0.0 in
    in_range-covers n x p.first (p ∷ os) (ground arith) (omega arith, v.1, v.2)

covers-outside :
    (o n : Range) (x : ℕ) (rest : List Range)
    → Ordered o
    → Ordered n
    → o.first ≤ n.last + 1
    → n.first ≤ o.last + 1
    → covers (outside o n rest) x ≡ ((in_range n x && not (in_range o x)) || covers rest x)
unfolding in_range
covers-outside o n x rest v w h k = ground arith

-- Where the old and the new list are valid and no new range reaches from one old range to the next, the merge
-- reports exactly the new indexes that no old range covers.
pub covers-fresh :
    (lo hi : ℕ) (os ns : List Range) (x : ℕ)
    → NoBridge os ns
    → ValidFrom lo os
    → ValidFrom hi ns
    → covers (fresh os ns) x ≡ (covers ns x && not (covers os x))
covers-fresh lo hi [] ns x b v w = rw fresh-nil_left (ground arith)
covers-fresh lo hi (o ∷ os) [] x b v w = rw fresh-nil_right refl
covers-fresh lo hi (o ∷ os) (n ∷ ns) x b v w = elim (position o n) [
  | before h ↦
      rw (fresh_step, choose_before o n _ _ _ _ h)
        (ground (
          arith,
          covers-fresh lo (n.last + 2) (o ∷ os) ns x (NoBridge-tail_new (o ∷ os) n ns b) v w.2,
          in_range-covers n x o.first (o ∷ os) (omega arith) (omega arith, v.1, v.2),
        ))
  | after h k ↦
      rw (fresh_step, choose_after o n _ _ _ _ h k)
        (ground (
          arith,
          covers-fresh (o.last + 2) hi os (n ∷ ns) x (NoBridge-tail_old o os (n ∷ ns) b) v.2 w,
          in_range-covers o x n.first (n ∷ ns) (omega arith) (omega arith, w.1, w.2),
        ))
  | within h k l m ↦
      rw (fresh_step, choose_within o n _ _ _ _ h k l m)
        (ground (
          arith,
          covers-fresh lo (n.last + 2) (o ∷ os) ns x (NoBridge-tail_new (o ∷ os) n ns b) v w.2,
          in_range_within o n x h k,
        ))
  | overlap h k l ↦
      rw (fresh_step, choose_overlap o n _ _ _ _ h k l)
        (ground (
          arith,
          covers-outside o n x (fresh (extended o n ∷ os) ns) v.1 w.1 h k,
          in_range-extended o n x v.1 w.1 h k,
          NoBridge-covers o n x os ns k b v.2,
          in_range-covers n x (n.last + 2) ns (omega arith) w.2,
          covers-fresh 0 (n.last + 2) (extended o n ∷ os) ns x (NoBridge-extended o n os ns w.2 b)
              (ValidFrom-extended 0 o n os ns k (omega arith) b (omega arith, v.1, v.2)) w.2,
        ))
]
