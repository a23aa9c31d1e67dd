-- ===== src/Db/Subaddress/Limit.antt =====
-- What the merge reports and counts.
use monero_lws.Base.{ℕ, ◌+◌, ◌-◌, ◌^◌, ◌≤◌, ◌<◌, ◌≡◌, List, [], ◌∷◌, arith, All}
use monero_lws.Db.Subaddress.{Range, State, extended, merge_ranges, ok}
use monero_lws.Db.Subaddress.Ranges.{
  Ordered, size, merged, merged_step, merged-nil_left, merged-nil_right, fresh, fresh_step,
  fresh-nil_left, fresh-nil_right, outside, before, after, within, overlap, position, choose_before,
  choose_after, choose_within, choose_overlap,
}
use monero_lws.Db.Subaddress.Merge.{Fits, finish, merge_ranges-finish}

size-outside :
    (o n : Range) (rest : List Range)
    → Ordered o
    → Ordered n
    → size (outside o n rest) + (o.last - o.first + 1)
      ≡ (extended o n).last - (extended o n).first + 1 + size rest
size-outside o n rest h k = ground arith

size-merged :
    (os ns : List Range)
    → All Fits os
    → All Fits ns
    → size (merged os ns) ≡ size os + size (fresh os ns)
size-merged [] ns v w = rw (merged-nil_left, fresh-nil_left) (omega arith)
size-merged (o ∷ os) [] v w = rw (merged-nil_right, fresh-nil_right) (omega arith)
size-merged (o ∷ os) (n ∷ ns) v w = elim (position o n) [
  | before h ↦
      rw (merged_step, fresh_step, choose_before o n _ _ _ _ h, choose_before o n _ _ _ _ h)
        (omega (arith, size-merged (o ∷ os) ns v w.1))
  | after h k ↦
      rw (merged_step, fresh_step, choose_after o n _ _ _ _ h k, choose_after o n _ _ _ _ h k)
        (omega (arith, size-merged os (n ∷ ns) v.1 w))
  | within h k l m ↦
      rw
        (
          merged_step,
          fresh_step,
          choose_within o n _ _ _ _ h k l m,
          choose_within o n _ _ _ _ h k l m,
        )
        (omega (arith, size-merged (o ∷ os) ns v w.1))
  | overlap h k l ↦
      rw
        (
          merged_step,
          fresh_step,
          choose_overlap o n _ _ _ _ h k l,
          choose_overlap o n _ _ _ _ h k l,
        )
        (omega (
          arith,
          size-merged (extended o n ∷ os) ns ((ground arith, ground arith), v.1) w.1,
          size-outside o n (fresh (extended o n ∷ os) ns) v.0.0 w.0.0,
        ))
]

-- Where the loop succeeds from a cleared `new_dict`, with ranges of 32-bit indexes, a limit of 32 bits and a count
-- within it, the count stays within the limit, and it has grown by as much as the number of the indexes in the stored
-- ranges `new_dict` exceeds that in the old ones, each range counted by itself.
pub merge_ranges-count :
    (max_subaddr major : ℕ) (os ns : List Range) (s t : State)
    → max_subaddr < 2 ^ 32
    → All Fits os
    → All Fits ns
    → s.count ≤ max_subaddr
    → s.new_dict ≡ []
    → merge_ranges max_subaddr major os ns s ≡ ok t
    → (t.count ≤ max_subaddr) × (t.count + size os ≡ s.count + size t.new_dict)
unfolding finish
merge_ranges-count max_subaddr major os ns s t small f g c cleared e =
    let done = rw (merge_ranges-finish max_subaddr major small os ns s f g c, cleared) at e in
    ground (arith, size-merged os ns f g)
