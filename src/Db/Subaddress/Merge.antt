-- ===== src/Db/Subaddress/Merge.antt =====
-- The loop of `do_upsert` computes the merge of the ranges, and its limit is on the indexes that it reports.
use mathlib.Core.List.{append-nil, append_assoc}
use native.Mathlib.Decide.{dec_le}
use monero_lws.Base.{
  ℕ, ◌+◌, ◌-◌, ◌^◌, ◌≤◌, ◌<◌, ◌≡◌, refl, sym, ◌∙◌, inl, inr, List, [], ◌∷◌, ◌++◌, ltb, leb,
  if◌then◌else◌, arith, All, Bool-cases,
}
use monero_lws.Db.Subaddress.{
  Range, Dict, State, Result, ok, err, max_subaddresses, add_out, check_max_range, push_dict,
  push_out, insert_new, insert_rest, extend_first, extend_last, extended, merge_ranges, ◌>>=◌,
}
use monero_lws.Db.Subaddress.Ranges.{
  size, merged, fresh, behind, outside, merged_step, fresh_step, before, after, within, overlap,
  choose, position, choose_before, choose_after, choose_within, choose_overlap,
}

-- A range of 32-bit indexes in order.
abbrev pub Fits : Range → Type 0
Fits r = (r.first ≤ r.last) × (r.last < 2 ^ 32)

abbrev width : Range → ℕ
width r = r.last - r.first + 1

-- The reports of a list of ranges, one after the other.
unfoldable pub report : ℕ → List Range → List Dict → List Dict
report major [] out = out
report major (r ∷ rs) out = report major rs (add_out out major r)

-- What the loop does: it fails if the reported indexes do not fit under the limit, and stores the merge otherwise.
unfoldable pub finish : ℕ → ℕ → List Range → List Range → State → Result State
finish max_subaddr major dict reported s =
    if leb (s.count + size reported) max_subaddr
    then ok (record {
      count = s.count + size reported;
      new_dict = s.new_dict ++ dict;
      out = report major reported s.out;
    })
    else err max_subaddresses

>>=-assoc :
    {A B C : Type 0} (m : Result A) (f : A → Result B) (g : B → Result C)
    → (m >>= f >>= g) ≡ (m >>= λ a. f a >>= g)
>>=-assoc (ok a) f g = refl
>>=-assoc (err e) f g = refl

module _ (max_subaddr major : ℕ) (small : max_subaddr < 2 ^ 32) where
  check_ok :
      (r : Range) (s : State)
      → Fits r
      → s.count + width r ≤ max_subaddr
      → check_max_range max_subaddr r s ≡ ok (record s { count = s.count + width r })
  unfolding check_max_range
  check_ok r s f h = ground arith

  check_err :
      (r : Range) (s : State)
      → Fits r
      → s.count ≤ max_subaddr
      → max_subaddr < s.count + width r
      → check_max_range max_subaddr r s ≡ err max_subaddresses
  unfolding check_max_range
  check_err r s f c h = ground arith

  finish_err :
      (d rep : List Range) (s : State)
      → max_subaddr < s.count + size rep
      → finish max_subaddr major d rep s ≡ err max_subaddresses
  unfolding finish
  finish_err d rep s h = ground arith

  finish-push_dict :
      (o : Range) (d rep : List Range) (s : State)
      → finish max_subaddr major d rep (push_dict o s) ≡ finish max_subaddr major (o ∷ d) rep s
  unfolding finish
  finish-push_dict o d rep s = ground (arith, append_assoc s.new_dict (o ∷ []) d)

  finish-push_out :
      (r : Range) (d rep : List Range) (s : State)
      → finish max_subaddr major d rep (push_out major r (record s { count = s.count + width r }))
        ≡ finish max_subaddr major d (r ∷ rep) s
  unfolding finish report
  finish-push_out r d rep s = ground arith

  -- A range that is checked and reported before the rest.
  finish-check :
      (r : Range) (d rep : List Range) (s : State) (k : State → Result State)
      → Fits r
      → s.count ≤ max_subaddr
      → ((t : State) → t.count ≤ max_subaddr → k t ≡ finish max_subaddr major d rep t)
      → (check_max_range max_subaddr r s >>= λ t. k (push_out major r t))
        ≡ finish max_subaddr major d (r ∷ rep) s
  finish-check r d rep s k f c rest = elim (dec_le (s.count + width r) max_subaddr) [
    | yes h ↦ rw (check_ok r s f h) (rest _ h ∙ finish-push_out r d rep s)
    | no h ↦ rw (check_err r s f c (omega arith)) (sym (finish_err d (r ∷ rep) s (omega arith)))
  ]

  finish-insert_new :
      (n : Range) (d rep : List Range) (s : State) (k : State → Result State)
      → Fits n
      → s.count ≤ max_subaddr
      → ((t : State) → t.count ≤ max_subaddr → k t ≡ finish max_subaddr major d rep t)
      → (insert_new max_subaddr major n s >>= k) ≡ finish max_subaddr major (n ∷ d) (n ∷ rep) s
  unfolding insert_new
  finish-insert_new n d rep s k f c rest =
      >>=-assoc (check_max_range max_subaddr n s) _ k
      ∙ finish-check n (n ∷ d) rep s (λ t. k (push_dict n t)) f c
          (λ t h. rest (push_dict n t) h ∙ finish-push_dict n d rep t)

  finish-insert_rest :
      (ns : List Range) (s : State)
      → All Fits ns
      → s.count ≤ max_subaddr
      → insert_rest max_subaddr major ns s ≡ finish max_subaddr major ns ns s
  unfolding insert_rest
  finish-insert_rest [] s f c = unfold finish report in ground (arith, append-nil s.new_dict)
  finish-insert_rest (n ∷ ns) s f c =
      finish-insert_new n ns ns s (insert_rest max_subaddr major ns) f.0 c
        (λ t. finish-insert_rest ns t f.1)

  finish-extend_last :
      (o n : Range) (d rep : List Range) (s : State) (k : State → Result State)
      → Fits n
      → s.count ≤ max_subaddr
      → ((t : State) → t.count ≤ max_subaddr → k t ≡ finish max_subaddr major d rep t)
      → (extend_last max_subaddr major o n s >>= k) ≡ finish max_subaddr major d (behind o n rep) s
  unfolding extend_last
  finish-extend_last o n d rep s k f c rest = elim (Bool-cases (ltb o.last n.last)) [
    | inl e ↦ rw e (
        >>=-assoc (check_max_range max_subaddr (record { first = o.last + 1; last = n.last }) s) _ k
        ∙ finish-check _ d rep s k (ground arith, f.1) c rest)
    | inr e ↦ rw e (rest s c)
  ]

  finish-extend_first :
      (o n : Range) (d rep : List Range) (s : State) (k : State → Result State)
      → Fits o
      → s.count ≤ max_subaddr
      → ((t : State) → t.count ≤ max_subaddr → k t ≡ finish max_subaddr major d (behind o n rep) t)
      → (extend_first max_subaddr major o n s >>= k)
        ≡ finish max_subaddr major d (outside o n rep) s
  unfolding extend_first
  finish-extend_first o n d rep s k f c rest = elim (Bool-cases (ltb n.first o.first)) [
    | inl e ↦ rw e (
        >>=-assoc (check_max_range max_subaddr (record { first = n.first; last = o.first - 1 }) s) _
          k
        ∙ finish-check _ d (behind o n rep) s k (ground arith, ground arith) c rest)
    | inr e ↦ rw e (rest s c)
  ]

  merge_step :
      (o n : Range) (os ns : List Range) (s : State)
      → merge_ranges max_subaddr major (o ∷ os) (n ∷ ns) s
        ≡ choose o n
            (insert_new max_subaddr major n s >>= merge_ranges max_subaddr major (o ∷ os) ns)
            (merge_ranges max_subaddr major os (n ∷ ns) (push_dict o s))
            (merge_ranges max_subaddr major (o ∷ os) ns s)
            (extend_first max_subaddr major o n s >>= λ s'.
              extend_last max_subaddr major o n s'
              >>= merge_ranges max_subaddr major (extended o n ∷ os) ns)
  unfolding merge_ranges
  merge_step o n os ns s = refl

  -- On ranges of 32-bit indexes, with a limit of 32 bits that is not yet exceeded, the loop stores the merge of the
  -- old and the new ranges and reports and counts the fresh ones, exactly if the count stays within the limit;
  -- otherwise it fails with `max_subaddresses`.
  pub merge_ranges-finish :
      (os ns : List Range) (s : State)
      → All Fits os
      → All Fits ns
      → s.count ≤ max_subaddr
      → merge_ranges max_subaddr major os ns s
        ≡ finish max_subaddr major (merged os ns) (fresh os ns) s
  merge_ranges-finish [] ns s f g c =
      unfold merge_ranges merged fresh in finish-insert_rest ns s g c
  merge_ranges-finish (o ∷ os) [] s f g c =
      unfold merge_ranges merged fresh finish report in ground arith
  merge_ranges-finish (o ∷ os) (n ∷ ns) s f g c = elim (position o n) [
    | before h ↦
        rw
          (
            merge_step,
            merged_step,
            fresh_step,
            choose_before o n _ _ _ _ h,
            choose_before o n _ _ _ _ h,
            choose_before o n _ _ _ _ h,
          )
          (finish-insert_new n _ _ s _ g.0 c (λ t. merge_ranges-finish (o ∷ os) ns t f g.1))
    | after h k ↦
        rw
          (
            merge_step,
            merged_step,
            fresh_step,
            choose_after o n _ _ _ _ h k,
            choose_after o n _ _ _ _ h k,
            choose_after o n _ _ _ _ h k,
          )
          (merge_ranges-finish os (n ∷ ns) (push_dict o s) f.1 g c ∙ finish-push_dict o _ _ s)
    | within h k l m ↦
        rw
          (
            merge_step,
            merged_step,
            fresh_step,
            choose_within o n _ _ _ _ h k l m,
            choose_within o n _ _ _ _ h k l m,
            choose_within o n _ _ _ _ h k l m,
          )
          (merge_ranges-finish (o ∷ os) ns s f g.1 c)
    | overlap h k l ↦
        rw
          (
            merge_step,
            merged_step,
            fresh_step,
            choose_overlap o n _ _ _ _ h k l,
            choose_overlap o n _ _ _ _ h k l,
            choose_overlap o n _ _ _ _ h k l,
          )
          (finish-extend_first o n _ _ s _ f.0 c (λ t d. finish-extend_last o n _ _ t _ g.0 d (λ u.
            merge_ranges-finish (extended o n ∷ os) ns u ((ground arith, ground arith), f.1) g.1)))
  ]
