-- ===== src/Db/Subaddress/Stored.antt =====
-- What the loop of `do_upsert` leaves in `new_dict` and `out`, where it starts with a cleared `new_dict`.
use monero_lws.Base.{
  ℕ, ◌^◌, ◌+◌, ◌++◌, ◌≤◌, ◌<◌, ◌≡◌, true, false, ◌&&◌, ◌||◌, not, List, [], ◌∷◌, All, arith,
  Bool-cases, inl, inr,
}
use monero_lws.Db.Subaddress.{Range, State, ok, merge_ranges, check_subaddress_dict}
use monero_lws.Db.Subaddress.Ranges.{
  Ordered, ValidFrom, covers, merged, fresh, NoBridge, check_subaddress_dict_iff,
}
use monero_lws.Db.Subaddress.Union.{covers-merged, merged-ValidFrom, merged_bridge}
use monero_lws.Db.Subaddress.Merge.{Fits, report, finish, merge_ranges-finish}
use monero_lws.Db.Subaddress.Fresh.{covers-fresh}
use monero_lws.Db.Subaddress.Reported.{ranges_under, ranges_under-report, ranges_under-report_other}

All-Ordered : (rs : List Range) → All Fits rs → All Ordered rs
All-Ordered [] f = tt
All-Ordered (r ∷ rs) f = (f.0.0, All-Ordered rs f.1)

module _ (max_subaddr major : ℕ) (os ns : List Range) (s t : State) (small : max_subaddr < 2 ^ 32)
    (old : All Fits os) (new : All Fits ns) (room : s.count ≤ max_subaddr)
    (cleared : s.new_dict ≡ []) (done : merge_ranges max_subaddr major os ns s ≡ ok t) where
  stored : (t.new_dict ≡ merged os ns) × (t.out ≡ report major (fresh os ns) s.out)
  unfolding finish
  stored =
      let e =
        rw (merge_ranges-finish max_subaddr major small os ns s old new room, cleared) at done in
      ground arith

  -- The stored ranges cover every index that an old or a new range covers, and no other.
  pub stored-covers : (x : ℕ) → covers t.new_dict x ≡ (covers os x || covers ns x)
  stored-covers x = rw (stored.0) (covers-merged os ns x (All-Ordered os old) (All-Ordered ns new))

  -- If the old and the new ranges are valid and no new range reaches from one old range to the next, what is stored is
  -- valid again: `check_subaddress_dict` accepts it.
  pub stored_valid :
      NoBridge os ns
      → ValidFrom 0 os
      → ValidFrom 0 ns
      → check_subaddress_dict (record { major = major; ranges = t.new_dict }) ≡ true
  stored_valid apart v w =
      (check_subaddress_dict_iff (record { major = major; ranges = t.new_dict })).1
        (rw (stored.0) (merged-ValidFrom 0 os ns apart v w))

  -- Where the loop of `do_upsert` succeeds from a cleared `new_dict`, with ranges of 32-bit indexes, a limit of 32
  -- bits and a count within it, the old and the new ranges are valid, and no new range reaches from one old range to
  -- the next, some ranges that cover exactly the new indexes that no old range covers are put behind those that `out`
  -- has under the major index, and what `out` has under any other major index stays.
  pub reported_fresh :
      NoBridge os ns
      → ValidFrom 0 os
      → ValidFrom 0 ns
      → (rep : List Range) × (ranges_under major t.out ≡ ranges_under major s.out ++ rep)
        × (((k : ℕ) → ¬ k ≡ major → ranges_under k t.out ≡ ranges_under k s.out)
            × ((x : ℕ) → covers rep x ≡ (covers ns x && not (covers os x))))
  reported_fresh apart v w = (
    fresh os ns,
    rw (stored.1) (ranges_under-report major (fresh os ns) s.out),
    (
      λ k differs. rw (stored.1) (ranges_under-report_other major k (fresh os ns) s.out differs),
      λ x. covers-fresh 0 0 os ns x apart v w,
    ),
  )

-- A new range that touches or overlaps two neighbouring old ranges, the first two of the list, is stored so that
-- `check_subaddress_dict` refuses the result.
pub stored_bridge :
    (max_subaddr major : ℕ) (o p n : Range) (os : List Range) (s t : State)
    → max_subaddr < 2 ^ 32
    → All Fits (o ∷ p ∷ os)
    → Fits n
    → s.count ≤ max_subaddr
    → s.new_dict ≡ []
    → ValidFrom 0 (o ∷ p ∷ os)
    → n.first ≤ o.last + 1
    → p.first ≤ n.last + 1
    → merge_ranges max_subaddr major (o ∷ p ∷ os) (n ∷ []) s ≡ ok t
    → check_subaddress_dict (record { major = major; ranges = t.new_dict }) ≡ false
stored_bridge max_subaddr major o p n os s t small f g room cleared v h k done =
    elim (Bool-cases (check_subaddress_dict (record { major = major; ranges = t.new_dict }))) [
      | inl e ↦ absurd (
          merged_bridge o p n os v g.0 h k (
            rw
              ((stored max_subaddr major (o ∷ p ∷ os) (n ∷ []) s t small f (g, tt) room cleared
                done).0)
              at ((check_subaddress_dict_iff (record { major = major; ranges = t.new_dict })).0 e)))
      | inr e ↦ e
    ]
