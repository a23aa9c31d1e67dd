-- ===== src/Db/Subaddress/Tests.antt =====
-- Merges of concrete ranges, and the theorems at them.
use monero_lws.Base.{
  ℕ, ◌++◌, ◌+◌, ◌≡◌, refl, ◌≤◌, ◌&&◌, ◌||◌, not, ◌↔◌, true, false, List, [], ◌∷◌, arith,
}
use monero_lws.Db.Subaddress.{
  Range, State, ok, err, max_subaddresses, check_subaddress_dict, check_ranges, add_out,
  merge_ranges,
}
use monero_lws.Db.Subaddress.Ranges.{
  ValidFrom, covers, size, merged, fresh, check_subaddress_dict_iff,
}
use monero_lws.Db.Subaddress.Merge.{finish, merge_ranges-finish}
use monero_lws.Db.Subaddress.Reported.{ranges_under}
use monero_lws.Db.Subaddress.Limit.{merge_ranges-count}
use monero_lws.Db.Subaddress.Stored.{stored-covers, stored_valid, reported_fresh, stored_bridge}

abbrev range : ℕ → ℕ → Range
range a b = record { first = a; last = b }

abbrev old : List Range
old = range 0 9 ∷ range 20 29 ∷ []

abbrev new : List Range
new = range 5 14 ∷ range 40 49 ∷ []

abbrev start : State
start = record { count = 20; new_dict = []; out = [] }

abbrev after_merge : State
after_merge = record {
  count = 35;
  new_dict = range 0 14 ∷ range 20 29 ∷ range 40 49 ∷ [];
  out = record { major = 0; ranges = range 10 14 ∷ range 40 49 ∷ [] } ∷ [];
}

merge_run : merge_ranges 50 0 old new start ≡ ok after_merge
unfolding merge_ranges add_out
merge_run = refl

-- Fifteen indexes are new: a limit of 34 is too low.
merge_limit : merge_ranges 34 0 old new start ≡ err max_subaddresses
unfolding merge_ranges add_out
merge_limit = refl

abbrev bridged : State
bridged = record {
  count = 36;
  new_dict = range 0 25 ∷ range 20 29 ∷ [];
  out = record { major = 0; ranges = range 10 25 ∷ [] } ∷ [];
}

-- A range from the first old range to the second: the result is refused by the check.
merge_bad : merge_ranges 50 0 old (range 5 25 ∷ []) start ≡ ok bridged
unfolding merge_ranges add_out
merge_bad = refl

bad_refused :
    check_subaddress_dict (record { major = 0; ranges = range 0 25 ∷ range 20 29 ∷ [] }) ≡ false
unfolding check_subaddress_dict check_ranges
bad_refused = refl

check_subaddress_dict_iff_example :
    (check_subaddress_dict (record { major = 0; ranges = old }) ≡ true) ↔ ValidFrom 0 old
check_subaddress_dict_iff_example = check_subaddress_dict_iff (record { major = 0; ranges = old })

merge_ranges-finish_example :
    merge_ranges 50 0 old new start ≡ finish 50 0 (merged old new) (fresh old new) start
merge_ranges-finish_example =
    merge_ranges-finish 50 0 (omega arith) old new start (omega arith) (omega arith) (omega arith)

merge_ranges-count_example :
    (after_merge.count ≤ 50)
    × (after_merge.count + size old ≡ start.count + size after_merge.new_dict)
merge_ranges-count_example =
    merge_ranges-count 50 0 old new start after_merge (omega arith) (omega arith) (omega arith)
      (omega arith) refl merge_run

stored-covers_example : covers after_merge.new_dict 12 ≡ (covers old 12 || covers new 12)
stored-covers_example =
    stored-covers 50 0 old new start after_merge (omega arith) (omega arith) (omega arith)
      (omega arith) refl merge_run 12

stored_valid_example :
    check_subaddress_dict (record { major = 0; ranges = after_merge.new_dict }) ≡ true
stored_valid_example =
    stored_valid 50 0 old new start after_merge (omega arith) (omega arith) (omega arith)
      (omega arith) refl merge_run (omega arith) (omega arith) (omega arith)

reported_fresh_example :
    (rep : List Range) × (ranges_under 0 after_merge.out ≡ ranges_under 0 start.out ++ rep)
    × (((k : ℕ) → ¬ k ≡ 0 → ranges_under k after_merge.out ≡ ranges_under k start.out)
        × ((x : ℕ) → covers rep x ≡ (covers new x && not (covers old x))))
reported_fresh_example =
    reported_fresh 50 0 old new start after_merge (omega arith) (omega arith) (omega arith)
      (omega arith) refl merge_run (omega arith) (omega arith) (omega arith)

stored_bridge_example :
    check_subaddress_dict (record { major = 0; ranges = bridged.new_dict }) ≡ false
stored_bridge_example =
    stored_bridge 50 0 (range 0 9) (range 20 29) (range 5 25) [] start bridged (omega arith)
      (omega arith) (omega arith) (omega arith) refl (omega arith) (omega arith) (omega arith)
      merge_bad
