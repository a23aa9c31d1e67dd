-- ===== src/Util/RandomOutputs.antt =====
-- src/util/random_outputs.cpp: `pick_all` and `triangular_pick`, which choose outputs of an amount before RingCT.
-- `expect<void>` is a result, with the refs that the span has then. The index that each round of the inner loop
-- computes from a random number with floating point is a parameter: the candidates of an entry, in order.
pub mod Triangular
mod Tests
use monero_lws.Base.{
  ℕ, zero, suc, ◌+◌, Option, none, some, List, [], ◌∷◌, ltb, ◌==◌, if◌then◌else◌, length,
}
use monero_lws.Base.Results.{Result, ok, err}

pub record OutputRef : Type 0 where
  pub amount : ℕ
  pub index : ℕ

-- The fields of the daemon's `output_amount_count` that are used.
pub record Histogram : Type 0 where
  pub amount : ℕ
  pub total_count : ℕ
  pub unlocked_count : ℕ

pub data PickError : Type 0 where
  precondition not_enough_mixin : PickError

-- The loop of `pick_all`, from `index` on, over that many entries.
unfoldable pub pick_all_from : ℕ → ℕ → ℕ → List OutputRef
pick_all_from index zero amount = []
pick_all_from index (suc entries) amount =
    record { amount = amount; index = index } ∷ pick_all_from (index + 1) entries amount

unfoldable pub pick_all : ℕ → ℕ → List OutputRef
pick_all entries amount = pick_all_from 0 entries amount

-- The inner loop; `none` while every candidate was refused.
unfoldable pub pick_index : ℕ → List ℕ → Option ℕ
pick_index unlocked_count [] = none
pick_index unlocked_count (c ∷ cs) =
    if ltb unlocked_count c then pick_index unlocked_count cs else some c

-- One entry before the others.
abbrev pub add_entry : ℕ → Option ℕ → Option (List OutputRef) → Option (List OutputRef)
add_entry amount none refs = none
add_entry amount (some index) none = none
add_entry amount (some index) (some refs) = some (record { amount = amount; index = index } ∷ refs)

-- The outer loop, over as many entries as there are lists of candidates.
unfoldable pub pick_each : Histogram → List (List ℕ) → Option (List OutputRef)
pick_each hist [] = some []
pick_each hist (cs ∷ more) =
    add_entry hist.amount (pick_index hist.unlocked_count cs) (pick_each hist more)

-- `none` where `pick_each` has not returned yet.
abbrev pub returned : Option (List OutputRef) → Option (Result PickError (List OutputRef))
returned none = none
returned (some refs) = some (ok refs)

-- `triangular_pick` with a list of candidates for each entry of `out`; `none` where it has not returned yet.
unfoldable pub triangular_pick :
    Histogram → List (List ℕ) → Option (Result PickError (List OutputRef))
triangular_pick hist out =
    if ltb hist.total_count hist.unlocked_count
    then some (err precondition)
    else (if ltb hist.unlocked_count (length out)
        then some (err not_enough_mixin)
        else (if hist.unlocked_count == length out
            then some (ok (pick_all (length out) hist.amount))
            else returned (pick_each hist out)))
