-- ===== src/Util/RandomOutputs/Tests.antt =====
-- An amount with three unlocked outputs of four, and the theorems at it.
use monero_lws.Base.{◌≡◌, refl, some, [], ◌∷◌}
use monero_lws.Base.Results.{ok}
use monero_lws.Util.RandomOutputs.{OutputRef, Histogram, pick_index, pick_each, triangular_pick}
use monero_lws.Util.RandomOutputs.Triangular.{ArePicked, triangular_pick-ArePicked}

abbrev dust : Histogram
dust = record { amount = 7; total_count = 4; unlocked_count = 3 }

abbrev second : OutputRef
second = record { amount = 7; index = 1 }

dust_answer : triangular_pick dust ((5 ∷ 1 ∷ []) ∷ []) ≡ some (ok (second ∷ []))
unfolding triangular_pick pick_each pick_index
dust_answer = refl

triangular_pick-ArePicked_example : ArePicked dust 1 (second ∷ [])
triangular_pick-ArePicked_example =
    triangular_pick-ArePicked dust ((5 ∷ 1 ∷ []) ∷ []) (second ∷ []) dust_answer
