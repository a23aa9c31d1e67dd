-- ===== src/Util/GammaPicker/Tests.antt =====
-- A chain of four blocks, and the theorem at it.
use monero_lws.Base.{◌≡◌, refl, ◌-◌, true, [], ◌∷◌, arith}
use monero_lws.Util.GammaPicker.{
  GammaPicker, Draw, picked, find_block, is_valid, spendable_upper_bound, pick_within, try_block,
  try_pick, pick,
}
use monero_lws.Util.GammaPicker.Spendable.{IsAllowed, pick-IsAllowed}

abbrev chain : GammaPicker
chain = record { rct_offsets = 2 ∷ 5 ∷ 5 ∷ 9 ∷ []; has_rate = true }

-- The least output of the block that holds the first one before the bound.
abbrev newest : Draw
newest = record { output_index = 0; rand_idx = λ n. n - 1 }

chain_bound : spendable_upper_bound 2 chain ≡ 5
unfolding spendable_upper_bound is_valid
chain_bound = refl

chain_answer : pick 2 chain (λ i. newest) ≡ picked 4
unfolding pick is_valid spendable_upper_bound try_pick try_block find_block pick_within
chain_answer = refl

chain_holds : is_valid 2 chain ≡ true
unfolding is_valid
chain_holds = refl

pick-IsAllowed_example : IsAllowed (spendable_upper_bound 2 chain) (pick 2 chain (λ i. newest))
pick-IsAllowed_example =
    pick-IsAllowed 2 chain (λ i. newest) (omega arith)
      (omega arith, (omega arith, (omega arith, (omega arith, tt)))) (omega (arith, chain_bound))
      (λ i n h. omega arith) chain_holds
