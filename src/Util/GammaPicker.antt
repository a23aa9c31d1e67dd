-- ===== src/Util/GammaPicker.antt =====
-- src/util/gamma_picker.h and gamma_picker.cpp: `gamma_picker`, which picks an output for a ring.
-- Floating point is left to parameters: `has_rate` is `0.f < outputs_per_second`, and a draw is the `output_index` that
-- one try computes from the gamma distribution, with the `crypto::rand_idx` of that try. `spendable_age` is the constant
-- CRYPTONOTE_DEFAULT_TX_SPENDABLE_AGE of the Monero sources, which the source asserts to be positive.
pub mod Spendable
mod Tests
use monero_lws.Base.{
  ℕ, zero, suc, ◌+◌, ◌-◌, ◌%◌, ◌^◌, Bool, ◌&&◌, Option, none, some, List, [], ◌∷◌, length, take,
  get_elem?, ltb, leb, ◌==◌, if◌then◌else◌,
}

-- `rct_offsets` has the number of outputs up to each block, that block included.
pub record GammaPicker : Type 0 where
  pub rct_offsets : List ℕ
  pub has_rate : Bool

pub record Draw : Type 0 where
  pub output_index : ℕ
  pub rand_idx : ℕ → ℕ

-- What the call operator returns or throws.
pub data Pick : Type 0 where
  picked : ℕ → Pick
  too_small not_found no_spendable : Pick

-- `std::lower_bound` of the index: the offset before the one that it stops at, 0 at the begin, and that one.
unfoldable pub find_block : ℕ → ℕ → List ℕ → Option (ℕ × ℕ)
find_block first target [] = none
find_block first target (o ∷ os) = if ltb o target then find_block o target os else some (first, o)

-- One of the outputs of the block, if it has any.
unfoldable pub pick_within : ℕ → ℕ → Draw → Pick → Pick
pick_within first_rct selection draw next =
    let n_rct = (selection + 2 ^ 64 - first_rct) % 2 ^ 64 in
    if n_rct == 0 then next else picked (first_rct + draw.rand_idx n_rct)

-- The block that was found, or the throw where the search reached the end.
abbrev pub pick_from : Option (ℕ × ℕ) → Draw → Pick → Pick
pick_from none draw next = not_found
pick_from (some s) draw next = pick_within s.0 s.1 draw next

module _ (spendable_age : ℕ) where
  unfoldable pub is_valid : GammaPicker → Bool
  is_valid p = ltb (spendable_age - 1) (length p.rct_offsets) && p.has_rate

  -- The element at `end() - spendable_age`, which is there in a valid picker.
  abbrev pub bound_element : GammaPicker → ℕ
  bound_element p = elim (get_elem? p.rct_offsets (length p.rct_offsets - spendable_age)) [
    | none ↦ 0
    | some o ↦ o
  ]

  unfoldable pub spendable_upper_bound : GammaPicker → ℕ
  spendable_upper_bound p = if is_valid p then bound_element p else 0

  -- The offsets up to `end`.
  abbrev pub usable_offsets : GammaPicker → List ℕ
  usable_offsets p = take (length p.rct_offsets - spendable_age + 1) p.rct_offsets

  -- A try, with what the next ones make of it.
  unfoldable pub try_block : ℕ → GammaPicker → Draw → Pick → Pick
  try_block num_rct_outputs p draw next =
      pick_from (find_block 0 (num_rct_outputs - 1 - draw.output_index) (usable_offsets p)) draw
        next

  unfoldable pub try_pick : ℕ → ℕ → GammaPicker → (ℕ → Draw) → Pick
  try_pick zero num_rct_outputs p draws = no_spendable
  try_pick (suc tries) num_rct_outputs p draws =
      let next = try_pick tries num_rct_outputs p draws in
      if leb num_rct_outputs (draws tries).output_index
      then next
      else try_block num_rct_outputs p (draws tries) next

  -- `operator()`: a hundred tries, each with its own draw.
  unfoldable pub pick : GammaPicker → (ℕ → Draw) → Pick
  pick p draws = if is_valid p then try_pick 100 (spendable_upper_bound p) p draws else too_small
