-- ===== src/Util/GammaPicker/Spendable.antt =====
-- The outputs that `gamma_picker` of src/util/gamma_picker.cpp can pick.
use monero_lws.Base.{
  ℕ, zero, suc, ◌+◌, ◌-◌, ◌%◌, ◌^◌, ◌≤◌, ◌<◌, ◌≡◌, refl, ◌∙◌, sym, ap, subst, arith, Bool, true,
  false, none, some, List, [], ◌∷◌, length, take, get_elem?, ltb, leb, ◌==◌, if◌then◌else◌,
  Bool-cases, inl, inr,
}
use monero_lws.Util.GammaPicker.{
  GammaPicker, Draw, Pick, picked, too_small, not_found, no_spendable, find_block, is_valid,
  bound_element, spendable_upper_bound, usable_offsets, pick_within, pick_from, try_block, try_pick,
  pick,
}

-- The offsets never fall.
abbrev pub IsAscending : ℕ → List ℕ → Type 0
IsAscending first [] = Unit {0}
IsAscending first (o ∷ os) = first ≤ o × IsAscending o os

abbrev last_from : ℕ → List ℕ → ℕ
last_from first [] = first
last_from first (o ∷ os) = last_from o os

last_from-le : (first : ℕ) (os : List ℕ) → IsAscending first os → first ≤ last_from first os
last_from-le first [] a = omega arith
last_from-le first (o ∷ os) a = omega (arith, a.0, last_from-le o os a.1)

take-IsAscending :
    (n first : ℕ) (os : List ℕ) → IsAscending first os → IsAscending first (take n os)
take-IsAscending zero first os a = tt
take-IsAscending (suc n) first [] a = tt
take-IsAscending (suc n) first (o ∷ os) a = (a.0, take-IsAscending n o os a.1)

last_from-take :
    (k first : ℕ) (os : List ℕ)
    → k < length os
    → last_from first (take (suc k) os) ≡ (elim (get_elem? os k) [ none ↦ 0 | some o ↦ o ])
last_from-take k first [] h = absurd (omega (arith, h))
last_from-take zero first (o ∷ os) h = refl
last_from-take (suc k) first (o ∷ os) h = last_from-take k o os (omega (arith, h))

-- An index that the last offset reaches is found, between two offsets.
abbrev Found : ℕ → ℕ → List ℕ → Type 0
Found first target os =
    (s : ℕ × ℕ) × ((find_block first target os ≡ some s) × (s.0 ≤ s.1 × s.1 ≤ last_from first os))

find_block-Found :
    (first target o : ℕ) (os : List ℕ)
    → IsAscending first (o ∷ os)
    → target ≤ last_from o os
    → Found first target (o ∷ os)
unfolding find_block
find_block-Found first target o [] a h = ((first, o), (ground arith, (a.0, omega arith)))
find_block-Found first target o (q ∷ os) a h = elim (Bool-cases (ltb o target)) [
  | inl e ↦ rw e (find_block-Found o target q os a.1 h)
  | inr e ↦ ((first, o), (rw e refl, (a.0, last_from-le o (q ∷ os) a.1)))
]

usable-Found :
    (k target : ℕ) (os : List ℕ)
    → k < length os
    → IsAscending 0 os
    → target ≤ last_from 0 (take (suc k) os)
    → Found 0 target (take (suc k) os)
usable-Found k target [] l a h = absurd (omega (arith, l))
usable-Found k target (o ∷ os) l a h =
    find_block-Found 0 target o (take k os) (a.0, take-IsAscending k o os a.1) h

-- What a valid picker may answer: an output below the bound, or that no try succeeded.
abbrev pub IsAllowed : ℕ → Pick → Type 0
IsAllowed bound (picked x) = x < bound
IsAllowed bound too_small = ⊥
IsAllowed bound not_found = ⊥
IsAllowed bound no_spendable = Unit {0}

-- `crypto::rand_idx` answers below its argument.
abbrev pub IsRandom : Draw → Type 0
IsRandom draw = (n : ℕ) → 0 < n → draw.rand_idx n < n

if-IsAllowed :
    (bound : ℕ) (c : Bool) (x y : Pick)
    → (c ≡ true → IsAllowed bound x)
    → (c ≡ false → IsAllowed bound y)
    → IsAllowed bound (if c then x else y)
if-IsAllowed bound true x y h l = h refl
if-IsAllowed bound false x y h l = l refl

within :
    (first selection : ℕ)
    → first ≤ selection
    → selection < 2 ^ 64
    → (selection + 2 ^ 64 - first) % 2 ^ 64 ≡ selection - first
within first selection l m = omega arith

pick_within-IsAllowed :
    (bound first selection : ℕ) (draw : Draw) (next : Pick)
    → bound < 2 ^ 64
    → first ≤ selection
    → selection ≤ bound
    → IsRandom draw
    → IsAllowed bound next
    → IsAllowed bound (pick_within first selection draw next)
unfolding pick_within
pick_within-IsAllowed bound first selection draw next b l m r h =
    subst (λ n. IsAllowed bound (if n == 0 then next else picked (first + draw.rand_idx n)))
      (sym (within first selection l (omega arith)))
      (if-IsAllowed bound (selection - first == 0) next
        (picked (first + draw.rand_idx (selection - first))) (λ e. h)
        (λ e. omega (arith, r (selection - first) (ground arith), m)))

module _ (spendable_age : ℕ) where
  try_block-within :
      (bound : ℕ) (p : GammaPicker) (draw : Draw) (next : Pick) (s : ℕ × ℕ)
      → find_block 0 (bound - 1 - draw.output_index) (usable_offsets spendable_age p) ≡ some s
      → try_block spendable_age bound p draw next ≡ pick_within s.0 s.1 draw next
  unfolding try_block
  try_block-within bound p draw next s e = ap (λ x. pick_from x draw next) e

  try_block-IsAllowed :
      (bound : ℕ) (p : GammaPicker) (draw : Draw) (next : Pick)
      → bound < 2 ^ 64
      → Found 0 (bound - 1 - draw.output_index) (usable_offsets spendable_age p)
      → last_from 0 (usable_offsets spendable_age p) ≡ bound
      → IsRandom draw
      → IsAllowed bound next
      → IsAllowed bound (try_block spendable_age bound p draw next)
  try_block-IsAllowed bound p draw next b f l r h =
      subst (λ x. IsAllowed bound x) (sym (try_block-within bound p draw next f.0 f.1.0))
        (pick_within-IsAllowed bound f.0.0 f.0.1 draw next b f.1.1.0 (omega (arith, f.1.1.1, l)) r
          h)

  try_pick-IsAllowed :
      (tries bound : ℕ) (p : GammaPicker) (draws : ℕ → Draw)
      → bound < 2 ^ 64
      → ((target : ℕ) → target ≤ bound → Found 0 target (usable_offsets spendable_age p))
      → last_from 0 (usable_offsets spendable_age p) ≡ bound
      → ((i : ℕ) → IsRandom (draws i))
      → IsAllowed bound (try_pick spendable_age tries bound p draws)
  unfolding try_pick
  try_pick-IsAllowed zero bound p draws b f l r = tt
  try_pick-IsAllowed (suc tries) bound p draws b f l r =
      if-IsAllowed bound (leb bound (draws tries).output_index) _ _
        (λ e. try_pick-IsAllowed tries bound p draws b f l r)
        (λ e.
          try_block-IsAllowed bound p (draws tries) _ b (f _ (omega arith)) l (r tries)
            (try_pick-IsAllowed tries bound p draws b f l r))

  usable-last :
      (p : GammaPicker)
      → 0 < spendable_age
      → spendable_age ≤ length p.rct_offsets
      → last_from 0 (usable_offsets spendable_age p) ≡ bound_element spendable_age p
  usable-last p h l =
      subst (λ k. last_from 0 (take k p.rct_offsets) ≡ bound_element spendable_age p) next
        (last_from-take (length p.rct_offsets - spendable_age) 0 p.rct_offsets (omega arith))
    where
      next : suc (length p.rct_offsets - spendable_age) ≡ length p.rct_offsets - spendable_age + 1
      next = omega arith

  offsets-Found :
      (p : GammaPicker) (target : ℕ)
      → 0 < spendable_age
      → spendable_age ≤ length p.rct_offsets
      → IsAscending 0 p.rct_offsets
      → target ≤ last_from 0 (usable_offsets spendable_age p)
      → Found 0 target (usable_offsets spendable_age p)
  offsets-Found p target h l a m =
      subst (λ k. Found 0 target (take k p.rct_offsets)) next
        (usable-Found (length p.rct_offsets - spendable_age) target p.rct_offsets (omega arith) a
          (subst (λ k. target ≤ last_from 0 (take k p.rct_offsets)) (sym next) m))
    where
      next : suc (length p.rct_offsets - spendable_age) ≡ length p.rct_offsets - spendable_age + 1
      next = omega arith

  is_valid-length :
      (p : GammaPicker)
      → 0 < spendable_age
      → is_valid spendable_age p ≡ true
      → spendable_age ≤ length p.rct_offsets
  unfolding is_valid
  is_valid-length p h v = ground arith

  pick-valid :
      (p : GammaPicker) (draws : ℕ → Draw)
      → is_valid spendable_age p ≡ true
      → pick spendable_age p draws
        ≡ try_pick spendable_age 100 (spendable_upper_bound spendable_age p) p draws
  unfolding pick
  pick-valid p draws v = rw v refl

  upper-valid :
      (p : GammaPicker)
      → is_valid spendable_age p ≡ true
      → spendable_upper_bound spendable_age p ≡ bound_element spendable_age p
  unfolding spendable_upper_bound
  upper-valid p v = rw v refl

  -- Where the offsets never fall and have 64 bits, and each `rand_idx` answers below its argument, a valid
  -- picker answers with an output below `spendable_upper_bound`, or no try of the hundred succeeds; the
  -- search for the block never reaches the end.
  pub pick-IsAllowed :
      (p : GammaPicker) (draws : ℕ → Draw)
      → 0 < spendable_age
      → IsAscending 0 p.rct_offsets
      → spendable_upper_bound spendable_age p < 2 ^ 64
      → ((i : ℕ) → IsRandom (draws i))
      → is_valid spendable_age p ≡ true
      → IsAllowed (spendable_upper_bound spendable_age p) (pick spendable_age p draws)
  pick-IsAllowed p draws h a b r v =
      subst (λ x. IsAllowed (spendable_upper_bound spendable_age p) x) (sym (pick-valid p draws v))
        (try_pick-IsAllowed 100 (spendable_upper_bound spendable_age p) p draws b
          (λ target l. offsets-Found p target h (is_valid-length p h v) a (omega (arith, l, last)))
          last r)
    where
      last : last_from 0 (usable_offsets spendable_age p) ≡ spendable_upper_bound spendable_age p
      last = usable-last p h (is_valid-length p h v) ∙ sym (upper-valid p v)
