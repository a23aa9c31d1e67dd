-- ===== src/Wire/Msgpack/Halting.antt =====
-- `skip_value` of src/wire/msgpack/read.cpp ends on any bytes.
use monero_lws.Base.{
  ℕ, zero, suc, ◌≤◌, ◌<◌, ◌≢◌, refl, arith, List, [], ◌∷◌, leb, ◌==◌, ◌||◌, length, Bool-cases, inl,
  inr,
}
use monero_lws.Base.Results.{Result, ok, err}
use monero_lws.Wire.Msgpack.{Error, out_of_fuel, matches, ftag_unsigned, ftag_signed}
use monero_lws.Wire.Msgpack.Read.{Reader, update_tags_remaining, peek_tag}
use monero_lws.Wire.Msgpack.Skip.{
  RemovesPrefix, remove, skip_switch, consume, skip_step, skip_loop, skip_value,
}
use monero_lws.Wire.Msgpack.Rounds.{
  Bound, bound_ok, bound_err, bind-Bound, if-Bound, held, skip_switch-Bound,
}

-- One more than what is left.
abbrev above : Reader → ℕ
above r = suc (held r)

abbrev nothing : Reader → ℕ
nothing r = 0

module _ (remove_prefix : ℕ → List ℕ → List ℕ) (removes : RemovesPrefix remove_prefix)
    (shortens : (n : ℕ) (xs : List ℕ) → length (remove_prefix n xs) ≤ length xs) where
  remove_one : (bs : List ℕ) (n : ℕ) → 0 < n → length bs ≤ n → suc (length (remove_prefix 1 bs)) ≤ n
  remove_one [] n l h = omega (arith, shortens 1 [])
  remove_one (b ∷ bs) n l h = rw (removes (b ∷ []) bs) h

  consume-Bound :
      (next n : ℕ) (r s : Reader)
      → held r ≤ n
      → 0 < n
      → held s ≤ held r
      → Bound above n (consume remove_prefix next r s)
  unfolding consume
  consume-Bound next n r s h l k = elim (Bool-cases (length r.remaining == length s.remaining)) [
    | inl e ↦ rw e (
        if-Bound above n (matches ftag_unsigned next || matches ftag_signed next)
          (ok (remove remove_prefix 1 s)) _ (bound_ok _ (remove_one s.remaining n l (omega arith)))
          (bound_err _ refl))
    | inr e ↦ rw e (bound_ok s (ground arith))
  ]

  update-Bound : (n : ℕ) (r : Reader) → above r ≤ n → Bound above n (update_tags_remaining r)
  unfolding update_tags_remaining
  update-Bound n r h =
      if-Bound above n (r.tags_remaining == 0) _ _ (bound_err _ refl) (bound_ok _ h)

  step-Bound :
      (n : ℕ) (bs : List ℕ) (t d : ℕ)
      → length bs ≤ n
      → Bound above n
          (skip_step remove_prefix (record { remaining = bs; tags_remaining = t; depth = d }))
  unfolding skip_step peek_tag
  step-Bound n [] t d h = bound_err _ refl
  step-Bound n (b ∷ bs) t d h =
      bind-Bound held above (held r) n (skip_switch remove_prefix r b) _
        (skip_switch-Bound remove_prefix removes shortens r b)
        (λ s l.
          bind-Bound above above n n (consume remove_prefix b r s) _
            (consume-Bound b n r s h (omega (arith, h)) l) (λ u m. update-Bound n u m))
    where
      r : Reader
      r = record { remaining = b ∷ bs; tags_remaining = t; depth = d }

  loop-Bound :
      (fuel initial : ℕ) (r : Reader)
      → held r < fuel
      → Bound nothing 0 (skip_loop remove_prefix fuel initial r)
  unfolding skip_loop
  loop-Bound zero initial r h = absurd (omega (arith, h))
  loop-Bound (suc fuel) initial r h =
      bind-Bound above nothing fuel 0 (skip_step remove_prefix r) _
        (step-Bound fuel r.remaining r.tags_remaining r.depth (omega (arith, h)))
        (λ s l.
          if-Bound nothing 0 (leb initial s.tags_remaining) _ _ (loop-Bound fuel initial s l)
            (bound_ok s (omega arith)))

  fuel-Bound : (x : Result Error Reader) → Bound nothing 0 x → x ≢ err out_of_fuel
  fuel-Bound (ok r) h e = absurd (ground arith)
  fuel-Bound (err c) (bound_err _ h) e = absurd (ground arith)

  -- With a `remove_prefix` that removes what a span has, and that never makes it longer, the bound on
  -- the rounds of `skip_value` is never met: on any bytes it returns or throws an error of the source.
  pub skip_value-halts : (r : Reader) → skip_value remove_prefix r ≢ err out_of_fuel
  unfolding skip_value
  skip_value-halts r = fuel-Bound _ (
      if-Bound nothing 0 _ _ _ (bound_err _ refl)
        (loop-Bound (suc (length r.remaining)) r.tags_remaining r (omega arith)))
