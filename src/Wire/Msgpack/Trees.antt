-- ===== src/Wire/Msgpack/Trees.antt =====
-- Whole values of src/wire/msgpack/: a value is written as a sequence of calls of the writer, and `skip_value` passes
-- over what they wrote.
use mathlib.Core.List.{append_assoc, append-nil}
use monero_lws.Base.{
  ℕ, zero, suc, ◌+◌, ◌-◌, ◌^◌, ◌≤◌, ◌<◌, ◌≡◌, refl, ◌∙◌, subst, arith, true, false, List, [], ◌∷◌,
  ◌++◌, leb, ◌==◌, if◌then◌else◌, inl, inr, length, length-append, All, Bool-cases,
}
use monero_lws.Base.Results.{Result, ok}
use monero_lws.Wire.Msgpack.{Error}
use monero_lws.Wire.Msgpack.Write.{Writer, decrement, element, write_endian}
use monero_lws.Wire.Msgpack.Write
use monero_lws.Wire.Msgpack.Read.{Reader}
use monero_lws.Wire.Msgpack.Skip.{RemovesPrefix, skip_step, skip_loop, skip_value}
use monero_lws.Wire.Msgpack.Integers.{reader}
use monero_lws.Wire.Msgpack.Tokens.{
  Token, unsigned_token, integer_token, real_token, array_token, object_token, boolean_token,
  string_token, binary_token, end_token, write_token, write_tokens, pending_after, depth_after,
  depth_after_all, is_end, IsWritable, complete, announced, expected_after, after,
}
use monero_lws.Wire.Msgpack.Passes.{Passed, pass}

abbrev pub expected_after_all : ℕ → List Token → ℕ
expected_after_all e [] = e
expected_after_all e (t ∷ ts) = expected_after_all (expected_after e t) ts

abbrev pub after_all : Writer → List Token → List ℕ → Writer
after_all w ts bs = record w { bytes = w.bytes ++ bs; expected = expected_after_all w.expected ts }

pending_after-add : (n : ℕ) (t : Token) → pending_after n t ≡ n + pending_after 0 t
pending_after-add n (array_token items) = omega arith
pending_after-add n (object_token items) = omega arith
pending_after-add n (unsigned_token v) = omega arith
pending_after-add n (integer_token v) = omega arith
pending_after-add n (real_token v) = omega arith
pending_after-add n (boolean_token b) = omega arith
pending_after-add n (string_token s) = omega arith
pending_after-add n (binary_token s) = omega arith
pending_after-add n end_token = omega arith

depth_after-le : (d : ℕ) (t : Token) → d ≤ depth_after d t
depth_after-le d (array_token items) = omega arith
depth_after-le d (object_token items) = omega arith
depth_after-le d (unsigned_token v) = omega arith
depth_after-le d (integer_token v) = omega arith
depth_after-le d (real_token v) = omega arith
depth_after-le d (boolean_token b) = omega arith
depth_after-le d (string_token s) = omega arith
depth_after-le d (binary_token s) = omega arith
depth_after-le d end_token = omega arith

depth_after_all-le : (d : ℕ) (ts : List Token) → d ≤ depth_after_all d ts
depth_after_all-le d [] = omega arith
depth_after_all-le d (t ∷ ts) =
    omega (arith, depth_after-le d t, depth_after_all-le (depth_after d t) ts)

-- An end changes what is expected only.
end-written : (t : Token) (w : Writer) → is_end t ≡ true → write_token w t ≡ ok (after w t [])
unfolding Write.end_container
end-written end_token w e = rw (append-nil w.bytes) refl
end-written (unsigned_token v) w e = absurd (ground arith)
end-written (integer_token v) w e = absurd (ground arith)
end-written (real_token v) w e = absurd (ground arith)
end-written (array_token v) w e = absurd (ground arith)
end-written (object_token v) w e = absurd (ground arith)
end-written (boolean_token v) w e = absurd (ground arith)
end-written (string_token v) w e = absurd (ground arith)
end-written (binary_token v) w e = absurd (ground arith)

end-depth_after : (t : Token) (d : ℕ) → is_end t ≡ true → depth_after d t ≡ d
end-depth_after end_token d e = refl
end-depth_after (unsigned_token v) d e = refl
end-depth_after (integer_token v) d e = refl
end-depth_after (real_token v) d e = refl
end-depth_after (array_token v) d e = absurd (ground arith)
end-depth_after (object_token v) d e = absurd (ground arith)
end-depth_after (boolean_token v) d e = refl
end-depth_after (string_token v) d e = refl
end-depth_after (binary_token v) d e = refl

complete-end :
    (pending : ℕ) (t : Token) (ts : List Token)
    → is_end t ≡ true
    → complete pending (t ∷ ts) ≡ true
    → complete pending ts ≡ true
complete-end pending t ts e c = rw e at c

complete-element :
    (pending : ℕ) (t : Token) (ts : List Token)
    → is_end t ≡ false
    → complete pending (t ∷ ts) ≡ true
    → (0 < pending) × (complete (pending_after (pending - 1) t) ts ≡ true)
complete-element pending t ts e c = ground (arith, rw e at c)

-- The writer's calls put one after another.
pub write_tokens-cons :
    (w : Writer) (t : Token) (ts : List Token) (bs more : List ℕ)
    → write_token w t ≡ ok (after w t bs)
    → write_tokens (after w t bs) ts ≡ ok (after_all (after w t bs) ts more)
    → write_tokens w (t ∷ ts) ≡ ok (after_all w (t ∷ ts) (bs ++ more))
write_tokens-cons w t ts bs more h k = rw (h, k, append_assoc w.bytes bs more) refl

module _ (remove_prefix : ℕ → List ℕ → List ℕ) (removes : RemovesPrefix remove_prefix) where
  -- The loop's test and what follows it.
  resume : ℕ → ℕ → Reader → Result Error Reader
  resume fuel initial s =
      let rest = skip_loop remove_prefix fuel initial s in
      if leb initial s.tags_remaining then rest else ok s

  resume-step :
      (fuel i : ℕ) (r s : Reader)
      → i < r.tags_remaining
      → skip_step remove_prefix r ≡ ok s
      → resume (suc fuel) (suc i) r ≡ resume fuel (suc i) s
  unfolding resume skip_loop
  resume-step fuel i r s l h = rw (is_more, h) refl
    where
      is_more : leb (suc i) r.tags_remaining ≡ true
      is_more = ground arith

  abbrev Skipped : ℕ → List Token → List ℕ → ℕ → ℕ → Type 0
  Skipped pending ts rest i d =
      (bs : List ℕ) × (((w : Writer) → write_tokens w ts ≡ ok (after_all w ts bs))
        × (pending ≤ length bs
            × ((fuel : ℕ)
                → length bs ≤ fuel
                → resume fuel (suc i) (reader (bs ++ rest) (i + pending) d)
                  ≡ ok (reader rest i (depth_after_all d ts)))))

  Skipped-end :
      (t : Token) (ts : List Token) (pending : ℕ) (rest : List ℕ) (i d : ℕ)
      → is_end t ≡ true
      → Skipped pending ts rest i (depth_after d t)
      → Skipped pending (t ∷ ts) rest i d
  Skipped-end t ts pending rest i d e s = (
    s.0,
    (
      λ w. write_tokens-cons w t ts [] s.0 (end-written t w e) (s.1.0 (after w t [])),
      (
        s.1.1.0,
        λ fuel l.
            subst
              (λ k.
                resume fuel (suc i) (reader (s.0 ++ rest) (i + pending) k)
                ≡ ok (reader rest i (depth_after_all (depth_after d t) ts)))
              (end-depth_after t d e) (s.1.1.1 fuel l),
      ),
    ),
  )

  Skipped-element :
      (t : Token) (ts : List Token) (pending : ℕ) (rest : List ℕ) (i d : ℕ)
      → 0 < pending
      → (s : Skipped (pending_after (pending - 1) t) ts rest i (depth_after d t))
      → Passed remove_prefix removes t (s.0 ++ rest) (i + (pending - 1)) d
      → Skipped pending (t ∷ ts) rest i d
  unfolding Passed
  Skipped-element t ts pending rest i d l s p = (
    (p.0 ∷ p.1.0) ++ s.0,
    (
      λ w. write_tokens-cons w t ts (p.0 ∷ p.1.0) s.0 (p.1.1.0 w) (s.1.0 (after w t (p.0 ∷ p.1.0))),
      (is_long, resumed),
    ),
  )
    where
      more : List ℕ
      more = p.1.0

      is_long : pending ≤ length ((p.0 ∷ more) ++ s.0)
      is_long =
          omega (arith, length-append (p.0 ∷ more) s.0, s.1.1.0, pending_after-add (pending - 1) t)

      tags : i + pending ≡ suc (i + (pending - 1))
      tags = omega arith

      tags_after : pending_after (i + (pending - 1)) t ≡ i + pending_after (pending - 1) t
      tags_after =
          omega (arith, pending_after-add (i + (pending - 1)) t, pending_after-add (pending - 1) t)

      stepped :
          skip_step remove_prefix (reader (((p.0 ∷ more) ++ s.0) ++ rest) (i + pending) d)
          ≡ ok (reader (s.0 ++ rest) (i + pending_after (pending - 1) t) (depth_after d t))
      stepped = rw (append_assoc (p.0 ∷ more) s.0 rest, tags) (rw tags_after at p.1.1.1)

      resumed :
          (fuel : ℕ)
          → length ((p.0 ∷ more) ++ s.0) ≤ fuel
          → resume fuel (suc i) (reader (((p.0 ∷ more) ++ s.0) ++ rest) (i + pending) d)
            ≡ ok (reader rest i (depth_after_all (depth_after d t) ts))
      resumed zero h = absurd (omega (arith, h))
      resumed (suc fuel) h =
          resume-step fuel i (reader (((p.0 ∷ more) ++ s.0) ++ rest) (i + pending) d)
            (reader (s.0 ++ rest) (i + pending_after (pending - 1) t) (depth_after d t))
            (omega arith) stepped
          ∙ s.1.1.1 fuel (omega (arith, length-append more s.0))

  resume-done :
      (fuel i d : ℕ) (rest : List ℕ) → resume fuel (suc i) (reader rest i d) ≡ ok (reader rest i d)
  unfolding resume
  resume-done fuel i d rest = rw none_left refl
    where
      none_left : leb (suc i) i ≡ false
      none_left = ground arith

  Skipped-next :
      (t : Token) (ts : List Token) (pending : ℕ) (rest : List ℕ) (i d : ℕ)
      → is_end t ≡ false
      → 0 < pending
      → IsWritable t
      → i + pending + announced (t ∷ ts) < 2 ^ 64
      → depth_after_all d (t ∷ ts) < 100
      → Skipped (pending_after (pending - 1) t) ts rest i (depth_after d t)
      → Skipped pending (t ∷ ts) rest i d
  Skipped-next t ts pending rest i d e l a f h s = Skipped-element t ts pending rest i d l s (
      pass remove_prefix removes t (s.0 ++ rest) (i + (pending - 1)) d e a is_held is_counted
        (omega (arith, depth_after_all-le (depth_after d t) ts)))
    where
      is_held : pending_after (i + (pending - 1)) t ≤ i + (pending - 1) + length (s.0 ++ rest)
      is_held = omega (
        arith,
        pending_after-add (i + (pending - 1)) t,
        pending_after-add (pending - 1) t,
        length-append s.0 rest,
        s.1.1.0,
      )

      is_counted : pending_after (suc (i + (pending - 1))) t < 2 ^ 64
      is_counted = omega (arith, pending_after-add (suc (i + (pending - 1))) t)

  complete-Skipped :
      (ts : List Token) (pending : ℕ) (rest : List ℕ) (i d : ℕ)
      → complete pending ts ≡ true
      → All IsWritable ts
      → i + pending + announced ts < 2 ^ 64
      → depth_after_all d ts < 100
      → Skipped pending ts rest i d
  complete-Skipped [] pending rest i d c a f s = (
    [],
    (
      λ w. rw (append-nil w.bytes) refl,
      (ground arith, λ fuel l. rw none_left (resume-done fuel i d rest)),
    ),
  )
    where
      none_left : i + pending ≡ i
      none_left = ground arith
  complete-Skipped (t ∷ ts) pending rest i d c a f s = elim (Bool-cases (is_end t)) [
    | inl e ↦ Skipped-end t ts pending rest i d e (
        complete-Skipped ts pending rest i (depth_after d t) (complete-end pending t ts e c) a.1
          (omega arith) s)
    | inr e ↦ Skipped-next t ts pending rest i d e (complete-element pending t ts e c).0 a.0 f s (
        complete-Skipped ts (pending_after (pending - 1) t) rest i (depth_after d t)
          (complete-element pending t ts e c).1 a.1
          (omega (arith, pending_after-add (pending - 1) t, (complete-element pending t ts e c).0))
          s)
  ]

  skip_value-resume :
      (bs : List ℕ) (i d : ℕ)
      → suc i < 2 ^ 64 - 1
      → skip_value remove_prefix (reader bs (suc i) d)
        ≡ resume (suc (length bs)) (suc i) (reader bs (suc i) d)
  unfolding skip_value resume
  skip_value-resume bs i d h = rw (is_countable, is_left) refl
    where
      is_countable : (suc i == 2 ^ 64 - 1) ≡ false
      is_countable = ground arith

      is_left : leb (suc i) (suc i) ≡ true
      is_left = ground arith

  -- The same bytes whatever was written before.
  pub skip_tokens :
      (ts : List Token) (rest : List ℕ) (i d : ℕ)
      → complete 1 ts ≡ true
      → All IsWritable ts
      → suc i + announced ts < 2 ^ 64 - 1
      → depth_after_all d ts < 100
      → (bs : List ℕ) × (((w : Writer) → write_tokens w ts ≡ ok (after_all w ts bs))
          × (skip_value remove_prefix (reader (bs ++ rest) (suc i) d)
              ≡ ok (reader rest i (depth_after_all d ts))))
  skip_tokens ts rest i d c a f s = (
    all.0,
    (
      all.1.0,
      skip_value-resume (all.0 ++ rest) i d (omega arith)
          ∙ (rw next at
              (all.1.1.1 (suc (length (all.0 ++ rest))) (omega (arith, length-append all.0 rest)))),
    ),
  )
    where
      all : Skipped 1 ts rest i d
      all = complete-Skipped ts 1 rest i d c a (omega arith) s

      next : i + 1 ≡ suc i
      next = omega arith

  -- With a `remove_prefix` that removes what a span has, `skip_value` passes over exactly the bytes that
  -- a complete sequence of calls of the writer wrote, where the values are in the writer's range, what
  -- is announced can be counted in 64 bits, and the depth and the number of arrays and objects are below
  -- 100 together. It takes one from the pending elements and leaves the depth greater by the number of
  -- those arrays and objects, whether they were nested or not.
  pub skip_value-complete :
      (ts : List Token) (w : Writer) (rest : List ℕ) (i d : ℕ)
      → complete 1 ts ≡ true
      → All IsWritable ts
      → suc i + announced ts < 2 ^ 64 - 1
      → depth_after_all d ts < 100
      → (bs : List ℕ) × ((write_tokens w ts ≡ ok (after_all w ts bs))
          × (skip_value remove_prefix (reader (bs ++ rest) (suc i) d)
              ≡ ok (reader rest i (depth_after_all d ts))))
  skip_value-complete ts w rest i d c a f s = (all.0, (all.1.0 w, all.1.1))
    where
      all :
          (bs : List ℕ) × (((w : Writer) → write_tokens w ts ≡ ok (after_all w ts bs))
            × (skip_value remove_prefix (reader (bs ++ rest) (suc i) d)
                ≡ ok (reader rest i (depth_after_all d ts))))
      all = skip_tokens ts rest i d c a f s
