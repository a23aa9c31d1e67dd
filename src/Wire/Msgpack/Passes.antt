-- ===== src/Wire/Msgpack/Passes.antt =====
-- One round of `skip_value` of src/wire/msgpack/read.cpp on what one call of the writer wrote.
use monero_lws.Base.{
  ℕ, suc, ◌+◌, ◌%◌, ◌-◌, ◌*◌, ◌^◌, ◌≤◌, ◌<◌, ◌≡◌, refl, ◌∙◌, subst, arith, Bool, true, false, List,
  [], ◌∷◌, ◌++◌, dec_lt, inl, inr, length,
}
use monero_lws.Base.Results.{ok}
use monero_lws.Wire.Msgpack.{string_types, binary_types, unsigned_types, signed_types}
use monero_lws.Wire.Msgpack.Bytes.{to_big}
use monero_lws.Wire.Msgpack.Write.{Writer, decrement, element, write_endian}
use monero_lws.Wire.Msgpack.Write
use monero_lws.Wire.Msgpack.Read.{Reader}
use monero_lws.Wire.Msgpack.Read
use monero_lws.Wire.Msgpack.Skip.{RemovesPrefix, skip_switch, skip_step}
use monero_lws.Wire.Msgpack.Integers.{reader, Chosen, chosen, long_write, short_write}
use monero_lws.Wire.Msgpack.Signed.{
  SignedChosen, signed_chosen, short_negative_write, long_negative_write, integer-positive,
}
use monero_lws.Wire.Msgpack.Counts.{long_string_write, short_string_write, binary_write}
use monero_lws.Wire.Msgpack.Containers.{
  ArrayCount, ObjectCount, array_count, object_count, array_write, object_write, array_read,
  object_read,
}
use monero_lws.Wire.Msgpack.Steps
use monero_lws.Wire.Msgpack.Tokens.{
  Token, unsigned_token, integer_token, real_token, array_token, object_token, boolean_token,
  string_token, binary_token, end_token, write_token, pending_after, depth_after, is_end,
  IsWritable, after,
}

module _ (remove_prefix : ℕ → List ℕ → List ℕ) (removes : RemovesPrefix remove_prefix) where
  -- The bytes of a call, and the round of `skip_value` that takes them away.
  unfoldable pub Passed : Token → List ℕ → ℕ → ℕ → Type 0
  Passed t rest n d =
      (b : ℕ) × ((bs : List ℕ) × (((w : Writer) → write_token w t ≡ ok (after w t (b ∷ bs)))
          × (skip_step remove_prefix (reader (b ∷ bs ++ rest) (suc n) d)
              ≡ ok (reader rest (pending_after n t) (depth_after d t)))))

  pass_unsigned :
      (v : ℕ) (rest : List ℕ) (n d : ℕ) → v < 2 ^ 64 → Passed (unsigned_token v) rest n d
  unfolding Passed write_endian
  pass_unsigned v rest n d h = elim (dec_lt 0x7f v) [
    | yes l ↦ (
      (c.0).tag,
      (
        to_big (c.0).size v,
        (
          λ w. long_write v w c l,
          Steps.step-sized remove_prefix removes (c.0).tag (c.0).size v rest n d
              (λ r. Steps.unsigned_switch remove_prefix removes c.0 r c.1.0),
        ),
      ),
    )
    | no s ↦ (
      v,
      (
        [],
        (
          λ w. short_write v w (omega arith),
          Steps.step-fixed remove_prefix removes v rest n d (omega arith) (ground arith),
        ),
      ),
    )
  ]
    where
      c : Chosen v unsigned_types
      c = chosen unsigned_types v (inr (inr (inr (inl h))))

  pass_negative :
      (v : ℕ) (rest : List ℕ) (n d : ℕ)
      → 2 ^ 63 ≤ v
      → v < 2 ^ 64
      → Passed (integer_token v) rest n d
  unfolding Passed write_endian
  pass_negative v rest n d g h = elim (dec_lt v (2 ^ 64 - 32)) [
    | yes l ↦ (
      (c.0).tag,
      (
        to_big (c.0).size v,
        (
          λ w. long_negative_write v w g l c,
          Steps.step-sized remove_prefix removes (c.0).tag (c.0).size v rest n d
              (λ r. Steps.signed_switch remove_prefix removes c.0 r c.1.0),
        ),
      ),
    )
    | no s ↦ (
      v % 256,
      (
        [],
        (
          λ w. short_negative_write v w (omega arith) h,
          Steps.step-fixed remove_prefix removes (v % 256) rest n d (omega arith) (ground arith),
        ),
      ),
    )
  ]
    where
      c : SignedChosen v signed_types
      c = signed_chosen signed_types v (inr (inr (inr (inl (omega arith)))))

  pass_integer : (v : ℕ) (rest : List ℕ) (n d : ℕ) → v < 2 ^ 64 → Passed (integer_token v) rest n d
  unfolding Passed
  pass_integer v rest n d h = elim (dec_lt v (2 ^ 63)) [
    | yes p ↦ positive p (pass_unsigned v rest n d h)
    | no p ↦ pass_negative v rest n d (omega arith) h
  ]
    where
      positive : v < 2 ^ 63 → Passed (unsigned_token v) rest n d → Passed (integer_token v) rest n d
      positive p t = (t.0, (t.1.0, (λ w. integer-positive v w p ∙ t.1.1.0 w, t.1.1.1)))

  pass_string : (s rest : List ℕ) (n d : ℕ) → length s < 2 ^ 32 → Passed (string_token s) rest n d
  unfolding Passed write_endian
  pass_string s rest n d h = elim (dec_lt 31 (length s)) [
    | yes l ↦ (
      (c.0).tag,
      (
        to_big (c.0).size (length s) ++ s,
        (
          λ w. long_string_write s w c l,
          Steps.step-long_string remove_prefix removes c.0 s rest n d c.1.0 c.1.1.0,
        ),
      ),
    )
    | no l ↦ (
      0xa0 + length s % 256,
      (
        s,
        (
          λ w. short_string_write s w (omega arith),
          Steps.step-short_string remove_prefix removes s rest n d (omega arith),
        ),
      ),
    )
  ]
    where
      c : Chosen (length s) string_types
      c = chosen string_types (length s) (inr (inr (inl h)))

  pass_binary : (s rest : List ℕ) (n d : ℕ) → length s < 2 ^ 32 → Passed (binary_token s) rest n d
  unfolding Passed write_endian
  pass_binary s rest n d h = (
    (c.0).tag,
    (
      to_big (c.0).size (length s) ++ s,
      (
        λ w. binary_write s w c,
        Steps.step-binary remove_prefix removes c.0 s rest n d c.1.0 c.1.1.0,
      ),
    ),
  )
    where
      c : Chosen (length s) binary_types
      c = chosen binary_types (length s) (inr (inr (inl h)))

  pass_boolean : (b : Bool) (rest : List ℕ) (n d : ℕ) → Passed (boolean_token b) rest n d
  unfolding Passed Write.boolean skip_switch
  pass_boolean true rest n d =
      (0xc3, ([], (λ w. refl, Steps.step-literal remove_prefix removes 0xc3 rest n d (λ r. refl))))
  pass_boolean false rest n d =
      (0xc2, ([], (λ w. refl, Steps.step-literal remove_prefix removes 0xc2 rest n d (λ r. refl))))

  pass_real : (bits : ℕ) (rest : List ℕ) (n d : ℕ) → Passed (real_token bits) rest n d
  unfolding Passed Write.real skip_switch
  pass_real bits rest n d = (
    0xcb,
    (
      to_big 8 bits,
      (λ w. refl, Steps.step-sized remove_prefix removes 0xcb 8 bits rest n d (λ r. refl)),
    ),
  )

  pass_array :
      (items : ℕ) (rest : List ℕ) (n d : ℕ)
      → items < 2 ^ 32
      → items ≤ length rest
      → suc n + items < 2 ^ 64
      → d < 99
      → Passed (array_token items) rest n d
  unfolding Passed
  pass_array items rest n d h fit few shallow = (
    c.0,
    (
      c.1.0,
      (
        λ w. array_write items w (c.0 ∷ c.1.0) c.1.1.1.0,
        Steps.step-array remove_prefix removes c.0 items c.1.0 rest n d c.1.1.0 (
            subst
              (λ k.
                Read.start_array 0 (reader (c.0 ∷ c.1.0 ++ rest) (suc n) d)
                ≡ ok (items, reader rest k (d + 1)))
              same (array_read items 0 rest (suc n) d c few (omega arith) shallow)),
      ),
    ),
  )
    where
      c : ArrayCount items rest (suc n) d
      c = array_count items rest (suc n) d h

      same : suc n + items ≡ suc (n + items)
      same = omega arith

  pass_object :
      (items : ℕ) (rest : List ℕ) (n d : ℕ)
      → items < 2 ^ 32
      → suc n + items * 2 < 2 ^ 64
      → d < 99
      → Passed (object_token items) rest n d
  unfolding Passed
  pass_object items rest n d h few shallow = (
    c.0,
    (
      c.1.0,
      (
        λ w. object_write items w (c.0 ∷ c.1.0) c.1.1.1.0,
        Steps.step-object remove_prefix removes c.0 items c.1.0 rest n d c.1.1.0 (
            subst
              (λ k.
                Read.start_object (reader (c.0 ∷ c.1.0 ++ rest) (suc n) d)
                ≡ ok (items, reader rest k (d + 1)))
              same (object_read items rest (suc n) d c few shallow)),
      ),
    ),
  )
    where
      c : ObjectCount items rest (suc n) d
      c = object_count items rest (suc n) d h

      same : suc n + items * 2 ≡ suc (n + items * 2)
      same = omega arith

  -- Any call but an end, where what it announces can be counted, follows and is not too deep.
  pub pass :
      (t : Token) (rest : List ℕ) (n d : ℕ)
      → is_end t ≡ false
      → IsWritable t
      → pending_after n t ≤ n + length rest
      → pending_after (suc n) t < 2 ^ 64
      → depth_after d t < 100
      → Passed t rest n d
  pass (unsigned_token v) rest n d e h l f s = pass_unsigned v rest n d h
  pass (integer_token v) rest n d e h l f s = pass_integer v rest n d h
  pass (real_token bits) rest n d e h l f s = pass_real bits rest n d
  pass (array_token items) rest n d e h l f s =
      pass_array items rest n d h (omega arith) f (omega arith)
  pass (object_token items) rest n d e h l f s = pass_object items rest n d h f (omega arith)
  pass (boolean_token b) rest n d e h l f s = pass_boolean b rest n d
  pass (string_token s) rest n d e h l f g = pass_string s rest n d h
  pass (binary_token s) rest n d e h l f g = pass_binary s rest n d h
  pass end_token rest n d e h l f s = absurd (ground arith)
