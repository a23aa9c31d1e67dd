-- ===== src/Wire/Msgpack/Steps.antt =====
-- One round of `skip_value` of src/wire/msgpack/read.cpp on each kind of element.
use monero_lws.Base.{
  ℕ, suc, ◌+◌, ◌%◌, ◌*◌, ◌^◌, ◌≤◌, ◌<◌, ◌≡◌, refl, ◌∙◌, ap, subst, arith, true, false, List, [],
  ◌∷◌, ◌++◌, ltb, leb, ◌==◌, ◌||◌, inl, inr, In, length, length-append,
}
use monero_lws.Base.Results.{Result, ok, ◌>>=◌}
use monero_lws.Wire.Msgpack.{
  Error, NumType, string_types, binary_types, array_types, object_types, unsigned_types,
  signed_types, matches, ftag_unsigned, ftag_signed, ftag_string, ftag_array, ftag_object,
}
use monero_lws.Wire.Msgpack.Bytes.{to_big, length-to_big}
use monero_lws.Wire.Msgpack.Read.{
  Reader, read_string, read_binary, read_sized, start_array, start_object, update_tags_remaining,
}
use monero_lws.Wire.Msgpack.Read
use monero_lws.Wire.Msgpack.Skip.{
  RemovesPrefix, matches_types, remove, past_tag, skip_switch, consume, skip_step,
}
use monero_lws.Wire.Msgpack.Integers.{reader}
use monero_lws.Wire.Msgpack.Counts.{read_sized-to_big, read_string-fixed, string_tag, binary_tag}

module _ (remove_prefix : ℕ → List ℕ → List ℕ) (removes : RemovesPrefix remove_prefix) where
  update_tags_remaining-reader :
      (bs : List ℕ) (n d : ℕ) → update_tags_remaining (reader bs (suc n) d) ≡ ok (reader bs n d)
  unfolding update_tags_remaining
  update_tags_remaining-reader bs n d = ground arith

  consume-shorter :
      (next : ℕ) (r s : Reader)
      → length s.remaining < length r.remaining
      → consume remove_prefix next r s ≡ ok s
  unfolding consume
  consume-shorter next r s h = rw differ refl
    where
      differ : (length r.remaining == length s.remaining) ≡ false
      differ = ground arith

  -- A round whose switch took some bytes.
  pub step-switch :
      (b : ℕ) (more rest : List ℕ) (n m d e : ℕ)
      → skip_switch remove_prefix (reader (b ∷ more) n d) b ≡ ok (reader rest (suc m) e)
      → length rest < suc (length more)
      → skip_step remove_prefix (reader (b ∷ more) n d) ≡ ok (reader rest m e)
  unfolding skip_step Read.peek_tag
  step-switch b more rest n m d e h l =
      rw
        (
          h,
          consume-shorter b (reader (b ∷ more) n d) (reader rest (suc m) e) l,
          update_tags_remaining-reader rest m e,
        )
        refl

  -- A number in its tag.
  pub step-fixed :
      (b : ℕ) (rest : List ℕ) (n d : ℕ)
      → b < 0x100
      → (ltb b 0x80 || leb 0xe0 b) ≡ true
      → skip_step remove_prefix (reader (b ∷ rest) (suc n) d) ≡ ok (reader rest n d)
  unfolding skip_step Read.peek_tag skip_switch consume
  step-fixed b rest n d h k =
      rw (k, same, is_fixed, removes (b ∷ []) rest, update_tags_remaining-reader rest n d) refl
    where
      same : (suc (length rest) == suc (length rest)) ≡ true
      same = ground arith

      is_fixed : (matches ftag_unsigned b || matches ftag_signed b) ≡ true
      is_fixed = ground arith

  remove-sized :
      (t size v n d : ℕ) (rest : List ℕ)
      → remove remove_prefix (suc size) (reader (t ∷ to_big size v ++ rest) n d) ≡ reader rest n d
  remove-sized t size v n d rest =
      ap (λ x. reader x n d)
        (subst (λ k. remove_prefix (suc k) (t ∷ to_big size v ++ rest) ≡ rest)
          (length-to_big size v) (removes (t ∷ to_big size v) rest))

  longer : (bs rest : List ℕ) → length rest < suc (length (bs ++ rest))
  longer bs rest = omega (arith, length-append bs rest)

  -- A number behind its tag.
  pub step-sized :
      (t size v : ℕ) (rest : List ℕ) (n d : ℕ)
      → ((r : Reader) → skip_switch remove_prefix r t ≡ ok (remove remove_prefix (suc size) r))
      → skip_step remove_prefix (reader (t ∷ to_big size v ++ rest) (suc n) d)
        ≡ ok (reader rest n d)
  step-sized t size v rest n d h =
      step-switch t (to_big size v ++ rest) rest (suc n) n d d
        (h (reader (t ∷ to_big size v ++ rest) (suc n) d)
          ∙ ap ok (remove-sized t size v (suc n) d rest))
        (longer (to_big size v) rest)

  pub unsigned_switch :
      (t : NumType) (r : Reader)
      → In t unsigned_types
      → skip_switch remove_prefix r t.tag ≡ ok (remove remove_prefix (suc t.size) r)
  unfolding skip_switch
  unsigned_switch t r (inl e) = rw e refl
  unsigned_switch t r (inr (inl e)) = rw e refl
  unsigned_switch t r (inr (inr (inl e))) = rw e refl
  unsigned_switch t r (inr (inr (inr (inl e)))) = rw e refl
  unsigned_switch t r (inr (inr (inr (inr m)))) = absurd m

  pub signed_switch :
      (t : NumType) (r : Reader)
      → In t signed_types
      → skip_switch remove_prefix r t.tag ≡ ok (remove remove_prefix (suc t.size) r)
  unfolding skip_switch
  signed_switch t r (inl e) = rw e refl
  signed_switch t r (inr (inl e)) = rw e refl
  signed_switch t r (inr (inr (inl e))) = rw e refl
  signed_switch t r (inr (inr (inr (inl e)))) = rw e refl
  signed_switch t r (inr (inr (inr (inr m)))) = absurd m

  -- A tag alone.
  pub step-literal :
      (b : ℕ) (rest : List ℕ) (n d : ℕ)
      → ((r : Reader) → skip_switch remove_prefix r b ≡ ok (remove remove_prefix 1 r))
      → skip_step remove_prefix (reader (b ∷ rest) (suc n) d) ≡ ok (reader rest n d)
  step-literal b rest n d h =
      step-switch b rest rest (suc n) n d d
        (h (reader (b ∷ rest) (suc n) d)
          ∙ ap (λ x. ok (reader x (suc n) d)) (removes (b ∷ []) rest))
        (omega arith)

  -- The tests of the switch exclude each other.
  array_switch :
      (b : ℕ) (r : Reader)
      → (matches ftag_array b || matches_types array_types b) ≡ true
      → skip_switch remove_prefix r b ≡ (start_array 0 r >>= λ p. ok p.1)
  unfolding skip_switch
  array_switch b r h = rw (not_fixed, h) refl
    where
      not_fixed : (ltb b 0x80 || leb 0xe0 b) ≡ false
      not_fixed = ground arith

  object_switch :
      (b : ℕ) (r : Reader)
      → (matches ftag_object b || matches_types object_types b) ≡ true
      → skip_switch remove_prefix r b ≡ (start_object r >>= λ p. ok p.1)
  unfolding skip_switch
  object_switch b r h = rw (not_fixed, not_array, h) refl
    where
      not_fixed : (ltb b 0x80 || leb 0xe0 b) ≡ false
      not_fixed = ground arith

      not_array : (matches ftag_array b || matches_types array_types b) ≡ false
      not_array = ground arith

  string_switch :
      (b : ℕ) (r : Reader)
      → (matches ftag_string b || matches_types string_types b) ≡ true
      → skip_switch remove_prefix r b ≡ past_tag remove_prefix r (λ source. read_string source b)
  unfolding skip_switch
  string_switch b r h = rw (not_fixed, not_array, not_object, h) refl
    where
      not_fixed : (ltb b 0x80 || leb 0xe0 b) ≡ false
      not_fixed = ground arith

      not_array : (matches ftag_array b || matches_types array_types b) ≡ false
      not_array = ground arith

      not_object : (matches ftag_object b || matches_types object_types b) ≡ false
      not_object = ground arith

  -- Bytes behind a tag and perhaps a length.
  step-past_tag :
      (b : ℕ) (bs rest s : List ℕ) (n d : ℕ) (read : List ℕ → Result Error (List ℕ × List ℕ))
      → skip_switch remove_prefix (reader (b ∷ bs ++ rest) (suc n) d) b
        ≡ past_tag remove_prefix (reader (b ∷ bs ++ rest) (suc n) d) read
      → read (bs ++ rest) ≡ ok (s, rest)
      → skip_step remove_prefix (reader (b ∷ bs ++ rest) (suc n) d) ≡ ok (reader rest n d)
  step-past_tag b bs rest s n d read h k =
      step-switch b (bs ++ rest) rest (suc n) n d d (h ∙ taken) (longer bs rest)
    where
      taken :
          past_tag remove_prefix (reader (b ∷ bs ++ rest) (suc n) d) read
          ≡ ok (reader rest (suc n) d)
      taken = rw (removes (b ∷ []) (bs ++ rest), k) refl

  pub step-short_string :
      (s rest : List ℕ) (n d : ℕ)
      → length s ≤ 31
      → skip_step remove_prefix (reader ((0xa0 + length s % 256) ∷ s ++ rest) (suc n) d)
        ≡ ok (reader rest n d)
  step-short_string s rest n d h =
      step-past_tag b s rest s n d (λ source. read_string source b)
        (string_switch b (reader (b ∷ s ++ rest) (suc n) d) is_string) (read_string-fixed s rest h)
    where
      b : ℕ
      b = 0xa0 + length s % 256

      is_string : (matches ftag_string b || matches_types string_types b) ≡ true
      is_string = ground arith

  pub step-long_string :
      (t : NumType) (s rest : List ℕ) (n d : ℕ)
      → In t string_types
      → length s < 256 ^ t.size
      → skip_step remove_prefix (reader (t.tag ∷ (to_big t.size (length s) ++ s) ++ rest) (suc n) d)
        ≡ ok (reader rest n d)
  step-long_string t s rest n d m h =
      step-past_tag t.tag (to_big t.size (length s) ++ s) rest s n d
        (λ source. read_string source t.tag)
        (string_switch t.tag (reader (t.tag ∷ (to_big t.size (length s) ++ s) ++ rest) (suc n) d)
          (is_string t m))
        (string_tag t ((to_big t.size (length s) ++ s) ++ rest) m
          ∙ read_sized-to_big t.size s rest h)
    where
      is_string :
          (t : NumType)
          → In t string_types
          → (matches ftag_string t.tag || matches_types string_types t.tag) ≡ true
      is_string t (inl e) = rw e refl
      is_string t (inr (inl e)) = rw e refl
      is_string t (inr (inr (inl e))) = rw e refl
      is_string t (inr (inr (inr m))) = absurd m

  binary_switch :
      (t : NumType) (r : Reader)
      → In t binary_types
      → skip_switch remove_prefix r t.tag
        ≡ past_tag remove_prefix r (λ source. read_binary source t.tag)
  unfolding skip_switch
  binary_switch t r (inl e) = rw e refl
  binary_switch t r (inr (inl e)) = rw e refl
  binary_switch t r (inr (inr (inl e))) = rw e refl
  binary_switch t r (inr (inr (inr m))) = absurd m

  pub step-binary :
      (t : NumType) (s rest : List ℕ) (n d : ℕ)
      → In t binary_types
      → length s < 256 ^ t.size
      → skip_step remove_prefix (reader (t.tag ∷ (to_big t.size (length s) ++ s) ++ rest) (suc n) d)
        ≡ ok (reader rest n d)
  step-binary t s rest n d m h =
      step-past_tag t.tag (to_big t.size (length s) ++ s) rest s n d
        (λ source. read_binary source t.tag)
        (binary_switch t (reader (t.tag ∷ (to_big t.size (length s) ++ s) ++ rest) (suc n) d) m)
        (binary_tag t ((to_big t.size (length s) ++ s) ++ rest) m
          ∙ read_sized-to_big t.size s rest h)

  -- The start of an array or an object, from its tag and the bytes of its count.
  pub step-array :
      (b items : ℕ) (bs rest : List ℕ) (n d : ℕ)
      → (matches ftag_array b || matches_types array_types b) ≡ true
      → start_array 0 (reader (b ∷ bs ++ rest) (suc n) d)
        ≡ ok (items, reader rest (suc (n + items)) (d + 1))
      → skip_step remove_prefix (reader (b ∷ bs ++ rest) (suc n) d)
        ≡ ok (reader rest (n + items) (d + 1))
  step-array b items bs rest n d h k =
      step-switch b (bs ++ rest) rest (suc n) (n + items) d (d + 1)
        (array_switch b (reader (b ∷ bs ++ rest) (suc n) d) h ∙ rw k refl) (longer bs rest)

  pub step-object :
      (b items : ℕ) (bs rest : List ℕ) (n d : ℕ)
      → (matches ftag_object b || matches_types object_types b) ≡ true
      → start_object (reader (b ∷ bs ++ rest) (suc n) d)
        ≡ ok (items, reader rest (suc (n + items * 2)) (d + 1))
      → skip_step remove_prefix (reader (b ∷ bs ++ rest) (suc n) d)
        ≡ ok (reader rest (n + items * 2) (d + 1))
  step-object b items bs rest n d h k =
      step-switch b (bs ++ rest) rest (suc n) (n + items * 2) d (d + 1)
        (object_switch b (reader (b ∷ bs ++ rest) (suc n) d) h ∙ rw k refl) (longer bs rest)
