-- ===== src/Wire/Msgpack/Signed.antt =====
-- Round trips of the signed integers of src/wire/msgpack/, with the two readers' errors on the other's values.
use monero_lws.Base.{
  ℕ, suc, ◌%◌, ◌-◌, ◌^◌, ◌≤◌, ◌<◌, ◌≡◌, refl, ◌∙◌, subst, sym, arith, Bool, true, false, List, [],
  ◌∷◌, ◌++◌, ltb, leb, dec_lt, ◌⊎◌, inl, inr, In,
}
use monero_lws.Base.Results.{Result, ok, err, ◌>>=◌}
use monero_lws.Wire.Msgpack.{
  Error, schema_smaller_integer, NumType, unsigned_types, signed_types, num_type, min_value,
  matches, ftag_signed,
}
use monero_lws.Wire.Msgpack.Bytes.{to_big, from_big, read_endian-from_big}
use monero_lws.Wire.Msgpack.Write.{Writer, element, write_endian, write_count, write_signed}
use monero_lws.Wire.Msgpack.Write
use monero_lws.Wire.Msgpack.Read.{
  Reader, start_element, with_rest, read_as, read_integer, to_uintmax, to_intmax, sign_extend,
}
use monero_lws.Wire.Msgpack.Read
use monero_lws.Wire.Msgpack.Integers.{
  reader, start_element-reader, Chosen, chosen, unsigned_tag, read_as-to_big,
}

abbrev pub FitsSigned : ℕ → List NumType → Type 0
FitsSigned value [] = ⊥
FitsSigned value (t ∷ ts) = (min_value t ≤ value) ⊎ FitsSigned value ts

-- The type that the loop of `do_integer` chooses.
abbrev pub SignedChosen : ℕ → List NumType → Type 0
SignedChosen value ts =
    (t : NumType) × (In t ts
      × (min_value t ≤ value × (write_signed ts value ≡ ok (write_endian value t))))

write_signed-skip :
    (t : NumType) (ts : List NumType) (value : ℕ)
    → value < min_value t
    → write_signed (t ∷ ts) value ≡ write_signed ts value
unfolding write_signed
write_signed-skip t ts value h = ground arith

write_signed-take :
    (t : NumType) (ts : List NumType) (value : ℕ)
    → min_value t ≤ value
    → write_signed (t ∷ ts) value ≡ ok (write_endian value t)
unfolding write_signed
write_signed-take t ts value h = ground arith

pub signed_chosen : (ts : List NumType) (value : ℕ) → FitsSigned value ts → SignedChosen value ts
signed_chosen [] value f = absurd f
signed_chosen (t ∷ ts) value f = elim (dec_lt value (min_value t)) [
  | yes h ↦ later h (signed_chosen ts value (ground arith))
  | no n ↦ (t, (inl refl, (ground arith, write_signed-take t ts value (ground arith))))
]
  where
    later : value < min_value t → SignedChosen value ts → SignedChosen value (t ∷ ts)
    later l c = (c.0, (inr c.1.0, (c.1.1.0, write_signed-skip t ts value l ∙ c.1.1.1)))

abbrev Extends : ℕ → NumType → Type 0
Extends v t = min_value t ≤ v → sign_extend t.size (from_big 0 (to_big t.size v)) ≡ v

at_type : (v : ℕ) (t s : NumType) → t ≡ s → Extends v s → Extends v t
at_type v t s e k = subst (λ x. Extends v x) (sym e) k

-- The low bytes of a negative number, extended, are the number.
sign_extend-to_big :
    (t : NumType) (v : ℕ)
    → In t signed_types
    → min_value t ≤ v
    → v < 2 ^ 64
    → sign_extend t.size (from_big 0 (to_big t.size v)) ≡ v
unfolding to_big
sign_extend-to_big t v (inl e) l h = at_type v t (num_type 0xd0 1) e (λ k. ground arith) l
sign_extend-to_big t v (inr (inl e)) l h = at_type v t (num_type 0xd1 2) e (λ k. ground arith) l
sign_extend-to_big t v (inr (inr (inl e))) l h =
    at_type v t (num_type 0xd2 4) e (λ k. ground arith) l
sign_extend-to_big t v (inr (inr (inr (inl e)))) l h =
    at_type v t (num_type 0xd3 8) e (λ k. ground arith) l
sign_extend-to_big t v (inr (inr (inr (inr m)))) l h = absurd m

signed_tag :
    (cast : Bool → ℕ → Result Error ℕ) (t : NumType) (source : List ℕ)
    → In t signed_types
    → (leb t.tag 0x7f ≡ false)
      × ((matches ftag_signed t.tag ≡ false)
          × (read_integer cast source t.tag ≡ read_as cast true t.size source))
unfolding read_integer
signed_tag cast t source (inl e) = rw e (refl, (refl, refl))
signed_tag cast t source (inr (inl e)) = rw e (refl, (refl, refl))
signed_tag cast t source (inr (inr (inl e))) = rw e (refl, (refl, refl))
signed_tag cast t source (inr (inr (inr (inl e)))) = rw e (refl, (refl, refl))
signed_tag cast t source (inr (inr (inr (inr m)))) = absurd m

read_negative :
    (cast : Bool → ℕ → Result Error ℕ) (size v : ℕ) (rest : List ℕ)
    → sign_extend size (from_big 0 (to_big size v)) ≡ v
    → read_as cast true size (to_big size v ++ rest) ≡ (cast true v >>= λ x. ok (x, rest))
unfolding read_as
read_negative cast size v rest e = rw (read_endian-from_big size v rest, e) refl

-- What the reader makes of an element with a tag of either kind.
after_positive :
    (t : NumType) (v : ℕ) (rest : List ℕ) (n d : ℕ)
    → In t unsigned_types
    → v < 256 ^ t.size
    → v < 2 ^ 63
    → Read.integer (reader (write_endian v t ++ rest) (suc n) d) ≡ ok (v, reader rest n d)
unfolding Read.integer Read.do_integer write_endian
after_positive t v rest n d m h p =
    rw
      (
        start_element-reader t.tag (to_big t.size v ++ rest) n d,
        (unsigned_tag to_intmax t (to_big t.size v ++ rest) m).0,
        (unsigned_tag to_intmax t (to_big t.size v ++ rest) m).1.0,
        (unsigned_tag to_intmax t (to_big t.size v ++ rest) m).1.1,
        read_as-to_big to_intmax t.size v rest h,
        is_positive,
      )
      refl
  where
    is_positive : ltb v (2 ^ 63) ≡ true
    is_positive = ground arith

after_negative :
    (t : NumType) (v : ℕ) (rest : List ℕ) (n d : ℕ)
    → In t signed_types
    → min_value t ≤ v
    → v < 2 ^ 64
    → Read.integer (reader (write_endian v t ++ rest) (suc n) d) ≡ ok (v, reader rest n d)
unfolding Read.integer Read.do_integer write_endian
after_negative t v rest n d m l h =
    rw
      (
        start_element-reader t.tag (to_big t.size v ++ rest) n d,
        (signed_tag to_intmax t (to_big t.size v ++ rest) m).0,
        (signed_tag to_intmax t (to_big t.size v ++ rest) m).1.0,
        (signed_tag to_intmax t (to_big t.size v ++ rest) m).1.1,
        read_negative to_intmax t.size v rest (sign_extend-to_big t v m l h),
      )
      refl

-- What is written of a number, and that it is read back.
abbrev Pair : ℕ → Writer → List ℕ → ℕ → ℕ → Type 0
Pair v w rest n d =
    (bs : List ℕ) × ((Write.integer w v ≡ ok (element w bs))
      × (Read.integer (reader (bs ++ rest) (suc n) d) ≡ ok (v, reader rest n d)))

one_byte_positive : (v : ℕ) (w : Writer) (rest : List ℕ) (n d : ℕ) → v ≤ 0x7f → Pair v w rest n d
unfolding Write.integer Read.integer
one_byte_positive v w rest n d s = (v ∷ [], (write, read))
  where
    is_positive : ltb v (2 ^ 63) ≡ true
    is_positive = ground arith

    is_small : leb v 0x7f ≡ true
    is_small = ground arith

    write : Write.integer w v ≡ ok (element w (v ∷ []))
    write = rw (is_positive, is_small) refl

    read : Read.integer (reader (v ∷ rest) (suc n) d) ≡ ok (v, reader rest n d)
    read = rw (start_element-reader v rest n d, is_small) refl

long_positive :
    (v : ℕ) (w : Writer) (rest : List ℕ) (n d : ℕ)
    → 0x7f < v
    → v < 2 ^ 63
    → Chosen v unsigned_types
    → Pair v w rest n d
unfolding Write.integer Write.do_unsigned_integer
long_positive v w rest n d l p c =
    (write_endian v c.0, (write, after_positive c.0 v rest n d c.1.0 c.1.1.0 p))
  where
    is_positive : ltb v (2 ^ 63) ≡ true
    is_positive = ground arith

    is_large : leb v 0x7f ≡ false
    is_large = ground arith

    write : Write.integer w v ≡ ok (element w (write_endian v c.0))
    write = rw (is_positive, is_large, c.1.1.1) refl

pub short_negative_write :
    (v : ℕ) (w : Writer)
    → 2 ^ 64 - 32 ≤ v
    → v < 2 ^ 64
    → Write.integer w v ≡ ok (element w (v % 256 ∷ []))
unfolding Write.integer Write.do_integer
short_negative_write v w s h = rw (is_negative, is_small) refl
  where
    is_negative : ltb v (2 ^ 63) ≡ false
    is_negative = ground arith

    is_small : leb (2 ^ 64 - 32) v ≡ true
    is_small = ground arith

do_integer-large :
    (v : ℕ) → leb (2 ^ 64 - 32) v ≡ false → Write.do_integer v ≡ write_signed signed_types v
unfolding Write.do_integer
do_integer-large v h = rw h refl

pub long_negative_write :
    (v : ℕ) (w : Writer)
    → 2 ^ 63 ≤ v
    → v < 2 ^ 64 - 32
    → (c : SignedChosen v signed_types) → Write.integer w v ≡ ok (element w (write_endian v c.0))
unfolding Write.integer
long_negative_write v w l h c = rw (is_negative, do_integer-large v is_large, c.1.1.1) refl
  where
    is_negative : ltb v (2 ^ 63) ≡ false
    is_negative = ground arith

    is_large : leb (2 ^ 64 - 32) v ≡ false
    is_large = ground arith

-- A number that is not negative is written as an unsigned one.
pub integer-positive :
    (v : ℕ) (w : Writer) → v < 2 ^ 63 → Write.integer w v ≡ Write.unsigned_integer w v
unfolding Write.integer Write.unsigned_integer
integer-positive v w h = rw is_positive refl
  where
    is_positive : ltb v (2 ^ 63) ≡ true
    is_positive = ground arith

one_byte_negative :
    (v : ℕ) (w : Writer) (rest : List ℕ) (n d : ℕ)
    → 2 ^ 64 - 32 ≤ v
    → v < 2 ^ 64
    → Pair v w rest n d
unfolding Read.integer Read.do_integer
one_byte_negative v w rest n d s h = (v % 256 ∷ [], (short_negative_write v w s h, read))
  where
    is_large : leb (v % 256) 0x7f ≡ false
    is_large = ground arith

    is_signed : matches ftag_signed (v % 256) ≡ true
    is_signed = ground arith

    extended : sign_extend 1 (v % 256) ≡ v
    extended = ground arith

    read : Read.integer (reader (v % 256 ∷ rest) (suc n) d) ≡ ok (v, reader rest n d)
    read = rw (start_element-reader (v % 256) rest n d, is_large, is_signed, extended) refl

long_negative :
    (v : ℕ) (w : Writer) (rest : List ℕ) (n d : ℕ)
    → 2 ^ 63 ≤ v
    → v < 2 ^ 64 - 32
    → SignedChosen v signed_types
    → Pair v w rest n d
long_negative v w rest n d l h c = (
  write_endian v c.0,
  (long_negative_write v w l h c, after_negative c.0 v rest n d c.1.0 c.1.1.0 (omega arith)),
)

-- What `integer` writes of a 64-bit signed number is read back by `integer` as that number, and the
-- reader is left at what follows.
pub integer_round_trip :
    (v : ℕ) (w : Writer) (rest : List ℕ) (n d : ℕ)
    → v < 2 ^ 64
    → (bs : List ℕ) × ((Write.integer w v ≡ ok (element w bs))
        × (Read.integer (reader (bs ++ rest) (suc n) d) ≡ ok (v, reader rest n d)))
integer_round_trip v w rest n d h = elim (dec_lt v (2 ^ 63)) [
  | yes p ↦ elim (dec_lt 0x7f v) [
    | yes l ↦ long_positive v w rest n d l p (chosen unsigned_types v (inr (inr (inr (inl h)))))
    | no s ↦ one_byte_positive v w rest n d (omega arith)
  ]
  | no q ↦ elim (dec_lt v (2 ^ 64 - 32)) [
    | yes l ↦
        long_negative v w rest n d (omega arith) l
          (signed_chosen signed_types v (inr (inr (inr (inl (omega arith))))))
    | no s ↦ one_byte_negative v w rest n d (omega arith) h
  ]
]

-- What `unsigned_integer` writes of a 64-bit number that no `std::intmax_t` has is refused by `integer`
-- with `smaller_integer`.
pub integer-unsigned_integer :
    (v : ℕ) (w : Writer) (rest : List ℕ) (n d : ℕ)
    → 2 ^ 63 ≤ v
    → v < 2 ^ 64
    → (bs : List ℕ) × ((Write.unsigned_integer w v ≡ ok (element w bs))
        × (Read.integer (reader (bs ++ rest) (suc n) d) ≡ err schema_smaller_integer))
unfolding Write.unsigned_integer Write.do_unsigned_integer write_count Read.integer Read.do_integer
    write_endian read_integer
integer-unsigned_integer v w rest n d l h = (write_endian v (num_type 0xcf 8), (write, read))
  where
    is_large : leb v 0x7f ≡ false
    is_large = ground arith

    is_huge : ltb v (2 ^ 63) ≡ false
    is_huge = ground arith

    write : Write.unsigned_integer w v ≡ ok (element w (write_endian v (num_type 0xcf 8)))
    write = rw is_large (ground arith)

    read :
        Read.integer (reader (write_endian v (num_type 0xcf 8) ++ rest) (suc n) d)
        ≡ err schema_smaller_integer
    read =
        rw
          (
            start_element-reader 0xcf (to_big 8 v ++ rest) n d,
            read_as-to_big to_intmax 8 v rest h,
            is_huge,
          )
          refl
