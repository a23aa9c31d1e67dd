-- ===== src/Wire/Msgpack/Integers.antt =====
-- Round trips of the integers of src/wire/msgpack/.
use monero_lws.Base.{
  ℕ, suc, ◌^◌, ◌≤◌, ◌<◌, ◌≡◌, refl, ◌∙◌, zero, arith, Bool, true, false, List, [], ◌∷◌, ◌++◌, leb,
  dec_lt, ◌⊎◌, inl, inr, In,
}
use monero_lws.Base.Results.{Result, ok, ◌>>=◌}
use monero_lws.Wire.Msgpack.{ftag_signed, matches, Error, NumType, unsigned_types}
use monero_lws.Wire.Msgpack.Bytes.{to_big, read_endian-to_big}
use monero_lws.Wire.Msgpack.Write.{Writer, element, write_endian, write_count, write_signed}
use monero_lws.Wire.Msgpack.Write
use monero_lws.Wire.Msgpack.Read.{
  Reader, start_element, with_rest, read_as, read_integer, to_uintmax, to_intmax, sign_extend,
}
use monero_lws.Wire.Msgpack.Read

-- A reader inside a tree.
abbrev pub reader : List ℕ → ℕ → ℕ → Reader
reader bs t d = record { remaining = bs; tags_remaining = t; depth = d }

pub start_element-reader :
    (b : ℕ) (bs : List ℕ) (t d : ℕ)
    → start_element (reader (b ∷ bs) (suc t) d) ≡ ok (b, reader bs t d)
unfolding Read.update_tags_remaining Read.get_tag Read.peek_tag
start_element-reader b bs t d = ground arith

-- A type of the list is large enough for the value.
abbrev pub Fits : ℕ → List NumType → Type 0
Fits value [] = ⊥
Fits value (t ∷ ts) = (value < 256 ^ t.size) ⊎ Fits value ts

-- The type that `write_count` chooses.
abbrev pub Chosen : ℕ → List NumType → Type 0
Chosen value ts =
    (t : NumType) × (In t ts
      × (value < 256 ^ t.size × (write_count ts value ≡ ok (write_endian value t))))

one_le_power : (n : ℕ) → 1 ≤ 256 ^ n
one_le_power zero = omega arith
one_le_power (suc n) = omega (arith, one_le_power n)

write_count-skip :
    (t : NumType) (ts : List NumType) (value : ℕ)
    → 256 ^ t.size ≤ value
    → write_count (t ∷ ts) value ≡ write_count ts value
unfolding write_count
write_count-skip t ts value h = ground (arith, one_le_power t.size)

write_count-take :
    (t : NumType) (ts : List NumType) (value : ℕ)
    → value < 256 ^ t.size
    → write_count (t ∷ ts) value ≡ ok (write_endian value t)
unfolding write_count
write_count-take t ts value h = ground arith

pub chosen : (ts : List NumType) (value : ℕ) → Fits value ts → Chosen value ts
chosen [] value f = absurd f
chosen (t ∷ ts) value f = elim (dec_lt value (256 ^ t.size)) [
  | yes h ↦ (t, (inl refl, (h, write_count-take t ts value h)))
  | no n ↦ later (ground arith) (chosen ts value (ground arith))
]
  where
    later : 256 ^ t.size ≤ value → Chosen value ts → Chosen value (t ∷ ts)
    later l c = (c.0, (inr c.1.0, (c.1.1.0, write_count-skip t ts value l ∙ c.1.1.1)))

pub read_as-to_big :
    (cast : Bool → ℕ → Result Error ℕ) (size v : ℕ) (rest : List ℕ)
    → v < 256 ^ size
    → read_as cast false size (to_big size v ++ rest) ≡ (cast false v >>= λ x. ok (x, rest))
unfolding read_as
read_as-to_big cast size v rest h = rw (read_endian-to_big size v rest h) refl

-- The tag leads back to the type.
pub unsigned_tag :
    (cast : Bool → ℕ → Result Error ℕ) (t : NumType) (source : List ℕ)
    → In t unsigned_types
    → (leb t.tag 0x7f ≡ false)
      × ((matches ftag_signed t.tag ≡ false)
          × (read_integer cast source t.tag ≡ read_as cast false t.size source))
unfolding read_integer
unsigned_tag cast t source (inl e) = rw e (refl, (refl, refl))
unsigned_tag cast t source (inr (inl e)) = rw e (refl, (refl, refl))
unsigned_tag cast t source (inr (inr (inl e))) = rw e (refl, (refl, refl))
unsigned_tag cast t source (inr (inr (inr (inl e)))) = rw e (refl, (refl, refl))
unsigned_tag cast t source (inr (inr (inr (inr m)))) = absurd m

after_tag :
    (t : NumType) (v : ℕ) (rest : List ℕ) (n d : ℕ)
    → In t unsigned_types
    → v < 256 ^ t.size
    → Read.unsigned_integer (reader (write_endian v t ++ rest) (suc n) d) ≡ ok (v, reader rest n d)
unfolding Read.unsigned_integer Read.do_unsigned_integer write_endian
after_tag t v rest n d m h =
    rw
      (
        start_element-reader t.tag (to_big t.size v ++ rest) n d,
        (unsigned_tag to_uintmax t (to_big t.size v ++ rest) m).0,
        (unsigned_tag to_uintmax t (to_big t.size v ++ rest) m).1.1,
        read_as-to_big to_uintmax t.size v rest h,
      )
      refl

pub long_write :
    (v : ℕ) (w : Writer) (c : Chosen v unsigned_types)
    → 0x7f < v
    → Write.unsigned_integer w v ≡ ok (element w (write_endian v c.0))
unfolding Write.unsigned_integer Write.do_unsigned_integer
long_write v w c l = rw (is_large, c.1.1.1) refl
  where
    is_large : leb v 0x7f ≡ false
    is_large = ground arith

pub short_write :
    (v : ℕ) (w : Writer) → v ≤ 0x7f → Write.unsigned_integer w v ≡ ok (element w (v ∷ []))
unfolding Write.unsigned_integer
short_write v w s = rw is_small refl
  where
    is_small : leb v 0x7f ≡ true
    is_small = ground arith

short_read :
    (v : ℕ) (rest : List ℕ) (n d : ℕ)
    → v ≤ 0x7f
    → Read.unsigned_integer (reader (v ∷ rest) (suc n) d) ≡ ok (v, reader rest n d)
unfolding Read.unsigned_integer
short_read v rest n d s = rw (start_element-reader v rest n d, is_small) refl
  where
    is_small : leb v 0x7f ≡ true
    is_small = ground arith

-- What `unsigned_integer` writes of a 64-bit number is read back by `unsigned_integer` as that number, and the reader
-- is left at what follows.
pub unsigned_integer_round_trip :
    (v : ℕ) (w : Writer) (rest : List ℕ) (n d : ℕ)
    → v < 2 ^ 64
    → (bs : List ℕ) × ((Write.unsigned_integer w v ≡ ok (element w bs))
        × (Read.unsigned_integer (reader (bs ++ rest) (suc n) d) ≡ ok (v, reader rest n d)))
unsigned_integer_round_trip v w rest n d h = elim (dec_lt 0x7f v) [
  | yes l ↦ (write_endian v (c.0), (long_write v w c l, after_tag c.0 v rest n d c.1.0 c.1.1.0))
  | no s ↦ (v ∷ [], (short_write v w (omega arith), short_read v rest n d (omega arith)))
]
  where
    c : Chosen v unsigned_types
    c = chosen unsigned_types v (inr (inr (inr (inl h))))
