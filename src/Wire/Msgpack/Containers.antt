-- ===== src/Wire/Msgpack/Containers.antt =====
-- Round trips of the starts of arrays and objects in src/wire/msgpack/, with what the reader checks there.
use monero_lws.Base.{
  ℕ, ◌+◌, ◌%◌, ◌-◌, ◌*◌, ◌/◌, ◌^◌, ◌≤◌, ◌<◌, ◌≡◌, refl, ◌∙◌, arith, max, true, false, List, [], ◌∷◌,
  ◌++◌, ltb, ◌||◌, dec_lt, inl, inr, In, length,
}
use monero_lws.Base.Results.{ok, err}
use monero_lws.Wire.Msgpack.{
  Error, schema_array, schema_object, NumType, FixedTag, array_types, object_types, matches,
  extract, ftag_array, ftag_object,
}
use monero_lws.Wire.Msgpack.Bytes.{to_big, read_endian, read_endian-to_big}
use monero_lws.Wire.Msgpack.Write.{Writer, write_endian, write_count, write_fixed_count}
use monero_lws.Wire.Msgpack.Write
use monero_lws.Wire.Msgpack.Read.{Reader, read_count, read_count_types, increment_depth}
use monero_lws.Wire.Msgpack.Read
use monero_lws.Wire.Msgpack.Skip.{matches_types}
use monero_lws.Wire.Msgpack.Integers.{reader, Chosen, chosen}
use monero_lws.Wire.Msgpack.Counts.{write_fixed_count-small, write_fixed_count-large}

pub matches_types-In :
    (types : List NumType) (t : NumType) → In t types → matches_types types t.tag ≡ true
matches_types-In [] t m = absurd m
matches_types-In (s ∷ types) t (inl e) = rw e (ground arith)
matches_types-In (s ∷ types) t (inr m) = rw (matches_types-In types t m) (ground arith)

-- The reader tells the tags apart that the writer chooses from.
record Readable (f : FixedTag) (types : List NumType) (expected : Error) : Type 0 where
  short_tag : (items : ℕ) → items ≤ f.max → matches f (f.tag + items % 256) ≡ true
  short_items : (items : ℕ) → items ≤ f.max → extract f (f.tag + items % 256) ≡ items
  long_tag : (t : NumType) → In t types → matches f t.tag ≡ false
  long_types :
      (t : NumType) (source : List ℕ)
      → In t types
      → read_count_types types expected source t.tag ≡ read_endian t.size source

module _ (f : FixedTag) (types : List NumType) (e : Error) (readable : Readable f types e) where
  Counted : ℕ → List ℕ → ℕ → ℕ → Type 0
  Counted items rest t d =
      (b : ℕ) × ((bs : List ℕ) × (((matches f b || matches_types types b) ≡ true)
          × ((write_fixed_count f types items ≡ ok (b ∷ bs))
              × (read_count f types e (reader (b ∷ bs ++ rest) t d)
                  ≡ ok (items, reader rest t d)))))

  long_count :
      (items : ℕ) (rest : List ℕ) (t d : ℕ)
      → f.max < items
      → Chosen items types
      → Counted items rest t d
  unfolding read_count write_endian Read.get_tag Read.peek_tag Counted
  long_count items rest t d l c = (
    (c.0).tag,
    (
      to_big (c.0).size items,
      (
        rw (readable.long_tag c.0 c.1.0) (matches_types-In types c.0 c.1.0),
        (
          write_fixed_count-large f types items l ∙ c.1.1.1,
          rw
              (
                readable.long_tag c.0 c.1.0,
                readable.long_types c.0 (to_big (c.0).size items ++ rest) c.1.0,
                read_endian-to_big (c.0).size items rest c.1.1.0,
              )
              refl,
        ),
      ),
    ),
  )

  short_count : (items : ℕ) (rest : List ℕ) (t d : ℕ) → items ≤ f.max → Counted items rest t d
  unfolding read_count Read.get_tag Read.peek_tag Counted
  short_count items rest t d l = (
    f.tag + items % 256,
    (
      [],
      (
        rw (readable.short_tag items l) refl,
        (
          write_fixed_count-small f types items l,
          rw (readable.short_tag items l, readable.short_items items l) refl,
        ),
      ),
    ),
  )

  counted :
      (items : ℕ) (rest : List ℕ) (t d : ℕ)
      → (f.max < items → Chosen items types)
      → Counted items rest t d
  counted items rest t d c = elim (dec_lt f.max items) [
    | yes l ↦ long_count items rest t d l (c l)
    | no l ↦ short_count items rest t d (omega arith)
  ]

array_types_tag :
    (t : NumType) (source : List ℕ)
    → In t array_types
    → (matches ftag_array t.tag ≡ false)
      × (read_count_types array_types schema_array source t.tag ≡ read_endian t.size source)
unfolding read_count_types
array_types_tag t source (inl e) = rw e (refl, refl)
array_types_tag t source (inr (inl e)) = rw e (refl, refl)
array_types_tag t source (inr (inr m)) = absurd m

object_types_tag :
    (t : NumType) (source : List ℕ)
    → In t object_types
    → (matches ftag_object t.tag ≡ false)
      × (read_count_types object_types schema_object source t.tag ≡ read_endian t.size source)
unfolding read_count_types
object_types_tag t source (inl e) = rw e (refl, refl)
object_types_tag t source (inr (inl e)) = rw e (refl, refl)
object_types_tag t source (inr (inr m)) = absurd m

ftag_array-Readable : Readable ftag_array array_types schema_array
ftag_array-Readable = record {
  short_tag = λ items h. ground arith;
  short_items = λ items h. omega arith;
  long_tag = λ t m. (array_types_tag t [] m).0;
  long_types = λ t source m. (array_types_tag t source m).1;
}

ftag_object-Readable : Readable ftag_object object_types schema_object
ftag_object-Readable = record {
  short_tag = λ items h. ground arith;
  short_items = λ items h. omega arith;
  long_tag = λ t m. (object_types_tag t [] m).0;
  long_types = λ t source m. (object_types_tag t source m).1;
}

abbrev pub ArrayCount : ℕ → List ℕ → ℕ → ℕ → Type 0
ArrayCount items rest t d =
    (b : ℕ) × ((bs : List ℕ) × (((matches ftag_array b || matches_types array_types b) ≡ true)
        × ((write_fixed_count ftag_array array_types items ≡ ok (b ∷ bs))
            × (read_count ftag_array array_types schema_array (reader (b ∷ bs ++ rest) t d)
                ≡ ok (items, reader rest t d)))))

pub array_count : (items : ℕ) (rest : List ℕ) (t d : ℕ) → items < 2 ^ 32 → ArrayCount items rest t d
unfolding Counted
array_count items rest t d h =
    counted ftag_array array_types schema_array ftag_array-Readable items rest t d
      (λ l. chosen array_types items (inr (inl h)))

abbrev pub ObjectCount : ℕ → List ℕ → ℕ → ℕ → Type 0
ObjectCount items rest t d =
    (b : ℕ) × ((bs : List ℕ) × (((matches ftag_object b || matches_types object_types b) ≡ true)
        × ((write_fixed_count ftag_object object_types items ≡ ok (b ∷ bs))
            × (read_count ftag_object object_types schema_object (reader (b ∷ bs ++ rest) t d)
                ≡ ok (items, reader rest t d)))))

pub object_count :
    (items : ℕ) (rest : List ℕ) (t d : ℕ) → items < 2 ^ 32 → ObjectCount items rest t d
unfolding Counted
object_count items rest t d h =
    counted ftag_object object_types schema_object ftag_object-Readable items rest t d
      (λ l. chosen object_types items (inr (inl h)))

-- A writer and a reader inside a new array or object with that many elements.
abbrev pub opened : Writer → List ℕ → ℕ → Writer
opened w bs items = record w { bytes = w.bytes ++ bs; expected = (w.expected + items) % 2 ^ 64 }

pub increment_depth-reader :
    (rest : List ℕ) (t d : ℕ)
    → d < 99
    → increment_depth (reader rest t d) ≡ ok (reader rest t (d + 1))
unfolding increment_depth
increment_depth-reader rest t d h = ground arith

pub array_write :
    (items : ℕ) (w : Writer) (bs : List ℕ)
    → write_fixed_count ftag_array array_types items ≡ ok bs
    → Write.start_array w items ≡ ok (opened w bs items)
unfolding Write.start_array
array_write items w bs h = rw h refl

pub object_write :
    (items : ℕ) (w : Writer) (bs : List ℕ)
    → write_fixed_count ftag_object object_types items ≡ ok bs
    → Write.start_object w items ≡ ok (opened w bs (items * 2))
unfolding Write.start_object
object_write items w bs h = rw h refl

pub array_read :
    (items min_element_size : ℕ) (rest : List ℕ) (t d : ℕ) (c : ArrayCount items rest t d)
    → t + items < 2 ^ 64
    → items ≤ length rest / max min_element_size 1
    → d < 99
    → Read.start_array min_element_size (reader (c.0 ∷ c.1.0 ++ rest) t d)
      ≡ ok (items, reader rest (t + items) (d + 1))
unfolding Read.start_array
array_read items min_element_size rest t d c few fit shallow =
    rw (c.1.1.1.1, is_few, is_fit, increment_depth-reader rest (t + items) d shallow) refl
  where
    is_few : ltb (2 ^ 64 - 1 - t) items ≡ false
    is_few = ground arith

    is_fit : ltb (length rest / max min_element_size 1) items ≡ false
    is_fit = ground arith

pub object_read :
    (items : ℕ) (rest : List ℕ) (t d : ℕ) (c : ObjectCount items rest t d)
    → t + items * 2 < 2 ^ 64
    → d < 99
    → Read.start_object (reader (c.0 ∷ c.1.0 ++ rest) t d)
      ≡ ok (items, reader rest (t + items * 2) (d + 1))
unfolding Read.start_object
object_read items rest t d c few shallow =
    rw (c.1.1.1.1, is_small, is_few, increment_depth-reader rest (t + items * 2) d shallow) refl
  where
    is_small : ltb ((2 ^ 64 - 1) / 2) items ≡ false
    is_small = ground arith

    is_few : ltb (2 ^ 64 - 1 - t) (items * 2) ≡ false
    is_few = ground arith

-- The start of an array of less than 2^32 items is read back with its number of items, where that
-- many elements of the least size can follow, their number can be counted and the depth is below 99.
pub start_array_round_trip :
    (items min_element_size : ℕ) (w : Writer) (rest : List ℕ) (t d : ℕ)
    → items < 2 ^ 32
    → t + items < 2 ^ 64
    → items ≤ length rest / max min_element_size 1
    → d < 99
    → (bs : List ℕ) × ((Write.start_array w items ≡ ok (opened w bs items))
        × (Read.start_array min_element_size (reader (bs ++ rest) t d)
            ≡ ok (items, reader rest (t + items) (d + 1))))
start_array_round_trip items min_element_size w rest t d h few fit shallow = (
  c.0 ∷ c.1.0,
  (
    array_write items w (c.0 ∷ c.1.0) c.1.1.1.0,
    array_read items min_element_size rest t d c few fit shallow,
  ),
)
  where
    c : ArrayCount items rest t d
    c = array_count items rest t d h

-- An array that claims more items than the bytes that follow it can hold is refused.
pub start_array_overclaim :
    (items min_element_size : ℕ) (w : Writer) (rest : List ℕ) (t d : ℕ)
    → items < 2 ^ 32
    → t + items < 2 ^ 64
    → length rest / max min_element_size 1 < items
    → (bs : List ℕ) × ((Write.start_array w items ≡ ok (opened w bs items))
        × (Read.start_array min_element_size (reader (bs ++ rest) t d) ≡ err schema_array))
unfolding Write.start_array Read.start_array
start_array_overclaim items min_element_size w rest t d h few over =
    (c.0 ∷ c.1.0, (rw c.1.1.1.0 refl, rw (c.1.1.1.1, is_few, is_over) refl))
  where
    c : ArrayCount items rest t d
    c = array_count items rest t d h

    is_few : ltb (2 ^ 64 - 1 - t) items ≡ false
    is_few = ground arith

    is_over : ltb (length rest / max min_element_size 1) items ≡ true
    is_over = ground arith

-- The start of an object of less than 2^32 fields is read back with its number of fields, where its
-- keys and values can be counted and the depth is below 99.
pub start_object_round_trip :
    (items : ℕ) (w : Writer) (rest : List ℕ) (t d : ℕ)
    → items < 2 ^ 32
    → t + items * 2 < 2 ^ 64
    → d < 99
    → (bs : List ℕ) × ((Write.start_object w items ≡ ok (opened w bs (items * 2)))
        × (Read.start_object (reader (bs ++ rest) t d)
            ≡ ok (items, reader rest (t + items * 2) (d + 1))))
start_object_round_trip items w rest t d h few shallow = (
  c.0 ∷ c.1.0,
  (object_write items w (c.0 ∷ c.1.0) c.1.1.1.0, object_read items rest t d c few shallow),
)
  where
    c : ObjectCount items rest t d
    c = object_count items rest t d h
