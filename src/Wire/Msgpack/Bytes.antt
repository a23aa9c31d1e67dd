-- ===== src/Wire/Msgpack/Bytes.antt =====
-- Integers as bytes, the most significant first: `write_endian` and `read_endian` of src/wire/msgpack/.
use monero_lws.Base.{
  ℕ, zero, suc, ◌+◌, ◌*◌, ◌/◌, ◌%◌, ◌^◌, ◌<◌, ◌≡◌, refl, arith, List, [], ◌∷◌, ◌++◌, ltb, false,
  if◌then◌else◌, length, take, drop, take-append-length, drop-append-length, length-append,
}
use monero_lws.Base.Results.{Result, ok, err}
use monero_lws.Wire.Msgpack.{Error, not_enough_bytes}

-- `endian_buffer<order::big, U, bits>` of `size` bytes: the low bytes of the value.
unfoldable pub to_big : ℕ → ℕ → List ℕ
to_big zero v = []
to_big (suc size) v = to_big size (v / 256) ++ v % 256 ∷ []

abbrev pub from_big : ℕ → List ℕ → ℕ
from_big high [] = high
from_big high (b ∷ bs) = from_big (high * 256 + b) bs

unfoldable pub read_endian : ℕ → List ℕ → Result Error (ℕ × List ℕ)
read_endian size source =
    if ltb (length source) size
    then err not_enough_bytes
    else ok (from_big 0 (take size source), drop size source)

pub length-to_big : (size v : ℕ) → length (to_big size v) ≡ size
unfolding to_big
length-to_big zero v = refl
length-to_big (suc size) v =
    omega
      (arith, length-append (to_big size (v / 256)) (v % 256 ∷ []), length-to_big size (v / 256))

from_big-append :
    (high : ℕ) (bs : List ℕ) (b : ℕ) → from_big high (bs ++ b ∷ []) ≡ from_big high bs * 256 + b
from_big-append high [] b = refl
from_big-append high (c ∷ bs) b = from_big-append (high * 256 + c) bs b

from_big-to_big : (size v : ℕ) → v < 256 ^ size → from_big 0 (to_big size v) ≡ v
unfolding to_big
from_big-to_big zero v h = omega arith
from_big-to_big (suc size) v h = omega (
  arith,
  from_big-append 0 (to_big size (v / 256)) (v % 256),
  from_big-to_big size (v / 256) (omega arith),
)

pub is_long : (bs rest : List ℕ) → ltb (length (bs ++ rest)) (length bs) ≡ false
is_long bs rest = ground (arith, length-append bs rest)

read_endian-append :
    (bs rest : List ℕ) → read_endian (length bs) (bs ++ rest) ≡ ok (from_big 0 bs, rest)
unfolding read_endian
read_endian-append bs rest =
    rw (is_long bs rest, take-append-length bs rest, drop-append-length bs rest) refl

pub read_endian-from_big :
    (size v : ℕ) (rest : List ℕ)
    → read_endian size (to_big size v ++ rest) ≡ ok (from_big 0 (to_big size v), rest)
read_endian-from_big size v rest =
    rw (length-to_big size v) at (read_endian-append (to_big size v) rest)

-- What `write_endian` wrote is read back, and what follows it is left.
pub read_endian-to_big :
    (size v : ℕ) (rest : List ℕ)
    → v < 256 ^ size
    → read_endian size (to_big size v ++ rest) ≡ ok (v, rest)
read_endian-to_big size v rest h =
    rw (length-to_big size v, from_big-to_big size v h) at (read_endian-append (to_big size v) rest)
