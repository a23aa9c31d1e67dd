-- ===== src/Wire/Msgpack/Tokens.antt =====
-- Sequences of calls of the writer of src/wire/msgpack/: what they write, announce and expect.
use monero_lws.Base.{
  ℕ, ◌+◌, ◌%◌, ◌-◌, ◌*◌, ◌^◌, ◌<◌, Bool, true, false, List, [], ◌∷◌, ◌++◌, ◌==◌, if◌then◌else◌,
  length,
}
use monero_lws.Base.Results.{Result, ok, ◌>>=◌}
use monero_lws.Wire.Msgpack.{Error}
use monero_lws.Wire.Msgpack.Write.{Writer, decrement, element, write_endian}
use monero_lws.Wire.Msgpack.Write

-- A call of the writer.
pub data Token : Type 0 where
  unsigned_token integer_token real_token array_token object_token : ℕ → Token
  boolean_token : Bool → Token
  string_token binary_token : List ℕ → Token
  end_token : Token

abbrev pub write_token : Writer → Token → Result Error Writer
write_token w (unsigned_token v) = Write.unsigned_integer w v
write_token w (integer_token v) = Write.integer w v
write_token w (real_token bits) = ok (Write.real w bits)
write_token w (array_token items) = Write.start_array w items
write_token w (object_token items) = Write.start_object w items
write_token w (boolean_token b) = ok (Write.boolean w b)
write_token w (string_token s) = Write.string w s
write_token w (binary_token s) = Write.binary w s
write_token w end_token = ok (Write.end_container w)

abbrev pub write_tokens : Writer → List Token → Result Error Writer
write_tokens w [] = ok w
write_tokens w (t ∷ ts) = write_token w t >>= λ v. write_tokens v ts

-- The pending elements and the depth after a call's element was read.
abbrev pub pending_after : ℕ → Token → ℕ
pending_after n (array_token items) = n + items
pending_after n (object_token items) = n + items * 2
pending_after n _ = n

abbrev pub depth_after : ℕ → Token → ℕ
depth_after d (array_token items) = d + 1
depth_after d (object_token items) = d + 1
depth_after d _ = d

abbrev pub is_end : Token → Bool
is_end end_token = true
is_end _ = false

-- What the writer accepts.
abbrev pub IsWritable : Token → Type 0
IsWritable (unsigned_token v) = v < 2 ^ 64
IsWritable (integer_token v) = v < 2 ^ 64
IsWritable (array_token items) = items < 2 ^ 32
IsWritable (object_token items) = items < 2 ^ 32
IsWritable (string_token s) = length s < 2 ^ 32
IsWritable (binary_token s) = length s < 2 ^ 32
IsWritable _ = Unit {0}

-- The calls write as many values as are pending.
abbrev pub complete : ℕ → List Token → Bool
complete pending [] = pending == 0
complete pending (t ∷ ts) =
    let inner = complete (pending_after (pending - 1) t) ts in
    let outer = complete pending ts in
    if is_end t then outer else (if pending == 0 then false else inner)

abbrev pub depth_after_all : ℕ → List Token → ℕ
depth_after_all d [] = d
depth_after_all d (t ∷ ts) = depth_after_all (depth_after d t) ts

-- All elements that the calls announce.
abbrev pub announced : List Token → ℕ
announced [] = 0
announced (t ∷ ts) = pending_after 0 t + announced ts

-- The number of elements that the writer still expects after a call.
abbrev pub expected_after : ℕ → Token → ℕ
expected_after e (array_token items) = (e + items) % 2 ^ 64
expected_after e (object_token items) = (e + items * 2) % 2 ^ 64
expected_after e _ = decrement e

abbrev pub after : Writer → Token → List ℕ → Writer
after w t bs = record w { bytes = w.bytes ++ bs; expected = expected_after w.expected t }
