-- ===== src/Wire/Msgpack/Skip.antt =====
-- src/wire/msgpack/read.cpp: `skip_value` and `key` of `msgpack_reader`, which pass over the fields of an object that
-- the caller does not know.
-- `remove_prefix` is the method of `epee::span`, which is not under src/: where the span has that many bytes, it takes
-- them away (`RemovesPrefix`). `skip_value` also calls it where the span may have fewer.
use monero_lws.Base.{
  ℕ, zero, suc, ◌-◌, ◌^◌, ◌≡◌, Bool, true, false, ◌||◌, ◌&&◌, Option, none, some, List, [], ◌∷◌,
  ◌++◌, ltb, leb, ◌==◌, if◌then◌else◌, length,
}
use monero_lws.Base.Results.{Result, ok, err, ◌>>=◌}
use monero_lws.Wire.Msgpack.{
  Error, invalid, max_tree_size, out_of_fuel, schema_invalid_key, schema_smaller_integer,
  schema_larger_integer, NumType, unsigned_types, string_types, binary_types, array_types,
  object_types, ftag_unsigned, ftag_signed, ftag_string, ftag_array, ftag_object, matches,
}
use monero_lws.Wire.Msgpack.Read.{
  Reader, read_binary, read_string, read_sized, read_integer, start_array, start_object, peek_tag,
  update_tags_remaining, start_element,
}

-- `matches<T>(tag)`
abbrev pub matches_types : List NumType → ℕ → Bool
matches_types [] tag = false
matches_types (t ∷ ts) tag = t.tag == tag || matches_types ts tag

-- What `remove_prefix` does within the span.
abbrev pub RemovesPrefix : (ℕ → List ℕ → List ℕ) → Type 0
RemovesPrefix remove_prefix = (xs ys : List ℕ) → remove_prefix (length xs) (xs ++ ys) ≡ ys

-- One of the keys that a caller asks for; names are bytes.
pub record KeyMap : Type 0 where
  pub name : List ℕ
  pub id : ℕ

abbrev pub same_bytes : List ℕ → List ℕ → Bool
same_bytes [] [] = true
same_bytes [] (b ∷ bs) = false
same_bytes (a ∷ more) [] = false
same_bytes (a ∷ more) (b ∷ bs) = a == b && same_bytes more bs

-- The loops over the map, with the index of the first match.
unfoldable pub find_key : (KeyMap → Bool) → ℕ → List KeyMap → Option ℕ
find_key matched index [] = none
find_key matched index (k ∷ ks) = if matched k then some index else find_key matched (suc index) ks

-- `boost::numeric_cast<unsigned>`
abbrev pub to_unsigned : Bool → ℕ → Result Error ℕ
to_unsigned true v =
    if ltb v (2 ^ 63)
    then (if ltb v (2 ^ 32) then ok v else err schema_smaller_integer)
    else err schema_larger_integer
to_unsigned false v = if ltb v (2 ^ 32) then ok v else err schema_smaller_integer

-- The key with the tag `next`, looked up in the map.
unfoldable pub read_key : List KeyMap → ℕ → Reader → Result Error (Option ℕ × Reader)
read_key map next r =
    if matches ftag_unsigned next
    then ok (find_key (λ k. k.id == next) 0 map, r)
    else (if matches_types unsigned_types next
        then (do
          p ← read_integer to_unsigned r.remaining next
          ok (find_key (λ k. k.id == p.0) 0 map, record r { remaining = p.1 }))
        else (if matches ftag_string next || matches_types string_types next
            then (do
              p ← read_string r.remaining next
              ok (find_key (λ k. same_bytes p.0 k.name) 0 map, record r { remaining = p.1 }))
            else err schema_invalid_key))

module _ (remove_prefix : ℕ → List ℕ → List ℕ) where
  abbrev pub remove : ℕ → Reader → Reader
  remove n r = record r { remaining = remove_prefix n r.remaining }

  -- `remaining_.remove_prefix(1)` and then one of the functions that read from the span.
  abbrev pub past_tag : Reader → (List ℕ → Result Error (List ℕ × List ℕ)) → Result Error Reader
  past_tag r read = read (remove 1 r).remaining >>= λ p. ok (record r { remaining = p.1 })

  -- The cases of the switch; the values 0x00 to 0x7f and 0xe0 to 0xff have none.
  unfoldable pub skip_switch : Reader → ℕ → Result Error Reader
  skip_switch r next =
      if ltb next 0x80 || leb 0xe0 next
      then ok r
      else (if matches ftag_array next || matches_types array_types next
          then (start_array 0 r >>= λ p. ok p.1)
          else (if matches ftag_object next || matches_types object_types next
              then (start_object r >>= λ p. ok p.1)
              else (if matches ftag_string next || matches_types string_types next
                  then past_tag r (λ source. read_string source next)
                  else (if leb 0xc0 next && leb next 0xc3
                      then ok (remove 1 r)
                      else (if matches_types binary_types next
                          then past_tag r (λ source. read_binary source next)
                          else (if next == 0xc7
                              then (past_tag r (read_sized 1) >>= λ s. ok (remove 1 s))
                              else (if next == 0xc8
                                  then (past_tag r (read_sized 2) >>= λ s. ok (remove 1 s))
                                  else (if next == 0xc9
                                      then (past_tag r (read_sized 4) >>= λ s. ok (remove 1 s))
                                      else (if next == 0xd0 || next == 0xcc
                                          then ok (remove 2 r)
                                          else (if next == 0xd1 || next == 0xcd || next == 0xd4
                                              then ok (remove 3 r)
                                              else (if next == 0xd2 || next == 0xce || next == 0xca
                                                  then ok (remove 5 r)
                                                  else (if next == 0xd3
                                                        || next == 0xcf
                                                        || next == 0xcb
                                                      then ok (remove 9 r)
                                                      else (if next == 0xd5
                                                          then ok (remove 4 r)
                                                          else (if next == 0xd6
                                                            then ok (remove 6 r)
                                                            else (if next == 0xd7
                                                            then ok (remove 10 r)
                                                            else (if next == 0xd8
                                                            then ok (remove 18 r)
                                                            else ok r))))))))))))))))

  -- The test after the switch.
  unfoldable pub consume : ℕ → Reader → Reader → Result Error Reader
  consume next r s =
      if length r.remaining == length s.remaining
      then (if matches ftag_unsigned next || matches ftag_signed next
          then ok (remove 1 s)
          else err invalid)
      else ok s

  -- The body of the loop.
  unfoldable pub skip_step : Reader → Result Error Reader
  skip_step r = do
    next ← peek_tag r
    s ← skip_switch r next
    t ← consume next r s
    update_tags_remaining t

  unfoldable pub skip_loop : ℕ → ℕ → Reader → Result Error Reader
  skip_loop zero initial r = err out_of_fuel
  skip_loop (suc fuel) initial r = skip_step r >>= λ s.
      let rest = skip_loop fuel initial s in if leb initial s.tags_remaining then rest else ok s

  -- Every round takes a byte at least, and one without bytes fails.
  unfoldable pub skip_value : Reader → Result Error Reader
  skip_value r =
      if r.tags_remaining == 2 ^ 64 - 1
      then err max_tree_size
      else skip_loop (suc (length r.remaining)) r.tags_remaining r

  -- `key`: the index of the match, or `none` at the end of the object, with the new `state`.
  unfoldable pub key : List KeyMap → ℕ → Reader → Result Error (Option ℕ × (ℕ × Reader))
  key map zero r = update_tags_remaining r >>= λ s. ok (none, (0, s))
  key map (suc state) r = do
    p ← start_element r
    q ← read_key map p.0 p.1
    let rest = skip_value q.1 >>= key map state
    elim q.0 [ some index ↦ ok (some index, (state, q.1)) | none ↦ rest ]
