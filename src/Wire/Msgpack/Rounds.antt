-- ===== src/Wire/Msgpack/Rounds.antt =====
-- The rounds of `skip_value` of src/wire/msgpack/read.cpp: each takes a byte at least, so that the bytes that are left
-- bound their number.
use monero_lws.Base.{
  ℕ, ◌+◌, ◌-◌, ◌*◌, ◌/◌, ◌^◌, ◌≤◌, ◌≡◌, refl, arith, max, Bool, true, false, List, [], ◌∷◌, ltb,
  if◌then◌else◌, length, length-drop,
}
use monero_lws.Base.Results.{Result, ok, err, ◌>>=◌}
use monero_lws.Wire.Msgpack.{
  Error, out_of_fuel, max_tree_size, NumType, FixedTag, array_types, object_types, ftag_array,
  ftag_object, matches, extract, schema_array, schema_object,
}
use monero_lws.Wire.Msgpack.Bytes.{read_endian}
use monero_lws.Wire.Msgpack.Read.{
  Reader, read_raw, read_sized, read_string, read_binary, read_count, read_count_types,
  increment_depth, start_array, start_object, get_tag, peek_tag,
}
use monero_lws.Wire.Msgpack.Skip.{RemovesPrefix, remove, past_tag, skip_switch}

abbrev pub is_fuel : Error → Bool
is_fuel out_of_fuel = true
is_fuel _ = false

-- A result with at most `n`, or an error of the source.
pub data Bound {ℓ} {A : Type ℓ} (f : A → ℕ) (n : ℕ) : Result Error A → Type ℓ where
  bound_ok : (a : A) → f a ≤ n → Bound f n (ok a)
  bound_err : (e : Error) → is_fuel e ≡ false → Bound f n (err e)

pub bind-Bound {ℓ κ} :
    {A : Type ℓ} {B : Type κ} (f : A → ℕ) (g : B → ℕ) (n m : ℕ) (x : Result Error A)
    (k : A → Result Error B)
    → Bound f n x
    → ((a : A) → f a ≤ n → Bound g m (k a))
    → Bound g m (x >>= k)
bind-Bound f g n m (ok a) k (bound_ok _ h) l = l a h
bind-Bound f g n m (err e) k (bound_err _ h) l = bound_err e h

pub if-Bound {ℓ} :
    {A : Type ℓ} (f : A → ℕ) (n : ℕ) (c : Bool) (x y : Result Error A)
    → Bound f n x
    → Bound f n y
    → Bound f n (if c then x else y)
if-Bound f n true x y h l = h
if-Bound f n false x y h l = l

-- What is left by a function that reads from the span, and by a method of the reader.
abbrev left {ℓ} : {A : Type ℓ} → A × List ℕ → ℕ
left p = length p.1

abbrev pub held : Reader → ℕ
held r = length r.remaining

abbrev held_after {ℓ} : {A : Type ℓ} → A × Reader → ℕ
held_after p = held p.1

read_endian-Bound :
    (size n : ℕ) (source : List ℕ) → length source ≤ n → Bound left n (read_endian size source)
unfolding read_endian
read_endian-Bound size n source h =
    if-Bound left n _ _ _ (bound_err _ refl) (bound_ok _ (omega (arith, length-drop size source)))

read_raw-Bound :
    (bytes n : ℕ) (source : List ℕ) → length source ≤ n → Bound left n (read_raw source bytes)
unfolding read_raw
read_raw-Bound bytes n source h =
    if-Bound left n _ _ _ (bound_err _ refl) (bound_ok _ (omega (arith, length-drop bytes source)))

read_sized-Bound :
    (size n : ℕ) (source : List ℕ) → length source ≤ n → Bound left n (read_sized size source)
unfolding read_sized
read_sized-Bound size n source h =
    bind-Bound left left n n _ _ (read_endian-Bound size n source h)
      (λ p l. read_raw-Bound p.0 n p.1 l)

read_string-Bound :
    (next n : ℕ) (source : List ℕ) → length source ≤ n → Bound left n (read_string source next)
unfolding read_string
read_string-Bound next n source h = if-Bound left n _ _ _ (read_raw-Bound _ n source h) (
    if-Bound left n _ _ _ (read_sized-Bound 1 n source h) (
      if-Bound left n _ _ _ (read_sized-Bound 2 n source h)
        (if-Bound left n _ _ _ (read_sized-Bound 4 n source h) (bound_err _ refl))))

read_binary-Bound :
    (next n : ℕ) (source : List ℕ) → length source ≤ n → Bound left n (read_binary source next)
unfolding read_binary
read_binary-Bound next n source h = if-Bound left n _ _ _ (read_sized-Bound 1 n source h) (
    if-Bound left n _ _ _ (read_sized-Bound 2 n source h)
      (if-Bound left n _ _ _ (read_sized-Bound 4 n source h) (bound_err _ refl)))

read_count_types-Bound :
    (types : List NumType) (e : Error) (next n : ℕ) (source : List ℕ)
    → is_fuel e ≡ false
    → length source ≤ n
    → Bound left n (read_count_types types e source next)
unfolding read_count_types
read_count_types-Bound [] e next n source k h = bound_err e k
read_count_types-Bound (t ∷ types) e next n source k h =
    if-Bound left n _ _ _ (read_endian-Bound t.size n source h)
      (read_count_types-Bound types e next n source k h)

get_tag-Bound :
    (bs : List ℕ) (t d : ℕ)
    → Bound held_after
        (length bs)
        (get_tag (record { remaining = bs; tags_remaining = t; depth = d }))
unfolding get_tag peek_tag
get_tag-Bound [] t d = bound_err _ refl
get_tag-Bound (b ∷ bs) t d = bound_ok _ (omega arith)

read_count-Bound :
    (f : FixedTag) (types : List NumType) (e : Error) (r : Reader)
    → is_fuel e ≡ false
    → Bound held_after (held r) (read_count f types e r)
unfolding read_count
read_count-Bound f types e r k =
    bind-Bound held_after held_after (held r) (held r) _ _
      (get_tag-Bound r.remaining r.tags_remaining r.depth)
      (λ p l.
        bind-Bound left held_after (held r) (held r) _ (λ q. ok (q.0, record r { remaining = q.1 }))
          (if-Bound left (held r) (matches f p.0) (ok (extract f p.0, (p.1).remaining)) _
            (bound_ok _ l) (read_count_types-Bound types e p.0 (held r) (p.1).remaining k l))
          (λ q m. bound_ok _ m))

increment_depth-Bound : (r : Reader) (n : ℕ) → held r ≤ n → Bound held n (increment_depth r)
unfolding increment_depth
increment_depth-Bound r n h = if-Bound held n _ _ _ (bound_err _ refl) (bound_ok _ h)

-- What both starts do with a count.
guarded-Bound :
    (too_many too_long : Bool) (e : Error) (count n : ℕ) (s : Reader)
    → is_fuel e ≡ false
    → held s ≤ n
    → Bound held_after n (
        if too_many
        then err max_tree_size
        else (if too_long then err e else (increment_depth s >>= λ t. ok (count, t))))
guarded-Bound too_many too_long e count n s k h =
    if-Bound held_after n too_many (err max_tree_size) _ (bound_err _ refl) (
      if-Bound held_after n too_long (err e) _ (bound_err _ k) (
        bind-Bound held held_after n n (increment_depth s) (λ t. ok (count, t))
          (increment_depth-Bound s n h) (λ t m. bound_ok _ m)))

start_array-Bound : (size : ℕ) (r : Reader) → Bound held_after (held r) (start_array size r)
unfolding start_array
start_array-Bound size r =
    bind-Bound held_after held_after (held r) (held r) _ _
      (read_count-Bound ftag_array array_types schema_array r refl)
      (λ p l.
        guarded-Bound (ltb (2 ^ 64 - 1 - r.tags_remaining) p.0)
          (ltb (length (p.1).remaining / max size 1) p.0) schema_array p.0 (held r)
          (record p.1 { tags_remaining = r.tags_remaining + p.0 }) refl l)

start_object-Bound : (r : Reader) → Bound held_after (held r) (start_object r)
unfolding start_object
start_object-Bound r =
    bind-Bound held_after held_after (held r) (held r) _ _
      (read_count-Bound ftag_object object_types schema_object r refl)
      (λ p l.
        guarded-Bound (ltb ((2 ^ 64 - 1) / 2) p.0) (ltb (2 ^ 64 - 1 - r.tags_remaining) (p.0 * 2))
          max_tree_size p.0 (held r) (record p.1 { tags_remaining = r.tags_remaining + p.0 * 2 })
          refl l)

module _ (remove_prefix : ℕ → List ℕ → List ℕ) (removes : RemovesPrefix remove_prefix)
    (shortens : (n : ℕ) (xs : List ℕ) → length (remove_prefix n xs) ≤ length xs) where
  past_tag-Bound :
      (r : Reader) (read : List ℕ → Result Error (List ℕ × List ℕ))
      → ((source : List ℕ) → length source ≤ held r → Bound left (held r) (read source))
      → Bound held (held r) (past_tag remove_prefix r read)
  past_tag-Bound r read h =
      bind-Bound left held (held r) (held r) (read (remove_prefix 1 r.remaining))
        (λ p. ok (record r { remaining = p.1 }))
        (h (remove_prefix 1 r.remaining) (shortens 1 r.remaining)) (λ p l. bound_ok _ l)

  remove-Bound : (k n : ℕ) (r : Reader) → held r ≤ n → Bound held n (ok (remove remove_prefix k r))
  remove-Bound k n r h = bound_ok _ (omega (arith, shortens k r.remaining))

  -- An extension: a length, that many bytes and one more.
  extension-Bound :
      (size : ℕ) (r : Reader)
      → Bound held
          (held r)
          (past_tag remove_prefix r (read_sized size) >>= λ s. ok (remove remove_prefix 1 s))
  extension-Bound size r =
      bind-Bound held held (held r) (held r) (past_tag remove_prefix r (read_sized size))
        (λ s. ok (remove remove_prefix 1 s))
        (past_tag-Bound r (read_sized size) (λ source h. read_sized-Bound size (held r) source h))
        (λ s l. remove-Bound 1 (held r) s l)

  pub skip_switch-Bound :
      (r : Reader) (next : ℕ) → Bound held (held r) (skip_switch remove_prefix r next)
  unfolding skip_switch
  skip_switch-Bound r next = if-Bound held n _ _ _ (bound_ok _ (omega arith)) (
      if-Bound held n _ _ _
        (bind-Bound held_after held n n (start_array 0 r) (λ p. ok p.1) (start_array-Bound 0 r)
          (λ p l. bound_ok _ l))
        (if-Bound held n _ _ _
          (bind-Bound held_after held n n (start_object r) (λ p. ok p.1) (start_object-Bound r)
            (λ p l. bound_ok _ l))
          (if-Bound held n _ _ _
            (past_tag-Bound r (λ source. read_string source next)
              (λ source h. read_string-Bound next n source h))
            (if-Bound held n _ _ _ (taken 1) (
              if-Bound held n _ _ _
                (past_tag-Bound r (λ source. read_binary source next)
                  (λ source h. read_binary-Bound next n source h))
                (if-Bound held n _ _ _ (extension-Bound 1 r) (
                  if-Bound held n _ _ _ (extension-Bound 2 r) (
                    if-Bound held n _ _ _ (extension-Bound 4 r) (
                      if-Bound held n _ _ _ (taken 2) (
                        if-Bound held n _ _ _ (taken 3) (
                          if-Bound held n _ _ _ (taken 5) (
                            if-Bound held n _ _ _ (taken 9) (
                              if-Bound held n _ _ _ (taken 4) (
                                if-Bound held n _ _ _ (taken 6) (
                                  if-Bound held n _ _ _ (taken 10) (
                                    if-Bound held n _ _ _ (taken 18)
                                      (bound_ok _ (omega arith))))))))))))))))))
    where
      n : ℕ
      n = held r

      taken : (k : ℕ) → Bound held (held r) (ok (remove remove_prefix k r))
      taken k = remove-Bound k (held r) r (omega arith)
