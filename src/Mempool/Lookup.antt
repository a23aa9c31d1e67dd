-- ===== src/Mempool/Lookup.antt =====
-- What `address_cache::get` of src/mempool.cpp answers after `set`.
use monero_lws.Base.{
  ℕ, ◌≡◌, refl, ap, sym, ◌∙◌, subst, arith, Bool, true, false, Bool-cases, inl, inr, ◌⊎◌, ==_iff,
  Option, none, some, List, [], ◌∷◌, leb, ◌==◌, if◌then◌else◌, if_true, if_false, length,
}
use monero_lws.Mempool.{
  Entry, Cache, max_cache_size, find, erase, back, txids_of, get, set_entry, set,
}
use monero_lws.Mempool.Keys.{is_some, Unique, find-erase, find-erased, find-assign}
use monero_lws.Mempool.Recent.{IsValid, Recent, view, set-Recent}

module _ {D : Type 0} where
  head_or : ℕ × Option (Entry D) → Recent D → ℕ × Option (Entry D)
  head_or x [] = x
  head_or x (y ∷ ys) = y

  -- The first of the recent entries is in the map.
  find-head :
      (a : ℕ) (e : Entry D) (ks : List ℕ) (m : List (ℕ × Entry D)) (l : Recent D)
      → view ks m ≡ (a, some e) ∷ l
      → find a m ≡ some e
  unfolding head_or
  find-head a e [] m l h = absurd (ground (arith, h))
  find-head a e (k ∷ ks) m l h =
      subst (λ j. find j m ≡ some e) (ap (λ l. (head_or (a, some e) l).0) h)
        (ap (λ l. (head_or (a, some e) l).1) h)

  none_of : (o : Option (Entry D)) → is_some o ≡ false → o ≡ none
  none_of none h = refl
  none_of (some e) h = absurd (ground (arith, h))

  erased-none : (k b : ℕ) (m : List (ℕ × Entry D)) → Unique m → k ≡ b → find b (erase k m) ≡ none
  erased-none k b m u e =
      subst (λ j. find j (erase k m) ≡ none) e (none_of (find k (erase k m)) (find-erased k m u))

  -- Another address keeps its entry or loses it.
  find-set_entry :
      (a b : ℕ) (e : Entry D) (c : Cache D) (o : Option (Entry D))
      → find a c.entries ≡ o
      → IsValid c
      → (a == b) ≡ false
      → (find b (set_entry a e c o).entries ≡ find b c.entries)
        ⊎ (find b (set_entry a e c o).entries ≡ none)
  find-set_entry a b e c (some old) f v n = inl (find-assign a b e c.entries n)
  find-set_entry a b e c none f (s, l) n =
      elim (Bool-cases (leb max_cache_size (length ((a, e) ∷ c.entries)))) [
        | inl h ↦ subst P (sym (if_true _ _ h)) (evicted (Bool-cases (back a c.order == b)))
        | inr h ↦ subst P (sym (if_false _ _ h)) (inl (if_false _ _ n))
      ]
    where
      P : Cache D → Type 0
      P d = (find b d.entries ≡ find b c.entries) ⊎ (find b d.entries ≡ none)

      evicted :
          ((back a c.order == b) ≡ true) ⊎ ((back a c.order == b) ≡ false)
          → (find b (erase (back a c.order) ((a, e) ∷ c.entries)) ≡ find b c.entries)
            ⊎ (find b (erase (back a c.order) ((a, e) ∷ c.entries)) ≡ none)
      evicted (inl t) = inr (
          erased-none (back a c.order) b ((a, e) ∷ c.entries) (ap is_some f, s.unique)
            ((==_iff _ b).0 t))
      evicted (inr t) = inl (
          find-erase (back a c.order) b ((a, e) ∷ c.entries) (ap is_some f, s.unique) t
          ∙ if_false _ _ n)

  -- On a cache whose map and list agree, after `set` the address has its transactions, unless its subaddresses have changed;
  -- another address has the ones it had, or none.
  pub get-set :
      (same : D → D → Bool) (a : ℕ) (subaddrs now : D) (txids : List ℕ) (c : Cache D)
      → IsValid c
      → (get same a now (set a subaddrs txids c) ≡ (if same subaddrs now then txids else []))
        × ((b : ℕ)
            → (a == b) ≡ false
            → (get same b now (set a subaddrs txids c) ≡ get same b now c)
              ⊎ (get same b now (set a subaddrs txids c) ≡ []))
  unfolding get set
  get-set same a subaddrs now txids c v = (
    ap (txids_of same now) (
        find-head a e (set a subaddrs txids c).order (set a subaddrs txids c).entries _
          (set-Recent a subaddrs txids c v).1),
    λ b n. kept b (find-set_entry a b e c (find a c.entries) refl v n),
  )
    where
      e : Entry D
      e = record { subaddrs = subaddrs; txids = txids }

      kept :
          (b : ℕ)
          → (find b (set_entry a e c (find a c.entries)).entries ≡ find b c.entries)
            ⊎ (find b (set_entry a e c (find a c.entries)).entries ≡ none)
          → (get same b now (set a subaddrs txids c) ≡ get same b now c)
            ⊎ (get same b now (set a subaddrs txids c) ≡ [])
      kept b h = elim h [
        | inl j ↦ inl (ap (txids_of same now) j)
        | inr j ↦ inr (ap (txids_of same now) j)
      ]
