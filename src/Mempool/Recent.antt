-- ===== src/Mempool/Recent.antt =====
-- The cache of src/mempool.cpp keeps the entries of the addresses that were set last.
use monero_lws.Base.{
  ℕ, suc, ◌≤◌, ◌≡◌, refl, ap, sym, ◌∙◌, subst, arith, true, false, Bool-cases, inl, inr, ==_iff,
  Option, none, some, List, [], ◌∷◌, leb, ◌==◌, if◌then◌else◌, if_true, if_false, length, take,
  take_all, Option-cases,
}
use monero_lws.Mempool.{
  Entry, Cache, max_cache_size, find, erase, assign, remove, back, pop_back, add_entry, set_entry,
  set,
}
use monero_lws.Mempool.Keys.{
  is_some, has, Distinct, has-remove, Distinct-remove, length-remove, has-back, has-pop_back,
  Distinct-pop_back, length-pop_back, Unique, find-erase, find-erased, Unique-erase, length-erase,
  find-assign, find-assigned, length-assign, Unique-assign, is_some-assign, remove-absent, ==_refl,
  has-differs, has-same,
}

-- The addresses, the last one that was set first, each with its entry.
abbrev pub Recent : Type 0 → Type 0
Recent D = List (ℕ × Option (Entry D))

module _ {D : Type 0} where
  abbrev pub view : List ℕ → List (ℕ × Entry D) → Recent D
  view [] m = []
  view (k ∷ ks) m = (k, find k m) ∷ view ks m

  abbrev pub recent : Cache D → Recent D
  recent c = view c.order c.entries

  abbrev pub without : ℕ → Recent D → Recent D
  without k [] = []
  without k (x ∷ xs) = if x.0 == k then xs else x ∷ without k xs

  -- What setting an entry means: it comes first, and the last 999 are kept.
  abbrev pub touch : ℕ → Entry D → Recent D → Recent D
  touch k e l = take 999 ((k, some e) ∷ without k l)

  -- The map and the list have the same addresses, each once.
  pub record IsSynced (m : List (ℕ × Entry D)) (ks : List ℕ) : Type 0 where
    pub distinct : Distinct ks
    pub unique : Unique m
    pub agree : (k : ℕ) → is_some (find k m) ≡ has k ks
    pub same_length : length m ≡ length ks

  -- There are at most 999 of them.
  abbrev pub IsValid : Cache D → Type 0
  IsValid c = IsSynced c.entries c.order × (length c.order ≤ 999)

  -- The view depends on the entries of its addresses only.
  view-cong :
      (ks : List ℕ) (m n : List (ℕ × Entry D))
      → ((k : ℕ) → has k ks ≡ true → find k m ≡ find k n)
      → view ks m ≡ view ks n
  view-cong [] m n h = refl
  view-cong (k ∷ ks) m n h =
      ap (λ x. (k, x) ∷ view ks m) (h k (ground arith))
      ∙ ap (◌∷◌ (k, find k n)) (view-cong ks m n (λ j e. h j (ground (arith, e))))

  without-view :
      (a : ℕ) (ks : List ℕ) (m : List (ℕ × Entry D)) → without a (view ks m) ≡ view (remove a ks) m
  without-view a [] m = refl
  without-view a (k ∷ ks) m = ground (arith, without-view a ks m)

  view-pop_back :
      (k : ℕ) (ks : List ℕ) (m : List (ℕ × Entry D))
      → take (length ks) (view (k ∷ ks) m) ≡ view (pop_back k ks) m
  view-pop_back k [] m = refl
  view-pop_back k (j ∷ ks) m = ap (◌∷◌ (k, find k m)) (view-pop_back j ks m)

  length-view : (ks : List ℕ) (m : List (ℕ × Entry D)) → length (view ks m) ≡ length ks
  length-view [] m = refl
  length-view (k ∷ ks) m = ap suc (length-view ks m)

  take-view :
      (ks : List ℕ) (m : List (ℕ × Entry D)) → length ks ≤ 999 → view ks m ≡ take 999 (view ks m)
  take-view ks m h = sym (take_all 999 (view ks m) (omega (arith, h, length-view ks m)))

  -- An address that is not there is put in front of the others.
  IsSynced-add :
      (a : ℕ) (e : Entry D) (m : List (ℕ × Entry D)) (ks : List ℕ)
      → IsSynced m ks
      → has a ks ≡ false
      → IsSynced ((a, e) ∷ m) (a ∷ ks)
  IsSynced-add a e m ks s n = record {
    distinct = (n, s.distinct);
    unique = (s.agree a ∙ n, s.unique);
    agree = λ k. ground (arith, s.agree k);
    same_length = ap suc s.same_length;
  }

  view-add :
      (a : ℕ) (e : Entry D) (m : List (ℕ × Entry D)) (ks : List ℕ)
      → has a ks ≡ false
      → view (a ∷ ks) ((a, e) ∷ m) ≡ (a, some e) ∷ without a (view ks m)
  view-add a e m ks n =
      ap (λ x. (a, x) ∷ view ks ((a, e) ∷ m)) (if_true (some e) (find a m) (==_refl a))
      ∙ ap (◌∷◌ (a, some e)) (
          view-cong ks ((a, e) ∷ m) m (λ k h. if_false (some e) (find k m) (has-differs a k ks n h))
          ∙ sym (without-view a ks m ∙ ap (λ ks. view ks m) (remove-absent a ks n)))

  -- The last one is taken away.
  IsSynced-evict :
      (a : ℕ) (m : List (ℕ × Entry D)) (ks : List ℕ)
      → IsSynced m (a ∷ ks)
      → IsSynced (erase (back a ks) m) (pop_back a ks)
  IsSynced-evict a m ks s = record {
    distinct = Distinct-pop_back a ks s.distinct;
    unique = Unique-erase (back a ks) m s.unique;
    agree = λ k. elim (Bool-cases (back a ks == k)) [
      | inl b ↦
          subst (λ k. is_some (find k (erase (back a ks) m)) ≡ has k (pop_back a ks))
            {x = back a ks} ((==_iff (back a ks) k).0 b)
            (find-erased (back a ks) m s.unique
              ∙ sym (has-pop_back (back a ks) a ks s.distinct ∙ if_true _ _ (==_refl (back a ks))))
      | inr b ↦
          ap is_some (find-erase (back a ks) k m s.unique b)
          ∙ s.agree k
          ∙ sym (has-pop_back k a ks s.distinct ∙ if_false _ _ b)
    ];
    same_length = omega (
      arith,
      length-erase (back a ks) m (s.agree (back a ks) ∙ has-back a ks),
      length-pop_back a ks,
      s.same_length,
    );
  }

  view-evict :
      (a : ℕ) (m : List (ℕ × Entry D)) (ks : List ℕ)
      → IsSynced m (a ∷ ks)
      → view (pop_back a ks) (erase (back a ks) m) ≡ take (length ks) (view (a ∷ ks) m)
  view-evict a m ks s =
      view-cong (pop_back a ks) (erase (back a ks) m) m (λ k e.
        find-erase (back a ks) k m s.unique (ground (arith, e, has-pop_back k a ks s.distinct)))
      ∙ sym (view-pop_back a ks m)

  -- An address that is there is put in front, with its new entry.
  IsSynced-move :
      (a : ℕ) (e : Entry D) (m : List (ℕ × Entry D)) (ks : List ℕ)
      → IsSynced m ks
      → has a ks ≡ true
      → IsSynced (assign a e m) (a ∷ remove a ks)
  IsSynced-move a e m ks s h = record {
    distinct =
        (has-remove a a ks s.distinct ∙ if_true _ _ (==_refl a), Distinct-remove a ks s.distinct);
    unique = Unique-assign a e m s.unique;
    agree = λ k.
        is_some-assign a k e m
        ∙ s.agree k
        ∙ ground (arith, has-remove a k ks s.distinct, has-same a k ks h);
    same_length = omega (arith, length-assign a e m, s.same_length, length-remove a ks h);
  }

  view-move :
      (a : ℕ) (e : Entry D) (m : List (ℕ × Entry D)) (ks : List ℕ)
      → IsSynced m ks
      → has a ks ≡ true
      → view (a ∷ remove a ks) (assign a e m) ≡ (a, some e) ∷ without a (view ks m)
  view-move a e m ks s h =
      ap (λ x. (a, x) ∷ view (remove a ks) (assign a e m)) (find-assigned a e m (s.agree a ∙ h))
      ∙ ap (◌∷◌ (a, some e)) (
          view-cong (remove a ks) (assign a e m) m
            (λ k e1. find-assign a k e m (ground (arith, e1, has-remove a k ks s.distinct)))
          ∙ sym (without-view a ks m))

  -- The three ways of `set`.
  Refines : ℕ → Entry D → Cache D → Cache D → Type 0
  Refines a e c d = IsValid d × (recent d ≡ touch a e (recent c))

  set_entry-move :
      (a : ℕ) (e old : Entry D) (c : Cache D)
      → IsValid c
      → find a c.entries ≡ some old
      → Refines a e c (set_entry a e c (some old))
  unfolding Refines
  set_entry-move a e old c (s, b) f = (
    (IsSynced-move a e c.entries c.order s there, omega (arith, b, length-remove a c.order there)),
    take-view (a ∷ remove a c.order) (assign a e c.entries)
          (omega (arith, b, length-remove a c.order there))
        ∙ ap (take 999) (view-move a e c.entries c.order s there),
  )
    where
      there : has a c.order ≡ true
      there = sym (s.agree a) ∙ ap is_some f

  add_entry-Refines :
      (a : ℕ) (e : Entry D) (c : Cache D)
      → IsValid c
      → find a c.entries ≡ none
      → Refines a e c (add_entry a e c)
  unfolding Refines
  add_entry-Refines a e c (s, b) f =
      elim (Bool-cases (leb max_cache_size (length ((a, e) ∷ c.entries)))) [
        | inl h ↦
            subst (λ d. IsValid d × (recent d ≡ touch a e (recent c))) (sym (if_true _ _ h))
              (
                (
                  IsSynced-evict a ((a, e) ∷ c.entries) c.order added,
                  omega (arith, b, length-pop_back a c.order),
                ),
                view-evict a ((a, e) ∷ c.entries) c.order added
                    ∙ ap (λ n. take n (view (a ∷ c.order) ((a, e) ∷ c.entries))) (full h)
                    ∙ ap (take 999) (view-add a e c.entries c.order absent),
              )
        | inr h ↦
            subst (λ d. IsValid d × (recent d ≡ touch a e (recent c))) (sym (if_false _ _ h))
              (
                (added, room h),
                take-view (a ∷ c.order) ((a, e) ∷ c.entries) (room h)
                    ∙ ap (take 999) (view-add a e c.entries c.order absent),
              )
      ]
    where
      absent : has a c.order ≡ false
      absent = sym (s.agree a) ∙ ap is_some f

      added : IsSynced ((a, e) ∷ c.entries) (a ∷ c.order)
      added = IsSynced-add a e c.entries c.order s absent

      full : leb max_cache_size (length ((a, e) ∷ c.entries)) ≡ true → length c.order ≡ 999
      full h = ground (arith, h, b, s.same_length)

      room : leb max_cache_size (length ((a, e) ∷ c.entries)) ≡ false → length (a ∷ c.order) ≤ 999
      room h = ground (arith, h, s.same_length)

  -- On a cache whose map and list agree, `set` puts the address in front with its new entry and keeps the 999 that were
  -- set last; the map and the list agree again.
  pub set-Recent :
      (a : ℕ) (subaddrs : D) (txids : List ℕ) (c : Cache D)
      → IsValid c
      → IsValid (set a subaddrs txids c)
        × (recent (set a subaddrs txids c)
            ≡ touch a (record { subaddrs = subaddrs; txids = txids }) (recent c))
  unfolding set Refines
  set-Recent a subaddrs txids c v = elim (Option-cases (find a c.entries)) [
    | inl f ↦ subst (Refines a e c) (ap (set_entry a e c) (sym f)) (add_entry-Refines a e c v f)
    | inr (old, f) ↦
        subst (Refines a e c) (ap (set_entry a e c) (sym f)) (set_entry-move a e old c v f)
  ]
    where
      e : Entry D
      e = record { subaddrs = subaddrs; txids = txids }
