-- ===== src/Scanner/Server/Best.antt =====
-- Which thread `server::check_users` of src/rpc/scanner/server.cpp gives a new account to.
use monero_lws.Base.{
  ℕ, suc, ◌+◌, ◌≤◌, ◌<◌, ◌≡◌, refl, ap, subst, arith, inl, inr, ◌⊎◌, some, List, [], ◌∷◌, leb,
  get_elem?, All,
}
use monero_lws.Scanner.Queue.{Queue}
use monero_lws.Scanner.Server.Check.{Best, no_best, consider, best_of}

-- A thread at height `p` with `n` accounts suits an account at height `h` as well as one at height `q` with `m` accounts:
-- the highest one not above the account, else the lowest, and of equal ones that with the fewest accounts.
abbrev pub Suits : ℕ → ℕ → ℕ → ℕ → ℕ → Type 0
Suits h p n q m =
    (q ≤ h → (p ≤ h) × ((q < p) ⊎ ((q ≡ p) × (n ≤ m))))
    × (h < q → (p ≤ h) ⊎ ((p < q) ⊎ ((p ≡ q) × (n ≤ m))))

abbrev pub SuitsBest : ℕ → Queue → Queue → Type 0
SuitsBest h p q = Suits h p.current_min_height p.user_count q.current_min_height q.user_count

Suits-trans : (h p n q m r k : ℕ) → Suits h p n q m → Suits h q m r k → Suits h p n r k
Suits-trans h p n q m r k a b = ground (arith, a, b)

Suits-refl : (h p n : ℕ) → Suits h p n p n
Suits-refl h p n = ground arith

-- The variables say that `p`, at that place of `all`, is chosen.
abbrev Chosen : ℕ → List Queue → Best → Queue → Type 0
Chosen h all b p =
    (get_elem? all b.best_thread ≡ some p)
    × ((b.best_height ≡ p.current_min_height)
        × ((b.best_count ≡ p.user_count) × (b.found_below_or_equal ≡ leb p.current_min_height h)))

abbrev chosen : ℕ → ℕ → Queue → Best
chosen h i q = record {
  found_below_or_equal = leb q.current_min_height h;
  best_thread = i;
  best_height = q.current_min_height;
  best_count = q.user_count;
}

-- One turn of the loop.
consider-cases :
    (h i : ℕ) (q : Queue) (b : Best)
    → b.found_below_or_equal ≡ leb b.best_height h
    → ((consider h i q b ≡ b)
        × Suits h b.best_height b.best_count q.current_min_height q.user_count)
      ⊎ ((consider h i q b ≡ chosen h i q)
          × Suits h q.current_min_height q.user_count b.best_height b.best_count)
unfolding consider
consider-cases h i q b e = ground (arith, e)

consider-first : (h i : ℕ) (q : Queue) → consider h i q no_best ≡ chosen h i q
unfolding consider
consider-first h i q = ground arith

All-Suits :
    (h : ℕ) (p q : Queue) (qs : List Queue)
    → SuitsBest h p q
    → All (SuitsBest h q) qs
    → All (SuitsBest h p) qs
All-Suits h p q [] s a = tt
All-Suits h p q (r ∷ qs) s a = (Suits-trans h _ _ _ _ _ _ s a.0, All-Suits h p q qs s a.1)

-- `rest` is what stands in `all` from that place on.
abbrev From : ℕ → List Queue → List Queue → Type 0
From i all rest = (j : ℕ) (q : Queue) → get_elem? rest j ≡ some q → get_elem? all (i + j) ≡ some q

From-suc :
    (i : ℕ) (q : Queue) (all rest : List Queue) → From i all (q ∷ rest) → From (suc i) all rest
From-suc i q all rest f j p e =
    subst (λ k. get_elem? all k ≡ some p) {x = i + suc j} (omega arith) (f (suc j) p e)

From-head :
    (i : ℕ) (q : Queue) (all rest : List Queue) → From i all (q ∷ rest) → get_elem? all i ≡ some q
From-head i q all rest f =
    subst (λ k. get_elem? all k ≡ some q) {x = i + 0} (omega arith) (f 0 q refl)

Answer : ℕ → List Queue → ℕ → Queue → List Queue → Type 0
Answer h all i p rest =
    (r : Queue) × ((get_elem? all i ≡ some r) × (SuitsBest h r p × All (SuitsBest h r) rest))

Answer-kept :
    (h i : ℕ) (all : List Queue) (p q : Queue) (rest : List Queue)
    → SuitsBest h p q
    → Answer h all i p rest
    → Answer h all i p (q ∷ rest)
unfolding Answer
Answer-kept h i all p q rest s (r, (e, (t, a))) = (r, (e, (t, (Suits-trans h _ _ _ _ _ _ t s, a))))

Answer-taken :
    (h i : ℕ) (all : List Queue) (p q : Queue) (rest : List Queue)
    → SuitsBest h q p
    → Answer h all i q rest
    → Answer h all i p (q ∷ rest)
unfolding Answer
Answer-taken h i all p q rest s (r, (e, (t, a))) = (r, (e, (Suits-trans h _ _ _ _ _ _ t s, (t, a))))

best_of-step :
    (h i : ℕ) (q : Queue) (rest : List Queue) (b c : Best)
    → consider h i q b ≡ c
    → best_of h i (q ∷ rest) b ≡ best_of h (suc i) rest c
unfolding best_of
best_of-step h i q rest b c e = ap (best_of h (suc i) rest) e

best_of-From :
    (h i : ℕ) (all rest : List Queue) (b : Best) (p : Queue)
    → From i all rest
    → Chosen h all b p
    → Answer h all (best_of h i rest b).best_thread p rest
unfolding best_of Answer
best_of-From h i all [] b p f c = (p, (c.0, (Suits-refl h p.current_min_height p.user_count, tt)))
best_of-From h i all (q ∷ rest) b p f c = elim (consider-cases h i q b (ground (arith, c))) [
  | inl k ↦ rw (best_of-step h i q rest b b k.0) (
      Answer-kept h (best_of h (suc i) rest b).best_thread all p q rest (ground (arith, k.1, c.1))
        (best_of-From h (suc i) all rest b p (From-suc i q all rest f) c))
  | inr k ↦ rw (best_of-step h i q rest b (chosen h i q) k.0) (
      Answer-taken h (best_of h (suc i) rest (chosen h i q)).best_thread all p q rest
        (ground (arith, k.1, c.1))
        (best_of-From h (suc i) all rest (chosen h i q) q (From-suc i q all rest f)
          (From-head i q all rest f, (refl, (refl, refl)))))
]

-- Where there are threads, the one that is chosen for an account exists, and it suits the account as well as each of them.
pub best_of-SuitsBest :
    (h : ℕ) (q : Queue) (qs : List Queue)
    → (r : Queue) × ((get_elem? (q ∷ qs) (best_of h 0 (q ∷ qs) no_best).best_thread ≡ some r)
        × All (SuitsBest h r) (q ∷ qs))
unfolding Answer
best_of-SuitsBest h q qs =
    rw (best_of-step h 0 q qs no_best (chosen h 0 q) (consider-first h 0 q)) (a.0, (a.1.0, a.1.1))
  where
    a : Answer h (q ∷ qs) (best_of h 1 qs (chosen h 0 q)).best_thread q qs
    a =
        best_of-From h 1 (q ∷ qs) qs (chosen h 0 q) q
          (λ j p e. subst (λ k. get_elem? (q ∷ qs) k ≡ some p) {x = suc j} (omega arith) e)
          (refl, (refl, (refl, refl)))
