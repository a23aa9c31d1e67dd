-- ===== src/Scanner/Queue/Height.antt =====
-- The least scan height that the queue keeps for its thread.
use monero_lws.Base.{
  ℕ, ◌≤◌, ◌<◌, ◌≡◌, refl, sym, subst, ◌⊎◌, inl, inr, ◌||◌, List, [], ◌∷◌, ltb, ◌==◌, if◌then◌else◌,
  All, arith, dec_lt,
}
use monero_lws.Db.Account.{Account}
use monero_lws.Scanner.Queue.{Queue, min_element, replace_accounts, lower_min_height, push_accounts}

-- The height is that of an account of the list.
abbrev pub Attained : ℕ → List Account → Type 0
Attained h [] = ⊥
Attained h (a ∷ rest) = (h ≡ a.height) ⊎ Attained h rest

min_element_lem :
    (best : ℕ) (users : List Account)
    → (min_element best users ≤ best)
      × All (λ a. min_element best users ≤ a.height) users
      × ((min_element best users ≡ best) ⊎ Attained (min_element best users) users)
unfolding min_element
min_element_lem best [] = (omega arith, tt, inl refl)
min_element_lem best (a ∷ rest) =
    ground (arith, min_element_lem a.height rest, min_element_lem best rest)

-- After a replacement the kept height is the least scan height of the new accounts, and 0 if there are none.
pub replace_accounts-min :
    (q : Queue) (users : List Account)
    → All (λ a. (replace_accounts q users).current_min_height ≤ a.height) users
      × (((users ≡ []) × ((replace_accounts q users).current_min_height ≡ 0))
          ⊎ Attained (replace_accounts q users).current_min_height users)
unfolding replace_accounts
replace_accounts-min q [] = (tt, inl (refl, refl))
replace_accounts-min q (a ∷ rest) = ground (arith, min_element_lem a.height rest)

lower_min_height_less :
    (current : ℕ) (a : Account) (rest : List Account)
    → a.height < current
    → lower_min_height current (a ∷ rest) ≡ lower_min_height a.height rest
unfolding lower_min_height
lower_min_height_less current a rest h = ground arith

lower_min_height_keep :
    (current : ℕ) (a : Account) (rest : List Account)
    → 0 < current
    → current ≤ a.height
    → lower_min_height current (a ∷ rest) ≡ lower_min_height current rest
unfolding lower_min_height
lower_min_height_keep current a rest h k = ground arith

abbrev IsLeast : ℕ → ℕ → List Account → Type 0
IsLeast h current users =
    (h ≤ current) × All (λ a. h ≤ a.height) users × ((h ≡ current) ⊎ Attained h users)

lower_min_height_lem :
    (current : ℕ) (users : List Account)
    → 0 < current
    → All (λ a. 0 < a.height) users
    → IsLeast (lower_min_height current users) current users
lower_min_height_lem current [] h hs = unfold lower_min_height in (omega arith, tt, inl refl)
lower_min_height_lem current (a ∷ rest) h hs = elim (dec_lt a.height current) [
  | yes less ↦
      let (below, all, one) = lower_min_height_lem a.height rest hs.0 hs.1 in
      subst (λ h. IsLeast h current (a ∷ rest)) (sym (lower_min_height_less current a rest less))
        (omega arith, (below, all), inr one)
  | no least ↦
      let (below, all, one) = lower_min_height_lem current rest h hs.1 in
      subst (λ h. IsLeast h current (a ∷ rest))
        (sym (lower_min_height_keep current a rest h (omega arith)))
        (below, (omega arith, all), keep one)
]
  where
    keep :
        (lower_min_height current rest ≡ current) ⊎ Attained (lower_min_height current rest) rest
        → (lower_min_height current rest ≡ current)
          ⊎ ((lower_min_height current rest ≡ a.height)
              ⊎ Attained (lower_min_height current rest) rest)
    keep (inl e) = inl e
    keep (inr m) = inr (inr m)

-- While no height is 0, a push makes the kept height the least of itself and the new accounts' scan heights.
pub push_accounts-min :
    (q : Queue) (users : List Account)
    → 0 < q.current_min_height
    → All (λ a. 0 < a.height) users
    → ((push_accounts q users).current_min_height ≤ q.current_min_height)
      × All (λ a. (push_accounts q users).current_min_height ≤ a.height) users
      × (((push_accounts q users).current_min_height ≡ q.current_min_height)
          ⊎ Attained (push_accounts q users).current_min_height users)
unfolding push_accounts
push_accounts-min q users = lower_min_height_lem q.current_min_height users

lower_min_height_zero :
    (a : Account) (rest : List Account)
    → lower_min_height 0 (a ∷ rest) ≡ lower_min_height a.height rest
unfolding lower_min_height
lower_min_height_zero a rest = refl

lower_min_height_pos :
    (current : ℕ) (users : List Account)
    → 0 < current
    → All (λ a. 0 < a.height) users
    → 0 < lower_min_height current users
unfolding lower_min_height
lower_min_height_pos current [] h hs = h
lower_min_height_pos current (a ∷ rest) h hs =
    lower_min_height_pos (if current == 0 || ltb a.height current then a.height else current) rest
      (ground arith) hs.1

-- The height 0 counts as "not set": where an account at height 0 was handed over and others above it are pushed, the kept
-- height leaves the account's behind.
pub push_accounts_forgets :
    (q : Queue) (old new : Account) (users : List Account)
    → old.height ≡ 0
    → 0 < new.height
    → All (λ a. 0 < a.height) users
    → old.height < (push_accounts (replace_accounts q (old ∷ [])) (new ∷ users)).current_min_height
unfolding push_accounts replace_accounts min_element
push_accounts_forgets q old new users h k ks =
    rw (h, lower_min_height_zero new users) (lower_min_height_pos new.height users k ks)
