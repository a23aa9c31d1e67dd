-- ===== src/Scanner/Server/Rounds.antt =====
-- The round robin of `server::check_users` of src/rpc/scanner/server.cpp.
use mathlib.Core.List.{reverse}
use native.Mathlib.Nat.{mod-eq_of_lt, mod_self}
use monero_lws.Base.{
  ℕ, zero, suc, ◌+◌, ◌%◌, ◌≤◌, ◌<◌, ◌≡◌, refl, ap, ◌∙◌, arith, inl, inr, ◌⊎◌, some, List, [], ◌∷◌,
  min, length, take, drop, length-drop, All,
}
use monero_lws.Base.Results.{ok, ◌>>=◌}
use monero_lws.Db.Account.{Account}
use monero_lws.Scanner.Server.{push_command, Connection}
use monero_lws.Scanner.Server.Check.{
  remote_threads, find_remote, Round, push_local, push_remote, round_step, one_round, round_robin,
}
use monero_lws.Scanner.Server.Weight.{
  weigh, weigh_pushed, weigh_written, weigh-take-drop, weigh-reverse, weigh_pushed-push_to,
  weigh_written-write_at, length-push_to, remote_threads-write_at,
}

abbrev pub sum : List ℕ → ℕ
sum [] = 0
sum (t ∷ ts) = t + sum ts

-- The number of the first thread of a connection, where the connections have those numbers of threads and are
-- counted from there on.
abbrev pub Start : ℕ → List ℕ → ℕ → Type 0
Start first [] n = ⊥
Start first (t ∷ ts) n = (n ≡ first) ⊎ Start (first + t) ts n

-- A thread of this process, or the first of a connection.
abbrev pub IsTurn : ℕ → List ℕ → ℕ → Type 0
IsTurn locals ts n = (n < locals) ⊎ Start locals ts n

abbrev pub ArePositive : List ℕ → Type 0
ArePositive ts = All (λ t. 0 < t) ts

pub remote_threads-ArePositive : (cs : List Connection) → ArePositive (remote_threads cs)
remote_threads-ArePositive [] = tt
remote_threads-ArePositive (c ∷ cs) = ground (arith, remote_threads-ArePositive cs)

Start-ge : (first n : ℕ) (ts : List ℕ) → Start first ts n → first ≤ n
Start-ge first n [] s = absurd s
Start-ge first n (t ∷ ts) (inl e) = omega (arith, e)
Start-ge first n (t ∷ ts) (inr s) = omega (arith, Start-ge (first + t) n ts s)

Start-lt : (first n : ℕ) (ts : List ℕ) → ArePositive ts → Start first ts n → n < first + sum ts
Start-lt first n [] h s = absurd s
Start-lt first n (t ∷ ts) h (inl e) = omega (arith, e, h.0)
Start-lt first n (t ∷ ts) h (inr s) = omega (arith, Start-lt (first + t) n ts h.1 s)

Start-first : (first n : ℕ) (ts : List ℕ) → n ≡ first → (n ≡ first + sum ts) ⊎ Start first ts n
Start-first first n [] e = inl (omega (arith, e))
Start-first first n (t ∷ ts) e = inr (inl e)

-- The search ends at the connection whose first thread it is.
find_remote-Start :
    (first n j : ℕ) (ts : List ℕ)
    → ArePositive ts
    → Start first ts n
    → (k : ℕ) × ((t : ℕ) × ((find_remote n first j ts ≡ some (k, t))
          × ((k < j + length ts)
              × ((0 < t) × ((n + t ≡ first + sum ts) ⊎ Start first ts (n + t))))))
unfolding find_remote
find_remote-Start first n j [] h s = absurd s
find_remote-Start first n j (t ∷ ts) h (inl e) = (
  j,
  (
    t,
    (
      ground (arith, e),
      (
        omega arith,
        (h.0, ground (arith, e, Start-first (first + t) (n + t) ts (omega (arith, e)))),
      ),
    ),
  ),
)
find_remote-Start first n j (t ∷ ts) h (inr s) =
    let r = find_remote-Start (first + t) n (suc j) ts h.1 s in
    (
      r.0,
      (
        r.1.0,
        (
          ground (arith, r.1.1.0, Start-ge (first + t) n ts s, h.0),
          (omega (arith, r.1.1.1.0), (r.1.1.1.1.0, ground (arith, r.1.1.1.1.1))),
        ),
      ),
    )

-- The state of the loop while there are so many queues and connections with those numbers of threads.
unfoldable pub IsRound : ℕ → List ℕ → Round → Type 0
IsRound locals ts r =
    IsTurn locals ts r.next_thread × ((length r.local ≡ locals) × (remote_threads r.remote ≡ ts))

-- What there is of accounts, handed out or not.
abbrev pub weigh_round : (Account → ℕ) → Round → ℕ
weigh_round f r = weigh_pushed f r.local + weigh_written f r.remote + weigh f r.accounts

-- The same accounts in the end, and fewer of them left to hand out.
Follows : ℕ → List ℕ → Round → Round → Type 0
Follows locals ts r s =
    IsRound locals ts s
    × ((length s.accounts < length r.accounts)
        × ((f : Account → ℕ) → weigh_round f s ≡ weigh_round f r))

pub IsTurn-zero :
    (locals total : ℕ) (ts : List ℕ) → total ≡ locals + sum ts → 0 < total → IsTurn locals ts 0
IsTurn-zero locals total ts e z = ground (arith, Start-first locals 0 ts, e, z)

pub IsTurn-lt :
    (locals total n : ℕ) (ts : List ℕ)
    → ArePositive ts
    → total ≡ locals + sum ts
    → IsTurn locals ts n
    → n < total
IsTurn-lt locals total n ts h e (inl l) = omega (arith, l, e)
IsTurn-lt locals total n ts h e (inr s) = omega (arith, e, Start-lt locals n ts h s)

-- The next one's turn.
turn :
    (locals total n : ℕ) (ts : List ℕ)
    → ArePositive ts
    → total ≡ locals + sum ts
    → 0 < total
    → (n ≡ total) ⊎ IsTurn locals ts n
    → IsTurn locals ts (n % total)
turn locals total n ts h e z (inl c) = rw (c, mod_self total) (IsTurn-zero locals total ts e z)
turn locals total n ts h e z (inr c) = rw (mod-eq_of_lt (IsTurn-lt locals total n ts h e c)) c

IsTurn-local :
    (locals total n : ℕ) (ts : List ℕ)
    → total ≡ locals + sum ts
    → n < locals
    → (n + 1 ≡ total) ⊎ IsTurn locals ts (n + 1)
IsTurn-local locals total n ts e l = ground (arith, Start-first locals (n + 1) ts, e, l)

List-cases :
    (xs : List Account) → (xs ≡ []) ⊎ ((a : Account) × ((rest : List Account) × (xs ≡ a ∷ rest)))
List-cases [] = inl refl
List-cases (x ∷ xs) = inr (x, (xs, refl))

length-drop-lt :
    {A : Type 0} (n : ℕ) (xs : List A) → 0 < n → 0 < length xs → length (drop n xs) < length xs
length-drop-lt n xs h l = omega (arith, length-drop n xs)

module _ (locals total : ℕ) (ts : List ℕ) (e : total ≡ locals + sum ts)
    (some_threads : 0 < total) where
  push_local-Follows :
      (r : Round) (a : Account) (accounts : List Account)
      → IsRound locals ts r
      → r.next_thread < locals
      → r.accounts ≡ a ∷ accounts
      → Follows locals ts r (push_local total a accounts r)
  unfolding IsRound Follows
  push_local-Follows r a accounts i l u = (
    (
      turn locals total (r.next_thread + 1) ts (rw (← i.1.1) (remote_threads-ArePositive r.remote))
          e some_threads (IsTurn-local locals total r.next_thread ts e l),
      (length-push_to r.next_thread a r.local ∙ i.1.0, i.1.1),
    ),
    (
      rw u (omega arith),
      (λ f. rw u (omega (arith, weigh_pushed-push_to f r.next_thread a r.local (rw i.1.0 l)))),
    ),
  )

  push_remote-Follows :
      (r : Round) (k t : ℕ)
      → IsRound locals ts r
      → k < length ts
      → 0 < t
      → 0 < length r.accounts
      → (r.next_thread + t ≡ total) ⊎ IsTurn locals ts (r.next_thread + t)
      → (s : Round) × ((push_remote total r (some (k, t)) ≡ ok s) × Follows locals ts r s)
  unfolding IsRound Follows
  push_remote-Follows r k t i l p z c = (
    _,
    (
      refl,
      (
        (
          turn locals total (r.next_thread + t) ts
              (rw (← i.1.1) (remote_threads-ArePositive r.remote)) e some_threads c,
          (i.1.0, remote_threads-write_at k _ r.remote ∙ i.1.1),
        ),
        (
          length-drop-lt n r.accounts (omega arith) z,
          (λ f. omega (
            arith,
            weigh_written-write_at f k (push_command (reverse (take n r.accounts))) r.remote
                (rw i.1.1 l),
            weigh-reverse f (take n r.accounts),
            weigh-take-drop f n r.accounts,
          )),
        ),
      ),
    ),
  )
    where
      n : ℕ
      n = min (length r.accounts) t

  -- A round by whose turn it is.
  round_step-local :
      (r : Round) (a : Account) (accounts : List Account)
      → length r.local ≡ locals
      → r.next_thread < locals
      → round_step total a accounts r ≡ ok (push_local total a accounts r)
  unfolding round_step
  round_step-local r a accounts i l = ground (arith, i, l)

  round_step-remote :
      (r : Round) (a : Account) (accounts : List Account) (p : ℕ × ℕ)
      → length r.local ≡ locals
      → remote_threads r.remote ≡ ts
      → locals ≤ r.next_thread
      → find_remote r.next_thread locals 0 ts ≡ some p
      → round_step total a accounts r ≡ push_remote total r (some p)
  unfolding round_step
  round_step-remote r a accounts p i j l h = rw (i, j, h) (ground (arith, l))

  round_step-Follows :
      (r : Round) (a : Account) (accounts : List Account)
      → IsRound locals ts r
      → r.accounts ≡ a ∷ accounts
      → (s : Round) × ((round_step total a accounts r ≡ ok s) × Follows locals ts r s)
  unfolding IsRound
  round_step-Follows r a accounts (inl l, i) u = (
    push_local total a accounts r,
    (round_step-local r a accounts i.0 l, push_local-Follows r a accounts (inl l, i) l u),
  )
  round_step-Follows r a accounts (inr s, i) u =
      let f =
        find_remote-Start locals r.next_thread 0 ts
          (rw (← i.1) (remote_threads-ArePositive r.remote)) s in
      rw
        (round_step-remote r a accounts (f.0, f.1.0) i.0 i.1 (Start-ge locals r.next_thread ts s)
          f.1.1.0)
        (push_remote-Follows r f.0 f.1.0 (inr s, i) (omega (arith, f.1.1.1.0)) f.1.1.1.1.0
          (rw u (omega arith)) (ground (arith, e, f.1.1.1.1.1)))

  round_robin-done : (fuel : ℕ) (r : Round) → r.accounts ≡ [] → round_robin fuel total r ≡ ok r
  unfolding round_robin
  round_robin-done zero r u = refl
  round_robin-done (suc fuel) r u =
      ap (λ xs. one_round total xs r >>= round_robin fuel total) u ∙ round_robin-done fuel r u

  round_robin-next :
      (fuel : ℕ) (r s : Round) (a : Account) (accounts : List Account)
      → r.accounts ≡ a ∷ accounts
      → round_step total a accounts r ≡ ok s
      → round_robin (suc fuel) total r ≡ round_robin fuel total s
  unfolding round_robin
  round_robin-next fuel r s a accounts u h =
      ap (λ xs. one_round total xs r >>= round_robin fuel total) u
      ∙ ap (λ x. x >>= round_robin fuel total) h

  -- With as much fuel as there are accounts, the loop ends with none left, and has handed each out once.
  pub round_robin-all :
      (fuel : ℕ) (r : Round)
      → IsRound locals ts r
      → length r.accounts ≤ fuel
      → (s : Round) × ((round_robin fuel total r ≡ ok s)
          × (IsRound locals ts s
              × ((s.accounts ≡ []) × ((f : Account → ℕ) → weigh_round f s ≡ weigh_round f r))))
  unfolding Follows
  round_robin-all zero r i h = (r, (round_robin-done 0 r none_left, (i, (none_left, (λ f. refl)))))
    where
      none_left : r.accounts ≡ []
      none_left = elim (List-cases r.accounts) [
        | inl u ↦ u
        | inr (a, (accounts, u)) ↦ absurd (omega (arith, h, ap length u))
      ]
  round_robin-all (suc fuel) r i h = elim (List-cases r.accounts) [
    | inl u ↦ (r, (round_robin-done (suc fuel) r u, (i, (u, (λ f. refl)))))
    | inr (a, (accounts, u)) ↦
        let (s, (e1, (i1, (l1, w1)))) = round_step-Follows r a accounts i u in
        let (t, (e2, (i2, (u2, w2)))) = round_robin-all fuel s i1 (omega (arith, l1, h)) in
        (t, (round_robin-next fuel r s a accounts u e1 ∙ e2, (i2, (u2, λ f. w2 f ∙ w1 f))))
  ]
