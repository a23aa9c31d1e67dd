-- ===== src/Scanner/Server/Ready.antt =====
-- `next_thread_` in `server::check_users` and `server::do_replace_users` of src/rpc/scanner/server.cpp.
use monero_lws.Base.{
  ℕ, zero, suc, ◌+◌, ◌-◌, ◌/◌, ◌<◌, ◌≡◌, refl, ap, sym, ◌∙◌, subst, arith, false, Bool-cases, inl,
  inr, ◌⊎◌, Option, none, some, List, [], ◌∷◌, min, ltb, ◌==◌, length, drop, if_true, if_false,
}
use monero_lws.Base.Results.{Result, ok, err}
use monero_lws.Db.Account.{Account}
use monero_lws.Scanner.Queue.{Queue, is_empty}
use monero_lws.Scanner.Server.{
  Error, too_many_threads, Connection, Server, Row, count_threads, connected, remote_count,
  deal_local, deal_remote, deal, do_replace_users,
}
use monero_lws.Scanner.Server.Check.{
  Collected, lost, overflow, collected, collect, Found, remote_threads, hand_out, check_found,
  check_active, check_threads, check_users,
}
use monero_lws.Scanner.Server.Deal.{
  do_replace_users-deal, do_replace_users-err, do_replace_users-none,
}
use monero_lws.Scanner.Server.Handed.{all_threads, IsReady, HandedOut, hand_out-HandedOut}
use monero_lws.Scanner.Server.Rounds.{sum, IsTurn-zero}

-- The count of the threads, in `do_replace_users` and in `check_users`.
count_threads-ok :
    (total n : ℕ) (cs : List Connection)
    → count_threads total cs ≡ ok n
    → n ≡ total + sum (remote_threads (connected cs))
unfolding count_threads
count_threads-ok total n [] h = ground (arith, h)
count_threads-ok total n (c ∷ cs) h =
    ground (arith, h, count_threads-ok (total + c.threads) n cs, count_threads-ok total n cs)

count_threads-err :
    (total : ℕ) (e : Error) (cs : List Connection)
    → count_threads total cs ≡ err e
    → e ≡ too_many_threads
unfolding count_threads
count_threads-err total e [] h = ground (arith, h)
count_threads-err total e (c ∷ cs) h =
    ground (arith, h, count_threads-err (total + c.threads) e cs, count_threads-err total e cs)

collect-collected :
    (total n : ℕ) (cs : List Connection)
    → collect total cs ≡ collected n
    → n ≡ total + sum (remote_threads cs)
unfolding collect
collect-collected total n [] h = ground (arith, h)
collect-collected total n (c ∷ cs) h = ground (arith, h, collect-collected (total + c.threads) n cs)

not_zero : (n : ℕ) → (n == 0) ≡ false → 0 < n
not_zero n z = ground (arith, z)

-- A ready server, or the one error that there is.
abbrev pub IsSafe : Result Error Server → Type 0
IsSafe r = ((t : Server) × ((r ≡ ok t) × IsReady t)) ⊎ (r ≡ err too_many_threads)

module _ (full : Row → Account) where
  length-deal_local :
      (remaining : ℕ) (users : List Row) (qs : List Queue)
      → length (deal_local full remaining users qs).dealt ≡ length qs
  unfolding deal_local
  length-deal_local remaining users [] = refl
  length-deal_local remaining users (q ∷ qs) =
      ap suc (length-deal_local (remaining - 1) (drop (length users / remaining) users) qs)

  remote_threads-deal_remote :
      (remaining : ℕ) (users : List Row) (cs : List Connection)
      → remote_threads (deal_remote full remaining users cs).dealt ≡ remote_threads cs
  unfolding deal_remote
  remote_threads-deal_remote remaining users [] = refl
  remote_threads-deal_remote remaining users (c ∷ cs) =
      rw
        (remote_threads-deal_remote (remaining - min remaining c.threads)
          (drop (remote_count remaining users c.threads) users) cs)
        refl

  deal-IsReady :
      (remaining : ℕ) (rows : List Row) (s : Server)
      → 0 < all_threads s
      → IsReady (deal full remaining rows s)
  unfolding deal
  deal-IsReady remaining rows s l =
      rw (length-deal_local _ _ s.local, remote_threads-deal_remote _ _ s.remote)
        (inr (IsTurn-zero (length s.local) (all_threads s) (remote_threads s.remote) refl l))

  do_replace_users-counted :
      (rows : List Row) (s : Server) (c : Result Error ℕ)
      → count_threads (length s.local) s.remote ≡ c
      → IsSafe (do_replace_users full rows s)
  do_replace_users-counted rows s (err e) h = inr (
      do_replace_users-err full rows s e h
      ∙ ap err (count_threads-err (length s.local) e s.remote h))
  do_replace_users-counted rows s (ok zero) h = inl (
    record s { remote = connected s.remote },
    (
      do_replace_users-none full rows s h,
      inl (sym (count_threads-ok (length s.local) 0 s.remote h)),
    ),
  )
  do_replace_users-counted rows s (ok (suc n)) h = inl (
    deal full (suc n) rows (record s { remote = connected s.remote }),
    (
      do_replace_users-deal full rows s (suc n) h (omega arith),
      deal-IsReady (suc n) rows (record s { remote = connected s.remote })
          (omega (arith, count_threads-ok (length s.local) (suc n) s.remote h)),
    ),
  )

  -- Another distribution makes the server ready, in whatever state it was, or there are too many threads.
  pub do_replace_users-IsSafe :
      (rows : List Row) (s : Server) → IsSafe (do_replace_users full rows s)
  do_replace_users-IsSafe rows s = do_replace_users-counted rows s _ refl

  hand_out-IsSafe :
      (rows : List Row) (s : Server) (f : Found)
      → 0 < all_threads s
      → IsReady s
      → IsSafe (hand_out (all_threads s) f.new_accounts (record s { active = f.active }))
  unfolding HandedOut
  hand_out-IsSafe rows s f l i =
      let (t, (e, (r, w))) =
        hand_out-HandedOut f.new_accounts (record s { active = f.active }) l i in
      inl (t, (e, r))

  check_found-IsSafe :
      (rows : List Row) (s : Server) (f : Option Found)
      → 0 < all_threads s
      → IsReady s
      → IsSafe (check_found full (all_threads s) rows s f)
  check_found-IsSafe rows s none l i = do_replace_users-IsSafe rows s
  check_found-IsSafe rows s (some f) l i = elim (Bool-cases (is_empty f.active_copy)) [
    | inl e ↦ subst IsSafe (sym (if_true _ _ e)) (hand_out-IsSafe rows s f l i)
    | inr e ↦ subst IsSafe (sym (if_false _ _ e)) (do_replace_users-IsSafe rows s)
  ]

  check_active-IsSafe :
      (rows : Option (List Row)) (s : Server)
      → 0 < all_threads s
      → IsReady s
      → IsSafe (check_active full (all_threads s) s rows)
  check_active-IsSafe none s l i = inl (s, (refl, i))
  check_active-IsSafe (some rows) s l i = elim (Bool-cases (ltb (length rows) (length s.active))) [
    | inl e ↦ subst IsSafe (sym (if_true _ _ e)) (do_replace_users-IsSafe rows s)
    | inr e ↦ subst IsSafe (sym (if_false _ _ e)) (check_found-IsSafe rows s _ l i)
  ]

  check_threads-IsSafe :
      (rows : Option (List Row)) (latest : List Row) (s : Server) (c : Collected)
      → collect (length s.local) s.remote ≡ c
      → IsReady s
      → IsSafe (check_threads full rows latest s c)
  check_threads-IsSafe rows latest s lost e i = do_replace_users-IsSafe latest s
  check_threads-IsSafe rows latest s overflow e i = inr refl
  check_threads-IsSafe rows latest s (collected n) e i = elim (Bool-cases (n == 0)) [
    | inl z ↦ subst IsSafe (sym (if_true _ _ z)) (inl (s, (refl, i)))
    | inr z ↦ subst IsSafe (sym (if_false _ _ z)) (
        subst (λ k. IsSafe (check_active full k s rows)) (sym (collect-collected _ n s.remote e))
          (check_active-IsSafe rows s
            (omega (arith, collect-collected _ n s.remote e, not_zero n z)) i))
  ]

  -- Where the server is ready, `check_users` leaves it ready or reports too many threads: it never looks behind the
  -- last connection.
  pub check_users-IsSafe :
      (rows : Option (List Row)) (latest : List Row) (s : Server)
      → IsReady s
      → IsSafe (check_users full rows latest s)
  unfolding check_users
  check_users-IsSafe rows latest s i = elim (Bool-cases s.stop) [
    | inl e ↦ subst IsSafe (sym (if_true _ _ e)) (inl (s, (refl, i)))
    | inr e ↦ subst IsSafe (sym (if_false _ _ e)) (check_threads-IsSafe rows latest s _ refl i)
  ]
