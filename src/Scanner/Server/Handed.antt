-- ===== src/Scanner/Server/Handed.antt =====
-- What `server::check_users` of src/rpc/scanner/server.cpp hands out, by the one algorithm and the other.
use mathlib.Core.List.{reverse}
use native.Mathlib.Nat.{mod-eq_of_lt}
use monero_lws.Base.{
  ℕ, ◌+◌, ◌<◌, ◌≡◌, refl, ap, sym, ◌∙◌, arith, Bool, true, false, not, ◌&&◌, Bool-cases, inl, inr,
  ◌⊎◌, List, [], ◌∷◌, length, length-reverse, if_true, if_false,
}
use monero_lws.Base.Results.{ok, ◌>>=◌}
use monero_lws.Db.Account.{Account}
use monero_lws.Scanner.Queue.{Queue, is_empty}
use monero_lws.Scanner.Server.{Server}
use monero_lws.Scanner.Server.Check.{
  no_best, best_of, push_to, balance, remote_threads, Round, round_robin, start_round, finish_round,
  balanced, hand_out,
}
use monero_lws.Scanner.Server.Best.{best_of-SuitsBest}
use monero_lws.Scanner.Server.Rounds.{
  sum, IsTurn, IsTurn-lt, remote_threads-ArePositive, IsRound, weigh_round, round_robin-all,
}
use monero_lws.Scanner.Server.Weight.{
  weigh, weigh_pushed, weigh_written, weigh-reverse, weigh_pushed-push_to, length-push_to,
  length-get_elem?,
}

-- The number of threads of the queues and the connections.
abbrev pub all_threads : Server → ℕ
all_threads s = length s.local + sum (remote_threads s.remote)

-- `next_thread_` is a thread of this process or the first of a connection, unless there are no threads.
abbrev pub IsReady : Server → Type 0
IsReady s = (all_threads s ≡ 0) ⊎ IsTurn (length s.local) (remote_threads s.remote) s.next_thread

abbrev pub weigh_server : (Account → ℕ) → Server → ℕ
weigh_server f s = weigh_pushed f s.local + weigh_written f s.remote

-- The new algorithm pushes each account to one queue.
best-lt :
    (h : ℕ) (qs : List Queue) → 0 < length qs → (best_of h 0 qs no_best).best_thread < length qs
best-lt h [] l = absurd (omega (arith, l))
best-lt h (q ∷ qs) l = let (r, (e, a)) = best_of-SuitsBest h q qs in length-get_elem? _ r (q ∷ qs) e

length-balance :
    (accounts : List Account) (qs : List Queue) → length (balance accounts qs) ≡ length qs
unfolding balance
length-balance [] qs = refl
length-balance (a ∷ accounts) qs = length-balance accounts _ ∙ length-push_to _ a qs

weigh_pushed-balance :
    (f : Account → ℕ) (accounts : List Account) (qs : List Queue)
    → 0 < length qs
    → weigh_pushed f (balance accounts qs) ≡ weigh_pushed f qs + weigh f accounts
unfolding balance
weigh_pushed-balance f [] qs l = omega arith
weigh_pushed-balance f (a ∷ accounts) qs l = omega (
  arith,
  weigh_pushed-push_to f i a qs (best-lt a.height qs l),
  weigh_pushed-balance f accounts (push_to i a qs) (omega (arith, l, length-push_to i a qs)),
)
  where
    i : ℕ
    i = (best_of a.height 0 qs no_best).best_thread

-- What `hand_out` does by the one algorithm and the other.
hand_out-balanced :
    (total : ℕ) (new_accounts : List Account) (s : Server)
    → (s.balance_new_addresses && not (is_empty s.local)) ≡ true
    → hand_out total new_accounts s ≡ ok (balanced new_accounts s)
unfolding hand_out
hand_out-balanced total new_accounts s e = if_true _ _ e

hand_out-rounds :
    (total : ℕ) (new_accounts : List Account) (s : Server) (r : Round)
    → (s.balance_new_addresses && not (is_empty s.local)) ≡ false
    → round_robin (length new_accounts) total (start_round total new_accounts s) ≡ ok r
    → hand_out total new_accounts s ≡ ok (finish_round s r)
unfolding hand_out
hand_out-rounds total new_accounts s r e h =
    if_false _ _ e ∙ ap (λ x. x >>= (λ r. ok (finish_round s r))) h

some_queue : (a : Bool) (qs : List Queue) → (a && not (is_empty qs)) ≡ true → 0 < length qs
some_queue a [] e = ground (arith, e)
some_queue a (q ∷ qs) e = omega arith

-- The result: every new account has been given to one thread, and the turn is as it should be.
unfoldable pub HandedOut : List Account → Server → Server → Type 0
HandedOut new_accounts s t =
    IsReady t × ((f : Account → ℕ) → weigh_server f t ≡ weigh_server f s + weigh f new_accounts)

balanced-HandedOut :
    (new_accounts : List Account) (s : Server)
    → IsReady s
    → 0 < length s.local
    → HandedOut new_accounts s (balanced new_accounts s)
unfolding HandedOut
balanced-HandedOut new_accounts s i l = (
  rw (length-balance (reverse new_accounts) s.local) i,
  (λ f. omega (
    arith,
    weigh_pushed-balance f (reverse new_accounts) s.local l,
    weigh-reverse f new_accounts,
  )),
)

start_round-IsRound :
    (total : ℕ) (new_accounts : List Account) (s : Server)
    → all_threads s ≡ total
    → IsTurn (length s.local) (remote_threads s.remote) s.next_thread
    → IsRound (length s.local) (remote_threads s.remote) (start_round total new_accounts s)
unfolding IsRound
start_round-IsRound total new_accounts s e i = (
  rw
      (mod-eq_of_lt (
        IsTurn-lt (length s.local) total s.next_thread (remote_threads s.remote)
          (remote_threads-ArePositive s.remote) (sym e) i))
      i,
  (refl, refl),
)

finish_round-HandedOut :
    (new_accounts : List Account) (s : Server) (total : ℕ) (r : Round)
    → IsRound (length s.local) (remote_threads s.remote) r
    → r.accounts ≡ []
    → ((f : Account → ℕ) → weigh_round f r ≡ weigh_round f (start_round total new_accounts s))
    → HandedOut new_accounts s (finish_round s r)
unfolding HandedOut IsRound
finish_round-HandedOut new_accounts s total r (i, (l, t)) u w =
    (rw (l, t) (inr i), (λ f. omega (arith, w f, weigh-reverse f new_accounts, ap (weigh f) u)))

-- On a ready server with threads, `hand_out` ends without an error, gives each new account to one thread, by any weight
-- of accounts, and leaves the server ready.
pub hand_out-HandedOut :
    (new_accounts : List Account) (s : Server)
    → 0 < all_threads s
    → IsReady s
    → (t : Server) × ((hand_out (all_threads s) new_accounts s ≡ ok t) × HandedOut new_accounts s t)
hand_out-HandedOut new_accounts s l (inl e) = absurd (omega (arith, e, l))
hand_out-HandedOut new_accounts s l (inr i) =
    elim (Bool-cases (s.balance_new_addresses && not (is_empty s.local))) [
      | inl b ↦ (
        balanced new_accounts s,
        (
          hand_out-balanced (all_threads s) new_accounts s b,
          balanced-HandedOut new_accounts s (inr i) (some_queue s.balance_new_addresses s.local b),
        ),
      )
      | inr b ↦
          let (r, (e, (g, (u, w)))) =
            round_robin-all (length s.local) (all_threads s) (remote_threads s.remote) refl l
              (length new_accounts) (start_round (all_threads s) new_accounts s)
              (start_round-IsRound (all_threads s) new_accounts s refl i)
              (omega (arith, length-reverse new_accounts)) in
          (
            finish_round s r,
            (
              hand_out-rounds (all_threads s) new_accounts s r b e,
              finish_round-HandedOut new_accounts s (all_threads s) r g u w,
            ),
          )
    ]
