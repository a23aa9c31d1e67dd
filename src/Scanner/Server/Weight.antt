-- ===== src/Scanner/Server/Weight.antt =====
-- What the queues and the connections of src/rpc/scanner/server.cpp were given, by weight: a sum over the accounts, such as
-- the number of times that one of them occurs.
use mathlib.Core.List.{reverse, reverse_aux}
use monero_lws.Base.{
  ℕ, zero, suc, ◌+◌, ◌<◌, ◌≡◌, refl, ap, arith, some, List, [], ◌∷◌, ◌++◌, get_elem?, length, take,
  drop,
}
use monero_lws.Db.Account.{Account}
use monero_lws.Scanner.Queue
use monero_lws.Scanner.Queue.{Queue}
use monero_lws.Scanner.Server.{Command, push_command, replace_command, Connection}
use monero_lws.Scanner.Server.Check.{push_to, write_at, remote_threads}

module _ (f : Account → ℕ) where
  abbrev pub weigh : List Account → ℕ
  weigh [] = 0
  weigh (a ∷ accounts) = f a + weigh accounts

  -- The accounts that wait in the queues as pushed ones.
  abbrev pub weigh_pushed : List Queue → ℕ
  weigh_pushed [] = 0
  weigh_pushed (q ∷ qs) = weigh q.push + weigh_pushed qs

  abbrev pub weigh_command : Command → ℕ
  weigh_command (push_command accounts) = weigh accounts
  weigh_command (replace_command accounts) = weigh accounts

  abbrev pub weigh_commands : List Command → ℕ
  weigh_commands [] = 0
  weigh_commands (c ∷ cs) = weigh_command c + weigh_commands cs

  abbrev pub weigh_written : List Connection → ℕ
  weigh_written [] = 0
  weigh_written (c ∷ cs) = weigh_commands c.written + weigh_written cs

  pub weigh-append : (xs ys : List Account) → weigh (xs ++ ys) ≡ weigh xs + weigh ys
  weigh-append [] ys = omega arith
  weigh-append (x ∷ xs) ys = omega (arith, weigh-append xs ys)

  pub weigh-take-drop :
      (n : ℕ) (xs : List Account) → weigh (take n xs) + weigh (drop n xs) ≡ weigh xs
  weigh-take-drop zero xs = omega arith
  weigh-take-drop (suc n) [] = omega arith
  weigh-take-drop (suc n) (x ∷ xs) = omega (arith, weigh-take-drop n xs)

  weigh-reverse_aux : (xs ys : List Account) → weigh (reverse_aux xs ys) ≡ weigh xs + weigh ys
  weigh-reverse_aux [] ys = omega arith
  weigh-reverse_aux (x ∷ xs) ys = omega (arith, weigh-reverse_aux xs (x ∷ ys))

  pub weigh-reverse : (xs : List Account) → weigh (reverse xs) ≡ weigh xs
  weigh-reverse xs = omega (arith, weigh-reverse_aux xs [])

  weigh_commands-append :
      (cs : List Command) (c : Command)
      → weigh_commands (cs ++ c ∷ []) ≡ weigh_commands cs + weigh_command c
  weigh_commands-append [] c = omega arith
  weigh_commands-append (d ∷ cs) c = omega (arith, weigh_commands-append cs c)

  pub weigh_pushed-push_to :
      (i : ℕ) (a : Account) (qs : List Queue)
      → i < length qs
      → weigh_pushed (push_to i a qs) ≡ weigh_pushed qs + f a
  unfolding Queue.push_accounts
  weigh_pushed-push_to i a [] h = absurd (omega (arith, h))
  weigh_pushed-push_to zero a (q ∷ qs) h = omega (arith, weigh-append q.push (a ∷ []))
  weigh_pushed-push_to (suc i) a (q ∷ qs) h =
      omega (arith, weigh_pushed-push_to i a qs (omega (arith, h)))

  pub weigh_written-write_at :
      (j : ℕ) (cmd : Command) (cs : List Connection)
      → j < length (remote_threads cs)
      → weigh_written (write_at j cmd cs) ≡ weigh_written cs + weigh_command cmd
  weigh_written-write_at j cmd [] h = absurd (omega (arith, h))
  weigh_written-write_at zero cmd (c ∷ cs) h =
      ground (arith, h, weigh_commands-append c.written cmd, weigh_written-write_at zero cmd cs)
  weigh_written-write_at (suc j) cmd (c ∷ cs) h =
      ground (arith, h, weigh_written-write_at (suc j) cmd cs, weigh_written-write_at j cmd cs)

pub length-push_to : (i : ℕ) (a : Account) (qs : List Queue) → length (push_to i a qs) ≡ length qs
length-push_to i a [] = refl
length-push_to zero a (q ∷ qs) = refl
length-push_to (suc i) a (q ∷ qs) = ap suc (length-push_to i a qs)

pub remote_threads-write_at :
    (j : ℕ) (cmd : Command) (cs : List Connection)
    → remote_threads (write_at j cmd cs) ≡ remote_threads cs
remote_threads-write_at j cmd [] = refl
remote_threads-write_at zero cmd (c ∷ cs) = ground (arith, remote_threads-write_at zero cmd cs)
remote_threads-write_at (suc j) cmd (c ∷ cs) =
    ground (arith, remote_threads-write_at (suc j) cmd cs, remote_threads-write_at j cmd cs)

pub length-get_elem? :
    (i : ℕ) (q : Queue) (qs : List Queue) → get_elem? qs i ≡ some q → i < length qs
length-get_elem? i q [] e = ground arith
length-get_elem? zero q (p ∷ qs) e = omega arith
length-get_elem? (suc i) q (p ∷ qs) e = omega (arith, length-get_elem? i q qs e)
