-- ===== src/Scanner/Server/Tests.antt =====
-- Two queues and a connection of two threads, and the theorems at them.
use mathlib.Core.List.{Perm}
use monero_lws.Base.{
  ℕ, ◌%◌, ◌≡◌, refl, inl, inr, arith, Bool, true, false, none, some, List, [], ◌∷◌, ◌++◌, map,
  length, get_elem?, All,
}
use monero_lws.Base.Results.{ok}
use monero_lws.Db.Account.{Account}
use monero_lws.Scanner.Queue.{Queue}
use monero_lws.Scanner.Server.{
  Connection, Server, Row, sorted_ids, count_threads, do_replace_users, write_command,
  replace_command,
}
use monero_lws.Scanner.Server.Check.{no_best, best_of, find_remote, hand_out, check_users}
use monero_lws.Scanner.Server.Best.{SuitsBest, best_of-SuitsBest}
use monero_lws.Scanner.Server.Deal.{replacements, do_replace_users-local}
use monero_lws.Scanner.Server.Handed.{all_threads, HandedOut, hand_out-HandedOut}
use monero_lws.Scanner.Server.Lost.{do_replace_users-single}
use monero_lws.Scanner.Server.Ready.{IsSafe, check_users-IsSafe}

abbrev full : Row → Account
full r = record {
  immutable = none;
  spendable = [];
  pubs = [];
  spends = [];
  outputs = [];
  height = r.scan_height;
}

abbrev rows : List Row
rows =
    record { id = 1; scan_height = 9 }
    ∷ record { id = 2; scan_height = 4 }
    ∷ record { id = 3; scan_height = 6 }
    ∷ []

abbrev at : ℕ → ℕ → Queue
at height count = record {
  replace = none;
  push = [];
  user_count = count;
  current_min_height = height;
  stop = false;
}

abbrev connection : ℕ → Connection
connection threads = record { alive = true; threads = threads; authenticated = true; written = [] }

abbrev server : ℕ → Bool → Server
server next balance_new = record {
  remote = connection 2 ∷ [];
  local = at 5 1 ∷ at 8 1 ∷ [];
  active = [];
  next_thread = next;
  notified = 0;
  stop = false;
  balance_new_addresses = balance_new;
}

count : count_threads 2 (connection 2 ∷ []) ≡ ok 4
unfolding count_threads
count = refl

do_replace_users-local_example :
    (t : Server) × ((do_replace_users full rows (server 3 true) ≡ ok t)
      × (Perm (replacements t.local) (map full rows) × (t.active ≡ sorted_ids [] rows)))
do_replace_users-local_example =
    do_replace_users-local full rows (at 5 1) (at 8 1 ∷ []) (server 3 true) 4 count
      (inr (omega arith))

do_replace_users-single_example :
    (t : Server) × ((chosen : List Row) × ((left : List Row) × ((do_replace_users full rows
              (record (server 0 true) { local = []; remote = connection 2 ∷ [] })
            ≡ ok t)
          × ((t.remote ≡ write_command (replace_command (map full chosen)) (connection 2) ∷ [])
              × (Perm (chosen ++ left) rows
                  × ((length left ≡ 3 % 2) × Perm t.active (map (λ r. r.id) rows)))))))
do_replace_users-single_example =
    do_replace_users-single full rows (connection 2) (server 0 true) refl (omega arith)
      (omega arith) (omega arith)

best_of-SuitsBest_example :
    (r : Queue) × ((get_elem?
          (at 5 1 ∷ at 8 1 ∷ [])
          (best_of 7 0 (at 5 1 ∷ at 8 1 ∷ []) no_best).best_thread
        ≡ some r)
      × All (SuitsBest 7 r) (at 5 1 ∷ at 8 1 ∷ []))
best_of-SuitsBest_example = best_of-SuitsBest 7 (at 5 1) (at 8 1 ∷ [])

-- The turn is the connection's.
hand_out-HandedOut_example :
    (t : Server) × ((hand_out (all_threads (server 2 false)) (map full rows) (server 2 false)
        ≡ ok t)
      × HandedOut (map full rows) (server 2 false) t)
hand_out-HandedOut_example =
    hand_out-HandedOut (map full rows) (server 2 false) (omega arith) (inr (inr (inl refl)))

check_users-IsSafe_example : IsSafe (check_users full (some rows) rows (server 2 false))
check_users-IsSafe_example =
    check_users-IsSafe full (some rows) rows (server 2 false) (inr (inr (inl refl)))

-- A connection that has got its threads after the others, but stands before them, can bring the turn behind
-- the first thread of the last one.
behind_the_last : find_remote 6 0 0 (1 ∷ 4 ∷ 2 ∷ []) ≡ none
unfolding find_remote
behind_the_last = refl
