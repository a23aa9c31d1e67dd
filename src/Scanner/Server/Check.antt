-- ===== src/Scanner/Server/Check.antt =====
-- `server::check_users` of src/rpc/scanner/server.cpp, which runs every ten seconds: it looks for changes of the active
-- accounts and hands the new ones out.
-- `rows` is what `get_accounts` yields, in its order; `none` is a reader that could not be opened for want of a lock.
use mathlib.Core.List.{reverse}
use monero_lws.Base.{
  ℕ, zero, suc, ◌+◌, ◌-◌, ◌%◌, ◌^◌, min, Bool, true, false, not, ◌&&◌, ◌||◌, Option, none, some,
  List, [], ◌∷◌, ◌++◌, ltb, leb, ◌==◌, if◌then◌else◌, length, take, drop, insert_sorted,
  lower_bound,
}
use monero_lws.Base.Results.{Result, ok, err, ◌>>=◌}
use monero_lws.Db.Account.{Account}
use monero_lws.Scanner.Queue
use monero_lws.Scanner.Queue.{Queue, is_empty}
use monero_lws.Scanner.Server.{
  Error, too_many_threads, out_of_range, Command, push_command, Connection, Server, Row,
  write_command, do_replace_users,
}

-- The loop over the connections: a lost one, too many threads, or the number of all threads.
pub data Collected : Type 0 where
  lost overflow : Collected
  collected : ℕ → Collected

unfoldable pub collect : ℕ → List Connection → Collected
collect total [] = collected total
collect total (c ∷ cs) =
    let rest = collect (total + c.threads) cs in
    if not c.alive then lost else (if ltb (2 ^ 64 - 1 - total) c.threads then overflow else rest)

-- `std::lower_bound(...)` with the test for the id.
abbrev pub starts_with_id : ℕ → List ℕ → Bool
starts_with_id id [] = false
starts_with_id id (i ∷ is) = i == id

unfoldable pub find_id : ℕ → List ℕ → Bool
find_id id ids = starts_with_id id (lower_bound (λ i. ltb i id) ids)

-- `active_copy.erase(loc)`
unfoldable pub erase_id : ℕ → List ℕ → List ℕ
erase_id id [] = []
erase_id id (i ∷ is) = if ltb i id then i ∷ erase_id id is else is

-- The variables of the loop over the active accounts.
pub record Found : Type 0 where
  pub active_copy : List ℕ
  pub active : List ℕ
  pub new_accounts : List Account

module _ (full : Row → Account) where
  -- That loop; `none` where there are more than `replace_threshold` new accounts.
  unfoldable pub find_new : List Row → Found → Option Found
  find_new [] f = some f
  find_new (r ∷ rows) f =
      let accounts = f.new_accounts ++ full r ∷ [] in
      let added =
        find_new rows
          (record f { new_accounts = accounts; active = insert_sorted ltb r.id f.active }) in
      let known = find_new rows (record f { active_copy = erase_id r.id f.active_copy }) in
      if find_id r.id f.active_copy
      then known
      else (if ltb 10000 (length accounts) then none else added)

-- The variables of the search for a thread.
pub record Best : Type 0 where
  pub found_below_or_equal : Bool
  pub best_thread : ℕ
  pub best_height : ℕ
  pub best_count : ℕ

abbrev pub no_best : Best
no_best = record {
  found_below_or_equal = false;
  best_thread = 0;
  best_height = 0;
  best_count = 2 ^ 64 - 1;
}

-- The body of the loop over the threads.
unfoldable pub consider : ℕ → ℕ → Queue → Best → Best
consider account_height i q b =
    let height = q.current_min_height in
    let count = q.user_count in
    let fewer = height == b.best_height && ltb count b.best_count in
    let taken : Best = record b { best_thread = i; best_height = height; best_count = count } in
    if leb height account_height
    then (if not b.found_below_or_equal || ltb b.best_height height || fewer
        then record taken { found_below_or_equal = true }
        else b)
    else (if not b.found_below_or_equal
        then (if b.best_height == 0 || ltb height b.best_height || fewer then taken else b)
        else b)

unfoldable pub best_of : ℕ → ℕ → List Queue → Best → Best
best_of account_height i [] b = b
best_of account_height i (q ∷ qs) b =
    best_of account_height (suc i) qs (consider account_height i q b)

abbrev pub push_to : ℕ → Account → List Queue → List Queue
push_to i a [] = []
push_to zero a (q ∷ qs) = Queue.push_accounts q (a ∷ []) ∷ qs
push_to (suc i) a (q ∷ qs) = q ∷ push_to i a qs

-- The new algorithm, with the back of `new_accounts` first.
unfoldable pub balance : List Account → List Queue → List Queue
balance [] local = local
balance (a ∷ accounts) local =
    balance accounts (push_to (best_of a.height 0 local no_best).best_thread a local)

-- A command to the connection at that place among those with threads.
abbrev pub write_at : ℕ → Command → List Connection → List Connection
write_at j cmd [] = []
write_at zero cmd (c ∷ cs) =
    if c.threads == 0 then c ∷ write_at zero cmd cs else write_command cmd c ∷ cs
write_at (suc j) cmd (c ∷ cs) =
    if c.threads == 0 then c ∷ write_at (suc j) cmd cs else c ∷ write_at j cmd cs

-- The numbers of threads of `remotes`.
abbrev pub remote_threads : List Connection → List ℕ
remote_threads [] = []
remote_threads (c ∷ cs) =
    if c.threads == 0 then remote_threads cs else c.threads ∷ remote_threads cs

-- The search for `remotes[j]`, with its number of threads; `none` where it ends behind the last one.
unfoldable pub find_remote : ℕ → ℕ → ℕ → List ℕ → Option (ℕ × ℕ)
find_remote next_thread offset j [] = none
find_remote next_thread offset j (t ∷ ts) =
    if leb next_thread offset then some (j, t) else find_remote next_thread (offset + t) (suc j) ts

-- The variables of the original algorithm; `accounts` has the back of `new_accounts` first.
pub record Round : Type 0 where
  pub next_thread : ℕ
  pub local : List Queue
  pub remote : List Connection
  pub accounts : List Account
  pub notify : Bool

abbrev pub push_local : ℕ → Account → List Account → Round → Round
push_local total a accounts r = record r {
  local = push_to r.next_thread a r.local;
  accounts = accounts;
  notify = true;
  next_thread = (r.next_thread + 1) % total;
}

abbrev pub push_remote : ℕ → Round → Option (ℕ × ℕ) → Result Error Round
push_remote total r none = err out_of_range
push_remote total r (some p) =
    let user_count = min (length r.accounts) p.1 in
    ok (record r {
      remote = write_at p.0 (push_command (reverse (take user_count r.accounts))) r.remote;
      accounts = drop user_count r.accounts;
      next_thread = (r.next_thread + p.1) % total;
    })

-- The body of the loop.
unfoldable pub round_step : ℕ → Account → List Account → Round → Result Error Round
round_step total a accounts r =
    if ltb r.next_thread (length r.local)
    then ok (push_local total a accounts r)
    else push_remote total r
        (find_remote r.next_thread (length r.local) 0 (remote_threads r.remote))

-- The test of the loop and its body.
abbrev pub one_round : ℕ → List Account → Round → Result Error Round
one_round total [] r = ok r
one_round total (a ∷ accounts) r = round_step total a accounts r

-- The loop, on fuel: each round takes one account at least.
unfoldable pub round_robin : ℕ → ℕ → Round → Result Error Round
round_robin zero total r = ok r
round_robin (suc fuel) total r = one_round total r.accounts r >>= round_robin fuel total

-- Around the loop.
abbrev pub start_round : ℕ → List Account → Server → Round
start_round total new_accounts s = record {
  next_thread = s.next_thread % total;
  local = s.local;
  remote = s.remote;
  accounts = reverse new_accounts;
  notify = false;
}

abbrev pub finish_round : Server → Round → Server
finish_round s r = record s {
  next_thread = r.next_thread;
  local = r.local;
  remote = r.remote;
  notified = if r.notify then s.notified + 1 else s.notified;
}

abbrev pub balanced : List Account → Server → Server
balanced new_accounts s = record s {
  local = balance (reverse new_accounts) s.local;
  notified = if is_empty new_accounts then s.notified else s.notified + 1;
}

-- The distribution of the new accounts and what follows it.
unfoldable pub hand_out : ℕ → List Account → Server → Result Error Server
hand_out total new_accounts s =
    let handed = do
      r ← round_robin (length new_accounts) total (start_round total new_accounts s)
      ok (finish_round s r)
    in if s.balance_new_addresses && not (is_empty s.local)
      then ok (balanced new_accounts s)
      else handed

module _ (full : Row → Account) where
  -- From the loop over the active accounts on.
  abbrev pub check_found : ℕ → List Row → Server → Option Found → Result Error Server
  check_found total rows s none = do_replace_users full rows s
  check_found total rows s (some f) =
      if is_empty f.active_copy
      then hand_out total f.new_accounts (record s { active = f.active })
      else do_replace_users full rows s

  -- From the count of the threads on.
  abbrev pub check_active : ℕ → Server → Option (List Row) → Result Error Server
  check_active total s none = ok s
  check_active total s (some rows) =
      if ltb (length rows) (length s.active)
      then do_replace_users full rows s
      else check_found total rows s (
          find_new full rows
            (record { active_copy = s.active; active = s.active; new_accounts = [] }))

  abbrev pub check_threads : Option (List Row) → List Row → Server → Collected → Result Error Server
  check_threads rows latest s lost = do_replace_users full latest s
  check_threads rows latest s overflow = err too_many_threads
  check_threads rows latest s (collected total) =
      if total == 0 then ok s else check_active total s rows

  -- `latest` is what `do_replace_users` reads where a connection was lost.
  unfoldable pub check_users : Option (List Row) → List Row → Server → Result Error Server
  check_users rows latest s =
      if s.stop then ok s else check_threads rows latest s (collect (length s.local) s.remote)
