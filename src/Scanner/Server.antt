-- ===== src/Scanner/Server.antt =====
-- src/rpc/scanner/server.h and server.cpp: the distribution of accounts to the scanner threads of this process and of
-- others. Everything runs on one strand, so an operation is a function on the server's state. A queue is
-- Scanner.Queue's. A connection keeps the commands that were written to it; one that is not alive is a weak pointer
-- that cannot be locked any more. `full` is `get_full_account`, and `notified` counts the calls of `notify_threads`.
pub mod Best
pub mod Check
pub mod Deal
pub mod Handed
pub mod Lost
pub mod Ready
pub mod Rounds
mod Tests
pub mod Weight
use mathlib.Core.List.{reverse}
use monero_lws.Base.{
  ℕ, ◌+◌, ◌-◌, ◌*◌, ◌/◌, ◌%◌, ◌^◌, min, max, Bool, true, false, not, ◌&&◌, List, [], ◌∷◌, ◌++◌, map,
  ltb, leb, ◌==◌, if◌then◌else◌, length, take, drop, insert_sorted,
}
use monero_lws.Base.Results.{Result, ok, err, ◌>>=◌}
use monero_lws.Db.Account.{Account}
use monero_lws.Scanner.Queue
use monero_lws.Scanner.Queue.{Queue, is_empty}

pub data Error : Type 0 where
  too_many_threads out_of_range : Error

pub data Command : Type 0 where
  push_command replace_command : List Account → Command

-- `server_connection`
pub record Connection : Type 0 where
  pub alive : Bool
  pub threads : ℕ
  pub authenticated : Bool
  pub written : List Command

pub record Server : Type 0 where
  pub remote : List Connection
  pub local : List Queue
  pub active : List ℕ
  pub next_thread : ℕ
  pub notified : ℕ
  pub stop : Bool
  pub balance_new_addresses : Bool

-- The fields of a `db::account` that are read here.
pub record Row : Type 0 where
  pub id : ℕ
  pub scan_height : ℕ

abbrev pub by_height : Row → Row → Bool
by_height left right = ltb left.scan_height right.scan_height

abbrev pub write_command : Command → Connection → Connection
write_command c conn = record conn { written = conn.written ++ c ∷ [] }

-- The first loop of `do_replace_users`: the threads of the live connections, and the connections that stay.
unfoldable pub count_threads : ℕ → List Connection → Result Error ℕ
count_threads total [] = ok total
count_threads total (c ∷ cs) =
    let rest = count_threads (total + c.threads) cs in
    let skipped = count_threads total cs in
    if c.alive
    then (if ltb (2 ^ 64 - 1 - total) c.threads then err too_many_threads else rest)
    else skipped

abbrev pub connected : List Connection → List Connection
connected [] = []
connected (c ∷ cs) = if c.alive then c ∷ connected cs else connected cs

-- The vectors that `do_replace_users` fills by sorted insertion.
abbrev pub sorted_ids : List ℕ → List Row → List ℕ
sorted_ids ids [] = ids
sorted_ids ids (r ∷ rows) = sorted_ids (insert_sorted ltb r.id ids) rows

abbrev pub sorted_users : List Row → List Row → List Row
sorted_users users [] = users
sorted_users users (r ∷ rows) = sorted_users (insert_sorted by_height r users) rows

-- The state of the loops that deal the users out: the back of the vector `users` stands first.
pub record Hand {ℓ} (A : Type ℓ) : Type ℓ where
  pub dealt : List A
  pub users : List Row
  pub remaining_threads : ℕ

-- The users for a connection with that many threads.
abbrev pub remote_count : ℕ → List Row → ℕ → ℕ
remote_count remaining users threads = max 1 (length users / max 1 remaining) * threads % 2 ^ 64

-- `remote_threshold` is 100.
abbrev pub threads_used : ℕ → ℕ → ℕ → ℕ
threads_used remaining locals users =
    if not (locals == 0) && ltb (users / locals) 100 then locals else remaining

module _ (full : Row → Account) where
  unfoldable pub deal_local : ℕ → List Row → List Queue → Hand Queue
  deal_local remaining users [] = record {
    dealt = [];
    users = users;
    remaining_threads = remaining;
  }
  deal_local remaining users (q ∷ qs) =
      let user_count = length users / remaining in
      let rest = deal_local (remaining - 1) (drop user_count users) qs in
      record rest {
        dealt = Queue.replace_accounts q (map full (take user_count users)) ∷ rest.dealt;
      }

  unfoldable pub deal_remote : ℕ → List Row → List Connection → Hand Connection
  deal_remote remaining users [] = record {
    dealt = [];
    users = users;
    remaining_threads = remaining;
  }
  deal_remote remaining users (c ∷ cs) =
      let user_count = remote_count remaining users c.threads in
      let rest = deal_remote (remaining - min remaining c.threads) (drop user_count users) cs in
      record rest {
        dealt = write_command (replace_command (map full (take user_count users))) c ∷ rest.dealt;
      }

  -- `do_replace_users` from the reading of the active accounts on.
  unfoldable pub deal : ℕ → List Row → Server → Server
  deal remaining rows s =
      let users = reverse (sorted_users [] rows) in
      let locals = length s.local in
      let l = deal_local (threads_used remaining locals (length users)) users s.local in
      let r = deal_remote l.remaining_threads l.users s.remote in
      record s {
        local = l.dealt;
        remote = r.dealt;
        notified = if is_empty s.local then s.notified else s.notified + 1;
        next_thread = 0;
        active = sorted_ids [] rows;
      }

  unfoldable pub do_replace_users : List Row → Server → Result Error Server
  do_replace_users rows s = do
    remaining ← count_threads (length s.local) s.remote
    let kept : Server = record s { remote = connected s.remote }
    if remaining == 0 then ok kept else ok (deal remaining rows kept)

-- `do_stop`; the handlers of the connections are cancelled with it.
unfoldable pub do_stop : Server → Server
do_stop s = if s.stop then s else record s { stop = true }

-- `initialize_handler::handle`, on the connection; `valid_pass` is `check_pass` of the message. The answer says that the
-- connection goes on; then `replace_users` is dispatched.
unfoldable pub initialize : Bool → ℕ → Connection → Connection × Bool
initialize valid_pass threads c =
    if not (c.threads == 0)
    then (c, false)
    else (if threads == 0
        then (c, false)
        else (if valid_pass
            then (record c { authenticated = true; threads = threads }, true)
            else (c, false)))

-- `update_accounts_handler::handle`: whether the connection goes on, and the accounts that are stored.
unfoldable pub update_accounts : List Account → Connection → Bool × List Account
update_accounts users c =
    if is_empty users then (true, []) else (if c.authenticated then (true, users) else (false, []))

-- `next_size`: the length of the next message that is accepted, 0 for none. `is_initialize` says that the message's
-- id is that of `initialize`; `max_unauthenticated` is a mebibyte.
unfoldable pub next_size : Bool → ℕ → Connection → ℕ
next_size is_initialize length c =
    if c.authenticated then length else (if is_initialize && leb length (2 ^ 20) then length else 0)
