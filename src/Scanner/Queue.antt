-- ===== src/Scanner/Queue.antt =====
-- src/rpc/scanner/queue.h and queue.cpp: the hand-over of accounts to one scanner thread, and what that thread does
-- with them (src/scanner.cpp). Every operation holds the mutex from start to end, so a run is a sequence of calls; the
-- condition variable is the condition that `wait_for_accounts` waits on. `user_count` counts a `std::size_t`.
pub mod Delivery
pub mod Height
mod Tests
use monero_lws.Base.{
  ℕ, ◌+◌, ◌%◌, ◌^◌, Bool, true, false, ◌&&◌, ◌||◌, not, Option, none, some, List, [], ◌∷◌, ◌++◌,
  max, ltb, ◌==◌, if◌then◌else◌, length,
}
use monero_lws.Db.Account.{Account}

pub record Status : Type 0 where
  pub replace : Option (List Account)
  pub push : List Account
  pub user_count : ℕ

pub record Queue : Type 0 where
  pub replace : Option (List Account)
  pub push : List Account
  pub user_count : ℕ
  pub current_min_height : ℕ
  pub stop : Bool

unfoldable pub init : Queue
init = record { replace = none; push = []; user_count = 0; current_min_height = 0; stop = false }

-- `do_get_accounts`, under the lock of `get_accounts`.
unfoldable pub get_accounts : Queue → Queue × Status
get_accounts q = (
  record q { replace = none; push = [] },
  record { replace = q.replace; push = q.push; user_count = q.user_count },
)

unfoldable pub stop_queue : Queue → Queue
stop_queue q = record q { stop = true }

unfoldable pub update_min_height : Queue → ℕ → Queue
update_min_height q height = record q { current_min_height = max height q.current_min_height }

abbrev pub is_some {ℓ} : {A : Type ℓ} → Option A → Bool
is_some none = false
is_some (some a) = true

abbrev pub is_empty {ℓ} : {A : Type ℓ} → List A → Bool
is_empty [] = true
is_empty (x ∷ xs) = false

unfoldable pub has_accounts : Queue → Bool
has_accounts q = is_some q.replace || not (is_empty q.push)

-- The predicate of the condition variable; a call that finds it true does not wait.
unfoldable pub ready : Queue → Bool
ready q = is_some q.replace || not (is_empty q.push) || q.stop

-- `wait_for_accounts`: `none` while the call blocks.
unfoldable pub wait_for_accounts : Queue → Option (Queue × Status)
unfolding ready get_accounts
wait_for_accounts q = if ready q then some (get_accounts q) else none

-- `std::min_element(...)->scan_height()` from the element at hand on.
unfoldable pub min_element : ℕ → List Account → ℕ
min_element best [] = best
min_element best (a ∷ rest) = min_element (if ltb a.height best then a.height else best) rest

abbrev pub oldest_height : List Account → ℕ
oldest_height [] = 0
oldest_height (a ∷ rest) = min_element a.height rest

unfoldable pub replace_accounts : Queue → List Account → Queue
replace_accounts q users = record q {
  replace = some users;
  user_count = length users;
  push = [];
  current_min_height = oldest_height users;
}

-- The loop of `push_accounts`.
unfoldable pub lower_min_height : ℕ → List Account → ℕ
lower_min_height current [] = current
lower_min_height current (a ∷ rest) =
    lower_min_height (if current == 0 || ltb a.height current then a.height else current) rest

unfoldable pub push_accounts : Queue → List Account → Queue
push_accounts q users = record q {
  user_count = (q.user_count + length users) % 2 ^ 64;
  current_min_height = lower_min_height q.current_min_height users;
  push = q.push ++ users;
}

-- What the scanner thread makes of a status: the replacement, or its own accounts, and then the pushed ones. The sort by
-- height that follows is left out: the same accounts are scanned.
abbrev pub receive : List Account → Status → List Account
receive users s = elim s.replace [ none ↦ users ++ s.push | some fresh ↦ fresh ++ s.push ]
