-- ===== src/Scanner/Queue/Delivery.antt =====
-- No account that is handed to the queue is lost or delivered twice, whenever the thread looks.
use mathlib.Core.List.{append-nil, append_assoc}
use monero_lws.Base.{
  ℕ, ◌%◌, ◌^◌, ◌≡◌, refl, sym, ap, ◌∙◌, ◌⊎◌, true, false, Option, none, some, List, [], ◌∷◌, ◌++◌,
  length, length-append, arith,
}
use monero_lws.Db.Account.{Account}
use monero_lws.Scanner.Queue.{
  Queue, get_accounts, stop_queue, update_min_height, has_accounts, wait_for_accounts,
  replace_accounts, push_accounts, receive,
}

-- A call on the queue by any thread. `fetch` is a call of the scanner thread, waiting or not.
pub data Call : Type 0 where
  replace : List Account → Call
  push : List Account → Call
  progress : ℕ → Call
  stop : Call
  fetch : Call

-- The queue and the accounts that its thread works on.
pub record World : Type 0 where
  pub queue : Queue
  pub working : List Account

unfoldable pub step : World → Call → World
step w (replace users) = record w { queue = replace_accounts w.queue users }
step w (push users) = record w { queue = push_accounts w.queue users }
step w (progress height) = record w { queue = update_min_height w.queue height }
step w stop = record w { queue = stop_queue w.queue }
step w fetch = record {
  queue = (get_accounts w.queue).0;
  working = receive w.working (get_accounts w.queue).1;
}

unfoldable pub run : World → List Call → World
run w [] = w
run w (c ∷ cs) = run (step w c) cs

-- What the callers asked for: the last replacement and what was pushed after it.
abbrev pub asked : List Account → Call → List Account
asked users (replace fresh) = fresh
asked users (push more) = users ++ more
asked users (progress height) = users
asked users stop = users
asked users fetch = users

abbrev pub all_asked : List Account → List Call → List Account
all_asked users [] = users
all_asked users (c ∷ cs) = all_asked (asked users c) cs

-- What the thread works on once it has fetched.
abbrev pub assigned : World → List Account
assigned w = receive w.working (get_accounts w.queue).1

receive-append :
    (working pushed users : List Account) (m n : ℕ) (o : Option (List Account))
    → receive working (record { replace = o; push = pushed ++ users; user_count = m })
      ≡ receive working (record { replace = o; push = pushed; user_count = n }) ++ users
receive-append working pushed users m n none = sym (append_assoc working pushed users)
receive-append working pushed users m n (some fresh) = sym (append_assoc fresh pushed users)

assigned-step : (w : World) (c : Call) → assigned (step w c) ≡ asked (assigned w) c
unfolding step get_accounts replace_accounts push_accounts update_min_height stop_queue
assigned-step w (replace users) = append-nil users
assigned-step w (push users) = receive-append w.working w.queue.push users 0 0 w.queue.replace
assigned-step w (progress height) = refl
assigned-step w stop = refl
assigned-step w fetch = append-nil _

-- Over any sequence of calls of any threads, what the thread has or will fetch is the last replacement followed by what
-- was pushed after it, in order: nothing is lost, doubled or left over from before the replacement.
pub assigned-run : (w : World) (cs : List Call) → assigned (run w cs) ≡ all_asked (assigned w) cs
unfolding run
assigned-run w [] = refl
assigned-run w (c ∷ cs) =
    assigned-run (step w c) cs ∙ ap (λ users. all_asked users cs) (assigned-step w c)

count-step :
    (w : World) (c : Call)
    → w.queue.user_count % 2 ^ 64 ≡ length (assigned w) % 2 ^ 64
    → (step w c).queue.user_count % 2 ^ 64 ≡ length (assigned (step w c)) % 2 ^ 64
unfolding step get_accounts replace_accounts push_accounts update_min_height stop_queue
count-step w (replace users) h = rw (append-nil users)
count-step w (push users) h =
    rw (assigned-step w (push users), length-append (assigned w) users) (omega arith)
count-step w (progress height) h = h
count-step w stop h = h
count-step w fetch h = rw (append-nil (receive w.working (get_accounts w.queue).1)) h

-- `user_count` is the number of accounts that the thread has or will fetch, as a 64-bit number.
pub user_count-run :
    (w : World) (cs : List Call)
    → w.queue.user_count % 2 ^ 64 ≡ length (assigned w) % 2 ^ 64
    → (run w cs).queue.user_count % 2 ^ 64 ≡ length (assigned (run w cs)) % 2 ^ 64
unfolding run
user_count-run w [] h = h
user_count-run w (c ∷ cs) h = user_count-run (step w c) cs (count-step w c h)

-- A waiting call returns exactly if there is a replacement, a pushed account or a stop; then it takes everything.
pub wait_for_accounts_cases :
    (q : Queue)
    → (wait_for_accounts q ≡ some (get_accounts q)) × ((has_accounts q ≡ true) ⊎ (q.stop ≡ true))
      ⊎ (wait_for_accounts q ≡ none) × (has_accounts q ≡ false) × (q.stop ≡ false)
unfolding wait_for_accounts has_accounts
wait_for_accounts_cases q = ground arith

stop-step : (w : World) (c : Call) → w.queue.stop ≡ true → (step w c).queue.stop ≡ true
unfolding step get_accounts replace_accounts push_accounts update_min_height stop_queue
stop-step w (replace users) h = h
stop-step w (push users) h = h
stop-step w (progress height) h = h
stop-step w stop h = refl
stop-step w fetch h = h

stop-run_from :
    (w : World) (cs : List Call)
    → w.queue.stop ≡ true
    → wait_for_accounts (run w cs).queue ≡ some (get_accounts (run w cs).queue)
unfolding run wait_for_accounts
stop-run_from w [] h = ground arith
stop-run_from w (c ∷ cs) h = stop-run_from (step w c) cs (stop-step w c h)

-- After a call of `stop` no call waits, whatever the threads do then.
pub stop-run :
    (w : World) (cs : List Call)
    → wait_for_accounts (run (step w stop) cs).queue
      ≡ some (get_accounts (run (step w stop) cs).queue)
unfolding step stop_queue
stop-run w cs = stop-run_from (step w stop) cs refl
