-- ===== src/Scanner/Queue/Tests.antt =====
-- A queue of two accounts, and the theorems at it.
use monero_lws.Base.{ℕ, ◌≡◌, ◌<◌, refl, ◌⊎◌, true, false, none, some, List, [], ◌∷◌, arith}
use monero_lws.Db.Account.{Account}
use monero_lws.Scanner.Queue
use monero_lws.Scanner.Queue.{
  Queue, init, push_accounts, replace_accounts, wait_for_accounts, get_accounts, has_accounts,
  update_min_height,
}
use monero_lws.Scanner.Queue.Delivery.{
  Call, World, replace, push, stop, fetch, step, run, assigned, all_asked, assigned-run,
  wait_for_accounts_cases, stop-run,
}
use monero_lws.Scanner.Queue.Height.{push_accounts_forgets}

abbrev at_height : ℕ → Account
at_height h = record {
  immutable = none;
  spendable = [];
  pubs = [];
  spends = [];
  outputs = [];
  height = h;
}

abbrev idle : World
idle = record { queue = init; working = [] }

abbrev calls : List Call
calls =
    push (at_height 7 ∷ [])
    ∷ fetch
    ∷ replace (at_height 5 ∷ [])
    ∷ push (at_height 9 ∷ [])
    ∷ fetch
    ∷ []

-- The replacement drops the account that was fetched before.
run_working : (run idle calls).working ≡ at_height 5 ∷ at_height 9 ∷ []
unfolding run step push_accounts replace_accounts get_accounts init
run_working = refl

assigned-run_example : assigned (run idle calls) ≡ all_asked (assigned idle) calls
assigned-run_example = assigned-run idle calls

wait_for_accounts_cases_example :
    (wait_for_accounts init ≡ some (get_accounts init))
      × ((has_accounts init ≡ true) ⊎ (init.stop ≡ true))
    ⊎ (wait_for_accounts init ≡ none) × (has_accounts init ≡ false) × (init.stop ≡ false)
wait_for_accounts_cases_example = wait_for_accounts_cases init

stop-run_example :
    wait_for_accounts (run (step idle stop) calls).queue
    ≡ some (get_accounts (run (step idle stop) calls).queue)
stop-run_example = stop-run idle calls

abbrev high_queue : Queue
high_queue = replace_accounts init (at_height 6 ∷ at_height 5 ∷ [])

high_height : high_queue.current_min_height ≡ 5
unfolding replace_accounts Queue.min_element
high_height = refl

push_accounts_forgets_example :
    0
    < (push_accounts
        (replace_accounts init (at_height 0 ∷ []))
        (at_height 8 ∷ [])).current_min_height
push_accounts_forgets_example =
    push_accounts_forgets init (at_height 0) (at_height 8) [] refl (omega arith) tt
