-- ===== src/Db/Account/Updates.antt =====
-- What a scanner thread stores in an account between two check-ins, and what the check-ins take out of it.
use mathlib.Core.List.{append-nil, append_assoc}
use monero_lws.Base.{
  In, true, false, inl, inr, ℕ, ◌≡◌, refl, sym, ap, ◌∙◌, ◌≤◌, List, [], ◌∷◌, ◌++◌, arith,
  if◌then◌else◌,
}
use monero_lws.Db.Data.{Output, Spend}
use monero_lws.Db.Account.{Account, Update, updated, add_out, add_spend}
use monero_lws.Db.Account.Spendable.{
  IsOrdered, add_out-IsOrdered, add_out_cases, add_out-In, In-add_out,
}

-- One call on an account.
pub data Call : Type 0 where
  receive : Output → Call
  spend : Spend → Call
  check_in : ℕ → Call

unfoldable pub step : Account → Call → Account
step a (receive out) = (add_out a out).0
step a (spend s) = add_spend a s
step a (check_in height) = (updated a height).0

-- The update that the call hands out.
abbrev pub sent : Account → Call → List Update
sent a (receive out) = []
sent a (spend s) = []
sent a (check_in height) = (updated a height).1 ∷ []

-- The output that the call stores.
abbrev pub accepted : Account → Call → List Output
accepted a (receive out) = if (add_out a out).1 then out ∷ [] else []
accepted a (spend s) = []
accepted a (check_in height) = []

abbrev pub reported : List Update → List Output
reported [] = []
reported (u ∷ us) = u.outputs ++ reported us

unfoldable pub run : Account → List Call → Account
run a [] = a
run a (c ∷ cs) = run (step a c) cs

unfoldable pub all_sent : Account → List Call → List Update
all_sent a [] = []
all_sent a (c ∷ cs) = sent a c ++ all_sent (step a c) cs

unfoldable pub all_accepted : Account → List Call → List Output
all_accepted a [] = []
all_accepted a (c ∷ cs) = accepted a c ++ all_accepted (step a c) cs

-- Every call keeps the vectors sorted.
pub step-IsOrdered : (a : Account) (c : Call) → IsOrdered a → IsOrdered (step a c)
unfolding step add_spend updated
step-IsOrdered a (receive out) o = add_out-IsOrdered a out o
step-IsOrdered a (spend s) o = record { spendable = o.spendable; pubs = o.pubs }
step-IsOrdered a (check_in height) o = record { spendable = o.spendable; pubs = o.pubs }

-- Over any sequence of calls the vectors of a sorted account stay sorted.
pub run-IsOrdered : (a : Account) (cs : List Call) → IsOrdered a → IsOrdered (run a cs)
unfolding run
run-IsOrdered a [] o = o
run-IsOrdered a (c ∷ cs) o = run-IsOrdered (step a c) cs (step-IsOrdered a c o)

step-In : (key : ℕ) (a : Account) (c : Call) → IsOrdered a → In key a.pubs → In key (step a c).pubs
unfolding step add_spend updated
step-In key a (receive out) o known = In-add_out key a out o known
step-In key a (spend s) o known = known
step-In key a (check_in height) o known = known

run-In :
    (key : ℕ) (a : Account) (cs : List Call) → IsOrdered a → In key a.pubs → In key (run a cs).pubs
unfolding run
run-In key a [] o known = known
run-In key a (c ∷ cs) o known =
    run-In key (step a c) cs (step-IsOrdered a c o) (step-In key a c o known)

-- The guard against a key that is paid twice: once a sorted account has stored an output, and after any further
-- calls of `add_out`, `add_spend` and `updated`, an output with the same key is refused and changes nothing, whatever
-- else it says.
pub add_out_twice :
    (a : Account) (out again : Output) (cs : List Call)
    → IsOrdered a
    → (add_out a out).1 ≡ true
    → again.public_key ≡ out.public_key
    → add_out (run (add_out a out).0 cs) again ≡ (run (add_out a out).0 cs, false)
add_out_twice a out again cs o stored same =
    elim (add_out_cases (run (add_out a out).0 cs) again later) [
      | inl (m, e) ↦ e
      | inr (fresh, e) ↦ absurd (fresh (rw same known))
    ]
  where
    kept : IsOrdered (add_out a out).0
    kept = add_out-IsOrdered a out o

    later : IsOrdered (run (add_out a out).0 cs)
    later = run-IsOrdered (add_out a out).0 cs kept

    known : In out.public_key (run (add_out a out).0 cs).pubs
    known = run-In out.public_key (add_out a out).0 cs kept (add_out-In a out o stored)

-- One call: what was sent and what is left is what was there and what was stored, in that order.
step-reported :
    (a : Account) (c : Call) → reported (sent a c) ++ (step a c).outputs ≡ a.outputs ++ accepted a c
unfolding step add_out add_spend updated
step-reported a (receive out) = ground (arith, append-nil a.outputs)
step-reported a (spend s) = sym (append-nil a.outputs)
step-reported a (check_in height) = append-nil (a.outputs ++ [])

reported-append : (us vs : List Update) → reported (us ++ vs) ≡ reported us ++ reported vs
reported-append [] vs = refl
reported-append (u ∷ us) vs =
    ap (◌++◌ u.outputs) (reported-append us vs)
    ∙ sym (append_assoc u.outputs (reported us) (reported vs))

-- No output that an account accepts is lost or sent twice: over any sequence of calls the updates that were handed
-- out, followed by what the account still holds, are the outputs that it held at first followed by those that it
-- accepted, in order.
pub run-reported :
    (a : Account) (cs : List Call)
    → reported (all_sent a cs) ++ (run a cs).outputs ≡ a.outputs ++ all_accepted a cs
unfolding run all_sent all_accepted
run-reported a [] = sym (append-nil a.outputs)
run-reported a (c ∷ cs) = rw (reported-append (sent a c) (all_sent (step a c) cs)) (
    append_assoc (reported (sent a c)) (reported (all_sent (step a c) cs))
      (run (step a c) cs).outputs
    ∙ ap (◌++◌ (reported (sent a c))) (run-reported (step a c) cs)
    ∙ sym (append_assoc (reported (sent a c)) (step a c).outputs (all_accepted (step a c) cs))
    ∙ ap (λ xs. xs ++ all_accepted (step a c) cs) (step-reported a c)
    ∙ append_assoc a.outputs (accepted a c) (all_accepted (step a c) cs))

step-height : (a : Account) (c : Call) → a.height ≤ (step a c).height
unfolding step add_out add_spend updated
step-height a (receive out) = ground arith
step-height a (spend s) = omega arith
step-height a (check_in height) = omega arith

-- The scan height of an account never falls.
pub run-height : (a : Account) (cs : List Call) → a.height ≤ (run a cs).height
unfolding run
run-height a [] = omega arith
run-height a (c ∷ cs) = omega (arith, step-height a c, run-height (step a c) cs)
