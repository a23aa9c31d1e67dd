-- ===== src/Rest/AddressInfo.antt =====
-- `get_address_info` of src/rest_server.cpp, with `find_metadata` of src/rpc/light_wallet.cpp: the totals of an account, from the
-- outputs and the spends that the database yields, in its order. `Rules` has Monero's constants and the comparison of an
-- unlock time with the clock. What is thrown for a spend of an unknown output is an `Error`.
use monero_lws.Base.{
  ℕ, ◌+◌, ◌-◌, ◌%◌, ◌^◌, Bool, true, Option, none, some, List, [], ◌∷◌, ◌++◌, ltb, if◌then◌else◌,
  lower_bound, insert_at_bound,
}
use monero_lws.Base.Results.{Result, ok, err, ◌>>=◌}
use monero_lws.Db.Data.{OutputId, Output, Spend, SpendMeta, output_id_eq, output_id_less}

pub data Error : Type 0 where
  no_receive : Error

pub record Rules : Type 0 where
  pub max_block_number : ℕ
  pub locked_delta_blocks : ℕ
  pub spendable_age : ℕ
  pub locked_until : ℕ → Bool

-- `is_locked`, on 64 bits.
unfoldable pub is_locked : Rules → ℕ → ℕ → ℕ → Bool
is_locked r unlock_time last tx_height =
    if ltb r.max_block_number unlock_time
    then r.locked_until unlock_time
    else (if ltb ((last + (2 ^ 64 - 1) + r.locked_delta_blocks) % 2 ^ 64) unlock_time
        then true
        else ltb last ((tx_height + r.spendable_age) % 2 ^ 64))

abbrev pub before : OutputId → SpendMeta → Bool
before id meta = output_id_less meta.id id

-- `metas.empty() || metas.back().id < id`
abbrev pub is_last : OutputId → List SpendMeta → Bool
is_last id [] = true
is_last id (m ∷ []) = before id m
is_last id (m ∷ n ∷ metas) = is_last id (n ∷ metas)

-- `find_metadata`, the part of the sequence from the place that is found.
abbrev pub find_metadata : List SpendMeta → OutputId → List SpendMeta
find_metadata metas id = lower_bound (before id) metas

unfoldable pub add_meta : SpendMeta → List SpendMeta → List SpendMeta
add_meta meta metas =
    if is_last meta.id metas
    then metas ++ meta ∷ []
    else insert_at_bound (before meta.id) meta metas

-- The fields of the response that are computed here.
pub record Info : Type 0 where
  pub total_received : ℕ
  pub locked_funds : ℕ
  pub total_sent : ℕ
  pub spent_outputs : List (SpendMeta × Spend)

-- The loop over the outputs.
unfoldable pub add_outputs : Rules → ℕ → List Output → List SpendMeta → Info → List SpendMeta × Info
add_outputs r last [] metas info = (metas, info)
add_outputs r last (o ∷ outputs) metas info =
    add_outputs r last outputs (add_meta o.spend_meta metas) (record info {
      total_received = (info.total_received + o.spend_meta.amount) % 2 ^ 64;
      locked_funds =
          if is_locked r o.unlock_time last o.link.height
          then (info.locked_funds + o.spend_meta.amount) % 2 ^ 64
          else info.locked_funds;
    })

-- The test of what `find_metadata` found.
abbrev pub receive_of : OutputId → List SpendMeta → Option SpendMeta
receive_of id [] = none
receive_of id (m ∷ metas) = if output_id_eq m.id id then some m else none

abbrev pub add_spend : Spend → Info → Option SpendMeta → Result Error Info
add_spend s info none = err no_receive
add_spend s info (some meta) = ok (record info {
  spent_outputs = info.spent_outputs ++ (meta, s) ∷ [];
  total_sent = (info.total_sent + meta.amount) % 2 ^ 64;
})

-- The loop over the spends.
unfoldable pub add_spends : List SpendMeta → List Spend → Info → Result Error Info
add_spends metas [] info = ok info
add_spends metas (s ∷ spends) info =
    add_spend s info (receive_of s.source (find_metadata metas s.source))
    >>= add_spends metas spends

abbrev pub no_info : Info
no_info = record { total_received = 0; locked_funds = 0; total_sent = 0; spent_outputs = [] }

unfoldable pub get_address_info : Rules → ℕ → List Output → List Spend → Result Error Info
get_address_info r last outputs spends =
    let received = add_outputs r last outputs [] no_info in add_spends received.0 spends received.1
