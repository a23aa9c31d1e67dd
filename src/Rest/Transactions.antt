-- ===== src/Rest/Transactions.antt =====
-- `merge_into_txes` of src/rpc/light_wallet.cpp without the transactions of the pool: the outputs and the spends of an
-- account, both in the order of their links, as one sequence of transactions.
pub mod Content
pub mod Grouped
pub mod Steps
pub mod Success
mod Tests
use monero_lws.Base.{
  ℕ, ◌+◌, ◌%◌, ◌^◌, Bool, true, false, not, ◌&&◌, ◌==◌, Option, none, some, List, [], ◌∷◌, ◌++◌,
  if◌then◌else◌,
}
use monero_lws.Base.Results.{Result, ok, err, ◌>>=◌}
use monero_lws.Db.Data.{OutputId, Output, Spend, SpendMeta, TransactionLink, link_le}
use monero_lws.Rest.AddressInfo.{find_metadata, add_meta, receive_of}

-- `LWS_VERIFY`
pub data Error : Type 0 where
  not_verified : Error

-- `get_transaction`
pub record Transaction : Type 0 where
  pub info : Output
  pub receives : List Output
  pub spends : List (SpendMeta × Spend)
  pub spent : ℕ

-- The state of the loop. The newest transaction, `out.back()`, comes first.
pub record Merge : Type 0 where
  pub out : List Transaction
  pub metas : List SpendMeta
  pub total : ℕ

abbrev pub no_link : TransactionLink
no_link = record { height = 0; tx_hash = 0 }

abbrev pub no_meta : SpendMeta
no_meta = record {
  id = record { high = 0; low = 0 };
  amount = 0;
  mixin_count = 0;
  index = 0;
  tx_public = 0;
}

abbrev pub no_output : Output
no_output = record {
  link = no_link;
  spend_meta = no_meta;
  timestamp = 0;
  unlock_time = 0;
  tx_prefix_hash = 0;
  public_key = 0;
  ringct_mask = 0;
  extra = 0;
  payment_id = 0;
  fee = 0;
  recipient = record { maj_i = 0; min_i = 0 };
}

-- The last transaction is not behind a link.
abbrev pub is_reached : List Transaction → TransactionLink → Bool
is_reached [] next = true
is_reached (t ∷ out) next = link_le t.info.link next

abbrev pub transaction_of_output : Output → Transaction
transaction_of_output o = record { info = o; receives = []; spends = []; spent = 0 }

abbrev pub add_amount : ℕ → Transaction → Transaction
add_amount amount t = record t {
  info = record t.info {
    spend_meta = record t.info.spend_meta { amount = (t.info.spend_meta.amount + amount) % 2 ^ 64 };
  };
}

abbrev pub transaction_of_spend : SpendMeta → Spend → Transaction
transaction_of_spend meta s = record {
  info = record no_output {
    link = s.link;
    spend_meta = record no_meta { mixin_count = s.mixin_count };
    timestamp = s.timestamp;
    unlock_time = s.unlock_time;
  };
  receives = [];
  spends = (meta, s) ∷ [];
  spent = 0;
}

-- `out.back().spends.push_back(...)`
abbrev pub place_spend : SpendMeta → Spend → List Transaction → List Transaction
place_spend meta s [] = transaction_of_spend meta s ∷ []
place_spend meta s (t ∷ out) =
    if t.info.link.tx_hash == s.link.tx_hash
    then record t { spends = t.spends ++ (meta, s) ∷ [] } ∷ out
    else transaction_of_spend meta s ∷ t ∷ out

-- `out.back().spent += meta->amount`
abbrev pub add_spent : ℕ → List Transaction → List Transaction
add_spent amount [] = []
add_spent amount (t ∷ out) = record t { spent = (t.spent + amount) % 2 ^ 64 } ∷ out

module _ (all_outputs skip_spend_meta : Bool) where
  abbrev pub note_receive : Output → Transaction → Transaction
  note_receive o t = if all_outputs then record t { receives = t.receives ++ o ∷ [] } else t

  abbrev pub place_output : Output → List Transaction → List Transaction
  place_output o [] = note_receive o (transaction_of_output o) ∷ []
  place_output o (t ∷ out) =
      if t.info.link.tx_hash == o.link.tx_hash
      then note_receive o (add_amount o.spend_meta.amount t) ∷ out
      else note_receive o (transaction_of_output o) ∷ t ∷ out

  unfoldable pub add_output : Output → Merge → Merge
  add_output o m = record {
    out = place_output o m.out;
    metas = add_meta o.spend_meta m.metas;
    total = (m.total + o.spend_meta.amount) % 2 ^ 64;
  }

  -- The output that is spent, which is not looked at where it is to be skipped.
  abbrev pub meta_of : Option SpendMeta → Result Error SpendMeta
  meta_of none = if skip_spend_meta then ok no_meta else err not_verified
  meta_of (some meta) = ok (if skip_spend_meta then no_meta else meta)

  abbrev pub put_spend : Spend → Merge → SpendMeta → Merge
  put_spend s m meta = record m {
    out =
        if skip_spend_meta
        then place_spend meta s m.out
        else add_spent meta.amount (place_spend meta s m.out);
  }

  unfoldable pub add_spend : Spend → Merge → Result Error Merge
  add_spend s m = meta_of (receive_of s.source (find_metadata m.metas s.source)) >>= λ meta.
      ok (put_spend s m meta)

  unfoldable pub merge : List Output → List Spend → Merge → Result Error Merge
  merge [] [] m = ok m
  merge (o ∷ outputs) [] m =
      if not (is_reached m.out o.link) then err not_verified else merge outputs [] (add_output o m)
  merge [] (s ∷ spends) m =
      if not (is_reached m.out s.link) then err not_verified else add_spend s m >>= merge [] spends
  merge (o ∷ outputs) (s ∷ spends) m =
      if not (is_reached m.out o.link && is_reached m.out s.link)
      then err not_verified
      else if link_le o.link s.link
      then merge outputs (s ∷ spends) (add_output o m)
      else add_spend s m >>= merge (o ∷ outputs) spends

  abbrev pub nothing : Merge
  nothing = record { out = []; metas = []; total = 0 }

  unfoldable pub merge_into_txes : List Output → List Spend → Result Error Merge
  merge_into_txes outputs spends = merge outputs spends nothing
