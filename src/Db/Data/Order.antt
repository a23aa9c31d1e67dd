-- ===== src/Db/Data/Order.antt =====
-- The comparisons of data.h are strict total orders, and `<=` and `==` agree with `<`.
use monero_lws.Base.{◌≡◌, ◌||◌, not, arith, IsOrder}
use monero_lws.Db.Data.{
  OutputId, TransactionLink, output_id_eq, output_id_less, output_id_le, address_index_less,
  link_eq, link_less, link_le,
}

-- The order of `output_id` is a strict total order.
pub output_id_less-IsOrder : IsOrder output_id_less
output_id_less-IsOrder = record {
  asym = λ a b h. ground arith;
  trans = λ a b c h k. ground arith;
  total = λ a b h k. ground arith;
}

pub address_index_less-IsOrder : IsOrder address_index_less
address_index_less-IsOrder = record {
  asym = λ a b h. ground arith;
  trans = λ a b c h k. ground arith;
  total = λ a b h k. ground arith;
}

pub link_less-IsOrder : IsOrder link_less
link_less-IsOrder = record {
  asym = λ a b h. ground arith;
  trans = λ a b c h k. ground arith;
  total = λ a b h k. ground arith;
}

-- `<=` on `output_id` is the negation of `<` the other way round, and `<` or `==`.
pub output_id_le_iff :
    (a b : OutputId)
    → (output_id_le a b ≡ not (output_id_less b a))
      × (output_id_le a b ≡ (output_id_less a b || output_id_eq a b))
output_id_le_iff a b = ground arith

pub link_le_iff :
    (a b : TransactionLink)
    → (link_le a b ≡ not (link_less b a)) × (link_le a b ≡ (link_less a b || link_eq a b))
link_le_iff a b = ground arith
