-- ===== src/Indexer/OrderUpdate/Laws.antt =====
-- What the order_updates rows say (deepbookv3/crates/indexer/src/handlers/order_update_handler.rs).
use mathlib.Core.List.{append-nil, append_assoc}
use rain_protocol.Prelude.{
  ℕ, ◌+◌, ◌<◌, ◌^◌, List, [], ◌∷◌, ◌++◌, Option, none, some, filter_map, ◌≡◌, refl, ◌∙◌, arith,
}
use rain_protocol.Prelude.Int.{pos, ◌+ℤ◌, ◌-ℤ◌}
use rain_protocol.Prelude.Words.{as_i64, as_u64, sub_u64, as_u64-as_i64}
use rain_protocol.Prelude.Result.{Result, ok, err, ◌>>=◌, traverse}
use rain_protocol.Indexer.Sdk.{Sdk}
use rain_protocol.Indexer.Config.{DeepbookEnv, Error}
use rain_protocol.Indexer.Chain.{Event}
use rain_protocol.Indexer.Event.Order.{OrderCanceled}
use rain_protocol.Indexer.Event.OrderInfo.{OrderPlaced, OrderExpired}
use rain_protocol.Indexer.Process.Spec.{enumerate}
use rain_protocol.Schema.Row.Trading.{OrderUpdate}
use rain_protocol.Indexer.OrderUpdate.{
  TransactionMetadata, Decoders, process_order_placed, process_order_canceled,
  process_order_expired, process_event, process_events, push,
}

-- The filled part of an order, as both handlers compute it, is a difference of integers.
as_i64-sub_u64 : (a b : ℕ) → a < 2 ^ 63 → b < 2 ^ 63 → as_i64 (sub_u64 a b) ≡ pos a -ℤ pos b
unfolding as_i64 sub_u64 ◌-ℤ◌
as_i64-sub_u64 a b ha hb = ground arith

-- What is left and what is filled make up the original quantity.
parts_sum : (a b : ℕ) → a < 2 ^ 63 → b < 2 ^ 63 → as_i64 b +ℤ as_i64 (sub_u64 a b) ≡ as_i64 a
unfolding as_i64 sub_u64 ◌+ℤ◌
parts_sum a b ha hb = ground arith

module _ (sdk : Sdk) (meta : TransactionMetadata) (i : ℕ) where
  -- In the row of a canceled order, and in that of an expired one, the remaining and the filled
  -- quantity add up to the original quantity, if both quantities of the event are below 2^63.
  pub quantities_add_up :
      (c : OrderCanceled) (x : OrderExpired)
      → c.original_quantity < 2 ^ 63
      → c.base_asset_quantity_canceled < 2 ^ 63
      → x.original_quantity < 2 ^ 63
      → x.base_asset_quantity_canceled < 2 ^ 63
      → let crow = process_order_canceled sdk c meta i in
        let xrow = process_order_expired sdk x meta i in
        (crow.quantity +ℤ crow.filled_quantity ≡ crow.original_quantity)
        × (xrow.quantity +ℤ xrow.filled_quantity ≡ xrow.original_quantity)
  unfolding process_order_canceled process_order_expired
  quantities_add_up c x h₁ h₂ h₃ h₄ = (parts_sum _ _ h₁ h₂, parts_sum _ _ h₃ h₄)

  -- The client order id, the price, the placed quantity and the timestamp of a placed order, as `u64`,
  -- can be read back from its row, also where the cast to `i64` made them negative: the placed quantity
  -- both from the original and from the remaining quantity.
  pub placed_round_trip :
      (e : OrderPlaced)
      → e.client_order_id < 2 ^ 64
      → e.price < 2 ^ 64
      → e.placed_quantity < 2 ^ 64
      → e.timestamp < 2 ^ 64
      → let row = process_order_placed sdk e meta i in
        (as_u64 row.client_order_id ≡ e.client_order_id)
        × (as_u64 row.price ≡ e.price)
        × (as_u64 row.original_quantity ≡ e.placed_quantity)
        × (as_u64 row.quantity ≡ e.placed_quantity)
        × (as_u64 row.onchain_timestamp ≡ e.timestamp)
  unfolding process_order_placed
  placed_round_trip e h₁ h₂ h₃ h₄ = (
    as_u64-as_i64 _ h₁,
    as_u64-as_i64 _ h₂,
    as_u64-as_i64 _ h₃,
    as_u64-as_i64 _ h₃,
    as_u64-as_i64 _ h₄,
  )

module _ (sdk : Sdk) (dec : Decoders) (env : DeepbookEnv) (meta : TransactionMetadata) where
  abbrev pub step : ℕ × Event → Result (Option OrderUpdate) Error
  step (i, ev) = process_event sdk dec env meta i ev

  abbrev pub keep_some : List (Option OrderUpdate) → List OrderUpdate
  keep_some = filter_map (λ (row : Option OrderUpdate). row)

  abbrev pub onto :
      List OrderUpdate → Result (List (Option OrderUpdate)) Error → Result (List OrderUpdate) Error
  onto results m = do rows ← m; ok (results ++ keep_some rows)

  onto-push :
      (results : List OrderUpdate) (row : Option OrderUpdate)
      (m : Result (List (Option OrderUpdate)) Error)
      → onto (push sdk dec env results row) m ≡ onto results (do rows ← m; ok (row ∷ rows))
  onto-push results none (ok rows) = refl
  onto-push results (some row) (ok rows) = rw append_assoc
  onto-push results row (err e) = refl

  events-onto :
      (r : Result (Option OrderUpdate) Error) (results : List OrderUpdate)
      (m : Result (List (Option OrderUpdate)) Error)
      (k : List OrderUpdate → Result (List OrderUpdate) Error)
      → ((rows : List OrderUpdate) → k rows ≡ onto rows m)
      → (do row ← r; k (push sdk dec env results row))
        ≡ onto results (do row ← r; rows ← m; ok (row ∷ rows))
  events-onto (ok row) results m k adds = adds _ ∙ onto-push results row m
  events-onto (err e) results m k adds = refl

  pub process_events-onto :
      (i : ℕ) (events : List Event) (results : List OrderUpdate)
      → process_events sdk dec env meta i events results
        ≡ onto results (traverse step (enumerate i events))
  unfolding process_events traverse
  process_events-onto i [] results = rw append-nil
  process_events-onto i (ev ∷ rest) results =
      events-onto (step (i, ev)) results (traverse step (enumerate (i + 1) rest)) _
        (process_events-onto (i + 1) rest)
