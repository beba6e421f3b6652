-- ===== src/Execution/Entry/Fill.antt =====
-- internal/execution/order.go: the wait for an order's fill, as polls at the ticks of a ticker.
pub mod Ending
pub mod Quiet
use binance_oi_square_trader.Prelude.{
  ℕ, zero, suc, ◌+◌, ◌*◌, ◌/◌, ◌≤◌, String, ◌≡◌, Bool, true, false, not, ◌&&◌, Option, none, some,
  List, [], ◌∷◌, str_eq, Duration, second, Effect, ltb, if◌then◌else◌,
}
use binance_oi_square_trader.Decimal.{Decimal}
use binance_oi_square_trader.Binance.Orders.{OrderResult}
use binance_oi_square_trader.Execution.Entry.{PositionRisk, EntryWorld, Executor, ask}

-- `polling` is a wait that has used up its polls and has not ended.
pub data Fill (D : Type 0) : Type 0 where
  filled : OrderResult D → Fill D
  unfilled polling : Fill D

abbrev pub fill_timeout : Duration
fill_timeout = 10 * second

abbrev pub half_second : Duration
half_second = second / 2

-- polls that are enough for the timeout
abbrev pub fill_polls : ℕ
fill_polls = 21

module _ {D : Type 0} ⦃d : Decimal D⦄ where
  unfoldable pub is_filled : OrderResult D → Bool
  is_filled o = str_eq o.status "FILLED"

  unfoldable pub is_priced : OrderResult D → Bool
  unfolding is_filled
  is_priced o = is_filled o && not (d.is_zero o.avg_price)

  -- what a poll ends the wait with
  unfoldable pub settles : Option (OrderResult D) → Option (OrderResult D)
  unfolding is_priced
  settles none = none
  settles (some r) = if is_priced r then some r else none

  -- lastFilled
  remember : Option (OrderResult D) → Option (OrderResult D) → Option (OrderResult D)
  remember last none = last
  remember last (some r) = if is_filled r then some r else last

  is_entered : String → PositionRisk D → Bool
  is_entered symbol p =
      str_eq p.symbol symbol && not (d.is_zero p.entry_price) && not (d.is_zero p.position_amt)

  unfoldable pub position_entry_price : String → List (PositionRisk D) → Option D
  unfolding is_entered
  position_entry_price symbol [] = none
  position_entry_price symbol (p ∷ ps) =
      if is_entered symbol p then some p.entry_price else position_entry_price symbol ps

  module _ (world : EntryWorld D) where
    price_of : String → Option (List (PositionRisk D)) → Option D
    price_of symbol none = none
    price_of symbol (some ps) = position_entry_price symbol ps

    unfoldable pub position_entry_price_fallback : String → Effect (Executor D) (Option D)
    unfolding price_of
    position_entry_price_fallback symbol =
        ask (λ n. price_of symbol (world.get_position_risk n symbol))

    -- past the deadline
    unfoldable pub at_deadline : String → Option (OrderResult D) → Effect (Executor D) (Fill D)
    at_deadline symbol none x = (unfilled, x)
    at_deadline symbol (some last) x =
        let (price, x1) = position_entry_price_fallback symbol x in
        elim price [ none ↦ (unfilled, x1) | some p ↦ (filled (record last { avg_price = p }), x1) ]

    module _ (symbol : String) (order started : ℕ) where
      -- The first argument bounds the polls, the second is the number of the tick.
      unfoldable pub poll : ℕ → ℕ → Option (OrderResult D) → Effect (Executor D) (Fill D)
      unfolding remember settles
      poll zero k last x = (polling, x)
      poll (suc fuel) k last x =
          if world.context_done started k
          then (unfilled, x)
          else if ltb (world.now started + fill_timeout) (world.tick started k)
          then at_deadline symbol last x
          else (let (answer, x1) = ask (λ n. world.get_order n symbol order) x in
              elim (settles answer) [
                | some r ↦ (filled r, x1)
                | none ↦ poll fuel (k + 1) (remember last answer) x1
              ])

    unfoldable pub wait_fill : String → OrderResult D → Effect (Executor D) (Fill D)
    wait_fill symbol initial x =
        if is_priced initial
        then (filled initial, x)
        else poll symbol initial.order_id x.session.clock fill_polls 1 none x

    -- what time.NewTicker documents: its k-th tick comes no earlier than k periods after the start
    abbrev pub Ticks : Type 0
    Ticks = (n k : ℕ) → world.now n + k * half_second ≤ world.tick n k
