-- ===== src/Statistics.antt =====
-- Statistics of closed trades (journal/trade_stats_service.py). An amount of money is a whole
-- number of smallest units, and an average a sum over a count.
mod Tests
pub mod Balance
use oanda_v.Prelude.{
  ℕ, nat_key, ◌==◌, String, Bool, true, false, ◌&&◌, Option, none, some, List, [], ◌∷◌, map, filter,
  length, leb, ltb, if◌then◌else◌,
}
use oanda_v.Prelude.Sorting.{sort_by}
use oanda_v.Prelude.Int.{ℤ, pos, negsuc, ◌+ℤ◌, ◌-ℤ◌, ltb_ℤ, abs}
use oanda_v.CandlePolicy.{Time}
use oanda_v.Contracts.Trade.{TradeRecord}
use oanda_v.Alerts.Fields.{allows_text}
use oanda_v.Journal.{Trades, list_closed_trades, closed_or_start}

abbrev pub is_in_window : Time → Time → Option Time → Bool
is_in_window start_utc end_utc none = false
is_in_window start_utc end_utc (some t) = leb start_utc t && ltb t end_utc

unfoldable pub closed_trades_for_window : Time → Time → Option String → Trades → List TradeRecord
closed_trades_for_window start_utc end_utc instrument trades = sort_by closed_or_start (
    filter
      (λ (t : TradeRecord).
        is_in_window start_utc end_utc t.closed_at && allows_text instrument t.instrument)
      (list_closed_trades trades))

abbrev pub net_pnl : TradeRecord → ℤ
net_pnl t = elim t.account_pnl [ none ↦ pos 0 | some n ↦ n ]

unfoldable pub sum : List ℤ → ℤ
sum [] = pos 0
sum (x ∷ xs) = x +ℤ sum xs

-- What the loop of `_max_drawdown` keeps.
pub record Drawdown : Type 0 where
  pub cumulative : ℤ
  pub peak : ℤ
  pub max_drawdown : ℤ

abbrev pub larger : ℤ → ℤ → ℤ
larger a b = if ltb_ℤ a b then b else a

-- One round of the loop, by the net profit of the trade.
unfoldable pub draw : ℤ → Drawdown → Drawdown
draw net d =
    let cumulative = d.cumulative +ℤ net in
    let peak = larger d.peak cumulative in
    record {
      cumulative = cumulative;
      peak = peak;
      max_drawdown = larger d.max_drawdown (peak -ℤ cumulative);
    }

unfoldable pub draw_all : List ℤ → Drawdown → Drawdown
draw_all [] d = d
draw_all (net ∷ nets) d = draw_all nets (draw net d)

unfoldable pub max_drawdown : List TradeRecord → Option ℤ
max_drawdown [] = none
max_drawdown (t ∷ trades) =
    some
      (draw_all (map net_pnl (t ∷ trades))
        (record { cumulative = pos 0; peak = pos 0; max_drawdown = pos 0 })).max_drawdown

unfoldable pub extreme : (ℤ → ℤ → Bool) → List ℤ → Option ℤ
extreme better [] = none
extreme better (x ∷ xs) = elim (extreme better xs) [
  | none ↦ some x
  | some y ↦ some (if better y x then y else x)
]

-- The part of `TradeStatsSummary` that comes from the net profits of the trades.
pub record TradeStatsSummary : Type 0 where
  pub trade_count : ℕ
  pub win_count : ℕ
  pub loss_count : ℕ
  pub breakeven_count : ℕ
  pub win_rate : Option (ℕ × ℕ)
  pub profit_factor : Option (ℤ × ℕ)
  pub expectancy : Option (ℤ × ℕ)
  pub average_win : Option (ℤ × ℕ)
  pub average_loss : Option (ℤ × ℕ)
  pub largest_win : Option ℤ
  pub largest_loss : Option ℤ
  pub max_drawdown : Option ℤ

abbrev pub is_win : ℤ → Bool
is_win n = ltb_ℤ (pos 0) n

abbrev pub is_loss : ℤ → Bool
is_loss n = ltb_ℤ n (pos 0)

abbrev pub is_breakeven : ℤ → Bool
is_breakeven (pos n) = n == 0
is_breakeven (negsuc _) = false

unfoldable pub average : List ℤ → Option (ℤ × ℕ)
average [] = none
average (x ∷ xs) = some (sum (x ∷ xs), length (x ∷ xs))

unfoldable pub ratio : List ℤ → List ℤ → Option (ℤ × ℕ)
ratio wins [] = none
ratio wins (x ∷ losses) = some (sum wins, abs (sum (x ∷ losses)))

unfoldable pub rate : ℕ → List TradeRecord → Option (ℕ × ℕ)
rate wins [] = none
rate wins (t ∷ trades) = some (wins, length (t ∷ trades))

unfoldable pub build_summary : List TradeRecord → TradeStatsSummary
build_summary trades =
    let net_values = map net_pnl trades in
    let wins = filter is_win net_values in
    let losses = filter is_loss net_values in
    record {
      trade_count = length trades;
      win_count = length wins;
      loss_count = length losses;
      breakeven_count = length (filter is_breakeven net_values);
      win_rate = rate (length wins) trades;
      profit_factor = ratio wins losses;
      expectancy = average net_values;
      average_win = average wins;
      average_loss = average losses;
      largest_win = extreme (λ a b. ltb_ℤ b a) wins;
      largest_loss = extreme (λ a b. ltb_ℤ a b) losses;
      max_drawdown = max_drawdown trades;
    }
