-- ===== src/HistoryPages/Tests.antt =====
-- A history of twenty-one opened trades.
use oanda_v.Prelude.{ℕ, zero, suc, ◌≡◌, ◌≤◌, ◌<◌, ◌⊎◌, refl, List, [], ◌∷◌, length, ok, string_key}
use oanda_v.Prelude.Int.{pos}
use oanda_v.History.{TradeHistoryEvent}
use oanda_v.HistoryPages.{
  filter_rows_for_view, TradeHistoryPage, page_of, get_trade_history, page_size, total_pages_of,
}
use oanda_v.HistoryPages.Slices.{rows_of_pages, get_trade_history-pages}

program : Unit {0}
unfolding filter_rows_for_view page_of get_trade_history
program = tt

abbrev opened : TradeHistoryEvent
opened = record {
  event_id = "1:OPEN:7";
  transaction_id = "1";
  event_type = "OPEN";
  account_id = "1";
  instrument = "EUR_USD";
  trade_id = "7";
  units = pos 100;
  abs_units = 100;
  side = "LONG";
  realized_pl = pos 0;
  financing = pos 0;
  commission = pos 0;
  net_realized_pl = pos 0;
}

abbrev copies : ℕ → List TradeHistoryEvent
copies zero = []
copies (suc n) = opened ∷ copies n

-- The last page has one row, and stands for every page after it.
last_page :
    get_trade_history (copies 21) "opened" 5
    ≡ ok (record { rows = opened ∷ []; page = 2; total_rows = 21; total_pages = 2 })
unfolding program
last_page = refl

get_trade_history-pages_example :
    ((page : ℕ)
      → (p : TradeHistoryPage) × (get_trade_history (copies 21) "opened" page ≡ ok p)
        × (p ≡ page_of page (copies 21))
        × (1 ≤ p.page)
        × (p.page ≤ p.total_pages)
        × ((p.page ≡ page) ⊎ (page < 1) ⊎ (p.total_pages < page))
        × (length p.rows ≤ page_size))
    × (rows_of_pages (total_pages_of (length (copies 21))) (copies 21) ≡ copies 21)
get_trade_history-pages_example =
    get_trade_history-pages (copies 21) (copies 21) "opened" (unfold filter_rows_for_view in refl)
