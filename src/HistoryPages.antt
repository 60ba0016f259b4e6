-- ===== src/HistoryPages.antt =====
-- The pages of the trade history (`get_trade_history`, journal/trade_history_service.py). The
-- rows are those of the period, newest first; a view is a text after `strip` and `lower`.
mod Tests
pub mod Slices
use oanda_v.Prelude.{
  ℕ, ◌+◌, ◌-◌, ◌*◌, ◌/◌, String, Bool, true, false, List, filter, length, take, drop, nat_key,
  string_key, ◌==◌, leb, if◌then◌else◌, Result, ok, raise, Error,
}
use oanda_v.Prelude.Results.{◌>>=◌}
use oanda_v.History.{TradeHistoryEvent, is_close}

-- `TRADE_HISTORY_PAGE_SIZE`
abbrev pub page_size : ℕ
page_size = 20

-- `_filter_rows_for_view`
unfoldable pub filter_rows_for_view :
    List TradeHistoryEvent → String → Result (List TradeHistoryEvent)
filter_rows_for_view rows view =
    if view == "all"
    then ok rows
    else if view == "opened"
    then ok (filter (λ (r : TradeHistoryEvent). r.event_type == "OPEN") rows)
    else if view == "closed"
    then ok (filter (λ (r : TradeHistoryEvent). is_close r.event_type) rows)
    else raise Error.value_error

-- The part of `TradeHistoryPage` that depends on the page.
pub record TradeHistoryPage : Type 0 where
  pub rows : List TradeHistoryEvent
  pub page : ℕ
  pub total_rows : ℕ
  pub total_pages : ℕ

abbrev pub at_least : ℕ → ℕ → ℕ
at_least a b = if leb a b then b else a

abbrev pub at_most : ℕ → ℕ → ℕ
at_most a b = if leb b a then b else a

-- `max(1, ceil(total_rows / page_size))`
abbrev pub total_pages_of : ℕ → ℕ
total_pages_of total_rows = at_least 1 ((total_rows + (page_size - 1)) / page_size)

-- `min(max(page, 1), total_pages)`
abbrev pub resolve_page : ℕ → ℕ → ℕ
resolve_page page total_pages = at_most total_pages (at_least 1 page)

-- `rows[start_index:end_index]`
abbrev pub slice : ℕ → List TradeHistoryEvent → List TradeHistoryEvent
slice resolved_page rows = take page_size (drop ((resolved_page - 1) * page_size) rows)

unfoldable pub page_of : ℕ → List TradeHistoryEvent → TradeHistoryPage
page_of page rows =
    let total_pages = total_pages_of (length rows) in
    let resolved_page = resolve_page page total_pages in
    record {
      rows = slice resolved_page rows;
      page = resolved_page;
      total_rows = length rows;
      total_pages = total_pages;
    }

unfoldable pub get_trade_history : List TradeHistoryEvent → String → ℕ → Result TradeHistoryPage
get_trade_history rows view page =
    filter_rows_for_view rows view >>= λ filtered. ok (page_of page filtered)
