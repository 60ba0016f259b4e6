-- ===== src/Poller/Reconciles.antt =====
-- What a poll promises (background/poller_task.py).
use oanda_v.Prelude.{String, ◌&&◌, Option, List, string_key, if◌then◌else◌, is_empty, All}
use oanda_v.Prelude.Dict.{lookup}
use oanda_v.CandlePolicy.{Time}
use oanda_v.Contracts.Trade.{TradeRecord}
use oanda_v.Journal.{Trades}
use oanda_v.Poller.{OpenTrade, TradeDetail, Poller, Services, current_of, existing_of}
use oanda_v.Poller.Steps.{Tracks}
use oanda_v.Poller.Closes.{SettledOrTracked}

-- The currency that a poll writes.
abbrev pub poll_currency : Services → List OpenTrade → String → Trades → String
poll_currency s current safe_currency trades =
    if is_empty (current_of current) && is_empty (existing_of trades)
    then s.default_currency
    else safe_currency

-- The journal follows the broker: each of the broker's trades is open, with what its payload says where
-- it is new, and each other trade that was open before is closed by its detail, or, where there is no
-- detail, still the same.
abbrev pub Reconciled :
    Services
    → String
    → Time
    → List OpenTrade
    → (String → Option TradeDetail)
    → Trades
    → Trades
    → Type 0
Reconciled s currency now current trade_detail trades changed =
    All (λ x. Tracks s now (lookup x.0 (existing_of trades)) x (lookup x.0 changed))
      (current_of current)
    × All
        (λ (x : String × TradeRecord).
          SettledOrTracked s currency now (lookup x.0 (current_of current)) x.0 x.1
            (trade_detail x.0) (lookup x.0 changed))
        (existing_of trades)
