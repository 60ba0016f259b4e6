-- ===== src/Contracts/Trade.antt =====
-- `TradeRecord` (core/models.py). A price is a number of the smallest steps in which the broker
-- quotes, an amount of money a number of the smallest units, and pips a move over a pip size.
use Prim.Native.Char.{code}
use Prim.Native.String.{[], ◌∷◌}
use oanda_v.Prelude.{
  ℕ, String, Bool, true, false, ◌&&◌, ◌||◌, not, Option, none, some, nat_key, ◌==◌, leb, ltb,
  if◌then◌else◌, raise_if, ◌≡◌, ◌-◌, arith,
}
use oanda_v.Prelude.Results.{Result, ok, Error, ◌>>◌}
use oanda_v.Prelude.Int.{ℤ, abs}
use oanda_v.CandlePolicy.{Time}

pub data TradeState : Type 0 where
  open_state closed_state : TradeState

-- core/enums.py
pub data CloseReason : Type 0 where
  sl_hit tp_hit mit manual : CloseReason

abbrev pub Price : Type 0
Price = ℕ

pub record TradeRecord : Type 0 where
  pub trade_id : String
  pub instrument : String
  pub units : ℤ
  pub open_price : Price
  pub close_price : Option Price
  pub sl_price : Option Price
  pub tp_price : Option Price
  pub gslo_price : Option Price
  pub state : TradeState
  pub close_reason : Option CloseReason
  pub pips : Option (ℤ × ℕ)
  pub instrument_pnl : Option ℤ
  pub instrument_pnl_currency : Option String
  pub account_pnl : Option ℤ
  pub account_currency : Option String
  pub opened_at : Time
  pub closed_at : Option Time
  pub notes : Option String

-- `str.isspace` of one character.
abbrev pub is_space : ℕ → Bool
is_space c =
    leb 9 c && leb c 13
    || leb 28 c && leb c 32
    || c == 133
    || c == 160
    || c == 5760
    || leb 8192 c && leb c 8202
    || c == 8232
    || c == 8233
    || c == 8239
    || c == 8287
    || c == 12288

-- `not text.strip()`
unfoldable pub is_blank : String → Bool
is_blank [] = true
is_blank (c ∷ text) = is_space (code c) && is_blank text

-- A letter, of ASCII.
abbrev pub is_letter : ℕ → Bool
is_letter c = leb 65 c && leb c 90 || leb 97 c && leb c 122

-- `[A-Z0-9]` after `upper`, for ASCII letters.
abbrev pub is_symbol_character : ℕ → Bool
is_symbol_character c = leb 48 c && leb c 57 || is_letter c

-- Where a text stands in a match of `OANDA_INSTRUMENT_RE` with white space round it.
pub data Part : Type 0 where
  leading base separator quote trailing : Part

-- The part after one more character, if there is a match that goes on.
abbrev pub next_part : Part → ℕ → Option Part
next_part Part.leading c =
    if is_space c then some Part.leading else if is_symbol_character c then some Part.base else none
next_part Part.base c =
    if is_symbol_character c then some Part.base else if c == 95 then some Part.separator else none
next_part Part.separator c = if is_symbol_character c then some Part.quote else none
next_part Part.quote c =
    if is_symbol_character c
    then some Part.quote
    else if is_space c
    then some Part.trailing
    else none
next_part Part.trailing c = if is_space c then some Part.trailing else none

abbrev pub is_last : Part → Bool
is_last Part.quote = true
is_last Part.trailing = true
is_last _ = false

-- Whether `_validate_oanda_instrument_symbol` accepts: `strip`, `upper` and `fullmatch` at once.
unfoldable pub is_symbol_from : Part → String → Bool
is_symbol_from part [] = is_last part
is_symbol_from part (c ∷ text) = elim (next_part part (code c)) [
  | none ↦ false
  | some p ↦ is_symbol_from p text
]

abbrev pub is_symbol : String → Bool
is_symbol text = is_symbol_from Part.leading text

-- `gt=0` of an optional price.
abbrev pub is_bad_price : Option Price → Bool
is_bad_price none = false
is_bad_price (some p) = p == 0

-- Whether `_normalize_currency` accepts: white space round letters, of which `n` are to come. The
-- upper case that it puts them into is left out.
unfoldable pub is_currency_from : ℕ → String → Bool
is_currency_from n [] = n == 0
is_currency_from n (c ∷ text) =
    let skipped = is_currency_from n text in
    let counted = is_currency_from (n - 1) text in
    if is_letter (code c)
    then if n == 0 then false else counted
    else if is_space (code c) && (n == 0 || n == 3)
    then skipped
    else false

abbrev pub is_bad_currency : Option String → Bool
is_bad_currency none = false
is_bad_currency (some text) = not (is_currency_from 3 text)

abbrev pub is_some {ℓ} : {A : Type ℓ} → Option A → Bool
is_some none = false
is_some (some _) = true

abbrev pub close_fields_present : TradeRecord → Bool
close_fields_present t =
    is_some t.close_price
    || is_some t.close_reason
    || is_some t.pips
    || is_some t.instrument_pnl
    || is_some t.instrument_pnl_currency
    || is_some t.account_pnl
    || is_some t.account_currency
    || is_some t.closed_at

abbrev pub close_fields_complete : TradeRecord → Bool
close_fields_complete t =
    is_some t.close_price
    && is_some t.close_reason
    && is_some t.pips
    && is_some t.instrument_pnl
    && is_some t.instrument_pnl_currency
    && is_some t.account_pnl
    && is_some t.account_currency
    && is_some t.closed_at

abbrev pub is_before : Option Time → Time → Bool
is_before none t = false
is_before (some u) t = ltb u t

abbrev pub validate_state : TradeState → TradeRecord → Result (Unit {0})
validate_state TradeState.open_state t = raise_if (close_fields_present t) Error.value_error
validate_state TradeState.closed_state t = do
  raise_if (not (close_fields_complete t)) Error.value_error
  raise_if (is_before t.closed_at t.opened_at) Error.value_error

-- What a trade is checked for from its opening on.
unfoldable pub validate_opening : TradeRecord → Result (Unit {0})
validate_opening t = do
  raise_if (t.open_price == 0) Error.value_error
  raise_if (is_bad_price t.sl_price) Error.value_error
  raise_if (is_bad_price t.tp_price) Error.value_error
  raise_if (is_bad_price t.gslo_price) Error.value_error
  raise_if (not (is_symbol t.instrument)) Error.value_error
  raise_if (is_blank t.trade_id) Error.value_error
  raise_if (abs t.units == 0) Error.value_error

-- The constraints on the fields, and `validate_contract`. All raise the same error, so their order
-- does not show.
unfoldable pub validate_trade : TradeRecord → Result (Unit {0})
validate_trade t = do
  validate_opening t
  raise_if (is_bad_price t.close_price) Error.value_error
  raise_if (is_bad_currency t.instrument_pnl_currency) Error.value_error
  raise_if (is_bad_currency t.account_currency) Error.value_error
  validate_state t.state t

pub validate_trade-opening :
    (t : TradeRecord) → validate_trade t ≡ ok tt → validate_opening t ≡ ok tt
unfolding validate_trade
validate_trade-opening t h = ground arith
