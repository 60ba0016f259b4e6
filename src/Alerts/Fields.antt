-- ===== src/Alerts/Fields.antt =====
-- Values that the alert contracts share (core/enums.py, core/models.py).
use oanda_v.Prelude.{String, Bool, true, false, Option, none, some, List, string_key, ◌==◌, any}
use oanda_v.Prelude.Int.{ℤ, int_key}
use oanda_v.Prelude.Results.{Result, ok, raise, Error}
use oanda_v.Contracts.Trade.{is_symbol}

pub data AlertStatus : Type 0 where
  pending fired cancelled : AlertStatus

abbrev pub is_pending : AlertStatus → Bool
is_pending AlertStatus.pending = true
is_pending AlertStatus.fired = false
is_pending AlertStatus.cancelled = false

abbrev pub is_fired : AlertStatus → Bool
is_fired AlertStatus.fired = true
is_fired AlertStatus.pending = false
is_fired AlertStatus.cancelled = false

-- Equality of statuses, as of their values.
abbrev pub same_status : AlertStatus → AlertStatus → Bool
same_status AlertStatus.pending s = is_pending s
same_status AlertStatus.fired s = is_fired s
same_status AlertStatus.cancelled AlertStatus.cancelled = true
same_status AlertStatus.cancelled AlertStatus.pending = false
same_status AlertStatus.cancelled AlertStatus.fired = false

-- `record.get("status") in status_values`
abbrev pub has_status : List AlertStatus → AlertStatus → Bool
has_status statuses s = any (λ t. same_status t s) statuses

abbrev pub allows_status : Option (List AlertStatus) → AlertStatus → Bool
allows_status none s = true
allows_status (some statuses) s = has_status statuses s

-- A condition that a caller may leave out.
abbrev pub allows_text : Option String → String → Bool
allows_text none x = true
allows_text (some wanted) x = x == wanted

abbrev pub allows_id : Option ℤ → ℤ → Bool
allows_id none x = true
allows_id (some wanted) x = x == wanted

-- `_validate_live_instrument_symbol`; `live` is whether the broker's catalog has the instrument.
abbrev pub validate_live_symbol : (String → Bool) → String → Result (Unit {0})
validate_live_symbol live instrument = elim (is_symbol instrument) [
  | false ↦ raise Error.value_error
  | true ↦ elim (live instrument) [ true ↦ ok tt | false ↦ raise Error.value_error ]
]
