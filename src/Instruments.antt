-- ===== src/Instruments.antt =====
-- The scan-instrument registry (core/instrument_registry.py). Pip sizes are in ten-thousandths
-- and pip values in hundredths, in which every entry of the registry is a whole number.
use oanda_v.Prelude.{ℕ, String, [], ◌∷◌, string_key}
use oanda_v.Prelude.Results.{Result, Error, or_raise}
use oanda_v.Prelude.Dict.{Dict, lookup}

pub data Category : Type 0 where
  metal index_cfd major_fx minor_fx energy_cfd : Category

pub record InstrumentSpec : Type 0 where
  pub symbol : String
  pub pip_size : ℕ
  pub pip_value_per_lot : ℕ
  pub lot_size : ℕ
  pub category : Category

abbrev spec : String → ℕ → ℕ → ℕ → Category → String × InstrumentSpec
spec s p v l c =
    (s, record { symbol = s; pip_size = p; pip_value_per_lot = v; lot_size = l; category = c })

unfoldable pub instrument_registry : Dict String InstrumentSpec
instrument_registry =
    spec "XAU_USD" 100 100 100 metal
    ∷ spec "SPX500_USD" 10000 100 1 index_cfd
    ∷ spec "XAG_USD" 1 50 5000 metal
    ∷ spec "EUR_USD" 1 1000 100000 major_fx
    ∷ spec "GBP_USD" 1 1000 100000 major_fx
    ∷ spec "USD_JPY" 100 100000 100000 major_fx
    ∷ spec "AUD_USD" 1 1000 100000 major_fx
    ∷ spec "USD_CAD" 1 1000 100000 major_fx
    ∷ spec "USD_CHF" 1 1000 100000 major_fx
    ∷ spec "NZD_USD" 1 1000 100000 major_fx
    ∷ spec "EUR_GBP" 1 1000 100000 minor_fx
    ∷ spec "EUR_JPY" 100 100000 100000 minor_fx
    ∷ spec "GBP_JPY" 100 100000 100000 minor_fx
    ∷ spec "BCO_USD" 100 1 1 energy_cfd
    ∷ spec "WTICO_USD" 100 1 1 energy_cfd
    ∷ spec "JP225_USD" 10000 100 1 index_cfd
    ∷ []

-- `INSTRUMENT_REGISTRY[instrument]`, with the KeyError raised again under another text.
unfoldable pub get_instrument_spec : String → Result InstrumentSpec
get_instrument_spec instrument = or_raise Error.key_error (lookup instrument instrument_registry)
