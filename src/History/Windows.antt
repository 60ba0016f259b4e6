-- ===== src/History/Windows.antt =====
-- The chunks of a backfill (journal/trade_history_service.py).
use oanda_v.Prelude.{
  ℕ, zero, suc, ◌+◌, ◌-◌, ◌≤◌, ◌<◌, ◌≡◌, refl, List, [], ◌∷◌, ltb, arith, Bool-cases, inl, inr,
  ltb→lt, ltb_false→le,
}
use oanda_v.CandlePolicy.{Time}
use oanda_v.History.{split_utc_window}

-- The chunks follow one another from `cursor` to `end_utc`, none empty and none longer than
-- `chunk_size`.
abbrev pub Covers : Time → Time → ℕ → List (Time × Time) → Type 0
Covers cursor end_utc chunk_size [] = end_utc ≤ cursor
Covers cursor end_utc chunk_size ((a, b) ∷ chunks) =
    (a ≡ cursor)
    × (a < b)
    × (b ≤ a + chunk_size)
    × (b ≤ end_utc)
    × Covers b end_utc chunk_size chunks

-- With a positive chunk size, and fuel for each step of the clock between its ends, the window is split
-- into chunks that follow one another from its start to its end, none of them empty, and none longer
-- than the chunk size.
pub split_utc_window-Covers :
    (fuel : ℕ) (start_utc end_utc : Time) (chunk_size : ℕ)
    → 0 < chunk_size
    → end_utc - start_utc ≤ fuel
    → Covers start_utc end_utc chunk_size (split_utc_window fuel start_utc end_utc chunk_size)
unfolding split_utc_window
split_utc_window-Covers zero start end_utc size positive enough = omega arith
split_utc_window-Covers (suc fuel) start end_utc size positive enough =
    elim (Bool-cases (ltb start end_utc)) [
      | inr done ↦ rw done (ltb_false→le _ _ done)
      | inl more ↦ elim (Bool-cases (ltb (start + size) end_utc)) [
        | inl inside ↦
            rw (more, inside)
              (
                refl,
                omega arith,
                omega arith,
                omega (arith, ltb→lt _ _ inside),
                split_utc_window-Covers fuel (start + size) end_utc size positive (omega arith),
              )
        | inr last ↦
            rw (more, last)
              (
                refl,
                ltb→lt _ _ more,
                ltb_false→le _ _ last,
                omega arith,
                split_utc_window-Covers fuel end_utc end_utc size positive (omega arith),
              )
      ]
    ]
