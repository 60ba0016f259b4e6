-- ===== src/HistorySync/Advance.antt =====
-- Where the watermark of the trade history goes (`_advance_sync_state_watermark`,
-- journal/trade_history_service.py).
use mathlib.Core.Option
use oanda_v.Prelude.{
  ℕ, ◌≡◌, refl, sym, ap, subst, ◌∙◌, true, false, Option, none, some, List, [], ◌∷◌, ◌++◌, nat_key,
  Key, leb, ltb, Bool-cases, Option-cases, inl, inr, if◌then◌else◌, arith,
}
use oanda_v.HistorySync.{
  HistoryStore, HistorySources, TradeHistorySyncState, newest_id, advance_from, advance_watermark,
}

module _ {C E : Type 0} ⦃content : Key C⦄ ⦃event : Key E⦄ (s : HistorySources C E) where
  abbrev pub watermark : HistoryStore C E → Option ℕ
  watermark st = Option.map (λ (w : TradeHistorySyncState). w.last_transaction_id) st.sync_state

  pub newest_id-append :
      (best : Option ℕ) (xs ys : List (ℕ × C))
      → newest_id best (xs ++ ys) ≡ newest_id (newest_id best xs) ys
  unfolding newest_id
  newest_id-append best [] ys = refl
  newest_id-append none ((k, c) ∷ xs) ys = newest_id-append (some k) xs ys
  newest_id-append (some b) ((k, c) ∷ xs) ys =
      newest_id-append (some (if ltb b k then k else b)) xs ys

  larger_assoc :
      (a b c : ℕ)
      → (let ab = (if ltb a b then b else a) in (if ltb ab c then c else ab))
        ≡ (let bc = (if ltb b c then c else b) in (if ltb a bc then bc else a))
  larger_assoc a b c = ground arith

  pub newest_id-larger :
      (a b : ℕ) (xs : List (ℕ × C))
      → newest_id (some (if ltb a b then b else a)) xs
        ≡ Option.map (λ m. if ltb a m then m else a) (newest_id (some b) xs)
  unfolding newest_id
  newest_id-larger a b [] = refl
  newest_id-larger a b ((k, c) ∷ xs) =
      ap (λ m. newest_id (some m) xs) (larger_assoc a b k)
      ∙ newest_id-larger a (if ltb b k then k else b) xs

  newest_id-some : (b : ℕ) (xs : List (ℕ × C)) → (m : ℕ) × (newest_id (some b) xs ≡ some m)
  unfolding newest_id
  newest_id-some b [] = (b, refl)
  newest_id-some b ((k, c) ∷ xs) = newest_id-some (if ltb b k then k else b) xs

  larger_cases : (m l : ℕ) → leb m l ≡ true → l ≡ (if ltb l m then m else l)
  larger_cases m l h = ground arith

  larger_other : (m l : ℕ) → leb m l ≡ false → m ≡ (if ltb l m then m else l)
  larger_other m l h = ground arith

  -- The watermark moves to the candidate, if that is newer.
  advance_from-watermark :
      (w : TradeHistorySyncState) (m : ℕ) (st : HistoryStore C E)
      → st.sync_state ≡ some w
      → watermark (advance_from s (some w) m st)
        ≡ some (if ltb w.last_transaction_id m then m else w.last_transaction_id)
  unfolding advance_from
  advance_from-watermark w m st known = elim (Bool-cases (leb m w.last_transaction_id)) [
    | inl e ↦ rw e (
        ap (Option.map (λ (x : TradeHistorySyncState). x.last_transaction_id)) known
        ∙ ap some (larger_cases m w.last_transaction_id e))
    | inr e ↦ rw e (ap some (larger_other m w.last_transaction_id e))
  ]

  advance_watermark-some :
      (o : Option TradeHistorySyncState) (k m : ℕ) (c : C) (all : List (ℕ × C))
      (st : HistoryStore C E)
      → st.sync_state ≡ o
      → newest_id (some k) all ≡ some m
      → watermark (advance_from s o m st)
        ≡ newest_id
            (Option.map (λ (x : TradeHistorySyncState). x.last_transaction_id) o)
            ((k, c) ∷ all)
  unfolding newest_id advance_from
  advance_watermark-some none k m c all st known e = sym e
  advance_watermark-some (some w) k m c all st known e =
      let l = w.last_transaction_id in
      advance_from-watermark w m st known
      ∙ sym (newest_id-larger l k all ∙ ap (Option.map (λ x. if ltb l x then x else l)) e)

  pub advance_watermark-newest :
      (st : HistoryStore C E) (all : List (ℕ × C))
      → watermark (advance_watermark s (newest_id none all) st) ≡ newest_id (watermark st) all
  unfolding advance_watermark newest_id
  advance_watermark-newest st [] = refl
  advance_watermark-newest st ((k, c) ∷ all) =
      let (m, e) = newest_id-some k all in
      subst (λ o. watermark (advance_watermark s o st) ≡ newest_id (watermark st) ((k, c) ∷ all))
        (sym e) (advance_watermark-some st.sync_state k m c all st refl e)

  advance_from-raw :
      (o : Option TradeHistorySyncState) (m : ℕ) (st : HistoryStore C E)
      → (advance_from s o m st).raw_transactions ≡ st.raw_transactions
  unfolding advance_from
  advance_from-raw none m st = refl
  advance_from-raw (some w) m st = elim (Bool-cases (leb m w.last_transaction_id)) [
    | inl e ↦ rw e refl
    | inr e ↦ rw e refl
  ]

  -- Where the watermark goes depends on where it was, and on nothing else of the store.
  pub advance_watermark-same :
      (best : Option ℕ) (st st' : HistoryStore C E)
      → st'.sync_state ≡ st.sync_state
      → watermark (advance_watermark s best st') ≡ watermark (advance_watermark s best st)
  unfolding advance_watermark
  advance_watermark-same none st st' e =
      ap (Option.map (λ (x : TradeHistorySyncState). x.last_transaction_id)) e
  advance_watermark-same (some m) st st' e = elim (Option-cases st.sync_state) [
    | inl n ↦
        subst
          (λ o. watermark (advance_from s o m st') ≡ watermark (advance_from s st.sync_state m st))
          (sym (e ∙ n))
          (subst (λ o. watermark (advance_from s none m st') ≡ watermark (advance_from s o m st))
            (sym n) (unfold advance_from in refl))
    | inr (w, n) ↦
        subst
          (λ o. watermark (advance_from s o m st') ≡ watermark (advance_from s st.sync_state m st))
          (sym (e ∙ n))
          (subst
            (λ o. watermark (advance_from s (some w) m st') ≡ watermark (advance_from s o m st))
            (sym n)
            (advance_from-watermark w m st' (e ∙ n) ∙ sym (advance_from-watermark w m st n)))
  ]

  pub advance_watermark-raw :
      (best : Option ℕ) (st : HistoryStore C E)
      → (advance_watermark s best st).raw_transactions ≡ st.raw_transactions
  unfolding advance_watermark
  advance_watermark-raw none st = refl
  advance_watermark-raw (some m) st = advance_from-raw st.sync_state m st
