-- ===== src/History/Profit.antt =====
-- What the realized profit of a window adds up to (journal/trade_history_service.py).
use oanda_v.Prelude.{
  ◌+◌, ◌<◌, subst, ok, suc, ◌≡◌, ◌≢◌, ◌⊎◌, inl, inr, refl, sym, ◌∙◌, ap, String, true, false,
  Option, none, some, List, [], ◌∷◌, ◌++◌, string_key, map, length, All, All-append, arith,
}
use oanda_v.Prelude.Int.{ℤ, pos, abs, ◌+ℤ◌, ◌-ℤ◌, +ℤ_parts, -ℤ_parts, eq_of_parts}
use oanda_v.History.{
  FilledTrade, OrderFill, Leg, TradeHistoryEvent, HistoryRecord, Totals, legs_of, opened_leg,
  closed_leg, optional, normalize_order_fill, allocate_commission, is_close, add_record,
  add_records, net_realized_pl, compute_realized_pnl,
}
use oanda_v.History.Legs.{
  built, closings, openings, events_of-built, built-units, built-length, legs-sum, legs-length,
}
use oanda_v.History.Commission.{sum, sum-nil, sum-cons, +ℤ_assoc, allocate_commission-sum}

-- What a record adds to the net profit.
abbrev pub contribution : HistoryRecord → ℤ
contribution (HistoryRecord.trade_event e) = e.net_realized_pl
contribution (HistoryRecord.financing_event f) = f

-- The amounts of a stored event go together: its net is made of them, and an event that closes nothing
-- has neither profit nor financing.
abbrev pub IsSettled : HistoryRecord → Type 0
IsSettled (HistoryRecord.financing_event f) = Unit
IsSettled (HistoryRecord.trade_event e) =
    (e.net_realized_pl ≡ (e.realized_pl +ℤ e.financing) -ℤ e.commission)
    × ((is_close e.event_type ≡ true)
        ⊎ ((is_close e.event_type ≡ false) × (e.realized_pl ≡ pos 0) × (e.financing ≡ pos 0)))

close_law :
    (g f c r x k : ℤ) → ((g +ℤ r) +ℤ (f +ℤ x)) -ℤ (c +ℤ k) ≡ ((g +ℤ f) -ℤ c) +ℤ ((r +ℤ x) -ℤ k)
close_law g f c r x k = eq_of_parts _ _ (
    omega (
      arith,
      +ℤ_parts g r,
      +ℤ_parts f x,
      +ℤ_parts (g +ℤ r) (f +ℤ x),
      +ℤ_parts c k,
      -ℤ_parts ((g +ℤ r) +ℤ (f +ℤ x)) (c +ℤ k),
      +ℤ_parts g f,
      -ℤ_parts (g +ℤ f) c,
      +ℤ_parts r x,
      -ℤ_parts (r +ℤ x) k,
      +ℤ_parts ((g +ℤ f) -ℤ c) ((r +ℤ x) -ℤ k),
    ))

add_zero : (a : ℤ) → a +ℤ pos 0 ≡ a
add_zero a = eq_of_parts _ _ (omega (arith, +ℤ_parts a (pos 0)))

sub_zero : (a : ℤ) → a -ℤ pos 0 ≡ a
sub_zero a = eq_of_parts _ _ (omega (arith, -ℤ_parts a (pos 0)))

add_record-net :
    (r : HistoryRecord) (t : Totals)
    → IsSettled r
    → net_realized_pl (add_record r t) ≡ net_realized_pl t +ℤ contribution r
unfolding add_record
add_record-net (HistoryRecord.financing_event f) t h =
    let law = close_law t.gross_realized_pl t.financing t.commission (pos 0) f (pos 0) in
    let plus : pos 0 +ℤ f ≡ f = eq_of_parts _ _ (omega (arith, +ℤ_parts (pos 0) f)) in
    rw (add_zero t.gross_realized_pl, add_zero t.commission, plus, sub_zero f) at law
add_record-net (HistoryRecord.trade_event e) t (net, inl closes) =
    rw (closes, net)
      (close_law t.gross_realized_pl t.financing t.commission e.realized_pl e.financing
        e.commission)
add_record-net (HistoryRecord.trade_event e) t (net, inr (opens, no_profit, no_financing)) =
    let law = close_law t.gross_realized_pl t.financing t.commission (pos 0) (pos 0) e.commission in
    rw (opens, net, no_profit, no_financing)
      (rw (add_zero t.gross_realized_pl, add_zero t.financing) at law)

add_records-net :
    (rs : List HistoryRecord) (t : Totals)
    → All IsSettled rs
    → net_realized_pl (add_records rs t) ≡ net_realized_pl t +ℤ sum (map contribution rs)
unfolding add_records
add_records-net [] t h = sym (ap (λ x. net_realized_pl t +ℤ x) sum-nil ∙ add_zero _)
add_records-net (r ∷ rs) t (p, h) =
    add_records-net rs (add_record r t) h
    ∙ ap (λ x. x +ℤ sum (map contribution rs)) (add_record-net r t p)
    ∙ +ℤ_assoc (net_realized_pl t) (contribution r) (sum (map contribution rs))
    ∙ ap (λ x. net_realized_pl t +ℤ x) (sym (sum-cons (contribution r) (map contribution rs)))

-- A leg that closes nothing has neither profit nor financing.
abbrev IsLeg : Leg → Type 0
IsLeg l =
    (is_close l.event_type ≡ true)
    ⊎ ((is_close l.event_type ≡ false) × (l.realized_pl ≡ pos 0) × (l.financing ≡ pos 0))

map-IsLeg :
    (event_type : String) (ts : List FilledTrade)
    → is_close event_type ≡ true
    → All IsLeg (map (closed_leg event_type) ts)
map-IsLeg event_type [] h = tt
map-IsLeg event_type (t ∷ ts) h = (inl h, map-IsLeg event_type ts h)

opened-IsLeg : (o : Option FilledTrade) → All IsLeg (optional opened_leg o)
opened-IsLeg none = tt
opened-IsLeg (some t) = (inr (refl, refl, refl), tt)

reduced-IsLeg : (o : Option FilledTrade) → All IsLeg (optional (closed_leg "PARTIAL_CLOSE") o)
reduced-IsLeg none = tt
reduced-IsLeg (some t) = (inl refl, tt)

legs_of-IsLeg : (fill : OrderFill) → All IsLeg (legs_of fill)
unfolding legs_of
legs_of-IsLeg fill =
    let closed = map (closed_leg "CLOSE") fill.trades_closed in
    let reduced = optional (closed_leg "PARTIAL_CLOSE") fill.trade_reduced in
    let opened = optional opened_leg fill.trade_opened in
    All-append IsLeg (opened ++ closed) reduced
      (All-append IsLeg opened closed (opened-IsLeg fill.trade_opened)
        (map-IsLeg "CLOSE" fill.trades_closed refl))
      (reduced-IsLeg fill.trade_reduced)

abbrev records_of : OrderFill → List Leg → List ℤ → List HistoryRecord
records_of fill legs cs = map (λ e. HistoryRecord.trade_event e) (built fill legs cs)

events_of-IsSettled :
    (fill : OrderFill) (legs : List Leg) (cs : List ℤ)
    → All IsLeg legs
    → All IsSettled (records_of fill legs cs)
events_of-IsSettled fill [] cs h = tt
events_of-IsSettled fill (l ∷ legs) [] h = tt
events_of-IsSettled fill (l ∷ legs) (c ∷ cs) (p, h) =
    ((refl, p), events_of-IsSettled fill legs cs h)

abbrev realized : List Leg → ℤ
realized legs = sum (map (λ (l : Leg). l.realized_pl) legs)

abbrev financed : List Leg → ℤ
financed legs = sum (map (λ (l : Leg). l.financing) legs)

events_of-net :
    (fill : OrderFill) (legs : List Leg) (cs : List ℤ)
    → length cs ≡ length legs
    → sum (map contribution (records_of fill legs cs)) ≡ (realized legs +ℤ financed legs) -ℤ sum cs
unfolding sum ◌+ℤ◌ ◌-ℤ◌
events_of-net fill [] [] h = refl
events_of-net fill [] (c ∷ cs) h = absurd (omega arith)
events_of-net fill (l ∷ legs) [] h = absurd (omega arith)
events_of-net fill (l ∷ legs) (c ∷ cs) h =
    let rest = events_of-net fill legs cs (omega arith) in
    let law = close_law l.realized_pl l.financing c (realized legs) (financed legs) (sum cs) in
    ap (λ x. ((l.realized_pl +ℤ l.financing) -ℤ c) +ℤ x) rest ∙ sym law

length-map : (f : Leg → ℤ) (ls : List Leg) → length (map f ls) ≡ length ls
length-map f [] = refl
length-map f (l ∷ ls) = ap suc (length-map f ls)

start_net : (a : ℤ) → ((pos 0 +ℤ pos 0) -ℤ pos 0) +ℤ a ≡ a
start_net a = eq_of_parts _ _ (
    omega (
      arith,
      +ℤ_parts (pos 0) (pos 0),
      -ℤ_parts (pos 0 +ℤ pos 0) (pos 0),
      +ℤ_parts ((pos 0 +ℤ pos 0) -ℤ pos 0) a,
    ))

-- For an order fill of which events are made, there is one event for each trade that it opens, closes or
-- reduces, and the net profit over the events is the profit and the financing of the closed and reduced
-- trades less the whole commission: nothing is lost or counted twice where the commission is split.
pub normalize_order_fill-net :
    (fill : OrderFill) (events : List TradeHistoryEvent)
    → normalize_order_fill fill ≡ ok events
    → 0 < length events
    → (length events ≡ openings fill + length (closings fill))
      × (net_realized_pl (compute_realized_pnl (map (λ e. HistoryRecord.trade_event e) events))
          ≡ (sum (map (λ (t : FilledTrade). t.realized_pl) (closings fill))
              +ℤ sum (map (λ (t : FilledTrade). t.financing) (closings fill)))
            -ℤ fill.commission)
unfolding normalize_order_fill legs_of
normalize_order_fill-net fill events h some_event =
    let legs = legs_of fill in
    let units = map (λ (l : Leg). l.units) legs in
    let cs = allocate_commission fill.commission units in
    let (same, nonzero) = events_of-built fill legs cs events h in
    let whole =
      built-units fill legs cs (rw same at some_event)
        (subst (All (λ (e : TradeHistoryEvent). abs e.units ≢ 0)) same nonzero) in
    let (lengths, total) = allocate_commission-sum fill.commission units whole in
    let matched = lengths ∙ length-map (λ (l : Leg). l.units) legs in
    (
      ap length same
          ∙ built-length fill legs cs matched
          ∙ legs-length fill.trade_opened fill.trades_closed fill.trade_reduced,
      ap (λ es. net_realized_pl (compute_realized_pnl (map (λ e. HistoryRecord.trade_event e) es)))
            same
          ∙ add_records-net (records_of fill legs cs) _
              (events_of-IsSettled fill legs cs (legs_of-IsLeg fill))
          ∙ start_net (sum (map contribution (records_of fill legs cs)))
          ∙ events_of-net fill legs cs matched
          ∙ ap (λ x. (realized legs +ℤ financed legs) -ℤ x) total
          ∙ ap (λ x. (x +ℤ financed legs) -ℤ fill.commission)
              (legs-sum (λ l. l.realized_pl) (λ t. t.realized_pl) (λ t. refl) (λ e t. refl)
                fill.trade_opened fill.trades_closed fill.trade_reduced)
          ∙ ap
              (λ x.
                (sum (map (λ (t : FilledTrade). t.realized_pl) (closings fill)) +ℤ x)
                -ℤ fill.commission)
              (legs-sum (λ l. l.financing) (λ t. t.financing) (λ t. refl) (λ e t. refl)
                fill.trade_opened fill.trades_closed fill.trade_reduced),
    )
