-- ===== src/Poller/Polls.antt =====
-- A whole poll (background/poller_task.py).
use oanda_v.Prelude.{
  ◌≡◌, inl, inr, refl, sym, subst, ◌∙◌, String, Bool, true, false, Option, none, some, List, [],
  ◌∷◌, ◌++◌, string_key, test_cases, test_self, filter, leb, ok, Bool-cases, All, All-map,
}
use oanda_v.Prelude.Dict.{Dict, lookup}
use oanda_v.CandlePolicy.{Time}
use oanda_v.Contracts.Trade.{TradeRecord, is_currency_from, is_blank}
use oanda_v.Journal.{Trades, is_open, records, list_open_trades, sort_newest, insert_newest}
use oanda_v.Journal.Records.{IsValid}
use oanda_v.Poller.{
  OpenTrade, TradeDetail, Event, Services, sync_payload, close_missing, current_of, existing_of,
  sync_trades,
}
use oanda_v.Poller.Loops.{
  Lacks, IsDict, by_id-IsDict, by_id-All, lookup-All, flip, for_each-Succeeds,
}
use oanda_v.Poller.Steps.{Inv, IsPayload, Tracks, Matches, IsReady, Synced, sync_payload-Succeeds}
use oanda_v.Poller.Closes.{
  Closable, SettledOrTracked, Present, Existing, After, close_missing-Succeeds,
}

module _ {V : Type 0} where
  lookup-none-Lacks : (k : String) (d : Dict String V) → lookup k d ≡ none → Lacks k d
  unfolding lookup
  lookup-none-Lacks k [] h = tt
  lookup-none-Lacks k ((j, v) ∷ d) h = elim (test_cases j k) [
    | inl (t, _) ↦ cc (rw t at h)
    | inr (f, _) ↦ (flip k j f, lookup-none-Lacks k d (rw f at h))
  ]

  lookup-cons_Lacks :
      (k : String) (v : V) (d xs : Dict String V)
      → Lacks k xs
      → All (λ x. lookup x.0 d ≡ some x.1) xs
      → All (λ x. lookup x.0 ((k, v) ∷ d) ≡ some x.1) xs
  unfolding lookup
  lookup-cons_Lacks k v d [] l h = tt
  lookup-cons_Lacks k v d (x ∷ xs) (f, l) (e, h) = (rw f e, lookup-cons_Lacks k v d xs l h)

  -- Each entry of a dictionary is what a lookup of its key finds.
  entries_found : (d : Dict String V) → IsDict d → All (λ x. lookup x.0 d ≡ some x.1) d
  unfolding lookup
  entries_found [] h = tt
  entries_found ((k, v) ∷ d) (l, h) =
      (rw (test_self k) refl, lookup-cons_Lacks k v d d l (entries_found d h))

filter-All :
    (P : TradeRecord → Type 0) (p : TradeRecord → Bool) (ts : List TradeRecord)
    → All P ts
    → All (λ t. P t × (p t ≡ true)) (filter p ts)
filter-All P p [] h = tt
filter-All P p (t ∷ ts) (q, h) = elim (Bool-cases (p t)) [
  | inl e ↦ rw e ((q, e), filter-All P p ts h)
  | inr e ↦ rw e (filter-All P p ts h)
]

insert_newest-All :
    (P : TradeRecord → Type 0) (key : TradeRecord → Time) (t : TradeRecord) (ts : List TradeRecord)
    → P t
    → All P ts
    → All P (insert_newest key t ts)
unfolding insert_newest
insert_newest-All P key t [] p h = (p, tt)
insert_newest-All P key t (u ∷ us) p (q, h) = elim (Bool-cases (leb (key u) (key t))) [
  | inl e ↦ rw e (p, (q, h))
  | inr e ↦ rw e (q, insert_newest-All P key t us p h)
]

sort_newest-All :
    (P : TradeRecord → Type 0) (key : TradeRecord → Time) (ts : List TradeRecord)
    → All P ts
    → All P (sort_newest key ts)
unfolding sort_newest
sort_newest-All P key [] h = tt
sort_newest-All P key (t ∷ ts) (p, h) =
    insert_newest-All P key t (sort_newest key ts) p (sort_newest-All P key ts h)

records_found :
    (trades rows : Trades)
    → IsValid rows
    → All (λ x. lookup x.0 trades ≡ some x.1) rows
    → All (λ (t : TradeRecord). lookup t.trade_id trades ≡ some t) (records rows)
records_found trades [] v h = tt
records_found trades ((k, t) ∷ rows) ((same, _), v) (e, h) =
    (subst (λ j. lookup j trades ≡ some t) (sym same) e, records_found trades rows v h)

-- The poll's dictionary of open trades has the journal's records, all of them open.
existing_found :
    (trades : Trades)
    → Inv trades
    → All
        (λ (x : String × TradeRecord). (lookup x.0 trades ≡ some x.1) × (is_open x.1 ≡ true))
        (existing_of trades)
existing_found trades (valid, d) =
    let P = λ (t : TradeRecord). (lookup t.trade_id trades ≡ some t) × (is_open t ≡ true) in
    by_id-All (λ (t : TradeRecord). t.trade_id)
      (λ x. (lookup x.0 trades ≡ some x.1) × (is_open x.1 ≡ true)) (list_open_trades trades) []
      (sort_newest-All P (λ (t : TradeRecord). t.opened_at) (filter is_open (records trades))
        (filter-All (λ (t : TradeRecord). lookup t.trade_id trades ≡ some t) is_open
          (records trades) (records_found trades trades valid (entries_found trades d))))
      tt

module _ {V : Type 0} where
  All-both :
      (P Q : String × V → Type 0) (xs : Dict String V)
      → All P xs
      → All Q xs
      → All (λ x. P x × Q x) xs
  All-both P Q [] h k = tt
  All-both P Q (x ∷ xs) (p, h) (q, k) = ((p, q), All-both P Q xs h k)

module _ (s : Services) (currency : String) (now : Time) (filled : is_blank currency ≡ false)
    (letters : is_currency_from 3 currency ≡ true) (trade_detail : String → Option TradeDetail)
    (current : List OpenTrade) (trades : Trades) (inv : Inv trades)
    (payloads : All (IsPayload s) (current_of current))
    (closable : All
      (λ (x : String × TradeRecord).
        Closable s now x.1 (lookup x.0 (current_of current)) (trade_detail x.0))
      (existing_of trades)) where
  abbrev CanClose : String × TradeRecord → Type 0
  CanClose x = Closable s now x.1 (lookup x.0 (current_of current)) (trade_detail x.0)

  abbrev IsHeld : String × TradeRecord → Type 0
  IsHeld x = (lookup x.0 trades ≡ some x.1) × (is_open x.1 ≡ true)

  abbrev IsListed : String × OpenTrade → Type 0
  IsListed x = lookup x.0 (current_of current) ≡ some x.1

  abbrev IsKnown : String × TradeRecord → Type 0
  IsKnown x = lookup x.0 (existing_of trades) ≡ some x.1

  -- What the poll leaves of a payload's trade.
  abbrev pub Tracked : String × OpenTrade → Option TradeRecord → Type 0
  Tracked x o = Tracks s now (lookup x.0 (existing_of trades)) x o

  current_ids : IsDict (current_of current)
  current_ids = by_id-IsDict (λ (t : OpenTrade). t.id) current [] tt

  existing_ids : IsDict (existing_of trades)
  existing_ids = by_id-IsDict (λ (t : TradeRecord). t.trade_id) (list_open_trades trades) [] tt

  matched :
      (k : String) (o : Option TradeRecord)
      → lookup k (existing_of trades) ≡ o
      → Matches o (lookup k trades)
  matched k none h = tt
  matched k (some t) h = lookup-All _ k t (existing_of trades) (existing_found trades inv) h

  first-IsReady :
      All
        (λ x. IsReady s currency now (existing_of trades) filled x (lookup x.0 trades))
        (current_of current)
  first-IsReady =
      All-map
        (λ (x : String × OpenTrade) good.
          (good, matched x.0 (lookup x.0 (existing_of trades)) refl))
        (current_of current) payloads

  -- What stands in the table between the loops, under the key of a trade that was open.
  present :
      (k : String) (t : TradeRecord) (middle : Trades) (o : Option OpenTrade)
      → lookup k (current_of current) ≡ o
      → lookup k (existing_of trades) ≡ some t
      → lookup k trades ≡ some t
      → All (λ x. Tracked x (lookup x.0 middle)) (current_of current)
      → ((j : String) → Lacks j (current_of current) → lookup j middle ≡ lookup j trades)
      → Present s currency now filled letters trade_detail
          (current_of current)
          o
          k
          t
          (lookup k middle)
  present k t middle (some p) h known found tracks kept =
      let followed : Tracks s now (lookup k (existing_of trades)) (k, p) (lookup k middle) =
        lookup-All (λ x. Tracked x (lookup x.0 middle)) k p (current_of current) tracks h in
      rw known at followed
  present k t middle none h known found tracks kept =
      kept k (lookup-none-Lacks k (current_of current) h) ∙ found

  -- At the end each of the broker's trades is tracked.
  tracked :
      (x : String × OpenTrade) (middle changed : Trades) (o : Option TradeRecord)
      → lookup x.0 (existing_of trades) ≡ o
      → lookup x.0 (current_of current) ≡ some x.1
      → Tracked x (lookup x.0 middle)
      → All
          (λ (y : String × TradeRecord).
            SettledOrTracked s currency now
              (lookup y.0 (current_of current))
              y.0
              y.1
              (trade_detail y.0)
              (lookup y.0 changed))
          (existing_of trades)
      → ((j : String) → Lacks j (existing_of trades) → lookup j changed ≡ lookup j middle)
      → Tracked x (lookup x.0 changed)
  tracked x middle changed none h listed tracks settled kept =
      subst (Tracked x) (sym (kept x.0 (lookup-none-Lacks x.0 (existing_of trades) h))) tracks
  tracked x middle changed (some t) h listed tracks settled kept = rw h (
      rw listed at (
        lookup-All
          (λ (y : String × TradeRecord).
            SettledOrTracked s currency now (lookup y.0 (current_of current)) y.0 y.1
              (trade_detail y.0) (lookup y.0 changed))
          x.0 t (existing_of trades) settled h))

  pub sync_trades-Reconciles :
      (events : List Event) × (changed : Trades) × (sync_trades s currency now trade_detail current
          trades
        ≡ (ok events, changed))
      × Inv changed
      × All (λ x. Tracked x (lookup x.0 changed)) (current_of current)
      × All
          (λ (x : String × TradeRecord).
            SettledOrTracked s currency now
              (lookup x.0 (current_of current))
              x.0
              x.1
              (trade_detail x.0)
              (lookup x.0 changed))
          (existing_of trades)
  unfolding sync_trades
  sync_trades-Reconciles =
      let (events, middle, ran, inv', tracks, kept) =
        for_each-Succeeds Inv (IsReady s currency now (existing_of trades) filled)
          (Synced s currency now (existing_of trades) filled)
          (sync_payload s currency now (existing_of trades))
          (sync_payload-Succeeds s currency now (existing_of trades) filled) (current_of current)
          trades current_ids inv first-IsReady in
      let second =
        All-map {P = λ x. (CanClose x × IsKnown x) × IsHeld x}
          (λ x ((c, known), (found, trading)). (
            c,
            present x.0 x.1 middle (lookup x.0 (current_of current)) refl known found tracks kept,
          ))
          (existing_of trades)
          (All-both (λ x. CanClose x × IsKnown x) IsHeld (existing_of trades)
            (All-both CanClose IsKnown (existing_of trades) closable
              (entries_found (existing_of trades) existing_ids))
            (existing_found trades inv)) in
      let (more, changed, rest, inv'', settled, kept') =
        for_each-Succeeds Inv
          (Existing s currency now filled letters trade_detail (current_of current))
          (After s currency now filled letters trade_detail (current_of current))
          (close_missing s currency now trade_detail (current_of current))
          (close_missing-Succeeds s currency now filled letters trade_detail (current_of current))
          (existing_of trades) middle existing_ids inv' second in
      (
        events ++ more,
        changed,
        rw (ran, rest) refl,
        inv'',
        All-map {P = λ x. IsListed x × Tracked x (lookup x.0 middle)}
            (λ x (listed, tr).
              tracked x middle changed (lookup x.0 (existing_of trades)) refl listed tr settled
                kept')
            (current_of current)
            (All-both IsListed (λ x. Tracked x (lookup x.0 middle)) (current_of current)
              (entries_found (current_of current) current_ids) tracks),
        settled,
      )
