-- ===== src/Alerts/Price/Calls.antt =====
-- Calls on the price alerts, one after another (data/persistence/trade_store.py).
use mathlib.Core.Option
use oanda_v.Prelude.{
  arith, ℕ, ◌≡◌, refl, ap, ◌∙◌, subst, String, Bool, true, false, Option, none, some, List, [], map,
  nat_key, inl, inr, ok, Bool-cases,
}
use oanda_v.Prelude.Int.{ℤ, int_key}
use oanda_v.CandlePolicy.{Time}
use oanda_v.Alerts.Fields.{AlertStatus, is_pending}
use oanda_v.Alerts.Tables.{
  found-below, IsTable, put_document-IsTable, write_document_inv, changed-IsTable, change_at,
}
use oanda_v.Prelude.Steps.{Steps, Steps-keep}
use oanda_v.Alerts.Following.{Follows, Follows-trans, rewrite-Follows, change_at-Follows}
use oanda_v.Alerts.Price.Cancelling.{cancelled-IsContract, cancel_price_alerts_for_chat-valid}
use oanda_v.Alerts.Price.Grid.{of_grid, replace_price_alert_grid-IsGrid}
use oanda_v.Alerts.Price.{
  PriceAlert, PriceAlertPayload, price_kind, upsert_price_alert, get_price_alert,
  mark_price_alert_fired, mark_price_alert_armed, arm_found, cancel_price_alert,
  cancel_price_alert_for_chat, cancel_price_alerts_for_chat, replace_price_alert_grid,
  cancelled_price_alert, belongs_to, is_selected,
}

-- What the later alert keeps of the earlier one: what it watches, and that it is no longer pending.
pub record Keeps (a a' : PriceAlert) : Type 0 where
  pub instrument : a'.instrument ≡ a.instrument
  pub target : a'.target_price ≡ a.target_price
  pub direction : a'.direction ≡ a.direction
  pub chat : a'.chat_id ≡ a.chat_id
  pub settled : is_pending a.status ≡ false → is_pending a'.status ≡ false

Keeps-refl : (a : PriceAlert) → Keeps a a
Keeps-refl a = record {
  instrument = refl;
  target = refl;
  direction = refl;
  chat = refl;
  settled = λ h. h;
}

Keeps-trans : (a b c : PriceAlert) → Keeps a b → Keeps b c → Keeps a c
Keeps-trans a b c f g = record {
  instrument = g.instrument ∙ f.instrument;
  target = g.target ∙ f.target;
  direction = g.direction ∙ f.direction;
  chat = g.chat ∙ f.chat;
  settled = λ h. g.settled (f.settled h);
}

module _ (live : String → Bool) where
  -- A call that changes alerts which are there, and returns.
  pub data PriceMove (table table' : List PriceAlert) : Type 0 where
    fire :
        (alert_id : ℕ) (t : Time) (b : Option PriceAlert)
        → mark_price_alert_fired live alert_id t table ≡ ok (b, table')
        → PriceMove table table'
    arm :
        (alert_id : ℕ) (b : Option PriceAlert)
        → mark_price_alert_armed live alert_id table ≡ ok (b, table')
        → PriceMove table table'
    cancel :
        (alert_id : ℕ) (b : Option PriceAlert)
        → cancel_price_alert live alert_id table ≡ ok (b, table')
        → PriceMove table table'
    cancel_own :
        (alert_id : ℕ) (chat_id : ℤ) (b : Option PriceAlert)
        → cancel_price_alert_for_chat live alert_id chat_id table ≡ ok (b, table')
        → PriceMove table table'
    cancel_all :
        (chat_id : ℤ) (instrument : Option String) (statuses : List AlertStatus)
        (bs : List PriceAlert)
        → cancel_price_alerts_for_chat live chat_id instrument statuses table ≡ ok (bs, table')
        → PriceMove table table'
    replace :
        (now : Time) (chat_id : ℤ) (instrument : String) (payloads : List PriceAlertPayload)
        (bs : List PriceAlert)
        → replace_price_alert_grid live now chat_id instrument payloads table ≡ ok (bs, table')
        → PriceMove table table'

  cancelled-Keeps : (a : PriceAlert) → Keeps a (cancelled_price_alert live a)
  cancelled-Keeps a = record {
    instrument = refl;
    target = refl;
    direction = refl;
    chat = refl;
    settled = λ h. refl;
  }

  change_at-Keeps :
      (selected : PriceAlert → Bool) (a : PriceAlert)
      → Keeps a (change_at selected (cancelled_price_alert live) a)
  change_at-Keeps selected a = elim (Bool-cases (selected a)) [
    | inl e ↦ rw e (cancelled-Keeps a)
    | inr e ↦ rw e (Keeps-refl a)
  ]

  -- The table is still well-formed, and has all the alerts that it had.
  abbrev pub Moved : List PriceAlert → List PriceAlert → Type 0
  Moved table table' =
      IsTable (price_kind live) table' × Follows (price_kind live) Keeps table table'

  cancel-Moved :
      (alert_id : ℕ) (b : Option PriceAlert) (table table' : List PriceAlert)
      → IsTable (price_kind live) table
      → cancel_price_alert live alert_id table ≡ ok (b, table')
      → Moved table table'
  unfolding cancel_price_alert
  cancel-Moved alert_id b table table' h r =
      rewrite-Follows (price_kind live) Keeps Keeps-refl alert_id _ (cancelled_price_alert live)
        table b table' h refl (λ a. refl) (λ a _. cancelled-Keeps a) r

  same-Moved :
      (table table' : List PriceAlert)
      → IsTable (price_kind live) table
      → table' ≡ table
      → Moved table table'
  same-Moved table table' h e = (rw e h, λ n a f. (a, rw e f, Keeps-refl a))

  arm-Moved :
      (alert_id : ℕ) (o : Option PriceAlert) (b : Option PriceAlert)
      (table table' : List PriceAlert)
      → IsTable (price_kind live) table
      → get_price_alert live alert_id table ≡ o
      → arm_found live o table ≡ ok (b, table')
      → Moved table table'
  unfolding arm_found
  arm-Moved alert_id none b table table' h g r = same-Moved table table' h (cc)
  arm-Moved alert_id (some a) b table table' h g r = elim (Bool-cases (is_pending a.status)) [
    | inr e ↦ let r' = rw e at r in same-Moved table table' h (cc)
    | inl e ↦ elim (Bool-cases a.armed) [
      | inl e' ↦ let r' = rw (e, e') at r in same-Moved table table' h (cc)
      | inr e' ↦
          rewrite-Follows (price_kind live) Keeps Keeps-refl alert_id (some a)
            (λ (c : PriceAlert). record c { armed = true }) table b table' h g (λ a. refl)
            (λ c _. record {
              instrument = refl;
              target = refl;
              direction = refl;
              chat = refl;
              settled = λ h. h;
            })
            (rw (e, e') at r)
    ]
  ]

  PriceMove-Moved :
      (table table' : List PriceAlert)
      → PriceMove table table'
      → IsTable (price_kind live) table
      → Moved table table'
  unfolding mark_price_alert_fired mark_price_alert_armed cancel_price_alert_for_chat
  PriceMove-Moved table table' (PriceMove.fire alert_id t b r) h =
      rewrite-Follows (price_kind live) Keeps Keeps-refl alert_id _ _ table b table' h refl
        (λ a. refl)
        (λ a _. record {
          instrument = refl;
          target = refl;
          direction = refl;
          chat = refl;
          settled = λ h. refl;
        })
        r
  PriceMove-Moved table table' (PriceMove.arm alert_id b r) h =
      arm-Moved alert_id _ b table table' h refl r
  PriceMove-Moved table table' (PriceMove.cancel alert_id b r) h =
      cancel-Moved alert_id b table table' h r
  PriceMove-Moved table table' (PriceMove.cancel_own alert_id chat_id b r) h =
      elim (Bool-cases (belongs_to live chat_id (get_price_alert live alert_id table))) [
        | inl e ↦ cancel-Moved alert_id b table table' h (rw e at r)
        | inr e ↦ let r' = rw e at r in same-Moved table table' h (cc)
      ]
  PriceMove-Moved table table' (PriceMove.cancel_all chat_id instrument statuses bs r) h =
      let k = price_kind live in
      let r' =
        rw (cancel_price_alerts_for_chat-valid live chat_id instrument statuses table h) at r in
      let e : map
            (change_at (is_selected live chat_id instrument statuses) (cancelled_price_alert live))
            table
          ≡ table' =
        cc in
      subst (Moved table) e (
        changed-IsTable k (is_selected live chat_id instrument statuses)
            (cancelled_price_alert live) (λ a. refl) (cancelled-IsContract live) table h,
        change_at-Follows k Keeps Keeps-refl (is_selected live chat_id instrument statuses)
            (cancelled_price_alert live) table cancelled-Keeps (λ a. refl)
            (cancelled-IsContract live),
      )
  PriceMove-Moved table table' (PriceMove.replace now chat_id instrument payloads bs r) h =
      let k = price_kind live in
      let change = change_at (of_grid live now chat_id instrument) (cancelled_price_alert live) in
      let replaced =
        replace_price_alert_grid-IsGrid live now chat_id instrument payloads bs table table' in
      (
        (replaced 0 h r (omega arith)).0,
        λ n a f. (
          change a,
          (replaced n h r (found-below k n a table f)).3 ∙ ap (Option.map change) f,
          change_at-Keeps (of_grid live now chat_id instrument) a,
        ),
      )

  -- Any sequence of calls that change alerts keeps the table well-formed and every alert in it.
  -- An alert keeps the instrument, price, direction and chat that it had, and once it has fired
  -- or is cancelled it is never pending again.
  pub price_moves-Follows :
      (table table' : List PriceAlert)
      → Steps PriceMove table table'
      → IsTable (price_kind live) table
      → Moved table table'
  price_moves-Follows table _ Steps.done h = (h, λ n a f. (a, f, Keeps-refl a))
  price_moves-Follows table table' (Steps.step {t = t} r rs) h =
      let (h', first) = PriceMove-Moved table t r h in
      let (h'', rest) = price_moves-Follows t table' rs h' in
      (h'', Follows-trans (price_kind live) Keeps Keeps-trans table t table' first rest)

  -- A call that returns, on the table of price alerts.
  pub data PriceCall (table table' : List PriceAlert) : Type 0 where
    upsert :
        (now : Time) (p : PriceAlertPayload) (a : PriceAlert)
        → upsert_price_alert live now p table ≡ ok (a, table')
        → PriceCall table table'
    move : PriceMove table table' → PriceCall table table'

  -- After any sequence of calls on an empty table the table is well-formed: every alert in it
  -- keeps its contract, and no two have the same id.
  pub price_calls-IsTable :
      (table : List PriceAlert) → Steps PriceCall [] table → IsTable (price_kind live) table
  unfolding upsert_price_alert
  price_calls-IsTable table rs = Steps-keep (IsTable (price_kind live)) keep [] table rs tt
    where
      keep :
          (t t' : List PriceAlert)
          → PriceCall t t'
          → IsTable (price_kind live) t
          → IsTable (price_kind live) t'
      keep t t' (PriceCall.move m) h = (PriceMove-Moved t t' m h).0
      keep t t' (PriceCall.upsert now p a r) h =
          let (v, _, e) = write_document_inv (price_kind live) _ a t t' r in
          rw e (put_document-IsTable (price_kind live) _ t v h)
