-- ===== src/Alerts/Price/Upsert.antt =====
-- One price alert that is written (`upsert_price_alert` and the `mark_price_alert_*` methods,
-- data/persistence/trade_store.py).
use oanda_v.Prelude.{
  Option-cases, inl, inr, ◌⊎◌, some, ℕ, ◌≡◌, refl, sym, ap, ◌∙◌, subst, String, Bool, true, false,
  none, some, List, nat_key, ◌==◌, if◌then◌else◌, ok, arith,
}
use oanda_v.Prelude.Dict.{or_else}
use oanda_v.CandlePolicy.{Time}
use oanda_v.Alerts.{next_numeric_id, resolve_alert_id}
use oanda_v.Alerts.Fields.{AlertStatus, is_pending}
use oanda_v.Alerts.Tables.{
  IsContract, write_document_inv, next_numeric_id-Lacks, get_document-put, get_document-fresh,
}
use oanda_v.Alerts.Price.{
  PriceAlert, PriceAlertPayload, validate_price_alert, price_kind, upsert_price_alert,
  get_price_alert,
}

module _ (live : String → Bool) where
  -- A stored alert keeps its contract when it is fired.
  pub fired-IsContract :
      (a : PriceAlert) (t : Time)
      → validate_price_alert live a ≡ ok tt
      → validate_price_alert live
          (record a { status = AlertStatus.fired; armed = false; fired_at = some t })
        ≡ ok tt
  unfolding validate_price_alert
  fired-IsContract a t h = ground arith

  pub armed-IsContract :
      (a : PriceAlert)
      → is_pending a.status ≡ true
      → validate_price_alert live a ≡ ok tt
      → validate_price_alert live (record a { armed = true }) ≡ ok tt
  unfolding validate_price_alert
  armed-IsContract a p h = ground arith

  -- After an upsert the alert is read back under its id, and what the other ids have is as it was.
  -- Its id is the one that the payload gives, or, where the payload gives none, one that no alert of
  -- the table has. What else the payload leaves out is pending, not armed and created now.
  pub get_price_alert-upsert :
      (now : Time) (p : PriceAlertPayload) (a : PriceAlert) (table table' : List PriceAlert)
      → upsert_price_alert live now p table ≡ ok (a, table')
      → ((n : ℕ)
          → get_price_alert live n table'
            ≡ (if a.id == n then some a else get_price_alert live n table))
        × ((p.id ≡ some a.id) ⊎ ((p.id ≡ none) × (get_price_alert live a.id table ≡ none)))
        × (a ≡ record {
          id = a.id;
          instrument = p.instrument;
          target_price = p.target_price;
          direction = p.direction;
          status = or_else AlertStatus.pending p.status;
          armed = or_else false p.armed;
          chat_id = p.chat_id;
          notes = p.notes;
          created_at = or_else now p.created_at;
          fired_at = p.fired_at;
        })
  unfolding upsert_price_alert
  get_price_alert-upsert now p a table table' h =
      let k = price_kind live in
      let (valid, e, e') = write_document_inv k _ a table table' h in
      let valid' : IsContract k a = subst (IsContract k) (sym e) valid in
      (
        (λ n. rw (e', ← e) (get_document-put k n a table valid')),
        elim (Option-cases p.id) [
          | inr (id, given) ↦
              let same : a.id ≡ id =
                ap (λ (b : PriceAlert). b.id) e ∙ ap (λ o. resolve_alert_id k o table) given in
              inl (given ∙ ap (λ n. some n) (sym same))
          | inl missing ↦
              let same : a.id ≡ next_numeric_id k table =
                ap (λ (b : PriceAlert). b.id) e ∙ ap (λ o. resolve_alert_id k o table) missing in
              inr (
                missing,
                get_document-fresh k a.id table
                    (next_numeric_id-Lacks k a.id table (omega (arith, same))),
              )
        ],
        rw e refl,
      )
