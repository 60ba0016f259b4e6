-- ===== src/Alerts/Price/Grid.antt =====
-- Replacing the grid of price alerts of a chat (`replace_price_alert_grid`,
-- data/persistence/trade_store.py).
use mathlib.Core.Option
use mathlib.Core.Path.{fun_ext}
use oanda_v.Prelude.{
  ℕ, ◌∙◌, ◌++◌, ◌+◌, ◌<◌, ◌≡◌, filter, refl, sym, ◌∙◌, subst, String, Bool, true, false, none, some,
  List, ◌&&◌, ◌==◌, if◌then◌else◌, [], ◌∷◌, map, nat_key, string_key, test_self, inl, inr, ok, All,
  Bool-cases, arith,
}
use oanda_v.Prelude.Int.{ℤ, int_key}
use oanda_v.Prelude.Results.{Result-cases}
use oanda_v.Prelude.Sorting.{sort_by, sort_by-sorted}
use oanda_v.Prelude.Dict.{or_else}
use oanda_v.CandlePolicy.{Time}
use oanda_v.Instruments.{get_instrument_spec}
use oanda_v.Alerts.{find_document, list_documents, update_documents, next_numeric_id}
use oanda_v.Alerts.Fields.{AlertStatus, is_pending}
use oanda_v.Alerts.Tables.{
  All-changed, IsContract, IsTable, IsTable-append, find_document-append, list_documents-valid,
  Lacks, contracts, update_documents-valid, changed-IsTable, change_at, find_document-changed,
}
use oanda_v.Alerts.Price.Cancelling.{cancelled-IsContract}
use oanda_v.Alerts.Fresh.{HasIds, HasIds-Lacks, HasIds-IsSortedBy, HasIds-IsTable, old_ids}
use oanda_v.Alerts.Price.{
  PriceAlert, PriceAlertPayload, validate_price_alert, price_kind, create_grid, create_checked,
  grid_alert, replace_price_alert_grid, cancelled_price_alert, is_selected,
}

module _ (live : String → Bool) (now : Time) (chat_id : ℤ) (instrument : String) where
  -- What the new alerts are.
  abbrev pub IsGrid : ℕ → List PriceAlertPayload → List PriceAlert → Type 0
  IsGrid n [] [] = Unit
  IsGrid n [] (a ∷ created) = ⊥
  IsGrid n (p ∷ payloads) [] = ⊥
  IsGrid n (p ∷ payloads) (a ∷ created) =
      (a ≡ record {
        id = n;
        instrument = instrument;
        target_price = p.target_price;
        direction = p.direction;
        status = AlertStatus.pending;
        armed = false;
        chat_id = chat_id;
        notes = p.notes;
        created_at = or_else now p.created_at;
        fired_at = none;
      })
      × (validate_price_alert live a ≡ ok tt)
      × IsGrid (n + 1) payloads created

  create_grid-IsGrid :
      (n : ℕ) (payloads : List PriceAlertPayload) (created : List PriceAlert)
      → create_grid live now chat_id instrument n payloads ≡ ok created
      → IsGrid n payloads created
  unfolding create_grid create_checked
  create_grid-IsGrid n [] [] h = tt
  create_grid-IsGrid n [] (a ∷ created) h = absurd (cc)
  create_grid-IsGrid n (p ∷ payloads) created h =
      elim (Result-cases (validate_price_alert live (grid_alert live now chat_id instrument n p))) [
        | inr (x, v) ↦ let h' = rw v at h in absurd (cc)
        | inl (tt, v) ↦
            elim (Result-cases (create_grid live now chat_id instrument (n + 1) payloads)) [
              | inr (x, r) ↦ let h' = rw (v, r) at h in absurd (cc)
              | inl (rest, r) ↦
                  let h' : grid_alert live now chat_id instrument n p ∷ rest ≡ created =
                    cc (rw (v, r) at h) in
                  subst (IsGrid n (p ∷ payloads)) h'
                    (refl, v, create_grid-IsGrid (n + 1) payloads rest r)
            ]
      ]

  IsGrid-HasIds :
      (n : ℕ) (payloads : List PriceAlertPayload) (created : List PriceAlert)
      → IsGrid n payloads created
      → HasIds (price_kind live) n created
  IsGrid-HasIds n [] [] g = tt
  IsGrid-HasIds n [] (a ∷ created) g = elim g [ ]
  IsGrid-HasIds n (p ∷ payloads) [] g = elim g [ ]
  IsGrid-HasIds n (p ∷ payloads) (a ∷ created) (e, _, g) =
      (rw e refl, IsGrid-HasIds (n + 1) payloads created g)

  IsGrid-contracts :
      (n : ℕ) (payloads : List PriceAlertPayload) (created : List PriceAlert)
      → IsGrid n payloads created
      → All (IsContract (price_kind live)) created
  IsGrid-contracts n [] [] g = tt
  IsGrid-contracts n [] (a ∷ created) g = elim g [ ]
  IsGrid-contracts n (p ∷ payloads) [] g = elim g [ ]
  IsGrid-contracts n (p ∷ payloads) (a ∷ created) (_, v, g) =
      (v, IsGrid-contracts (n + 1) payloads created g)

  -- The pending alerts of the grid: those of the chat for the instrument.
  abbrev pub of_grid : PriceAlert → Bool
  of_grid a = a.chat_id == chat_id && (is_pending a.status && a.instrument == instrument)

  selected-of_grid :
      (a : PriceAlert)
      → is_selected live chat_id (some instrument) (AlertStatus.pending ∷ []) a ≡ of_grid a
  selected-of_grid a = elim (Bool-cases (a.chat_id == chat_id)) [
    | inl e ↦ elim (Bool-cases (is_pending a.status)) [
      | inl f ↦ rw (e, f) refl
      | inr f ↦ rw (e, f) refl
    ]
    | inr e ↦ rw e refl
  ]

  not_of_grid : (a : PriceAlert) → of_grid (cancelled_price_alert live a) ≡ false
  not_of_grid a = ground arith

  created_of_grid :
      (n : ℕ) (p : PriceAlertPayload) → of_grid (grid_alert live now chat_id instrument n p) ≡ true
  created_of_grid n p = rw (test_self chat_id, test_self instrument) refl

  IsGrid-filter :
      (n : ℕ) (payloads : List PriceAlertPayload) (created : List PriceAlert)
      → IsGrid n payloads created
      → filter of_grid created ≡ created
  IsGrid-filter n [] [] g = refl
  IsGrid-filter n [] (a ∷ created) g = elim g [ ]
  IsGrid-filter n (p ∷ payloads) [] g = elim g [ ]
  IsGrid-filter n (p ∷ payloads) (a ∷ created) (e, v, g) =
      rw (e, created_of_grid n p, IsGrid-filter (n + 1) payloads created g) refl

  -- What is kept of the table has no pending alert of the grid.
  filter-cancelled :
      (table : List PriceAlert)
      → filter of_grid (map (change_at of_grid (cancelled_price_alert live)) table) ≡ []
  filter-cancelled [] = refl
  filter-cancelled (a ∷ table) = elim (Bool-cases (of_grid a)) [
    | inl e ↦ rw e (rw (not_of_grid a) (filter-cancelled table))
    | inr e ↦ rw e (rw e (filter-cancelled table))
  ]

  filter-append :
      (us vs : List PriceAlert) → filter of_grid (us ++ vs) ≡ filter of_grid us ++ filter of_grid vs
  filter-append [] vs = refl
  filter-append (a ∷ us) vs = elim (Bool-cases (of_grid a)) [
    | inl e ↦ rw e (rw (filter-append us vs) refl)
    | inr e ↦ rw e (filter-append us vs)
  ]

  cancel_grid :
      (table : List PriceAlert)
      → IsTable (price_kind live) table
      → update_documents
          (price_kind live)
          (is_selected live chat_id (some instrument) (AlertStatus.pending ∷ []))
          (cancelled_price_alert live)
          table
        ≡ ok (
          map (cancelled_price_alert live) (filter of_grid table),
          map (change_at of_grid (cancelled_price_alert live)) table,
        )
  cancel_grid table h =
      subst
        (λ selected.
          update_documents (price_kind live) selected (cancelled_price_alert live) table
          ≡ ok (
            map (cancelled_price_alert live) (filter of_grid table),
            map (change_at of_grid (cancelled_price_alert live)) table,
          ))
        (sym (fun_ext selected-of_grid))
        (update_documents-valid (price_kind live) of_grid (cancelled_price_alert live) (λ a. refl)
          (cancelled-IsContract live) table (contracts (price_kind live) table h))

  -- What a replacement that succeeds has stored.
  pub replace_price_alert_grid_inv :
      (payloads : List PriceAlertPayload) (created table table' : List PriceAlert)
      → IsTable (price_kind live) table
      → replace_price_alert_grid live now chat_id instrument payloads table ≡ ok (created, table')
      → IsGrid (next_numeric_id (price_kind live) table) payloads created
        × (table' ≡ map (change_at of_grid (cancelled_price_alert live)) table ++ created)
  unfolding replace_price_alert_grid
  replace_price_alert_grid_inv payloads created table table' h r =
      elim (Result-cases (get_instrument_spec instrument)) [
        | inr (x, s) ↦ let r' = rw s at r in absurd (cc)
        | inl (spec, s) ↦
            elim (Result-cases (
              create_grid live now chat_id instrument (next_numeric_id (price_kind live) table)
                payloads)) [
                  | inr (x, c) ↦ let r' = rw (s, cancel_grid table h, c) at r in absurd (cc)
                  | inl (new, c) ↦
                      let g =
                        create_grid-IsGrid (next_numeric_id (price_kind live) table) payloads new
                          c in
                      let r' =
                        rw
                          (
                            s,
                            cancel_grid table h,
                            c,
                            sort_by-sorted (λ (a : PriceAlert). a.id) new
                                (HasIds-IsSortedBy (price_kind live) _ new
                                  (IsGrid-HasIds _ payloads new g)),
                          )
                          at r in
                      let e : new ≡ created = cc in
                      (subst (IsGrid (next_numeric_id (price_kind live) table) payloads) e g, cc)
                ]
      ]

  -- A replacement that succeeds keeps a well-formed table well-formed. The pending alerts that
  -- the chat then has for the instrument are exactly the created ones, one for each payload, valid,
  -- with fresh ids and with what the payload says. An id of the old table has the alert that it had,
  -- cancelled if it was a pending one of the chat for the instrument, and else as it was.
  pub replace_price_alert_grid-IsGrid :
      (payloads : List PriceAlertPayload) (created table table' : List PriceAlert) (n : ℕ)
      → IsTable (price_kind live) table
      → replace_price_alert_grid live now chat_id instrument payloads table ≡ ok (created, table')
      → n < next_numeric_id (price_kind live) table
      → IsTable (price_kind live) table'
        × (list_documents (price_kind live) of_grid table' ≡ created)
        × IsGrid (next_numeric_id (price_kind live) table) payloads created
        × (find_document (price_kind live) n table'
            ≡ Option.map
                (λ (a : PriceAlert).
                  if of_grid a
                  then record a { status = AlertStatus.cancelled; armed = false; fired_at = none }
                  else a)
                (find_document (price_kind live) n table))
  replace_price_alert_grid-IsGrid payloads created table table' n h r l =
      let k = price_kind live in
      let cancel = cancelled_price_alert live in
      let next = next_numeric_id k table in
      let (g, e) = replace_price_alert_grid_inv payloads created table table' h r in
      let ids = IsGrid-HasIds next payloads created g in
      let kept = changed-IsTable k of_grid cancel (λ a. refl) (cancelled-IsContract live) table h in
      let whole : IsTable k table' = subst (IsTable k) (sym e) (
        IsTable-append k _ created kept
          (HasIds-IsTable k next created (IsGrid-contracts next payloads created g) ids)
          (All-changed k of_grid cancel (λ a. refl) (cancelled-IsContract live)
            (λ n. Lacks k n created) table (old_ids k table created ids))) in
      let filtered : filter of_grid table' ≡ created =
        rw (e, filter-append (map (change_at of_grid cancel) table) created, filter-cancelled table)
          (IsGrid-filter next payloads created g) in
      let listed : sort_by (λ (a : PriceAlert). a.id) (filter of_grid table') ≡ created =
        rw filtered (
          sort_by-sorted (λ (a : PriceAlert). a.id) created
            (HasIds-IsSortedBy k next created ids)) in
      (
        whole,
        list_documents-valid k of_grid table' whole ∙ listed,
        g,
        rw e (
            find_document-append k n _ created (HasIds-Lacks k n next created l ids)
            ∙ find_document-changed k of_grid cancel (λ a. refl) (cancelled-IsContract live) n
                table),
      )
