-- ===== src/Alerts.antt =====
-- The alert tables of `TradeStore` (data/persistence/trade_store.py). The same methods are
-- written out there for price, indicator and time alerts; here they are functions of the kind of
-- alert. A table is the list of its documents, in the order of TinyDB's document ids. Writes to
-- the disk succeed, so what a write raises comes from the contracts, and is raised as a
-- PersistenceWriteError.
mod Tests
pub mod Tables
pub mod Price
pub mod Indicator
pub mod Timed
pub mod Fields
pub mod Following
pub mod Fresh
use oanda_v.Prelude.{
  ℕ, ◌+◌, ◌≡◌, Bool, true, false, Option, none, some, List, [], ◌∷◌, ◌++◌, nat_key, ◌==◌, leb, all,
  filter, if◌then◌else◌, Result, ok, raise, Error,
}
use oanda_v.Prelude.Results.{◌>>=◌, ◌>>◌}
use oanda_v.Prelude.Sorting.{sort_by}

-- What the methods ask of a kind of alert: its id, and the validation of its contract.
pub record Kind (A : Type 0) : Type 0 where
  pub id_of : A → ℕ
  pub validate : A → Result (Unit {0})

abbrev pub is_ok : Result (Unit {0}) → Bool
is_ok (ok _) = true
is_ok (raise _) = false

module _ {A : Type 0} (k : Kind A) where
  abbrev pub is_valid : A → Bool
  is_valid a = is_ok (k.validate a)

  -- `_find_alert_document`
  unfoldable pub find_document : ℕ → List A → Option A
  find_document alert_id [] = none
  find_document alert_id (a ∷ table) =
      if k.id_of a == alert_id then some a else find_document alert_id table

  -- `insert`, or `update` of the document that was found under the id.
  unfoldable pub put_document : A → List A → List A
  put_document a [] = a ∷ []
  put_document a (b ∷ table) =
      let rest = put_document a table in if k.id_of b == k.id_of a then a ∷ table else b ∷ rest

  unfoldable pub max_id : List A → ℕ
  max_id [] = 0
  max_id (a ∷ table) = let rest = max_id table in if leb rest (k.id_of a) then k.id_of a else rest

  -- `_next_numeric_id`
  abbrev pub next_numeric_id : List A → ℕ
  next_numeric_id table = max_id table + 1

  -- `_resolve_alert_id_locked`
  abbrev pub resolve_alert_id : Option ℕ → List A → ℕ
  resolve_alert_id none table = next_numeric_id table
  resolve_alert_id (some alert_id) table = alert_id

  -- A write: an invalid record is not written.
  unfoldable pub write_checked : Result (Unit {0}) → A → List A → Result (A × List A)
  write_checked (raise _) a table = raise Error.persistence_error
  write_checked (ok _) a table = ok (a, put_document a table)

  abbrev pub write_document : A → List A → Result (A × List A)
  write_document a table = write_checked (k.validate a) a table

  -- A read: an invalid record is a warning and a missing one.
  unfoldable pub read_found : Option A → Option A
  read_found none = none
  read_found (some a) = if is_valid a then some a else none

  abbrev pub get_document : ℕ → List A → Option A
  get_document alert_id table = read_found (find_document alert_id table)

  -- Documents that pass a filter, by id. One invalid record among them empties the answer.
  unfoldable pub list_documents : (A → Bool) → List A → List A
  list_documents selected table =
      let records = filter selected table in
      if all is_valid records then sort_by k.id_of records else []

  -- A method that changes one alert: it is validated, and written over the old one.
  unfoldable pub rewrite : Option A → (A → A) → List A → Result (Option A × List A)
  rewrite none change table = ok (none, table)
  rewrite (some existing) change table = do
    k.validate (change existing)
    (stored, written) ← write_document (change existing) table
    ok (some stored, written)

  -- One document of the loop below, by the rest of it.
  unfoldable pub update_checked :
      Result (Unit {0}) → A → Result (List A × List A) → Result (List A × List A)
  update_checked (raise _) a rest = raise Error.persistence_error
  update_checked (ok _) a rest = rest >>= λ r. ok (a ∷ r.0, a ∷ r.1)

  -- The loop of an `updater` that changes the selected documents. It raises before anything is
  -- written. The first list has the changed documents.
  unfoldable pub update_documents : (A → Bool) → (A → A) → List A → Result (List A × List A)
  update_documents selected change [] = ok ([], [])
  update_documents selected change (a ∷ table) =
      let rest = update_documents selected change table in
      if selected a
      then update_checked (k.validate (change a)) (change a) rest
      else (rest >>= λ r. ok (r.0, a ∷ r.1))

  -- An update of the selected documents in one write, with the changed ones by id.
  unfoldable pub cancel_documents : (A → Bool) → (A → A) → List A → Result (List A × List A)
  cancel_documents selected change table = do
    (changed, written) ← update_documents selected change table
    ok (sort_by k.id_of changed, written)
