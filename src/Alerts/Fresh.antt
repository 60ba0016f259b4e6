-- ===== src/Alerts/Fresh.antt =====
-- New documents of an alert table, with consecutive ids, for every kind of alert
-- (data/persistence/trade_store.py).
use oanda_v.Prelude.{ℕ, ◌+◌, ◌≤◌, ◌<◌, ◌≡◌, List, [], ◌∷◌, ◌++◌, nat_key, All, All-map, arith}
use oanda_v.Prelude.Sorting.{IsSortedBy}
use oanda_v.Alerts.{Kind, next_numeric_id}
use oanda_v.Alerts.Tables.{IsTable, IsTable-append, Lacks, IsContract, max_id-le}

module _ {A : Type 0} (k : Kind A) where
  -- The documents have ids from `next_id` on.
  abbrev pub HasIds : ℕ → List A → Type 0
  HasIds next_id [] = Unit
  HasIds next_id (a ∷ created) = (k.id_of a ≡ next_id) × HasIds (next_id + 1) created

  pub HasIds-Lacks : (m n : ℕ) (created : List A) → m < n → HasIds n created → Lacks k m created
  HasIds-Lacks m n [] l h = tt
  HasIds-Lacks m n (a ∷ created) l (e, h) =
      ((let e' = e in ground arith), HasIds-Lacks m (n + 1) created (omega arith) h)

  ids_grow :
      (m n : ℕ) (created : List A) → m ≤ n → HasIds n created → All (λ a. m ≤ k.id_of a) created
  ids_grow m n [] l h = tt
  ids_grow m n (a ∷ created) l (e, h) =
      (omega (arith, e), ids_grow m (n + 1) created (omega arith) h)

  pub HasIds-IsSortedBy : (n : ℕ) (created : List A) → HasIds n created → IsSortedBy k.id_of created
  HasIds-IsSortedBy n [] h = tt
  HasIds-IsSortedBy n (a ∷ created) (e, h) = (
    ids_grow (k.id_of a) (n + 1) created (omega (arith, e)) h,
    HasIds-IsSortedBy (n + 1) created h,
  )

  pub HasIds-IsTable :
      (n : ℕ) (created : List A) → All (IsContract k) created → HasIds n created → IsTable k created
  HasIds-IsTable n [] v h = tt
  HasIds-IsTable n (a ∷ created) (v, vs) (e, h) = (
    v,
    HasIds-Lacks (k.id_of a) (n + 1) created (omega (arith, e)) h,
    HasIds-IsTable (n + 1) created vs h,
  )

  -- No new document has the id of an old one.
  pub old_ids :
      (table created : List A)
      → HasIds (next_numeric_id k table) created
      → All (λ a. Lacks k (k.id_of a) created) table
  old_ids table created ids =
      All-map (λ a l. HasIds-Lacks (k.id_of a) (next_numeric_id k table) created (omega arith) ids)
        table (max_id-le k table)

  -- New documents at the end of a well-formed table.
  pub fresh-IsTable :
      (table created : List A)
      → IsTable k table
      → All (IsContract k) created
      → HasIds (next_numeric_id k table) created
      → IsTable k (table ++ created)
  fresh-IsTable table created h v ids =
      IsTable-append k table created h (HasIds-IsTable (next_numeric_id k table) created v ids)
        (old_ids table created ids)
