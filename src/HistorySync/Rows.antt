-- ===== src/HistorySync/Rows.antt =====
-- The upserts of raw transactions and of events (data/persistence/trade_store.py).
use oanda_v.Prelude.{
  ℕ, ◌+◌, ◌≡◌, refl, ap, subst, ◌∙◌, false, Option, none, some, List, [], ◌∷◌, length, Key, ◌==◌,
  test_cases, test_self, Option-cases, Bool-cases, inl, inr, if◌then◌else◌, All, All-map, arith,
}
use oanda_v.Prelude.Dict.{Dict, lookup, insert, lookup-insert}
use oanda_v.HistorySync.{Counts, no_rows, upsert_found, upsert_from, upsert_rows}

module _ {K C : Type 0} ⦃key : Key K⦄ ⦃content : Key C⦄ where
  -- The content of the last row of a key, or else what there was before.
  abbrev pub latest : K → List (K × C) → Option C → Option C
  latest k [] before = before
  latest k ((j, c) ∷ rows) before = latest k rows (if j == k then some c else before)

  length-insert_new :
      (k : K) (c : C) (table : Dict K C)
      → lookup k table ≡ none
      → length (insert k c table) ≡ length table + 1
  unfolding insert lookup
  length-insert_new k c [] h = refl
  length-insert_new k c ((j, d) ∷ table) h = elim (Bool-cases (j == k)) [
    | inl e ↦ let h' = rw e at h in absurd (cc)
    | inr e ↦ rw e (omega (arith, length-insert_new k c table (rw e at h)))
  ]

  length-insert_old :
      (k : K) (c d : C) (table : Dict K C)
      → lookup k table ≡ some d
      → length (insert k c table) ≡ length table
  unfolding insert lookup
  length-insert_old k c d [] h = absurd (cc)
  length-insert_old k c d ((j, x) ∷ table) h = elim (Bool-cases (j == k)) [
    | inl e ↦ rw e refl
    | inr e ↦ rw e (omega (arith, length-insert_old k c d table (rw e at h)))
  ]

  -- One round: the key has the content, and the other keys have what they had.
  upsert_found-lookup :
      (j k : K) (c : C) (n : Counts) (table : Dict K C)
      → lookup j (upsert_found (lookup k table) k c (n, table)).1
        ≡ (if k == j then some c else lookup j table)
  unfolding upsert_found
  upsert_found-lookup j k c n table = elim (Option-cases (lookup k table)) [
    | inl l ↦ rw l (lookup-insert j k c table)
    | inr (x, l) ↦ elim (test_cases x c) [
      | inr (f, _) ↦ rw l (rw f (lookup-insert j k c table))
      | inl (t, p) ↦ rw l (
          rw t (elim (test_cases k j) [
            | inl (t', p') ↦ rw t' (subst (λ y. lookup y table ≡ some c) p' (l ∙ ap some p))
            | inr (f', _) ↦ rw f' refl
          ]))
    ]
  ]

  upsert_found-counts :
      (k : K) (c : C) (n : Counts) (table : Dict K C)
      → ((upsert_found (lookup k table) k c (n, table)).0.seen ≡ n.seen + 1)
        × (length (upsert_found (lookup k table) k c (n, table)).1 + n.inserted
            ≡ length table + (upsert_found (lookup k table) k c (n, table)).0.inserted)
  unfolding upsert_found
  upsert_found-counts k c n table = elim (Option-cases (lookup k table)) [
    | inl l ↦ rw l (refl, omega (arith, length-insert_new k c table l))
    | inr (x, l) ↦ elim (Bool-cases (x == c)) [
      | inl t ↦ rw l (rw t (refl, refl))
      | inr t ↦ rw l (rw t (refl, omega (arith, length-insert_old k c x table l)))
    ]
  ]

  upsert_from-lookup :
      (j : K) (rows : List (K × C)) (n : Counts) (table : Dict K C)
      → lookup j (upsert_from rows (n, table)).1 ≡ latest j rows (lookup j table)
  unfolding upsert_from
  upsert_from-lookup j [] n table = refl
  upsert_from-lookup j ((k, c) ∷ rows) n table =
      let s = upsert_found (lookup k table) k c (n, table) in
      upsert_from-lookup j rows s.0 s.1 ∙ ap (latest j rows) (upsert_found-lookup j k c n table)

  upsert_from-counts :
      (rows : List (K × C)) (n : Counts) (table : Dict K C)
      → ((upsert_from rows (n, table)).0.seen ≡ n.seen + length rows)
        × (length (upsert_from rows (n, table)).1 + n.inserted
            ≡ length table + (upsert_from rows (n, table)).0.inserted)
  unfolding upsert_from
  upsert_from-counts [] n table = (omega arith, refl)
  upsert_from-counts ((k, c) ∷ rows) n table =
      let s = upsert_found (lookup k table) k c (n, table) in
      let (a, b) = upsert_found-counts k c n table in
      let (a', b') = upsert_from-counts rows s.0 s.1 in (omega (arith, a, a'), omega (arith, b, b'))

  -- Rows that the table has are counted as seen, and change nothing.
  upsert_from-known :
      (rows : List (K × C)) (n : Counts) (m : ℕ) (table : Dict K C)
      → m ≡ n.seen + length rows
      → All (λ (r : K × C). lookup r.0 table ≡ some r.1) rows
      → upsert_from rows (n, table) ≡ (record n { seen = m }, table)
  unfolding upsert_from upsert_found
  upsert_from-known [] n m table e h =
      let e' : n.seen ≡ m = omega (arith, e) in ap (λ x. (record n { seen = x }, table)) e'
  upsert_from-known ((k, c) ∷ rows) n m table e (l, h) = rw l (
      rw (test_self c)
        (upsert_from-known rows (record n { seen = n.seen + 1 }) m table (omega (arith, e)) h))

  -- No two rows have one key.
  abbrev pub HasKeys : List (K × C) → Type 0
  HasKeys [] = Unit
  HasKeys ((k, c) ∷ rows) = All (λ (r : K × C). (r.0 == k) ≡ false) rows × HasKeys rows

  latest-absent :
      (k : K) (rows : List (K × C)) (before : Option C)
      → All (λ (r : K × C). (r.0 == k) ≡ false) rows
      → latest k rows before ≡ before
  latest-absent k [] before h = refl
  latest-absent k ((j, c) ∷ rows) before (f, h) = rw f (latest-absent k rows before h)

  latest-stored :
      (rows : List (K × C)) (before : K → Option C)
      → HasKeys rows
      → All (λ (r : K × C). latest r.0 rows (before r.0) ≡ some r.1) rows
  latest-stored [] before h = tt
  latest-stored ((k, c) ∷ rows) before (f, h) = (
    rw (test_self k) (latest-absent k rows (some c) f),
    latest-stored rows (λ x. if k == x then some c else before x) h,
  )

  pub lookup-upsert_rows :
      (j : K) (rows : List (K × C)) (table : Dict K C)
      → lookup j (upsert_rows rows table).1 ≡ latest j rows (lookup j table)
  lookup-upsert_rows j rows table = upsert_from-lookup j rows no_rows table

  -- After an upsert of rows with different keys every key has the content of its row, or else
  -- what it had. All the rows are seen, the table grows by the number of inserted ones, and the
  -- same rows, given again, are all seen, and change nothing, and none of them is inserted or
  -- updated.
  pub upsert_rows-Stores :
      (rows : List (K × C)) (table : Dict K C)
      → HasKeys rows
      → ((j : K) → lookup j (upsert_rows rows table).1 ≡ latest j rows (lookup j table))
        × ((upsert_rows rows table).0.seen ≡ length rows)
        × (length (upsert_rows rows table).1 ≡ length table + (upsert_rows rows table).0.inserted)
        × (upsert_rows rows (upsert_rows rows table).1 ≡ (
          record { seen = length rows; inserted = 0; updated = 0 },
          (upsert_rows rows table).1,
        ))
  upsert_rows-Stores rows table h =
      let (a, b) = upsert_from-counts rows no_rows table in
      (
        (λ j. lookup-upsert_rows j rows table),
        omega (arith, a),
        omega (arith, b),
        upsert_from-known rows no_rows (length rows) (upsert_rows rows table).1 (omega arith) (
            All-map (λ (r : K × C) e. lookup-upsert_rows r.0 rows table ∙ e) rows
              (latest-stored rows (λ k. lookup k table) h)),
      )
