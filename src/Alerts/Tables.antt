-- ===== src/Alerts/Tables.antt =====
-- The laws of an alert table, for every kind of alert (data/persistence/trade_store.py).
use mathlib.Core.Option
use oanda_v.Prelude.{
  ℕ, ◌≤◌, ◌<◌, ◌≡◌, refl, sym, subst, Bool, true, false, Option, none, some, List, [], ◌∷◌, ◌++◌,
  map, nat_key, ◌==◌, test_cases, leb, leb→le, leb_false→lt, Bool-cases, Option-cases, inl, inr,
  ◌⊎◌, all, filter, if◌then◌else◌, ok, All, All-map, All-append, arith,
}
use oanda_v.Prelude.Results.{Result-cases}
use oanda_v.Prelude.Sorting.{sort_by}
use oanda_v.Alerts.{
  Kind, find_document, put_document, write_checked, read_found, update_checked, max_id,
  next_numeric_id, write_document, get_document, list_documents, rewrite, update_documents,
  is_valid,
}

-- A change of what is selected.
abbrev pub change_at : {A : Type 0} → (A → Bool) → (A → A) → A → A
change_at selected change a = if selected a then change a else a

module _ {A : Type 0} (k : Kind A) where
  abbrev pub IsContract : A → Type 0
  IsContract a = k.validate a ≡ ok tt

  -- No document of the table has the id.
  abbrev pub Lacks : ℕ → List A → Type 0
  Lacks n table = All (λ a. (k.id_of a == n) ≡ false) table

  -- The documents keep their contract, and have different ids.
  abbrev pub IsTable : List A → Type 0
  IsTable [] = Unit
  IsTable (a ∷ table) = IsContract a × Lacks (k.id_of a) table × IsTable table

  pub put_document-Lacks :
      (n : ℕ) (a : A) (table : List A)
      → (k.id_of a == n) ≡ false
      → Lacks n table
      → Lacks n (put_document k a table)
  unfolding put_document
  put_document-Lacks n a [] f l = (f, tt)
  put_document-Lacks n a (b ∷ table) f (g, l) = elim (Bool-cases (k.id_of b == k.id_of a)) [
    | inl e ↦ rw e (f, l)
    | inr e ↦ rw e (g, put_document-Lacks n a table f l)
  ]

  flip : (m n : ℕ) → (m == n) ≡ false → (n == m) ≡ false
  flip m n h = ground arith

  pub put_document-IsTable :
      (a : A) (table : List A) → IsContract a → IsTable table → IsTable (put_document k a table)
  unfolding put_document
  put_document-IsTable a [] valid h = (valid, tt, tt)
  put_document-IsTable a (b ∷ table) valid (valid', l, h) =
      elim (test_cases (k.id_of b) (k.id_of a)) [
        | inl (e, p) ↦ rw e (valid, subst (λ n. Lacks n table) p l, h)
        | inr (e, _) ↦ rw e (
          valid',
          put_document-Lacks (k.id_of b) a table (flip (k.id_of b) (k.id_of a) e) l,
          put_document-IsTable a table valid h,
        )
      ]

  pub find_document-put :
      (n : ℕ) (a : A) (table : List A)
      → find_document k n (put_document k a table)
        ≡ (if k.id_of a == n then some a else find_document k n table)
  unfolding find_document put_document
  find_document-put n a [] = refl
  find_document-put n a (b ∷ table) = ground (arith, find_document-put n a table)

  -- A document that is found has the id, and keeps its contract.
  pub find_document-IsContract :
      (n : ℕ) (a : A) (table : List A)
      → IsTable table
      → find_document k n table ≡ some a
      → (k.id_of a ≡ n) × IsContract a
  unfolding find_document
  find_document-IsContract n a [] h found = cc
  find_document-IsContract n a (b ∷ table) (valid, _, h) found = elim (test_cases (k.id_of b) n) [
    | inl (e, p) ↦
        let same : b ≡ a = cc (rw e at found) in
        (subst (λ x. k.id_of x ≡ n) same p, subst IsContract same valid)
    | inr (e, _) ↦ find_document-IsContract n a table h (rw e at found)
  ]

  pub get_document-found :
      (n : ℕ) (table : List A) → IsTable table → get_document k n table ≡ find_document k n table
  unfolding read_found
  get_document-found n table h = elim (Option-cases (find_document k n table)) [
    | inl e ↦ rw e refl
    | inr (a, e) ↦ let (_, valid) = find_document-IsContract n a table h e in rw (e, valid) refl
  ]

  max_id-cons :
      (a : A) (table : List A)
      → (k.id_of a ≤ max_id k (a ∷ table)) × (max_id k table ≤ max_id k (a ∷ table))
  unfolding max_id
  max_id-cons a table = ground arith

  pub max_id-le : (table : List A) → All (λ a. k.id_of a ≤ max_id k table) table
  max_id-le [] = tt
  max_id-le (a ∷ table) =
      let (first, rest) = max_id-cons a table in
      (first, All-map (λ b l. omega arith) table (max_id-le table))

  -- The next id is larger than every id of the table.
  pub next_numeric_id-Lacks : (n : ℕ) (table : List A) → next_numeric_id k table ≤ n → Lacks n table
  next_numeric_id-Lacks n table h = All-map (λ a l. ground arith) table (max_id-le table)

  pub find_document-Lacks :
      (n : ℕ) (table : List A) → Lacks n table → find_document k n table ≡ none
  unfolding find_document
  find_document-Lacks n [] l = refl
  find_document-Lacks n (a ∷ table) (f, l) = rw f (find_document-Lacks n table l)

  -- An id that is found is below the next one.
  pub found-below :
      (n : ℕ) (a : A) (table : List A)
      → find_document k n table ≡ some a
      → n < next_numeric_id k table
  found-below n a table h = elim (Bool-cases (leb (next_numeric_id k table) n)) [
    | inr f ↦ leb_false→lt _ _ f
    | inl t ↦
        let missing = find_document-Lacks n table (next_numeric_id-Lacks n table (leb→le _ _ t)) in
        absurd (cc)
  ]

  pub write_document-valid :
      (a : A) (table : List A)
      → IsContract a
      → write_document k a table ≡ ok (a, put_document k a table)
  unfolding write_checked
  write_document-valid a table h = rw h refl

  pub rewrite-valid :
      (a : A) (change : A → A) (table : List A)
      → IsContract (change a)
      → rewrite k (some a) change table ≡ ok (some (change a), put_document k (change a) table)
  unfolding rewrite write_checked
  rewrite-valid a change table h = rw h refl

  -- What a write returns is what it has stored, and its contract holds.
  pub write_document_inv :
      (a b : A) (table table' : List A)
      → write_document k a table ≡ ok (b, table')
      → IsContract a × (b ≡ a) × (table' ≡ put_document k a table)
  unfolding write_checked
  write_document_inv a b table table' h = elim (Result-cases (k.validate a)) [
    | inl (tt, e) ↦ let h' = rw e at h in (e, cc, cc)
    | inr (x, e) ↦ let h' = rw e at h in absurd (cc)
  ]

  -- What a table answers after a write.
  pub get_document-put :
      (n : ℕ) (a : A) (table : List A)
      → IsContract a
      → get_document k n (put_document k a table)
        ≡ (if k.id_of a == n then some a else get_document k n table)
  unfolding read_found
  get_document-put n a table v =
      rw (find_document-put n a table)
        (elim (Bool-cases (k.id_of a == n)) [ inl e ↦ rw e (rw v refl) | inr e ↦ rw e refl ])

  pub get_document-fresh : (n : ℕ) (table : List A) → Lacks n table → get_document k n table ≡ none
  unfolding read_found
  get_document-fresh n table l = rw (find_document-Lacks n table l) refl

  pub rewrite_inv :
      (o : Option A) (change : A → A) (table : List A) (b : Option A) (table' : List A)
      → rewrite k o change table ≡ ok (b, table')
      → (o ≡ none) × (b ≡ none) × (table' ≡ table)
        ⊎ ((a : A) × (o ≡ some a)
            × (b ≡ some (change a))
            × IsContract (change a)
            × (table' ≡ put_document k (change a) table))
  unfolding rewrite write_checked
  rewrite_inv none change table b table' h = inl (refl, cc, cc)
  rewrite_inv (some a) change table b table' h = elim (Result-cases (k.validate (change a))) [
    | inl (tt, e) ↦ let h' = rw e at h in inr (a, refl, cc, e, cc)
    | inr (x, e) ↦ let h' = rw e at h in absurd (cc)
  ]

  pub find_document-append :
      (n : ℕ) (us vs : List A) → Lacks n vs → find_document k n (us ++ vs) ≡ find_document k n us
  unfolding find_document
  find_document-append n [] vs l = find_document-Lacks n vs l
  find_document-append n (a ∷ us) vs l = elim (Bool-cases (k.id_of a == n)) [
    | inl e ↦ rw e refl
    | inr e ↦ rw e (find_document-append n us vs l)
  ]

  pub IsTable-append :
      (us vs : List A)
      → IsTable us
      → IsTable vs
      → All (λ a. Lacks (k.id_of a) vs) us
      → IsTable (us ++ vs)
  IsTable-append [] vs h h' l = h'
  IsTable-append (a ∷ us) vs (v, l', h) h' (l, ls) =
      (v, All-append _ us vs l' l, IsTable-append us vs h h' ls)

  all_valid : (table : List A) → All IsContract table → all (is_valid k) table ≡ true
  all_valid [] h = refl
  all_valid (a ∷ table) (v, h) = rw v (all_valid table h)

  pub contracts : (table : List A) → IsTable table → All IsContract table
  contracts [] h = tt
  contracts (a ∷ table) (v, _, h) = (v, contracts table h)

  filter_contracts :
      (p : A → Bool) (table : List A) → All IsContract table → All IsContract (filter p table)
  filter_contracts p [] h = tt
  filter_contracts p (a ∷ table) (v, h) = elim (Bool-cases (p a)) [
    | inl e ↦ rw e (v, filter_contracts p table h)
    | inr e ↦ rw e (filter_contracts p table h)
  ]

  -- The documents of a valid table that pass the filter are listed, by id.
  pub list_documents-valid :
      (p : A → Bool) (table : List A)
      → IsTable table
      → list_documents k p table ≡ sort_by k.id_of (filter p table)
  unfolding list_documents
  list_documents-valid p table h =
      rw (all_valid (filter p table) (filter_contracts p table (contracts table h))) refl

module _ {A : Type 0} (k : Kind A) (selected : A → Bool) (change : A → A)
    (keeps_id : (a : A) → k.id_of (change a) ≡ k.id_of a)
    (keeps_contract : (a : A) → k.validate a ≡ ok tt → k.validate (change a) ≡ ok tt) where
  -- A change that keeps ids and contracts is made at each selected document, and at no other.
  pub update_documents-valid :
      (table : List A)
      → All (IsContract k) table
      → update_documents k selected change table
        ≡ ok (map change (filter selected table), map (change_at selected change) table)
  unfolding update_documents update_checked
  update_documents-valid [] h = refl
  update_documents-valid (a ∷ table) (v, h) = elim (Bool-cases (selected a)) [
    | inl e ↦ rw (e, keeps_contract a v, update_documents-valid table h) refl
    | inr e ↦ rw (e, update_documents-valid table h) refl
  ]

  changed_at-id : (a : A) → k.id_of (change_at selected change a) ≡ k.id_of a
  changed_at-id a = elim (Bool-cases (selected a)) [ inl e ↦ rw e (keeps_id a) | inr e ↦ rw e refl ]

  changed_at-IsContract : (a : A) → IsContract k a → IsContract k (change_at selected change a)
  changed_at-IsContract a v = elim (Bool-cases (selected a)) [
    | inl e ↦ rw e (keeps_contract a v)
    | inr e ↦ rw e v
  ]

  pub All-changed :
      (P : ℕ → Type 0) (table : List A)
      → All (λ a. P (k.id_of a)) table
      → All (λ a. P (k.id_of a)) (map (change_at selected change) table)
  All-changed P [] h = tt
  All-changed P (a ∷ table) (p, h) = (subst P (sym (changed_at-id a)) p, All-changed P table h)

  changed-Lacks :
      (n : ℕ) (table : List A) → Lacks k n table → Lacks k n (map (change_at selected change) table)
  changed-Lacks n table l = All-changed (λ m. (m == n) ≡ false) table l

  pub changed-IsTable :
      (table : List A) → IsTable k table → IsTable k (map (change_at selected change) table)
  changed-IsTable [] h = tt
  changed-IsTable (a ∷ table) (v, l, h) = (
    changed_at-IsContract a v,
    subst (λ n. Lacks k n (map (change_at selected change) table)) (sym (changed_at-id a))
        (changed-Lacks (k.id_of a) table l),
    changed-IsTable table h,
  )

  -- An id still has its document, changed where it is selected.
  pub find_document-changed :
      (n : ℕ) (table : List A)
      → find_document k n (map (change_at selected change) table)
        ≡ Option.map (change_at selected change) (find_document k n table)
  unfolding find_document
  find_document-changed n [] = refl
  find_document-changed n (a ∷ table) = elim (Bool-cases (k.id_of a == n)) [
    | inl e ↦ rw e (rw (changed_at-id a) (rw e refl))
    | inr e ↦ rw e (rw (changed_at-id a) (rw e (find_document-changed n table)))
  ]
