-- ===== src/Alerts/Following.antt =====
-- What becomes of the alerts of a table under its calls, for every kind of alert
-- (data/persistence/trade_store.py).
use oanda_v.Prelude.{
  ℕ, ◌≡◌, refl, sym, subst, ◌∙◌, Bool, Option, some, List, map, nat_key, test_cases, Bool-cases,
  inl, inr, ok,
}
use oanda_v.Alerts.{Kind, find_document, rewrite, get_document}
use oanda_v.Alerts.Tables.{
  IsTable, find_document-put, find_document-IsContract, get_document-found, rewrite_inv,
  put_document-IsTable, find_document-changed, change_at,
}

module _ {A : Type 0} (k : Kind A) (R : A → A → Type 0) where
  -- Each id of the first table has a document in the second one that is related to its document.
  abbrev pub Follows : List A → List A → Type 0
  Follows table table' =
      (n : ℕ) (a : A)
      → find_document k n table ≡ some a
      → (a' : A) × (find_document k n table' ≡ some a') × R a a'

  pub Follows-trans :
      ((a b c : A) → R a b → R b c → R a c)
      → (s t u : List A) → Follows s t
      → Follows t u
      → Follows s u
  Follows-trans trans s t u f g n a h =
      let (b, e, r) = f n a h in let (c, e', r') = g n b e in (c, e', trans a b c r r')

  found_again :
      (m n : ℕ) (a c : A) (table : List A)
      → IsTable k table
      → get_document k m table ≡ some c
      → n ≡ k.id_of c
      → find_document k n table ≡ some a
      → a ≡ c
  found_again m n a c table h g e f =
      let g' = sym (get_document-found k m table h) ∙ g in
      let (id, _) = find_document-IsContract k m c table h g' in
      let f' = subst (λ x. find_document k x table ≡ some a) (e ∙ id) f in cc

  module _ (stays : (a : A) → R a a) where
    -- A method that changes the alert of an id.
    pub rewrite-Follows :
        (alert_id : ℕ) (o : Option A) (change : A → A) (table : List A) (b : Option A)
        (table' : List A)
        → IsTable k table
        → get_document k alert_id table ≡ o
        → ((a : A) → k.id_of (change a) ≡ k.id_of a)
        → ((a : A) → o ≡ some a → R a (change a))
        → rewrite k o change table ≡ ok (b, table')
        → IsTable k table' × Follows table table'
    rewrite-Follows alert_id o change table b table' h found keeps_id changes r =
        elim (rewrite_inv k o change table b table' r) [
          | inl (_, _, e) ↦ (rw e h, λ n a f. (a, rw e f, stays a))
          | inr (c, e, _, v, e') ↦ (
            rw e' (put_document-IsTable k (change c) table v h),
            λ n a f. elim (test_cases (k.id_of (change c)) n) [
              | inl (t, p) ↦
                  let same : a ≡ c =
                    found_again alert_id n a c table h (found ∙ e) ((sym p) ∙ keeps_id c) f in
                  (
                    change c,
                    rw (e', find_document-put k n (change c) table, t) refl,
                    subst (λ x. R x (change c)) (sym same) (changes c e),
                  )
              | inr (t, _) ↦ (a, rw (e', find_document-put k n (change c) table, t) f, stays a)
            ],
          )
        ]

    -- An update of the documents that are selected.
    pub change_at-Follows :
        (selected : A → Bool) (change : A → A) (table : List A)
        → ((a : A) → R a (change a))
        → ((a : A) → k.id_of (change a) ≡ k.id_of a)
        → ((a : A) → k.validate a ≡ ok tt → k.validate (change a) ≡ ok tt)
        → Follows table (map (change_at selected change) table)
    change_at-Follows selected change table changes keeps_id keeps_contract n a f = (
      change_at selected change a,
      rw (find_document-changed k selected change keeps_id keeps_contract n table, f) refl,
      elim (Bool-cases (selected a)) [ inl e ↦ rw e (changes a) | inr e ↦ rw e (stays a) ],
    )
