-- ===== src/HistoryPages/Slices.antt =====
-- The pages of the trade history together (`get_trade_history`, journal/trade_history_service.py).
use oanda_v.Prelude.{
  ℕ, zero, suc, ◌+◌, ◌-◌, ◌*◌, ◌≤◌, ◌<◌, ◌≡◌, refl, sym, ap, ◌∙◌, String, List, [], ◌∷◌, ◌++◌,
  length, take, drop, leb, leb_false→lt, ◌⊎◌, nat_key, ok, Bool-cases, inl, inr, arith,
}
use oanda_v.History.{TradeHistoryEvent}
use oanda_v.HistoryPages.{
  page_size, filter_rows_for_view, TradeHistoryPage, total_pages_of, resolve_page, slice, page_of,
  get_trade_history,
}

module _ {A : Type 0} where
  take-nil : (n : ℕ) → take {A = A} n [] ≡ []
  take-nil zero = refl
  take-nil (suc n) = refl

  take-add : (m n : ℕ) (xs : List A) → take (m + n) xs ≡ take m xs ++ take n (drop m xs)
  take-add zero n xs = ap (λ k. take k xs) (omega arith)
  take-add (suc m) n [] = take-nil (suc m + n) ∙ sym (take-nil n)
  take-add (suc m) n (x ∷ xs) =
      let e : suc m + n ≡ suc (m + n) = omega arith in
      ap (λ k. take k (x ∷ xs)) e ∙ ap (λ l. x ∷ l) (take-add m n xs)

  take_all : (n : ℕ) (xs : List A) → length xs ≤ n → take n xs ≡ xs
  take_all n [] h = take-nil n
  take_all zero (x ∷ xs) h = absurd (omega arith)
  take_all (suc n) (x ∷ xs) h = ap (λ l. x ∷ l) (take_all n xs (omega arith))

  length-take : (n : ℕ) (xs : List A) → length (take n xs) ≤ n
  length-take zero xs = omega arith
  length-take (suc n) [] = omega arith
  length-take (suc n) (x ∷ xs) = omega (arith, length-take n xs)

-- The rows of the first pages, one page after the other.
abbrev pub rows_of_pages : ℕ → List TradeHistoryEvent → List TradeHistoryEvent
rows_of_pages zero rows = []
rows_of_pages (suc n) rows = rows_of_pages n rows ++ (page_of (suc n) rows).rows

resolve_page-in_range : (n total : ℕ) → suc n ≤ total → resolve_page (suc n) total ≡ suc n
resolve_page-in_range n total h = ground arith

resolve_page_cases :
    (page total : ℕ) → (resolve_page page total ≡ page) ⊎ (page < 1) ⊎ (total < page)
resolve_page_cases page total = elim (Bool-cases (leb page total)) [
  | inr f ↦ inr (inr (leb_false→lt page total f))
  | inl e ↦ elim (Bool-cases (leb 1 page)) [
    | inr f ↦ inr (inl (leb_false→lt 1 page f))
    | inl e' ↦ inl (ground arith)
  ]
]

resolve_page_bounds :
    (page total : ℕ) → 1 ≤ total → (1 ≤ resolve_page page total) × (resolve_page page total ≤ total)
resolve_page_bounds page total h = (ground arith, ground arith)

total_pages_of_bounds : (n : ℕ) → (1 ≤ total_pages_of n) × (n ≤ total_pages_of n * page_size)
total_pages_of_bounds n = (ground arith, ground arith)

rows_of_pages-take :
    (n : ℕ) (rows : List TradeHistoryEvent)
    → n ≤ total_pages_of (length rows)
    → rows_of_pages n rows ≡ take (n * page_size) rows
unfolding page_of
rows_of_pages-take zero rows h = refl
rows_of_pages-take (suc n) rows h =
    let e : suc n * page_size ≡ n * page_size + page_size = omega arith in
    let e' : (resolve_page (suc n) (total_pages_of (length rows)) - 1) * page_size ≡ n * page_size =
      ap (λ k. (k - 1) * page_size) (resolve_page-in_range n (total_pages_of (length rows)) h)
      ∙ omega arith in
    ap (λ l. l ++ slice (resolve_page (suc n) (total_pages_of (length rows))) rows)
      (rows_of_pages-take n rows (omega arith))
    ∙ ap (λ k. take (n * page_size) rows ++ take page_size (drop k rows)) e'
    ∙ sym (take-add (n * page_size) page_size rows)
    ∙ ap (λ k. take k rows) (sym e)

-- For a view that is supported every page number is answered, with a page between the first and
-- the last one and at most a page's size of rows: the page that was asked for, if there is one of
-- that number. The pages from the first to the last one, one after the other, are the rows of the
-- view, each once and in their order.
pub get_trade_history-pages :
    (rows filtered : List TradeHistoryEvent) (view : String)
    → filter_rows_for_view rows view ≡ ok filtered
    → ((page : ℕ)
        → (p : TradeHistoryPage) × (get_trade_history rows view page ≡ ok p)
          × (p ≡ page_of page filtered)
          × (1 ≤ p.page)
          × (p.page ≤ p.total_pages)
          × ((p.page ≡ page) ⊎ (page < 1) ⊎ (p.total_pages < page))
          × (length p.rows ≤ page_size))
      × (rows_of_pages (total_pages_of (length filtered)) filtered ≡ filtered)
unfolding get_trade_history page_of
get_trade_history-pages rows filtered view h =
    let total = total_pages_of (length filtered) in
    let (positive, enough) = total_pages_of_bounds (length filtered) in
    (
      (λ page.
          let (low, high) = resolve_page_bounds page total positive in
          (
            page_of page filtered,
            rw h refl,
            refl,
            low,
            high,
            resolve_page_cases page total,
            length-take page_size (drop ((resolve_page page total - 1) * page_size) filtered),
          )),
      rows_of_pages-take total filtered (omega arith)
          ∙ take_all (total * page_size) filtered enough,
    )
