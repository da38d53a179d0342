-- ===== src/Pagination/Pages.antt =====
-- The pages of a list, one after another.
use all_in_one_v2_api.Base.{
  ℕ, zero, suc, ◌+◌, ◌-◌, ◌*◌, ◌≤◌, ◌<◌, ◌≡◌, refl, sym, ◌∙◌, ap, List, [], ◌∷◌, ◌++◌, arith,
  length, ltb, none, some, true,
}
use native.Mathlib.Nat.{lt-div-mul-add}
use all_in_one_v2_api.Base.Int.{pos, negsuc}
use all_in_one_v2_api.Pagination.{
  Defaults, Entry, PaginationParams, paginate, take, drop, ceil_div, read_entries, read_entry,
  unread, parse_pagination, page_is, limit_is, sort_by_is, sort_order_is, search_is, other_is,
}

module _ {A : Type 0} where
  -- the items of the first `n` pages
  unfoldable pub first_pages : List A → ℕ → ℕ → List A
  first_pages rows limit zero = []
  first_pages rows limit (suc n) = first_pages rows limit n ++ (paginate rows (n + 1) limit).items

  nothing : (b : ℕ) → take {A = A} b [] ≡ []
  nothing zero = refl
  nothing (suc b) = refl

  take-drop : (a b : ℕ) (xs : List A) → take a xs ++ take b (drop a xs) ≡ take (a + b) xs
  take-drop zero b xs = ap (λ n. take n xs) (omega arith)
  take-drop (suc a) b [] = nothing b ∙ sym (nothing (suc a + b))
  take-drop (suc a) b (x ∷ xs) =
      let more : suc a + b ≡ suc (a + b) = omega arith in
      rw more (ap (λ t. x ∷ t) (take-drop a b xs))

  take-all : (n : ℕ) (xs : List A) → length xs ≤ n → take n xs ≡ xs
  take-all zero [] h = refl
  take-all zero (x ∷ xs) h = absurd (omega arith)
  take-all (suc n) [] h = refl
  take-all (suc n) (x ∷ xs) h = ap (λ t. x ∷ t) (take-all n xs (omega arith))

  first_pages-take :
      (rows : List A) (limit n : ℕ) → first_pages rows limit n ≡ take (n * limit) rows
  unfolding first_pages paginate
  first_pages-take rows limit zero = let none' : 0 * limit ≡ 0 = omega arith in rw none' refl
  first_pages-take rows limit (suc n) =
      let at : n + 1 - 1 ≡ n = omega arith in
      let next : n * limit + limit ≡ suc n * limit = grind arith in
      rw (first_pages-take rows limit n)
        (rw at (take-drop (n * limit) limit rows ∙ ap (λ k. take k rows) next))

ceil_div-covers : (total limit : ℕ) → 0 < limit → total ≤ ceil_div total limit * limit
ceil_div-covers total limit h =
    let below = lt-div-mul-add {a = total + (limit - 1)} h in omega arith

-- The pages from the first to the last that a list is said to have are the list itself: every row is
-- on one page, in its order, whatever the limit above 0.
pub first_pages-all :
    {A : Type 0} (rows : List A) (page limit : ℕ)
    → 0 < limit
    → first_pages rows limit (paginate rows page limit).total_pages ≡ rows
unfolding paginate
first_pages-all rows page limit h =
    let some' : ltb 0 limit ≡ true = ground arith in
    rw some' (
      first_pages-take rows limit (ceil_div (length rows) limit)
      ∙ take-all (ceil_div (length rows) limit * limit) rows
          (ceil_div-covers (length rows) limit h))

-- the place and the size that a query asks for stay in bounds
abbrev pub IsInBounds : Defaults → PaginationParams → Type 0
IsInBounds d p = (1 ≤ p.page) × (1 ≤ p.limit) × (p.limit ≤ d.max_limit)

read_entry-IsInBounds :
    (d : Defaults) (e : Entry) (p : PaginationParams)
    → 1 ≤ d.page
    → 1 ≤ d.limit
    → d.limit ≤ d.max_limit
    → IsInBounds d p
    → IsInBounds d (read_entry d e p)
read_entry-IsInBounds d (page_is (some (pos (suc n)))) p a b c h = (omega arith, h.1, h.2)
read_entry-IsInBounds d (page_is (some (pos zero))) p a b c h = (a, h.1, h.2)
read_entry-IsInBounds d (page_is (some (negsuc n))) p a b c h = (a, h.1, h.2)
read_entry-IsInBounds d (page_is none) p a b c h = (a, h.1, h.2)
read_entry-IsInBounds d (limit_is (some (pos (suc n)))) p a b c h =
    (h.0, ground arith, ground arith)
read_entry-IsInBounds d (limit_is (some (pos zero))) p a b c h = (h.0, b, c)
read_entry-IsInBounds d (limit_is (some (negsuc n))) p a b c h = (h.0, b, c)
read_entry-IsInBounds d (limit_is none) p a b c h = (h.0, b, c)
read_entry-IsInBounds d (sort_by_is field) p a b c h = h
read_entry-IsInBounds d (sort_order_is order) p a b c h = h
read_entry-IsInBounds d (search_is text) p a b c h = h
read_entry-IsInBounds d (other_is key value) p a b c h = h

read_entries-IsInBounds :
    (d : Defaults) (query : List Entry) (p : PaginationParams)
    → 1 ≤ d.page
    → 1 ≤ d.limit
    → d.limit ≤ d.max_limit
    → IsInBounds d p
    → IsInBounds d (read_entries d query p)
unfolding read_entries
read_entries-IsInBounds d [] p a b c h = h
read_entries-IsInBounds d (e ∷ query) p a b c h =
    read_entries-IsInBounds d query (read_entry d e p) a b c (read_entry-IsInBounds d e p a b c h)

skipped : (number size : ℕ) → 1 ≤ number → (number - 1) * size + size ≡ number * size
skipped zero size h = absurd (omega arith)
skipped (suc n) size h = let back : suc n - 1 ≡ n = omega arith in rw back (grind arith)

-- Whatever a query asks for, garbage included: the page is at least 1, the limit lies between 1 and the
-- maximum, and the rows that are skipped are those of the pages before.
pub parse_pagination-IsInBounds :
    (d : Defaults) (query : List Entry)
    → 1 ≤ d.page
    → 1 ≤ d.limit
    → d.limit ≤ d.max_limit
    → let p = parse_pagination d query in IsInBounds d p × (p.skip + p.limit ≡ p.page * p.limit)
unfolding parse_pagination
parse_pagination-IsInBounds d query a b c =
    let p = read_entries d query (unread d) in
    let h : IsInBounds d p = read_entries-IsInBounds d query (unread d) a b c (a, b, c) in
    (h, skipped p.page p.limit h.0)
