-- ===== src/Pagination.antt =====
-- src/helpers/pagination.helper.ts. `parseInt` and `toLowerCase` are JavaScript's: the numbers and the
-- order word of a query come in as they read them.
pub mod Pages
use Prim.Native.String.{String}
use all_in_one_v2_api.Base.{
  ℕ, zero, suc, ◌+◌, ◌-◌, ◌*◌, ◌/◌, Bool, Option, none, some, List, [], ◌∷◌, ◌++◌, is_empty, length,
  ltb, if◌then◌else◌,
}
use all_in_one_v2_api.Base.Int.{ℤ, pos, negsuc}

pub data SortOrder : Type 0 where
  asc desc : SortOrder

-- one entry of `req.query`
pub data Entry : Type 0 where
  page_is limit_is : Option ℤ → Entry  -- what parseInt reads, `none` for NaN
  sort_by_is search_is : String → Entry
  sort_order_is : Option SortOrder → Entry  -- `none` for another word
  other_is : String → String → Entry

-- DEFAULTS, or the options that replace them
pub record Defaults : Type 0 where
  pub page : ℕ
  pub limit : ℕ
  pub max_limit : ℕ

abbrev pub defaults : Defaults
defaults = record { page = 1; limit = 20; max_limit = 100 }

-- PaginationParams
pub record PaginationParams : Type 0 where
  pub page : ℕ
  pub limit : ℕ
  pub skip : ℕ
  pub sort_by : Option String
  pub sort_order : Option SortOrder
  pub search : Option String
  pub filters : List (String × String)

abbrev pub page_or : ℕ → Option ℤ → ℕ
page_or def (some (pos (suc n))) = suc n
page_or def raw = def

-- `Math.min(rawLimit, maxLimit)`
abbrev pub min_of : ℕ → ℕ → ℕ
min_of most n = if ltb most n then most else n

abbrev pub limit_or : Defaults → Option ℤ → ℕ
limit_or d (some (pos (suc n))) = min_of d.max_limit (suc n)
limit_or d raw = d.limit

-- the loop over the entries of the query
abbrev pub read_entry : Defaults → Entry → PaginationParams → PaginationParams
read_entry d (page_is raw) p = record p { page = page_or d.page raw }
read_entry d (limit_is raw) p = record p { limit = limit_or d raw }
read_entry d (sort_by_is field) p = record p { sort_by = some field }
read_entry d (sort_order_is order) p = record p { sort_order = order }
read_entry d (search_is text) p = record p { search = some text }
read_entry d (other_is key value) p = record p { filters = p.filters ++ ((key, value) ∷ []) }

unfoldable pub read_entries : Defaults → List Entry → PaginationParams → PaginationParams
read_entries d [] p = p
read_entries d (e ∷ entries) p = read_entries d entries (read_entry d e p)

abbrev pub unread : Defaults → PaginationParams
unread d = record {
  page = d.page;
  limit = d.limit;
  skip = 0;
  sort_by = none;
  sort_order = none;
  search = none;
  filters = [];
}

-- parsePagination, on a query whose keys differ
unfoldable pub parse_pagination : Defaults → List Entry → PaginationParams
unfolding read_entries
parse_pagination d query =
    let p = read_entries d query (unread d) in record p { skip = (p.page - 1) * p.limit }

-- PageResult
pub record PageResult (A : Type 0) : Type 0 where
  pub items : List A
  pub total : ℕ
  pub page : ℕ
  pub limit : ℕ
  pub total_pages : ℕ

-- `Math.ceil(total / limit)`
abbrev pub ceil_div : ℕ → ℕ → ℕ
ceil_div total limit = (total + (limit - 1)) / limit

module _ {A : Type 0} where
  abbrev pub take : ℕ → List A → List A
  take zero xs = []
  take (suc n) [] = []
  take (suc n) (x ∷ xs) = x ∷ take n xs

  abbrev pub drop : ℕ → List A → List A
  drop zero xs = xs
  drop (suc n) [] = []
  drop (suc n) (x ∷ xs) = drop n xs

  -- buildPage
  unfoldable pub build_page : List A → ℕ → ℕ → ℕ → PageResult A
  build_page items total page limit = record {
    items = items;
    total = total;
    page = page;
    limit = limit;
    total_pages = if ltb 0 limit then ceil_div total limit else 0;
  }

  -- pageFromRepo
  abbrev pub page_from_repo : Option (List A) → Option (List A) → ℕ → ℕ → ℕ → PageResult A
  page_from_repo (some items) users total page limit = build_page items total page limit
  page_from_repo none (some users) total page limit = build_page users total page limit
  page_from_repo none none total page limit = build_page [] total page limit

  -- findMany, on the rows that the `where` and the `orderBy` select
  abbrev pub find_many : List A → ℕ → ℕ → List A
  find_many rows skip take_count = take take_count (drop skip rows)

  -- paginate
  unfoldable pub paginate : List A → ℕ → ℕ → PageResult A
  unfolding build_page
  paginate rows page limit =
      build_page (find_many rows ((page - 1) * limit) limit) (length rows) page limit
