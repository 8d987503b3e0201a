-- ===== src/Paging.antt =====
-- src/common/dto/paginated.ts: page and limit inputs, and the envelope of a page. The inputs are
-- whole numbers or absent (`PaginationQueryDto` validates `IsInt`), so `Math.floor` is the identity.
pub mod Laws
use Prim.Native.Nat.{min}
use ventura_api.Common.{ℕ, suc, ◌+◌, ◌-◌, ◌*◌, ◌/◌, Option, none, some, List, take, drop, length}
use ventura_api.Common.Int.{ℤ, pos, negsuc}

-- `x && x > 0 ? x : d`
abbrev positive_or : Option ℤ → ℕ → ℕ
positive_or (some (pos (suc n))) d = suc n
positive_or _ d = d

pub record Paging : Type 0 where
  pub page : ℕ
  pub limit : ℕ
  pub skip : ℕ

unfoldable pub normalize_paging : Option ℤ → Option ℤ → Paging
normalize_paging page limit =
    let safe_page = positive_or page 1 in
    let safe_limit = min (positive_or limit 20) 100 in
    record { page = safe_page; limit = safe_limit; skip = (safe_page - 1) * safe_limit }

pub record PaginationMeta : Type 0 where
  pub total : ℕ
  pub page : ℕ
  pub limit : ℕ
  pub total_pages : ℕ

pub record Paginated (T : Type 0) : Type 0 where
  pub rows : List T
  pub meta : PaginationMeta

-- `Math.ceil(a / b)`, for b > 0
abbrev pub ceil_div : ℕ → ℕ → ℕ
ceil_div a b = (a + b - 1) / b

unfoldable pub paginate : {T : Type 0} → List T → ℕ → ℕ → ℕ → Paginated T
paginate rows total page limit = record {
  rows = rows;
  meta = record { total = total; page = page; limit = limit; total_pages = ceil_div total limit };
}

-- The rows that a query with `limit` and `offset` returns, of the rows that match.
abbrev pub page_rows : {T : Type 0} → Paging → List T → List T
page_rows p rows = take p.limit (drop p.skip rows)

-- What a list endpoint returns of the rows that match: `findAndCount`, then `paginate`.
unfoldable pub paged : {T : Type 0} → Option ℤ → Option ℤ → List T → Paginated T
unfolding normalize_paging paginate
paged page limit rows =
    let p = normalize_paging page limit in paginate (page_rows p rows) (length rows) p.page p.limit
