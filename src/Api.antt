-- ===== src/Api.antt =====
-- backend/app/api/common.py: `window_start`, `Page.apply`, `paginate`, and the patterns of
-- `json_list_contains` and `like_term`. The rows of a statement are a list, in its order.
mod Examples
use asber.Base.{
  Dict, List, Option, Text, [], codes, drop, if◌then◌else◌, is_empty, length, lookup, map, none,
  some, take, text_eq, ℕ, ◌*◌, ◌++◌, ◌-◌, ◌==◌, ◌||◌, ◌∷◌,
}

-- `WINDOWS`, in seconds
unfoldable pub windows_by_name : Dict ℕ
windows_by_name =
    (codes "24h", 86400)
    ∷ (codes "7d", 604800)
    ∷ (codes "30d", 2592000)
    ∷ (codes "90d", 7776000)
    ∷ (codes "1y", 31536000)
    ∷ []

-- `None`, a time, or the response 400.
pub data WindowStart : Type 0 where
  unbounded : WindowStart
  since : ℕ → WindowStart
  bad_request : WindowStart

abbrev pub window_before : ℕ → Option ℕ → WindowStart
window_before now none = bad_request
window_before now (some seconds) = since (now - seconds)

unfoldable pub window_start : ℕ → Option Text → WindowStart
unfolding windows_by_name
window_start now none = unbounded
window_start now (some window) =
    if is_empty window || text_eq window (codes "all")
    then unbounded
    else window_before now (lookup window windows_by_name)

-- A page from 1 on, and its size.
pub record PageQuery : Type 0 where
  pub page : ℕ
  pub page_size : ℕ

pub record Paginated (A : Type 0) : Type 0 where
  pub total : ℕ
  pub page : ℕ
  pub page_size : ℕ
  pub items : List A

module _ {A : Type 0} where
  -- LIMIT and OFFSET
  unfoldable pub apply_page : PageQuery → List A → List A
  apply_page q rows = take q.page_size (drop ((q.page - 1) * q.page_size) rows)

  unfoldable pub paginate : {B : Type 0} → (A → B) → PageQuery → List A → Paginated B
  paginate serializer q rows = record {
    total = length rows;
    page = q.page;
    page_size = q.page_size;
    items = map serializer (apply_page q rows);
  }

abbrev pub json_char : ℕ → Text
json_char c = if c == b'%' || c == 34 then [] else if c == b'_' then 92 ∷ c ∷ [] else c ∷ []

abbrev pub like_char : ℕ → Text
like_char c = if c == 92 || c == b'%' || c == b'_' then 92 ∷ c ∷ [] else c ∷ []

abbrev pub each_char : (ℕ → Text) → Text → Text
each_char f [] = []
each_char f (c ∷ s) = f c ++ each_char f s

-- The pattern of `json_list_contains`
unfoldable pub json_pattern : Text → Text
json_pattern value = b'%' ∷ 34 ∷ each_char json_char value ++ (34 ∷ b'%' ∷ [])

-- The 200 characters are counted after the escapes were put in.
unfoldable pub like_term : Text → Text
like_term value = b'%' ∷ take 200 (each_char like_char value) ++ b'%' ∷ []
