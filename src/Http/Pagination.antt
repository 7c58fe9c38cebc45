-- ===== src/Http/Pagination.antt =====
-- pkg/pagination/pagination.go: the parameters of a page and its metadata.
use snmp_olt_zte.Common.{
  none, some, [], if◌then◌else◌, Text, codes, text_eq, ℤ, pos, negsuc, ◌+ℤ◌, ◌-ℤ◌, ltb_ℤ, leb_ℤ,
  tdiv, pos_part, atoi, wrap64,
}

abbrev pub default_page_size : ℤ
default_page_size = pos 10

abbrev pub max_page_size : ℤ
max_page_size = pos 100

pub record Pages : Type 0 where
  pub page : ℤ
  pub page_size : ℤ
  pub page_count : ℤ
  pub total_rows : ℤ

-- A size of 0 or less is the default, one above 100 is 100.
unfoldable pub clamped_size : ℤ → ℤ
clamped_size page_size =
    let sized = if leb_ℤ page_size (pos 0) then default_page_size else page_size in
    if ltb_ℤ max_page_size sized then max_page_size else sized

-- The size is at least 1, so Go's division is by a positive number.
unfoldable pub new : ℤ → ℤ → ℤ → Pages
unfolding clamped_size
new page page_size total =
    let size = clamped_size page_size in
    record {
      page = if leb_ℤ page (pos 0) then pos 0 else page;
      page_size = size;
      total_rows = total;
      page_count =
          if leb_ℤ (pos 0) total
          then tdiv (wrap64 (wrap64 (total +ℤ size) -ℤ pos 1)) (pos_part size)
          else negsuc 0;
    }

unfoldable pub parse_int : Text → ℤ → ℤ
parse_int value default_value =
    if text_eq value []
    then default_value
    else elim (atoi value) [ none ↦ default_value | some result ↦ result ]

-- r.URL.Query().Get of the two parameters; a missing one is empty.
unfoldable pub get_pagination_parameters : (Text → Text) → ℤ × ℤ
unfolding parse_int
get_pagination_parameters query =
    (parse_int (query (codes "page")) (pos 1), parse_int (query (codes "limit")) default_page_size)
