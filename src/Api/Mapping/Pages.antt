-- ===== src/Api/Mapping/Pages.antt =====
-- What `paginate` returns.
use kube_extauth_demo.Prelude.{ℕ, ◌-◌, ◌*◌, ◌^◌, ◌≤◌, ◌<◌, ◌≡◌, Option, some, arith, min}
use kube_extauth_demo.Prelude.Int.{ℤ, pos, negsuc, ◌≤ℤ◌, ◌-ℤ◌, ◌*ℤ◌}
use kube_extauth_demo.Api.Mapping.{paginate}

-- Whatever the parameters, the limit and the page size are equal and lie between 1 and 100, and the
-- page is at least 1.
pub paginate_bounds :
    (page per_page : Option ℤ)
    → let p = paginate page per_page in
      (p.limit ≡ p.per_page) × (pos 1 ≤ℤ p.limit) × (p.limit ≤ℤ pos 100) × (pos 1 ≤ℤ p.page)
unfolding paginate
paginate_bounds page per_page = ground arith

-- The number of rows before a page: pages have `size` rows and are counted from 1.
abbrev pub rows_before : ℕ → ℕ → ℕ
rows_before page size = (page - 1) * size

-- For a page and a page size in range whose product fits int32, the four results are what they
-- say: the size is capped at 100, and the offset is the number of rows on the pages before.
pub paginate_exact :
    (page size : ℕ)
    → 0 < page
    → 0 < size
    → rows_before page (min size 100) < 2 ^ 31
    → page < 2 ^ 31
    → paginate (some (pos page)) (some (pos size)) ≡ record {
      limit = pos (min size 100);
      offset = pos (rows_before page (min size 100));
      page = pos page;
      per_page = pos (min size 100);
    }
unfolding paginate ◌-ℤ◌ ◌*ℤ◌
paginate_exact page size hp hs fits hp32 = ground arith

-- A page so far on that the number of rows before it passes the range of int32 by less than its
-- width gets a negative offset.
pub paginate_overflow :
    (page size : ℕ)
    → 0 < size
    → page < 2 ^ 31
    → 2 ^ 31 ≤ rows_before page (min size 100)
    → rows_before page (min size 100) < 2 ^ 32
    → (paginate (some (pos page)) (some (pos size))).offset ≤ℤ negsuc 0
unfolding paginate ◌-ℤ◌ ◌*ℤ◌
paginate_overflow page size hs hp over under = ground arith
