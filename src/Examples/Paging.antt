-- ===== src/Examples/Paging.antt =====
-- Pages of five ids.
use jmapsmtp.Prelude.{◌-◌, ◌^◌, none, some, List, [], ◌∷◌, Str, codes, ◌≡◌, arith}
use jmapsmtp.Methods.Query.{page}
use jmapsmtp.Methods.Query.Pages.{pages, pages_lem, page-overflow}

abbrev ids : List Str
ids = codes "a" ∷ codes "b" ∷ codes "c" ∷ codes "d" ∷ codes "e" ∷ []

pages_lem_example : pages 3 0 2 ids ≡ some ids
pages_lem_example = pages_lem 3 0 2 ids (omega arith) (omega arith) (omega arith)

page-overflow_example : page 1 (2 ^ 64 - 1) ids ≡ none
page-overflow_example =
    page-overflow 1 (2 ^ 64 - 1) ids (omega arith) (omega arith) (omega arith) (omega arith)
