-- ===== src/Lists/Tests.antt =====
-- A list of texts with a comment in the second column.
use pingoo.Prelude.{String, List, [], ◌∷◌, ◌≡◌, ◌↔◌, refl, Result, ok, err}
use pingoo.Lists.{load_lines, load_line, number_of_columns}
use pingoo.Lists.Loaded.{AreItems, load_lines_iff}

abbrev as_text : String → Result String String
as_text s = ok s

abbrev lines : List (Result (List String) String)
lines = ok ("bad-bot " ∷ "seen in May" ∷ []) ∷ ok ("worse-bot" ∷ []) ∷ []

load_lines_iff_example :
    (load_lines as_text 0 lines ≡ ok ("bad-bot" ∷ "worse-bot" ∷ []))
    ↔ AreItems as_text lines ("bad-bot" ∷ "worse-bot" ∷ [])
load_lines_iff_example = load_lines_iff as_text 0 lines ("bad-bot" ∷ "worse-bot" ∷ [])

three_columns :
    load_lines as_text 0 (ok ("a" ∷ []) ∷ ok ("b" ∷ "c" ∷ "d" ∷ []) ∷ [])
    ≡ err (number_of_columns 2)
unfolding load_lines load_line
three_columns = refl
