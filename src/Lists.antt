-- ===== src/Lists.antt =====
-- pingoo/lists.rs: lists of texts, numbers or networks from CSV files. What reading a file and splitting
-- it into records give, and the parsers of numbers and networks, are parameters.
pub mod Loaded
mod Tests
use pingoo.Prelude.{
  ℕ, suc, String, List, [], ◌∷◌, Option, none, some, Bool, true, false, not, ◌||◌, ltb, length,
  Result, ok, err, ◌>>=◌, ensure, ok_or, trim, HashMap, insert, string_eq, if◌then◌else◌,
}
use pingoo.Config.{ListConfig, ListType, string, int, ip}

-- the messages, each with the line
pub data Error : Type 0 where
  reading_list : String → Error
  parsing_line : ℕ → String → Error
  number_of_columns : ℕ → Error
  parsing_item : ℕ → String → Error

abbrev pub located : {A : Type 0} → (String → Error) → Result A String → Result A Error
located f (ok a) = ok a
located f (err e) = err (f e)

abbrev pub first_column : List String → String
first_column [] = ""
first_column (x ∷ xs) = x

module _ {A : Type 0} (parse : String → Result A String) where
  -- one line, numbered from 1
  unfoldable pub load_line : ℕ → Result (List String) String → Result A Error
  load_line n line = do
    columns ← located (parsing_line n) line
    ensure (not (ltb 2 (length columns) || ltb (length columns) 1)) (number_of_columns n)
        (located (parsing_item n) (parse (trim (first_column columns))))

  -- `n` lines were read before
  unfoldable pub load_lines : ℕ → List (Result (List String) String) → Result (List A) Error
  load_lines n [] = ok []
  load_lines n (line ∷ lines) = do
    item ← load_line (suc n) line
    items ← load_lines (suc n) lines
    ok (item ∷ items)

-- `List`, over the types of numbers and of networks
pub data Items (Int Network : Type 0) : Type 0 where
  string_items : List String → Items Int Network
  int_items : List Int → Items Int Network
  ip_items : List Network → Items Int Network

abbrev mapped : {A B : Type 0} → (A → B) → Result A Error → Result B Error
mapped f (ok a) = ok (f a)
mapped f (err e) = err e

module _ {Int Network : Type 0} (parse_int : String → Result Int String)
    (parse_network : String → Result Network String)
    (read_records : String → Result (List (Result (List String) String)) String) where
  unfoldable pub load_list : String → ListType → Result (Items Int Network) Error
  load_list path type = do
    lines ← located reading_list (read_records path)
    elim type [
      | string ↦ mapped string_items (load_lines (λ s. ok s) 0 lines)
      | int ↦ mapped int_items (load_lines parse_int 0 lines)
      | ip ↦ mapped ip_items (load_lines parse_network 0 lines)
    ]

  -- the loop over the configured lists
  unfoldable pub load_lists :
      List (String × ListConfig) → Result (HashMap String (Items Int Network)) Error
  load_lists [] = ok []
  load_lists ((name, config) ∷ configs) = do
    list ← load_list config.file config.type
    lists ← load_lists configs
    ok (insert lists name list)
