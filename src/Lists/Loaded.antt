-- ===== src/Lists/Loaded.antt =====
-- What a list holds that pingoo/lists.rs has loaded.
use pingoo.Prelude.{
  ℕ, suc, ◌≤◌, String, List, [], ◌∷◌, Bool, true, false, not, ◌||◌, ◌≡◌, ◌↔◌, refl, ap, ◌∙◌, subst,
  arith, ltb, length, Result, ok, err, ◌>>=◌, bind-eq-ok, ok-injective, trim, ensure,
}
use pingoo.Lists.{
  Error, located, first_column, parsing_line, parsing_item, number_of_columns, load_line,
  load_lines,
}

module _ {A : Type 0} (parse : String → Result A String) where
  -- A line has one column or two, and the first one without the space around it is the item.
  abbrev pub IsLine : Result (List String) String → A → Type 0
  IsLine line item =
      (columns : List String) × ((line ≡ ok columns)
        × (1 ≤ length columns)
        × (length columns ≤ 2)
        × (parse (trim (first_column columns)) ≡ ok item))

  -- The items of the lines, in order.
  abbrev pub AreItems : List (Result (List String) String) → List A → Type 0
  AreItems [] [] = Unit
  AreItems (line ∷ lines) (item ∷ items) = IsLine line item × AreItems lines items
  AreItems _ _ = ⊥

  located-eq-ok :
      {B : Type 0} (f : String → Error) (r : Result B String) {b : B}
      → located f r ≡ ok b
      → r ≡ ok b
  located-eq-ok f (ok b) h = ground arith
  located-eq-ok f (err e) h = ground arith

  ensure-eq-ok :
      {B : Type 0} (b : Bool) (e : Error) (r : Result B Error) (a : B)
      → (ensure b e r ≡ ok a) ↔ ((b ≡ true) × (r ≡ ok a))
  ensure-eq-ok true e r a = ground arith
  ensure-eq-ok false e r a = ground arith

  load_line-IsLine :
      (n : ℕ) (line : Result (List String) String) (item : A)
      → load_line parse n line ≡ ok item
      → IsLine line item
  unfolding load_line
  load_line-IsLine n line item h =
      let few : List String → Bool =
        λ columns. not (ltb 2 (length columns) || ltb (length columns) 1) in
      let last : List String → Result A Error =
        λ columns. located (parsing_item n) (parse (trim (first_column columns))) in
      let (columns, e, rest) =
        bind-eq-ok (located (parsing_line n) line)
          (λ columns. ensure (few columns) (number_of_columns n) (last columns)) h in
      let (size, parsed) =
        (ensure-eq-ok (few columns) (number_of_columns n) (last columns) item).0 rest in
      (
        columns,
        (
          located-eq-ok (parsing_line n) line e,
          ground arith,
          ground arith,
          located-eq-ok (parsing_item n) (parse (trim (first_column columns))) parsed,
        ),
      )

  IsLine-load_line :
      (n : ℕ) (line : Result (List String) String) (item : A)
      → IsLine line item
      → load_line parse n line ≡ ok item
  unfolding load_line
  IsLine-load_line n line item (columns, (e, one, two, p)) =
      let few : Bool = not (ltb 2 (length columns) || ltb (length columns) 1) in
      let last : Result A Error = located (parsing_item n) (parse (trim (first_column columns))) in
      ap
        (λ (r : Result (List String) String). located (parsing_line n) r >>= λ columns.
          ensure (not (ltb 2 (length columns) || ltb (length columns) 1)) (number_of_columns n)
            (located (parsing_item n) (parse (trim (first_column columns)))))
        e
      ∙ (ensure-eq-ok few (number_of_columns n) last item).1
          (ground arith, ap (located (parsing_item n)) p)

  load_lines-AreItems :
      (n : ℕ) (lines : List (Result (List String) String)) (items : List A)
      → load_lines parse n lines ≡ ok items
      → AreItems lines items
  unfolding load_lines
  load_lines-AreItems n [] items h = subst (AreItems []) (ok-injective Error h) tt
  load_lines-AreItems n (line ∷ lines) items h =
      let k2 : A → List A → Result (List A) Error = λ item items. ok (item ∷ items) in
      let (item, e, r) =
        bind-eq-ok (load_line parse (suc n) line)
          (λ item. load_lines parse (suc n) lines >>= k2 item) h in
      let (rest, e', r') = bind-eq-ok (load_lines parse (suc n) lines) (k2 item) r in
      subst (AreItems (line ∷ lines)) (ok-injective Error r')
        (load_line-IsLine (suc n) line item e, load_lines-AreItems (suc n) lines rest e')

  AreItems-load_lines :
      (n : ℕ) (lines : List (Result (List String) String)) (items : List A)
      → AreItems lines items
      → load_lines parse n lines ≡ ok items
  unfolding load_lines
  AreItems-load_lines n [] [] h = refl
  AreItems-load_lines n [] (x ∷ items) h = absurd h
  AreItems-load_lines n (line ∷ lines) [] h = absurd h
  AreItems-load_lines n (line ∷ lines) (item ∷ items) (h, rest) =
      ap
        (λ (r : Result A Error).
          r >>= λ item. load_lines parse (suc n) lines >>= λ items. ok (item ∷ items))
        (IsLine-load_line (suc n) line item h)
      ∙ ap (λ (r : Result (List A) Error). r >>= λ items. ok (item ∷ items))
          (AreItems-load_lines (suc n) lines items rest)

  -- A file is loaded with some items just if every line of it has one column or two and the first one,
  -- without the space around it, is read as the item of that line.
  pub load_lines_iff :
      (n : ℕ) (lines : List (Result (List String) String)) (items : List A)
      → (load_lines parse n lines ≡ ok items) ↔ AreItems lines items
  load_lines_iff n lines items =
      (load_lines-AreItems n lines items, AreItems-load_lines n lines items)
