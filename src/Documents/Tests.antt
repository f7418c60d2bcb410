-- ===== src/Documents/Tests.antt =====
-- A file that is its document, and the theorems at it.
use kanibako.Prelude.{
  ◌≡◌, refl, true, false, some, List, [], ◌∷◌, Text, text, ℕ, text_eq, ℕ_discrete,
}
use kanibako.Documents.Table.{word, other, table, Table, end, entry, get, mem, put, del, is_empty}
use kanibako.Documents.Files.{Yaml, Faithful}
use kanibako.Documents.Sections.{
  as_table, read_in, write_in, remove_in, write_toml_key, remove_toml_key,
}
use kanibako.Documents.Sections.Refinement.{
  Call, write_key, remove_key, run, replay, view, run_refines,
}
use kanibako.Documents.Sections.Nested.{Apart, Removed, read_in-write_in, remove_in-Removed}

abbrev plain : Yaml (Table ℕ) ℕ
plain = record { safe_load = λ d. some d; safe_dump = λ d. d }

plain-Faithful : Faithful plain
plain-Faithful = record { load-dump = λ d. refl }

abbrev sample : Table ℕ
sample = entry (text "crab") (table (entry (text "model") (word (text "opus")) end)) end

abbrev calls : List (Call ℕ)
calls =
    write_key (text "crab") (text "autonomous") (other 1)
    ∷ remove_key (text "crab") (text "model")
    ∷ remove_key (text "shared") (text "x")
    ∷ []

answers : (run plain calls (some sample)).0 ≡ true ∷ false ∷ []
unfolding run write_toml_key remove_toml_key get put text_eq ℕ_discrete as_table is_empty del
answers = refl

run_refines_example :
    ((run plain calls (some sample)).0 ≡ (replay calls (view plain (some sample))).0)
    × (view plain (run plain calls (some sample)).1 ≡ (replay calls (view plain (some sample))).1)
run_refines_example = run_refines plain plain-Faithful calls (some sample)

read_in-write_in_example :
    (read_in
        (text "crab" ∷ [])
        (text "model")
        (write_in (text "crab" ∷ []) (text "model") (other 2) sample)
      ≡ some (other 2))
    × ((path : List Text) (j : Text)
        → Apart path j (text "crab" ∷ []) (text "model")
        → read_in path j (write_in (text "crab" ∷ []) (text "model") (other 2) sample)
          ≡ read_in path j sample)
read_in-write_in_example = read_in-write_in (text "crab" ∷ []) (text "model") (other 2) sample

-- The emptied section goes with its last key.
pruned_section : remove_in (text "crab" ∷ []) (text "model") sample ≡ some end
unfolding remove_in get del text_eq ℕ_discrete mem as_table is_empty
pruned_section = refl

remove_in-Removed_example :
    Removed
      (text "crab" ∷ [])
      (text "model")
      sample
      (remove_in (text "crab" ∷ []) (text "model") sample)
remove_in-Removed_example = remove_in-Removed (text "crab" ∷ []) (text "model") sample
