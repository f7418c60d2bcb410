-- ===== src/Documents/Sections.antt =====
-- The sections of a configuration file: `_write_toml_key`, `_remove_toml_key` and their nested forms in
-- src/kanibako/config_interface.py, with which src/kanibako/config.py shares the steps.
pub mod Laws
pub mod Refinement
pub mod Nested
use kanibako.Prelude.{
  Bool, true, false, ◌&&◌, Option, none, some, List, [], ◌∷◌, Text, if◌then◌else◌,
}
use kanibako.Documents.Table.{
  Value, flag, word, other, table, Table, end, get, mem, put, del, is_empty,
}
use kanibako.Documents.Files.{Yaml, load_doc, dump_doc}

module _ {L : Type 0} where
  -- The value as a mapping; any other value counts as an empty one.
  unfoldable pub as_table : Option (Value L) → Table L
  as_table none = end
  as_table (some (flag b)) = end
  as_table (some (word t)) = end
  as_table (some (other v)) = end
  as_table (some (table t)) = t

  -- A section of a document.
  abbrev pub section_of : Text → Table L → Table L
  section_of section doc = as_table (get section doc)

  -- A key of a section.
  abbrev pub read : Text → Text → Table L → Option (Value L)
  read section key doc = get key (section_of section doc)

  unfoldable pub write : Text → Text → Value L → Table L → Table L
  write section key value doc = put section (table (put key value (section_of section doc))) doc

  -- The removal of a key that is there: an emptied section goes with it.
  unfoldable pub remove : Text → Text → Table L → Table L
  remove section key doc =
      let rest = del key (section_of section doc) in
      if is_empty rest then del section doc else put section (table rest) doc

  -- The same along a path of sections.
  unfoldable pub read_in : List Text → Text → Table L → Option (Value L)
  read_in [] key node = get key node
  read_in (section ∷ path) key node = read_in path key (section_of section node)

  unfoldable pub write_in : List Text → Text → Value L → Table L → Table L
  write_in [] key value node = put key value node
  write_in (section ∷ path) key value node =
      put section (table (write_in path key value (section_of section node))) node

  -- The node without a child that was emptied, or with what is left of it.
  unfoldable pub prune : Text → Table L → Table L → Table L
  prune section child node =
      if is_empty child then del section node else put section (table child) node

  abbrev pruned : Text → Table L → Option (Table L) → Option (Table L)
  pruned section node none = none
  pruned section node (some child) = some (prune section child node)

  -- `none` where the key is not there.
  unfoldable pub remove_in : List Text → Text → Table L → Option (Table L)
  unfolding prune
  remove_in [] key node = if mem key node then some (del key node) else none
  remove_in (section ∷ path) key node =
      pruned section node (remove_in path key (section_of section node))

module _ {F L : Type 0} (yaml : Yaml F L) where
  -- `_write_toml_key`
  unfoldable pub write_toml_key : Option F → Text → Text → Value L → Option F
  unfolding write load_doc dump_doc
  write_toml_key file section key value =
      dump_doc yaml (write section key value (load_doc yaml file))

  -- `_remove_toml_key`: whether the key was there, and the file.
  unfoldable pub remove_toml_key : Option F → Text → Text → Bool × Option F
  unfolding remove load_doc dump_doc mem
  remove_toml_key none section key = (false, none)
  remove_toml_key (some content) section key =
      let doc = load_doc yaml (some content) in
      if mem key (section_of section doc)
      then (true, dump_doc yaml (remove section key doc))
      else (false, some content)

  -- `_write_nested_toml_key`
  unfoldable pub write_nested_toml_key : Option F → List Text → Text → Value L → Option F
  unfolding write_in load_doc dump_doc
  write_nested_toml_key file path key value =
      dump_doc yaml (write_in path key value (load_doc yaml file))

  -- `_remove_nested_toml_key`
  unfoldable pub remove_nested_toml_key : Option F → List Text → Text → Bool × Option F
  unfolding remove_in load_doc dump_doc
  remove_nested_toml_key none path key = (false, none)
  remove_nested_toml_key (some content) path key =
      elim (remove_in path key (load_doc yaml (some content))) [
        | none ↦ (false, some content)
        | some doc ↦ (true, dump_doc yaml doc)
      ]
