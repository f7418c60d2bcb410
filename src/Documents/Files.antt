-- ===== src/Documents/Files.antt =====
-- `load_doc` and `dump_doc` of src/kanibako/config_io.py. A file is its content, of a type `F`, or
-- `none`. The YAML library is a parameter: `safe_load` gives the mapping of a content that holds one,
-- and `safe_dump` writes one. The contents are those that the library can parse: on any other the
-- source raises whenever it reads the file, and such files are left out.
use kanibako.Prelude.{◌≡◌, Option, none, some}
use kanibako.Documents.Table.{Table, end}

pub record Yaml (F L : Type 0) : Type 0 where
  pub safe_load : F → Option (Table L)
  pub safe_dump : Table L → F

-- What is written is read back.
pub record Faithful {F L : Type 0} (yaml : Yaml F L) : Type 0 where
  pub load-dump : (d : Table L) → yaml.safe_load (yaml.safe_dump d) ≡ some d

module _ {F L : Type 0} (yaml : Yaml F L) where
  -- A missing file and a content that holds no mapping count as empty.
  unfoldable pub load_doc : Option F → Table L
  load_doc none = end
  load_doc (some content) = elim (yaml.safe_load content) [ none ↦ end | some d ↦ d ]

  unfoldable pub dump_doc : Table L → Option F
  dump_doc d = some (yaml.safe_dump d)

  pub load_doc-dump_doc : Faithful yaml → (d : Table L) → load_doc (dump_doc d) ≡ d
  unfolding load_doc dump_doc
  load_doc-dump_doc faithful d = rw (faithful.load-dump d)
