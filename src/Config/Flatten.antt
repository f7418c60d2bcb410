-- ===== src/Config/Flatten.antt =====
-- `_flatten_toml` and `_flatten_dotted` of src/kanibako/config.py, and the share and seed keys of a file.
-- `Show` is Python's `str` on the YAML values that are neither boolean nor text.
use kanibako.Prelude.{
  Bool, true, false, Option, none, some, [], ◌∷◌, ◌++◌, Text, text, text_eq, if◌then◌else◌,
}
use kanibako.Prelude.Dict.{Dict, insert}
use kanibako.Settings.Keys.{is_share_key, is_seed_key}
use kanibako.Documents.Table.{Value, flag, word, other, table, Table, end, entry}
use kanibako.Documents.Files.{Yaml, load_doc}

-- A flattened leaf: booleans stay, other scalars are texts.
pub data Leaf : Type 0 where
  bool : Bool → Leaf
  str : Text → Leaf

pub record Show (L : Type 0) : Type 0 where
  pub show_other : L → Text
  pub show_table : Table L → Text

-- A dict of texts as a YAML mapping.
abbrev pub of_entries : {L : Type 0} → Dict Text Text → Table L
of_entries [] = end
of_entries ((k, v) ∷ d) = entry k (word v) (of_entries d)

-- `f"{prefix}_{k}" if prefix else k`
abbrev pub joined : Text → Text → Text → Text
joined separator [] key = key
joined separator (c ∷ prefix) key = (c ∷ prefix) ++ (separator ++ key)

abbrev pub str_bool : Bool → Text
str_bool true = text "True"
str_bool false = text "False"

module _ {L : Type 0} (show : Show L) where
  -- `str(v)`
  unfoldable pub str_value : Value L → Text
  str_value (flag b) = str_bool b
  str_value (word t) = t
  str_value (other v) = show.show_other v
  str_value (table t) = show.show_table t

  -- `{k: str(v) for k, v in d.items()}`
  unfoldable pub str_values : Table L → Dict Text Text
  unfolding str_value
  str_values end = []
  str_values (entry k v d) = (k, str_value v) ∷ str_values d

  -- The dict is passed along where the source updates one dict with another: the keys come in the
  -- same order.
  unfoldable mutual
    pub flatten_value : Text → Value L → Dict Text Leaf → Dict Text Leaf
    flatten_value key (flag b) out = insert key (bool b) out
    flatten_value key (word t) out = insert key (str t) out
    flatten_value key (other v) out = insert key (str (show.show_other v)) out
    flatten_value key (table t) out = flatten_table key t out

    pub flatten_table : Text → Table L → Dict Text Leaf → Dict Text Leaf
    flatten_table prefix end out = out
    flatten_table prefix (entry k v d) out =
        flatten_table prefix d (flatten_value (joined (text "_") prefix k) v out)

  unfoldable pub flatten_toml : Table L → Dict Text Leaf
  unfolding flatten_table
  flatten_toml doc = flatten_table [] doc []

  -- The same with dots, where every leaf becomes a text.
  unfoldable mutual
    pub dotted_value : Text → Value L → Dict Text Text → Dict Text Text
    dotted_value key (flag b) out = insert key (str_bool b) out
    dotted_value key (word t) out = insert key t out
    dotted_value key (other v) out = insert key (show.show_other v) out
    dotted_value key (table t) out = dotted_table key t out

    pub dotted_table : Text → Table L → Dict Text Text → Dict Text Text
    dotted_table prefix end out = out
    dotted_table prefix (entry k v d) out =
        dotted_table prefix d (dotted_value (joined (text ".") prefix k) v out)

  unfoldable pub flatten_dotted : Table L → Dict Text Text
  unfolding dotted_table
  flatten_dotted doc = dotted_table [] doc []

-- The entries whose key passes a test.
unfoldable pub keep_keys : (Text → Bool) → Dict Text Text → Dict Text Text
keep_keys test [] = []
keep_keys test ((k, v) ∷ d) = let rest = keep_keys test d in if test k then (k, v) ∷ rest else rest

module _ {F L : Type 0} (yaml : Yaml F L) (show : Show L) where
  -- The outer `none` is a path that was not given.
  unfoldable pub read_shares : Option (Option F) → Dict Text Text
  unfolding keep_keys flatten_dotted is_share_key load_doc
  read_shares none = []
  read_shares (some none) = []
  read_shares (some (some content)) =
      keep_keys is_share_key (flatten_dotted show (load_doc yaml (some content)))

  unfoldable pub read_seeds : Option (Option F) → Dict Text Text
  unfolding keep_keys flatten_dotted is_seed_key load_doc
  read_seeds none = []
  read_seeds (some none) = []
  read_seeds (some (some content)) =
      keep_keys is_seed_key (flatten_dotted show (load_doc yaml (some content)))
