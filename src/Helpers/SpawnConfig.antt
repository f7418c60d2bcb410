-- ===== src/Helpers/SpawnConfig.antt =====
-- `read_spawn_config` and `write_spawn_config` of src/kanibako/helpers.py, over the documents of
-- Documents. Python's `int` on YAML values is a parameter.
use kanibako.Prelude.{
  ◌≡◌, ◌≢◌, refl, ap, ◌∙◌, Bool, Option, none, some, arith, Text, text, text_eq, ℕ_discrete,
  if◌then◌else◌, Result, ok, err, ◌>>=◌,
}
use kanibako.Prelude.Int.{ℤ}
use kanibako.Documents.Table.{Value, flag, word, other, table, Table, end, entry, get, put, get-put}
use kanibako.Documents.Files.{Yaml, Faithful, load_doc, dump_doc, load_doc-dump_doc}
use kanibako.Helpers.Budget.{SpawnBudget, default_depth, default_breadth}

-- `int_of` is Python's `int`, `none` where that raises, and `of_int` an integer as a YAML value.
pub record Integers (L : Type 0) : Type 0 where
  pub is_null : L → Bool
  pub int_of : Value L → Option ℤ
  pub of_int : ℤ → L
  pub int_of-of_int : (n : ℤ) → int_of (other (of_int n)) ≡ some n

-- A section that is no mapping has no `get`, and `int` raises on some values.
pub data ConfigError : Type 0 where
  no_mapping not_an_int : ConfigError

module _ {F L : Type 0} (yaml : Yaml F L) (ints : Integers L) where
  -- `int(spawn.get(key, default))`
  int_at : Text → ℤ → Table L → Result ConfigError ℤ
  int_at key default spawn = elim (get key spawn) [
    | none ↦ ok default
    | some v ↦ elim (ints.int_of v) [ none ↦ err not_an_int | some n ↦ ok n ]
  ]

  budget_at : Table L → Result ConfigError (Option SpawnBudget)
  budget_at spawn = do
    depth ← int_at (text "depth") default_depth spawn
    breadth ← int_at (text "breadth") default_breadth spawn
    ok (some (record { depth = depth; breadth = breadth }))

  budget_of : Option (Value L) → Result ConfigError (Option SpawnBudget)
  unfolding budget_at
  budget_of none = ok none
  budget_of (some (flag b)) = err no_mapping
  budget_of (some (word t)) = err no_mapping
  budget_of (some (other v)) = if ints.is_null v then ok none else err no_mapping
  budget_of (some (table spawn)) = budget_at spawn

  unfoldable pub read_spawn_config : Option F → Result ConfigError (Option SpawnBudget)
  unfolding load_doc budget_of int_at
  read_spawn_config none = ok none
  read_spawn_config (some content) = budget_of (get (text "spawn") (load_doc yaml (some content)))

  abbrev limits : SpawnBudget → Table L
  limits budget =
      entry (text "depth") (other (ints.of_int budget.depth))
        (entry (text "breadth") (other (ints.of_int budget.breadth)) end)

  unfoldable pub write_spawn_config : Option F → SpawnBudget → Option F
  unfolding load_doc dump_doc
  write_spawn_config file budget =
      dump_doc yaml (put (text "spawn") (table (limits budget)) (load_doc yaml file))

  module _ (faithful : Faithful yaml) where
    int_at_found :
        (key : Text) (default n : ℤ) (spawn : Table L)
        → get key spawn ≡ some (other (ints.of_int n))
        → int_at key default spawn ≡ ok n
    unfolding int_at
    int_at_found key default n spawn h = rw (h, int_at, ints.int_of-of_int n) refl

    depth_found :
        (b : SpawnBudget) → get (text "depth") (limits b) ≡ some (other (ints.of_int b.depth))
    unfolding get text_eq ℕ_discrete
    depth_found b = refl

    breadth_found :
        (b : SpawnBudget) → get (text "breadth") (limits b) ≡ some (other (ints.of_int b.breadth))
    unfolding get text_eq ℕ_discrete
    breadth_found b = refl

    budget_at-limits : (b : SpawnBudget) → budget_at (limits b) ≡ ok (some b)
    unfolding budget_at
    budget_at-limits b =
        rw
          (
            int_at_found (text "depth") default_depth b.depth (limits b) (depth_found b),
            int_at_found (text "breadth") default_breadth b.breadth (limits b) (breadth_found b),
          )
          refl

    section_read :
        (b : SpawnBudget) (d : Table L)
        → get (text "spawn") d ≡ some (table (limits b))
        → read_spawn_config (dump_doc yaml d) ≡ ok (some b)
    unfolding read_spawn_config dump_doc budget_of
    section_read b d h =
        rw (read_spawn_config, load_doc-dump_doc yaml faithful d, h) (budget_at-limits b)

    spawn_found :
        (b : SpawnBudget) (d : Table L)
        → get (text "spawn") (put (text "spawn") (table (limits b)) d) ≡ some (table (limits b))
    spawn_found b d = get-put (text "spawn") (text "spawn") _ d ∙ ground arith

    -- A budget that was written is read back, and every other section of the file is as before,
    -- whatever the file held.
    pub read_spawn_config-write_spawn_config :
        (file : Option F) (budget : SpawnBudget)
        → (read_spawn_config (write_spawn_config file budget) ≡ ok (some budget))
          × ((key : Text)
              → key ≢ text "spawn"
              → get key (load_doc yaml (write_spawn_config file budget))
                ≡ get key (load_doc yaml file))
    unfolding write_spawn_config
    read_spawn_config-write_spawn_config file budget = (
      section_read budget _ (spawn_found budget (load_doc yaml file)),
      λ key away.
          ap (get key) (load_doc-dump_doc yaml faithful _)
          ∙ get-put key (text "spawn") _ (load_doc yaml file)
          ∙ ground arith,
    )
