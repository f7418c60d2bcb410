-- ===== src/Documents/Table.antt =====
-- YAML values and mappings, with keys in insertion order as in Python's `dict`. `L` are the values that
-- are neither mapping, boolean nor text: numbers, lists and null.
use kanibako.Prelude.{
  ◌≡◌, refl, Bool, true, false, Option, none, some, arith, Text, ◌==◌, text_eq, if◌then◌else◌,
}

mutual
  pub data Value (L : Type 0) : Type 0 where
    flag : Bool → Value L
    word : Text → Value L
    other : L → Value L
    table : Table L → Value L

  pub data Table (L : Type 0) : Type 0 where
    end : Table L
    entry : Text → Value L → Table L → Table L

module _ {L : Type 0} where
  -- `d.get(k)`
  unfoldable pub get : Text → Table L → Option (Value L)
  get k end = none
  get k (entry j v d) = if k == j then some v else get k d

  -- `k in d`
  unfoldable pub mem : Text → Table L → Bool
  unfolding get
  mem k d = elim (get k d) [ none ↦ false | some _ ↦ true ]

  -- `d[k] = v`
  unfoldable pub put : Text → Value L → Table L → Table L
  put k v end = entry k v end
  put k v (entry j w d) = let rest = put k v d in if k == j then entry k v d else entry j w rest

  -- `del d[k]` and `d.pop(k, None)`
  unfoldable pub del : Text → Table L → Table L
  del k end = end
  del k (entry j w d) = let rest = del k d in if k == j then rest else entry j w rest

  -- `not d`
  unfoldable pub is_empty : Table L → Bool
  is_empty end = true
  is_empty (entry k v d) = false

  pub get-put :
      (j k : Text) (v : Value L) (d : Table L)
      → get j (put k v d) ≡ (if j == k then some v else get j d)
  unfolding get put
  get-put j k v end = refl
  get-put j k v (entry i w d) = ground (arith, get-put j k v d)

  pub get-del : (j k : Text) (d : Table L) → get j (del k d) ≡ (if j == k then none else get j d)
  unfolding get del
  get-del j k end = ground arith
  get-del j k (entry i w d) = ground (arith, get-del j k d)

  pub get-is_empty : (k : Text) (d : Table L) → is_empty d ≡ true → get k d ≡ none
  unfolding get is_empty
  get-is_empty k end h = refl
  get-is_empty k (entry j v d) h = cc

  pub ruleset table_laws = (get-put, get-del)
