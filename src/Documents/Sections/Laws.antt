-- ===== src/Documents/Sections/Laws.antt =====
-- What a write or a removal does to every key of every section.
use kanibako.Prelude.{
  ◌≡◌, refl, ap, ◌∙◌, true, false, ◌&&◌, none, some, arith, Text, ◌==◌, text_eq, if◌then◌else◌,
  Bool-cases, inl, inr,
}
use kanibako.Documents.Table.{
  Value, table, Table, end, get, put, del, is_empty, get-put, get-del, get-is_empty,
}
use kanibako.Documents.Sections.{as_table, section_of, read, write, remove}

module _ {L : Type 0} where
  as_table-table : (t : Table L) → as_table (some (table t)) ≡ t
  unfolding as_table
  as_table-table t = refl

  pub section_of-put :
      (s section : Text) (t : Table L) (doc : Table L)
      → section_of s (put section (table t) doc) ≡ (if s == section then t else section_of s doc)
  unfolding as_table
  section_of-put s section t doc = rw (get-put s section (table t) doc) (ground arith)

  pub section_of-del :
      (s section : Text) (doc : Table L)
      → section_of s (del section doc) ≡ (if s == section then end else section_of s doc)
  unfolding as_table
  section_of-del s section doc = rw (get-del s section doc) (ground arith)

  -- A written key has its value, and every other key of every section is as before.
  pub read-write :
      (s k section key : Text) (value : Value L) (doc : Table L)
      → read s k (write section key value doc)
        ≡ (if s == section && k == key then some value else read s k doc)
  unfolding write
  read-write s k section key value doc =
      ap (get k) (section_of-put s section _ doc)
      ∙ ground (arith, get-put k key value (section_of section doc))

  remove_emptied :
      (section key : Text) (doc : Table L)
      → is_empty (del key (section_of section doc)) ≡ true
      → remove section key doc ≡ del section doc
  unfolding remove
  remove_emptied section key doc e = rw e

  remove_rest :
      (section key : Text) (doc : Table L)
      → is_empty (del key (section_of section doc)) ≡ false
      → remove section key doc ≡ put section (table (del key (section_of section doc))) doc
  unfolding remove
  remove_rest section key doc e = rw e

  -- A removed key is gone, and every other key of every section is as before.
  pub read-remove :
      (s k section key : Text) (doc : Table L)
      → read s k (remove section key doc)
        ≡ (if s == section && k == key then none else read s k doc)
  unfolding get
  read-remove s k section key doc =
      let rest = del key (section_of section doc) in
      elim (Bool-cases (is_empty rest)) [
        | inl e ↦
            ap (λ d. get k (section_of s d)) (remove_emptied section key doc e)
            ∙ ap (get k) (section_of-del s section doc)
            ∙ ground (arith, get-is_empty k rest e, get-del k key (section_of section doc))
        | inr e ↦
            ap (λ d. get k (section_of s d)) (remove_rest section key doc e)
            ∙ ap (get k) (section_of-put s section rest doc)
            ∙ ground (arith, get-del k key (section_of section doc))
      ]
