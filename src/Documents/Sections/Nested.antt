-- ===== src/Documents/Sections/Nested.antt =====
-- Keys along a path of sections: a write and a removal, read back.
use kanibako.Prelude.{
  ◌≡◌, ◌≢◌, ◌⊎◌, refl, ap, ◌∙◌, true, Option, none, some, List, [], ◌∷◌, arith, Text, text_eq,
  Bool-cases, Option-cases, inl, inr,
}
use kanibako.Documents.Table.{
  Value, table, Table, end, entry, get, mem, put, del, is_empty, get-put, get-del,
}
use kanibako.Documents.Sections.{as_table, section_of, read_in, write_in, remove_in, prune, pruned}
use kanibako.Documents.Sections.Laws.{section_of-put, section_of-del}

-- Where two keys along paths part: neither stands above or below the other.
abbrev pub Apart : List Text → Text → List Text → Text → Type 0
Apart [] j [] k = j ≢ k
Apart [] j (s ∷ path) k = j ≢ s
Apart (r ∷ other) j [] k = r ≢ k
Apart (r ∷ other) j (s ∷ path) k = (r ≢ s) ⊎ ((r ≡ s) × Apart other j path k)

module _ {L : Type 0} where
  section_of-put_self :
      (section : Text) (t doc : Table L) → section_of section (put section (table t) doc) ≡ t
  section_of-put_self section t doc = section_of-put section section t doc ∙ ground arith

  section_of-put_ne :
      (s section : Text) (t doc : Table L)
      → s ≢ section
      → section_of s (put section (table t) doc) ≡ section_of s doc
  section_of-put_ne s section t doc h = section_of-put s section t doc ∙ ground arith

  get-put_ne : (j k : Text) (v : Value L) (d : Table L) → j ≢ k → get j (put k v d) ≡ get j d
  get-put_ne j k v d h = get-put j k v d ∙ ground arith

  get-del_ne : (j k : Text) (d : Table L) → j ≢ k → get j (del k d) ≡ get j d
  get-del_ne j k d h = get-del j k d ∙ ground arith

  is_empty-end : (t : Table L) → is_empty t ≡ true → t ≡ end
  unfolding is_empty
  is_empty-end end h = refl
  is_empty-end (entry k v t) h = cc

  -- A pruned child is still read as what was left of it.
  section_of-prune_self :
      (section : Text) (child node : Table L)
      → section_of section (prune section child node) ≡ child
  unfolding prune
  section_of-prune_self section child node = elim (Bool-cases (is_empty child)) [
    | inl e ↦
        rw (prune, e) (section_of-del section section node ∙ ground (arith, is_empty-end child e))
    | inr e ↦ rw (prune, e) (section_of-put_self section child node)
  ]

  get-prune_ne :
      (j section : Text) (child node : Table L)
      → j ≢ section
      → get j (prune section child node) ≡ get j node
  unfolding prune
  get-prune_ne j section child node h = elim (Bool-cases (is_empty child)) [
    | inl e ↦ rw (prune, e) (get-del_ne j section node h)
    | inr e ↦ rw (prune, e) (get-put_ne j section (table child) node h)
  ]

  -- A key that was written along a path is read there, and every key apart from it is as before.
  pub read_in-write_in :
      (path : List Text) (key : Text) (value : Value L) (doc : Table L)
      → (read_in path key (write_in path key value doc) ≡ some value)
        × ((other : List Text) (j : Text)
            → Apart other j path key
            → read_in other j (write_in path key value doc) ≡ read_in other j doc)
  unfolding read_in write_in
  read_in-write_in [] key value doc = (get-put key key value doc ∙ ground arith, apart)
    where
      apart :
          (other : List Text) (j : Text)
          → Apart other j [] key
          → read_in other j (put key value doc) ≡ read_in other j doc
      apart [] j h = get-put_ne j key value doc h
      apart (r ∷ other) j h = ap (λ v. read_in other j (as_table v)) (get-put_ne r key value doc h)
  read_in-write_in (section ∷ path) key value doc =
      let (here, others) = read_in-write_in path key value (section_of section doc) in
      (
        ap (read_in path key) (section_of-put_self section _ doc) ∙ here,
        apart (write_in path key value (section_of section doc)) others,
      )
    where
      apart :
          (child : Table L)
          → ((other : List Text) (j : Text)
              → Apart other j path key
              → read_in other j child ≡ read_in other j (section_of section doc))
          → (other : List Text) (j : Text) → Apart other j (section ∷ path) key
          → read_in other j (put section (table child) doc) ≡ read_in other j doc
      apart child rest [] j h = get-put_ne j section (table child) doc h
      apart child rest (r ∷ other) j (inl h) =
          ap (read_in other j) (section_of-put_ne r section child doc h)
      apart child rest (r ∷ other) j (inr (e, h)) =
          rw e (ap (read_in other j) (section_of-put_self section child doc) ∙ rest other j h)

  -- Read back after a removal that found the key.
  abbrev pub Removed : List Text → Text → Table L → Option (Table L) → Type 0
  Removed path key doc none = read_in path key doc ≡ none
  Removed path key doc (some after) =
      (read_in path key after ≡ none)
      × ((other : List Text) (j : Text)
          → Apart other j path key
          → read_in other j after ≡ read_in other j doc)

  Removed-top : (key : Text) (doc : Table L) → Removed [] key doc (remove_in [] key doc)
  unfolding remove_in mem read_in
  Removed-top key doc = elim (Option-cases (get key doc)) [
    | inl e ↦ rw (remove_in, mem, e) e
    | inr (v, e) ↦ rw (remove_in, mem, e) (get-del key key doc ∙ ground arith, apart)
  ]
    where
      apart :
          (other : List Text) (j : Text)
          → Apart other j [] key
          → read_in other j (del key doc) ≡ read_in other j doc
      apart [] j h = get-del_ne j key doc h
      apart (r ∷ other) j h = ap (λ v. read_in other j (as_table v)) (get-del_ne r key doc h)

  Removed-pruned :
      (section : Text) (path : List Text) (key : Text) (doc : Table L) (child : Option (Table L))
      → Removed path key (section_of section doc) child
      → Removed (section ∷ path) key doc (pruned section doc child)
  unfolding read_in
  Removed-pruned section path key doc none h = h
  Removed-pruned section path key doc (some child) (here, rest) =
      (ap (read_in path key) (section_of-prune_self section child doc) ∙ here, apart)
    where
      apart :
          (other : List Text) (j : Text)
          → Apart other j (section ∷ path) key
          → read_in other j (prune section child doc) ≡ read_in other j doc
      apart [] j h = get-prune_ne j section child doc h
      apart (r ∷ other) j (inl h) =
          ap (λ v. read_in other j (as_table v)) (get-prune_ne r section child doc h)
      apart (r ∷ other) j (inr (e, h)) =
          rw e (ap (read_in other j) (section_of-prune_self section child doc) ∙ rest other j h)

  -- A removal along a path that finds nothing had nothing to find; one that finds the key leaves it
  -- unread, and every key apart from it is as before, although emptied sections are pruned.
  pub remove_in-Removed :
      (path : List Text) (key : Text) (doc : Table L)
      → Removed path key doc (remove_in path key doc)
  unfolding remove_in
  remove_in-Removed [] key doc = Removed-top key doc
  remove_in-Removed (section ∷ path) key doc =
      Removed-pruned section path key doc (remove_in path key (section_of section doc))
        (remove_in-Removed path key (section_of section doc))
