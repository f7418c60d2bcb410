-- ===== src/Config/Interface/Settings.antt =====
-- The settings of a box in its document: a write or a removal, seen through a reading.
use mathlib.Core.Path.{subst}
use kanibako.Prelude.{
  ◌≡◌, refl, ap, ◌∙◌, sym, Bool, true, false, ◌&&◌, Option, none, some, arith, Text, text, ◌==◌,
  text_eq, if◌then◌else◌, Bool-cases, Option-cases, inl, inr, Result, ok, err, ◌>>=◌,
}
use kanibako.Prelude.Dict.{lookup}
use kanibako.Documents.Table.{
  Value, flag, word, other, table, Table, end, entry, get, put, del, is_empty, get-put, get-del,
}
use kanibako.Documents.Sections.{as_table, section_of, read, write, remove}
use kanibako.Documents.Sections.Laws.{read-write, read-remove}
use kanibako.Config.Flatten.{Show, str_value, str_values}
use kanibako.Config.Load.{ConfigFault, mapping}
use kanibako.Config.Keys.{Place, in_crab, in_resources}
use kanibako.Config.Interface.{or_none, resource_of}

-- The keys that are kept in sections of the file of a box.
pub data Setting : Type 0 where
  crab_setting : Text → Setting
  resource_override : Text → Setting

abbrev pub place : Setting → Place
place (crab_setting key) = in_crab key
place (resource_override name) = in_resources name

abbrev pub section_name : Setting → Text
section_name (crab_setting key) = text "crab"
section_name (resource_override name) = text "resource_overrides"

abbrev pub key_name : Setting → Text
key_name (crab_setting key) = key
key_name (resource_override name) = name

abbrev pub same : Setting → Setting → Bool
same q p = section_name q == section_name p && key_name q == key_name p

-- What is shown of a text that was set: an empty override of a resource counts as none.
abbrev pub shown : Setting → Text → Option Text
shown (crab_setting key) value = some value
shown (resource_override name) value = or_none value

module _ {L : Type 0} (show : Show L) where
  abbrev pub look : Setting → Option (Value L) → Option Text
  look q none = none
  look q (some v) = shown q (str_value show v)

  abbrev pub seen : Setting → Table L → Result ConfigFault (Option Text)
  seen q doc = mapping (get (section_name q) doc) >>= λ s. ok (look q (get (key_name q) s))

  pub IsMapping : Option (Value L) → Type 0
  IsMapping o = mapping o ≡ ok (as_table o)

  lookup-str_values :
      (key : Text) (d : Table L)
      → lookup key (str_values show d) ≡ look (crab_setting key) (get key d)
  unfolding lookup str_values get
  lookup-str_values key end = refl
  lookup-str_values key (entry k v d) = ground (arith, lookup-str_values key d)

  pub resource_of-look :
      (name : Text) (d : Table L)
      → resource_of show name d ≡ look (resource_override name) (get name d)
  unfolding resource_of
  resource_of-look name d = elim (Option-cases (get name d)) [
    | inl e ↦ rw (resource_of, e) refl
    | inr (v, e) ↦ rw (resource_of, e) refl
  ]

  pub seen_parts :
      (q : Setting) (o : Option (Value L)) (before : Option Text)
      → (mapping o >>= λ s. ok (look q (get (key_name q) s))) ≡ ok before
      → IsMapping o × (look q (get (key_name q) (as_table o)) ≡ before)
  unfolding mapping as_table IsMapping
  seen_parts q none before h = (refl, cc)
  seen_parts q (some (flag b)) before h = cc
  seen_parts q (some (word t)) before h = cc
  seen_parts q (some (other v)) before h = cc
  seen_parts q (some (table t)) before h = (refl, cc)

  seen_from :
      (q : Setting) (doc : Table L) (after : Option Text)
      → IsMapping (get (section_name q) doc)
      → look q (read (section_name q) (key_name q) doc) ≡ after
      → seen q doc ≡ ok after
  unfolding IsMapping
  seen_from q doc after h e = rw h (ap (λ o. ok o) e)

  IsMapping-if :
      (b : Bool) (o o' : Option (Value L))
      → IsMapping o
      → IsMapping o'
      → IsMapping (if b then o else o')
  IsMapping-if true o o' h k = h
  IsMapping-if false o o' h k = k

  table-IsMapping : (t : Table L) → IsMapping (some (table t))
  unfolding IsMapping mapping as_table
  table-IsMapping t = refl

  none-IsMapping : IsMapping none
  unfolding IsMapping mapping as_table
  none-IsMapping = refl

  IsMapping-put :
      (s section : Text) (t doc : Table L)
      → IsMapping (get s doc)
      → IsMapping (get s (put section (table t) doc))
  IsMapping-put s section t doc h =
      subst IsMapping (sym (get-put s section (table t) doc))
        (IsMapping-if (s == section) (some (table t)) (get s doc) (table-IsMapping t) h)

  IsMapping-put_self : (s : Text) (t doc : Table L) → IsMapping (get s (put s (table t) doc))
  IsMapping-put_self s t doc =
      subst IsMapping (sym (get-put s s (table t) doc ∙ ground arith)) (table-IsMapping t)

  if_self : (s k : Text) (o o' : Option Text) → (if s == s && k == k then o else o') ≡ o
  if_self s k o o' = ground arith

  IsMapping-del :
      (s section : Text) (doc : Table L)
      → IsMapping (get s doc)
      → IsMapping (get s (del section doc))
  IsMapping-del s section doc h =
      subst IsMapping (sym (get-del s section doc))
        (IsMapping-if (s == section) none (get s doc) none-IsMapping h)

  IsMapping-remove :
      (s section key : Text) (doc : Table L)
      → IsMapping (get s doc)
      → IsMapping (get s (remove section key doc))
  unfolding remove
  IsMapping-remove s section key doc h =
      elim (Bool-cases (is_empty (del key (section_of section doc)))) [
        | inl e ↦ rw (remove, e) (IsMapping-del s section doc h)
        | inr e ↦ rw (remove, e) (IsMapping-put s section (del key (section_of section doc)) doc h)
      ]

  pub look-if :
      (q : Setting) (b : Bool) (o o' : Option (Value L))
      → look q (if b then o else o') ≡ (if b then look q o else look q o')
  look-if q true o o' = refl
  look-if q false o o' = refl

  pub seen-write :
      (p q : Setting) (value : Text) (doc : Table L) (before : Option Text)
      → seen q doc ≡ ok before
      → seen q (write (section_name p) (key_name p) (word value) doc)
        ≡ ok (if same q p then shown q value else before)
  unfolding write str_value
  seen-write p q value doc before h =
      let (is_mapping, e) = seen_parts q (get (section_name q) doc) before h in
      seen_from q (write (section_name p) (key_name p) (word value) doc)
        (if same q p then shown q value else before)
        (IsMapping-put (section_name q) (section_name p) _ doc is_mapping)
        (ap (look q) (
            read-write (section_name q) (key_name q) (section_name p) (key_name p) (word value) doc)
          ∙ look-if q (same q p) (some (word value)) (read (section_name q) (key_name q) doc)
          ∙ ap (λ o. if same q p then shown q value else o) e)

  pub seen-write_self :
      (p : Setting) (value : Text) (doc : Table L)
      → seen p (write (section_name p) (key_name p) (word value) doc) ≡ ok (shown p value)
  unfolding write str_value
  seen-write_self p value doc =
      seen_from p (write (section_name p) (key_name p) (word value) doc) (shown p value)
        (IsMapping-put_self (section_name p) _ doc)
        (ap (look p) (
            read-write (section_name p) (key_name p) (section_name p) (key_name p) (word value) doc)
          ∙ look-if p (same p p) (some (word value)) (read (section_name p) (key_name p) doc)
          ∙ if_self (section_name p) (key_name p) (shown p value) _)

  pub seen-remove :
      (p q : Setting) (doc : Table L) (before : Option Text)
      → seen q doc ≡ ok before
      → seen q (remove (section_name p) (key_name p) doc) ≡ ok (if same q p then none else before)
  seen-remove p q doc before h =
      let (is_mapping, e) = seen_parts q (get (section_name q) doc) before h in
      seen_from q (remove (section_name p) (key_name p) doc) (if same q p then none else before)
        (IsMapping-remove (section_name q) (section_name p) (key_name p) doc is_mapping)
        (ap (look q) (read-remove (section_name q) (key_name q) (section_name p) (key_name p) doc)
          ∙ look-if q (same q p) none (read (section_name q) (key_name q) doc)
          ∙ ap (λ o. if same q p then none else o) e)

  pub crab_steps :
      (key : Text) (r : Result ConfigFault (Table L))
      → ((r >>= λ s. ok (str_values show s)) >>= λ settings. ok (lookup key settings))
        ≡ (r >>= λ s. ok (look (crab_setting key) (get key s)))
  crab_steps key (err e) = refl
  crab_steps key (ok s) = ap (λ o. ok o) (lookup-str_values key s)
