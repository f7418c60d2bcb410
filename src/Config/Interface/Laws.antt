-- ===== src/Config/Interface/Laws.antt =====
-- Settings of a box, set or reset and read back.
use mathlib.Core.Path.{fun_ext}
use kanibako.Prelude.{
  ◌≡◌, refl, ap, ◌∙◌, sym, ◌&&◌, Option, none, some, ◌++◌, arith, Text, text, ◌==◌, text_eq,
  if◌then◌else◌, Option-cases, inl, inr, ok, ◌>>=◌,
}
use kanibako.Prelude.Dict.{lookup}
use kanibako.Documents.Table.{word, Table, get, mem}
use kanibako.Documents.Files.{Yaml, Faithful, load_doc, dump_doc, load_doc-dump_doc}
use kanibako.Documents.Sections.{as_table, read, write, remove, write_toml_key, remove_toml_key}
use kanibako.Config.Flatten.{Show, str_values}
use kanibako.Config.Load.{mapping}
use kanibako.Config.Keys.{Place, place_of, resolve_key}
use kanibako.Config.Sections.{read_crab_settings}
use kanibako.Config.Interface.{
  get_at, get_config_value, set_at, set_config_value, reset_at, reset_config_value, Message,
  has_set, reset_message,
}
use kanibako.Config.Interface.Settings.{
  Setting, crab_setting, resource_override, place, section_name, key_name, same, shown, look, seen,
  resource_of-look, seen_parts, look-if, seen-write, seen-write_self, seen-remove, crab_steps,
}

module _ {F L : Type 0} (yaml : Yaml F L) (show : Show L) (faithful : Faithful yaml) where
  -- A reading is one of the document.
  get_at-place :
      (q : Setting) (global file : Option F) (env_global env_project : Option (Option Text))
      → get_at yaml show (place q) global (some file) env_global env_project
        ≡ seen show q (load_doc yaml file)
  unfolding get_at read_crab_settings load_doc get mapping lookup str_values
  get_at-place (crab_setting key) global none env_global env_project = refl
  get_at-place (crab_setting key) global (some content) env_global env_project =
      crab_steps show key (mapping (get (text "crab") (load_doc yaml (some content))))
  get_at-place (resource_override name) global none env_global env_project = refl
  get_at-place (resource_override name) global (some content) env_global env_project =
      ap
        (λ f. mapping (get (text "resource_overrides") (load_doc yaml (some content))) >>= λ s.
          ok (f s))
        (fun_ext (resource_of-look show name))

  set_at-place :
      (p : Setting) (value : Text) (file : Option F) (env : Option (Option Text))
      → (message : Message) × (set_at yaml (place p) value file env
          ≡ ok (
            message,
            dump_doc yaml (write (section_name p) (key_name p) (word value) (load_doc yaml file)),
            env,
          ))
  unfolding set_at write_toml_key
  set_at-place (crab_setting key) value file env = (has_set key value, refl)
  set_at-place (resource_override name) value file env =
      (has_set (text "resource." ++ name) value, refl)

  -- A reading after a write of the document.
  get-dump :
      (q : Setting) (global : Option F) (env_global env_project : Option (Option Text))
      (doc : Table L) (after : Option Text)
      → seen show q doc ≡ ok after
      → get_at yaml show (place q) global (some (dump_doc yaml doc)) env_global env_project
        ≡ ok after
  get-dump q global env_global env_project doc after h =
      get_at-place q global (dump_doc yaml doc) env_global env_project
      ∙ ap (seen show q) (load_doc-dump_doc yaml faithful doc)
      ∙ h

  -- Over a YAML library that parses the file and reads back what it writes, setting a crab setting or
  -- an override of a resource never raises. Afterwards that key reads as the text that was set (an
  -- empty override as none), whatever the file held; and every other such key, if it could be read
  -- before, reads as before.
  pub get_config_value-set_config_value :
      (p : Setting) (key value : Text)
      → place_of (resolve_key key) ≡ place p
      → (global file : Option F) (env env_global env_project : Option (Option Text))
      → (message : Message) × (after : Option F) × (set_config_value yaml key value file env
          ≡ ok (message, after, env))
        × (get_config_value yaml show key global (some after) env_global env_project
            ≡ ok (shown p value))
        × ((q : Setting) (asked : Text) (before : Option Text)
            → place_of (resolve_key asked) ≡ place q
            → get_config_value yaml show asked global (some file) env_global env_project ≡ ok before
            → get_config_value yaml show asked global (some after) env_global env_project
              ≡ ok (if same q p then shown q value else before))
  unfolding get_config_value set_config_value
  get_config_value-set_config_value p key value at_p global file env env_global env_project =
      let (message, done) = set_at-place p value file env in
      let asks =
        λ (f : Option F) (l : Place). get_at yaml show l global (some f) env_global env_project in
      let doc = load_doc yaml file in
      let doc' = write (section_name p) (key_name p) (word value) doc in
      (
        message,
        dump_doc yaml doc',
        ap (λ l. set_at yaml l value file env) at_p ∙ done,
        ap (asks (dump_doc yaml doc')) at_p
            ∙ get-dump p global env_global env_project doc' (shown p value)
                (seen-write_self show p value doc),
        λ q asked before at_q h.
            ap (asks (dump_doc yaml doc')) at_q
            ∙ get-dump q global env_global env_project doc'
                (if same q p then shown q value else before)
                (seen-write show p q value doc before (
                  sym (get_at-place q global file env_global env_project)
                  ∙ sym (ap (asks file) at_q)
                  ∙ h)),
      )

  reset_at-place :
      (p : Setting) (file : Option F) (env : Option (Option Text))
      → (message : Message) × (reset_at yaml (place p) file env
          ≡ ok (message, (remove_toml_key yaml file (section_name p) (key_name p)).1, env))
  unfolding reset_at
  reset_at-place (crab_setting key) file env =
      (reset_message key (remove_toml_key yaml file (text "crab") key).0, refl)
  reset_at-place (resource_override name) file env = (
    reset_message (text "resource." ++ name)
        (remove_toml_key yaml file (text "resource_overrides") name).0,
    refl,
  )

  unread :
      (s k section key : Text) (doc : Table L)
      → read section key doc ≡ none
      → read s k doc ≡ (if s == section && k == key then none else read s k doc)
  unread s k section key doc h = elim (text_eq.dec s section) [
    | yes p ↦ elim (text_eq.dec k key) [
      | yes r ↦ rw (p, r) (h ∙ ground arith)
      | no n ↦ ground arith
    ]
    | no n ↦ ground arith
  ]

  unread_none : (section key : Text) → read section key (load_doc yaml none) ≡ none
  unfolding load_doc get as_table
  unread_none section key = refl

  absent_before :
      (p q : Setting) (doc : Table L) (before : Option Text)
      → read (section_name p) (key_name p) doc ≡ none
      → look show q (read (section_name q) (key_name q) doc) ≡ before
      → before ≡ (if same q p then none else before)
  absent_before p q doc before h k =
      sym k
      ∙ ap (look show q) (unread (section_name q) (key_name q) (section_name p) (key_name p) doc h)
      ∙ look-if show q (same q p) none (read (section_name q) (key_name q) doc)
      ∙ ap (λ o. if same q p then none else o) k

  get_at-removed :
      (p q : Setting) (global file : Option F) (env_global env_project : Option (Option Text))
      (before : Option Text)
      → seen show q (load_doc yaml file) ≡ ok before
      → get_at yaml show
          (place q)
          global
          (some (remove_toml_key yaml file (section_name p) (key_name p)).1)
          env_global
          env_project
        ≡ ok (if same q p then none else before)
  unfolding remove_toml_key mem
  get_at-removed p q global none env_global env_project before h =
      get_at-place q global none env_global env_project
      ∙ h
      ∙ ap (λ o. ok o)
          (absent_before p q (load_doc yaml none) before (unread_none (section_name p) (key_name p))
            (seen_parts show q (get (section_name q) (load_doc yaml none)) before h).1)
  get_at-removed p q global (some content) env_global env_project before h =
      let doc = load_doc yaml (some content) in
      elim (Option-cases (read (section_name p) (key_name p) doc)) [
        | inl e ↦
            rw (remove_toml_key, mem, e)
              (get_at-place q global (some content) env_global env_project
                ∙ h
                ∙ ap (λ o. ok o)
                    (absent_before p q doc before e
                      (seen_parts show q (get (section_name q) doc) before h).1))
        | inr (v, e) ↦
            rw (remove_toml_key, mem, e)
              (get-dump q global env_global env_project (remove (section_name p) (key_name p) doc)
                (if same q p then none else before) (seen-remove show p q doc before h))
      ]

  -- Over a YAML library that parses the file and reads back what it writes, resetting a crab setting
  -- or an override of a resource never raises. Afterwards every such key that could be read before
  -- can be read: as none if it is the one that was reset, and as before if it is another.
  pub get_config_value-reset_config_value :
      (p : Setting) (key : Text)
      → place_of (resolve_key key) ≡ place p
      → (global file : Option F) (env env_global env_project : Option (Option Text))
      → (message : Message) × (after : Option F) × (reset_config_value yaml key file env
          ≡ ok (message, after, env))
        × ((q : Setting) (asked : Text) (before : Option Text)
            → place_of (resolve_key asked) ≡ place q
            → get_config_value yaml show asked global (some file) env_global env_project ≡ ok before
            → get_config_value yaml show asked global (some after) env_global env_project
              ≡ ok (if same q p then none else before))
  unfolding get_config_value reset_config_value
  get_config_value-reset_config_value p key at_p global file env env_global env_project =
      let (message, done) = reset_at-place p file env in
      let asks =
        λ (f : Option F) (l : Place). get_at yaml show l global (some f) env_global env_project in
      let after = (remove_toml_key yaml file (section_name p) (key_name p)).1 in
      (
        message,
        after,
        ap (λ l. reset_at yaml l file env) at_p ∙ done,
        λ q asked before at_q h.
            ap (asks after) at_q
            ∙ get_at-removed p q global file env_global env_project before (
                sym (get_at-place q global file env_global env_project)
                ∙ sym (ap (asks file) at_q)
                ∙ h),
      )
