-- ===== src/Config/Meta/RoundTrip.antt =====
-- The metadata of a project, written and read back.
use kanibako.Prelude.{
  ◌≡◌, ◌≢◌, refl, ap, ◌∙◌, true, Option, none, some, [], ◌∷◌, arith, Text, text, ◌==◌, text_eq,
  if◌then◌else◌, Result, ok, err, ◌>>=◌, ℕ_discrete,
}
use kanibako.Documents.Table.{Value, flag, word, table, Table, end, entry, get, put, get-put}
use kanibako.Documents.Files.{Yaml, Faithful, load_doc, dump_doc, load_doc-dump_doc}
use kanibako.Config.Load.{ConfigFault, mapping}
use kanibako.Config.Meta.{
  ProjectMeta, StoredMeta, Scalars, current_mode, base_section, with_name, project_section,
  resolved_section, or_value, get_or, current_layout, resolved_of, stored_meta, mode_of, meta_of,
  meta_at, write_project_meta, read_project_meta,
}

module _ {L : Type 0} where
  -- The fields as they come back: an old name of a mode or of a layout is replaced.
  abbrev pub as_stored : ProjectMeta → StoredMeta L
  as_stored m = record {
    stored_mode = word (current_mode m.mode);
    stored_layout = current_layout (word m.layout);
    stored_enable_vault = flag m.enable_vault;
    stored_group_auth = flag m.group_auth;
    stored_name = word m.name;
    stored_workspace = word m.workspace;
    stored_shell = word m.shell;
    stored_vault_ro = word m.vault_ro;
    stored_vault_rw = word m.vault_rw;
    stored_metadata = word m.metadata;
    stored_project_hash = word m.project_hash;
    stored_global_shared = word m.global_shared;
    stored_local_shared = word m.local_shared;
  }

  get-entry :
      (j k : Text) (v : Value L) (d : Table L)
      → get j (entry k v d) ≡ (if j == k then some v else get j d)
  unfolding get
  get-entry j k v d = refl

  get-end : (j : Text) → get {L = L} j end ≡ none
  unfolding get
  get-end j = refl

  project_field :
      (m : ProjectMeta) (name : Text)
      → (get (text "layout") (with_name name (base_section {L = L} m)) ≡ some (word m.layout))
        × (get (text "enable_vault") (with_name name (base_section {L = L} m))
            ≡ some (flag m.enable_vault))
        × (get (text "group_auth") (with_name name (base_section {L = L} m))
            ≡ some (flag m.group_auth))
  unfolding with_name text_eq ℕ_discrete
  project_field m [] = (simp (get-entry), simp (get-entry), simp (get-entry))
  project_field m (c ∷ s) =
      (simp (get-put, get-entry), simp (get-put, get-entry), simp (get-put, get-entry))

  name_field :
      (m : ProjectMeta) (name : Text)
      → get_or (text "name") (word []) (with_name name (base_section {L = L} m)) ≡ word name
  unfolding with_name text_eq ℕ_discrete
  name_field m [] = ap (or_value (word [])) absent
    where
      absent : get (text "name") (base_section {L = L} m) ≡ none
      absent = simp (get-entry, get-end)
  name_field m (c ∷ s) =
      ap (or_value (word [])) (get-put (text "name") (text "name") (word (c ∷ s)) (base_section m))

  resolved_field :
      (m : ProjectMeta) (d : Table L)
      → (get (text "workspace") (resolved_section m d) ≡ some (word m.workspace))
        × (get (text "shell") (resolved_section m d) ≡ some (word m.shell))
        × (get (text "vault_ro") (resolved_section m d) ≡ some (word m.vault_ro))
        × (get (text "vault_rw") (resolved_section m d) ≡ some (word m.vault_rw))
        × (get (text "metadata") (resolved_section m d) ≡ some (word m.metadata))
        × (get (text "project_hash") (resolved_section m d) ≡ some (word m.project_hash))
        × (get (text "global_shared") (resolved_section m d) ≡ some (word m.global_shared))
        × (get (text "local_shared") (resolved_section m d) ≡ some (word m.local_shared))
  unfolding resolved_section text_eq ℕ_discrete
  resolved_field m d = (
    simp (get-put),
    simp (get-put),
    simp (get-put),
    simp (get-put),
    simp (get-put),
    simp (get-put),
    simp (get-put),
    simp (get-put),
  )

  section_meta :
      (m : ProjectMeta) (d : Table L)
      → stored_meta
          (word (current_mode m.mode))
          (with_name m.name (base_section m))
          (resolved_section m d)
        ≡ as_stored m
  unfolding stored_meta
  section_meta m d =
      let (layout_is, enable_vault_is, group_auth_is) = project_field m m.name in
      let (
        workspace_is, shell_is, vault_ro_is, vault_rw_is, metadata_is, project_hash_is,
        global_shared_is, local_shared_is,
      ) =
        resolved_field m d in
      λ i. record {
        stored_mode = word (current_mode m.mode);
        stored_layout = current_layout (or_value (word []) (layout_is i));
        stored_enable_vault = or_value (flag true) (enable_vault_is i);
        stored_group_auth = or_value (flag true) (group_auth_is i);
        stored_name = name_field m m.name i;
        stored_workspace = or_value (word []) (workspace_is i);
        stored_shell = or_value (word []) (shell_is i);
        stored_vault_ro = or_value (word []) (vault_ro_is i);
        stored_vault_rw = or_value (word []) (vault_rw_is i);
        stored_metadata = or_value (word []) (metadata_is i);
        stored_project_hash = or_value (word []) (project_hash_is i);
        stored_global_shared = or_value (word []) (global_shared_is i);
        stored_local_shared = or_value (word []) (local_shared_is i);
      }

  section_mode :
      (m : ProjectMeta) (name : Text)
      → get (text "mode") (with_name name (base_section {L = L} m)) ≡ some (word m.mode)
  unfolding with_name text_eq ℕ_discrete
  section_mode m [] = get-entry (text "mode") (text "mode") (word m.mode) _
  section_mode m (c ∷ s) = simp (get-put, get-entry)

  mode_of_word :
      (scalars : Scalars L) (mode : Text)
      → mode ≢ []
      → mode_of scalars (some (word mode)) ≡ ok (some (word (current_mode mode)))
  unfolding mode_of
  mode_of_word scalars mode h = ground arith

  -- The document that is written.
  abbrev written : ProjectMeta → Table L → Table L → Table L
  written m resolved doc =
      put (text "resolved") (table (resolved_section m resolved))
        (put (text "project") (table (project_section m)) doc)

  written-project :
      (m : ProjectMeta) (resolved doc : Table L)
      → get (text "project") (written m resolved doc) ≡ some (table (project_section m))
  unfolding text_eq ℕ_discrete
  written-project m resolved doc = simp (get-put)

  written-resolved :
      (m : ProjectMeta) (resolved doc : Table L)
      → resolved_of (written m resolved doc) ≡ some (table (resolved_section m resolved))
  written-resolved m resolved doc =
      rw
        (
          resolved_of,
          get-put (text "resolved") (text "resolved") (table (resolved_section m resolved))
              (put (text "project") (table (project_section m)) doc),
        )
        (ground arith)

  meta_at-written :
      (scalars : Scalars L) (m : ProjectMeta) (resolved doc : Table L)
      → m.mode ≢ []
      → meta_at scalars (written m resolved doc) ≡ ok (some (as_stored m))
  unfolding meta_at mapping meta_of project_section
  meta_at-written scalars m resolved doc h =
      let after = written m resolved doc in
      let project = project_section m in
      ap
        (λ p. do
          section ← mapping p
          mode ← mode_of scalars (get (text "mode") section)
          meta_of scalars after section mode)
        (written-project m resolved doc)
      ∙ ap (λ v. mode_of scalars v >>= λ mode. meta_of scalars after project mode)
          (section_mode m m.name)
      ∙ ap (λ r. r >>= λ mode. meta_of scalars after project mode) (mode_of_word scalars m.mode h)
      ∙ ap
          (λ r. do
            section ← mapping r
            ok (some (stored_meta (word (current_mode m.mode)) project section)))
          (written-resolved m resolved doc)
      ∙ ap (λ s. ok (some s)) (section_meta m resolved)

module _ {F L : Type 0} (yaml : Yaml F L) (faithful : Faithful yaml) (scalars : Scalars L) where
  read_written :
      (m : ProjectMeta) (resolved doc : Table L)
      → m.mode ≢ []
      → read_project_meta yaml scalars (dump_doc yaml (written m resolved doc))
        ≡ ok (some (as_stored m))
  unfolding read_project_meta dump_doc
  read_written m resolved doc h =
      ap (meta_at scalars) (load_doc-dump_doc yaml faithful (written m resolved doc))
      ∙ meta_at-written scalars m resolved doc h

  write_then_read :
      (m : ProjectMeta) (resolved : Result ConfigFault (Table L)) (doc : Table L) (file : Option F)
      → m.mode ≢ []
      → (resolved >>= λ section. ok (dump_doc yaml (written m section doc))) ≡ ok file
      → read_project_meta yaml scalars file ≡ ok (some (as_stored m))
  write_then_read m (err e) doc file h k = cc
  write_then_read m (ok section) doc file h k =
      let e : file ≡ dump_doc yaml (written m section doc) = cc in
      ap (read_project_meta yaml scalars) e ∙ read_written m section doc h

  -- Over a YAML library that reads back what it writes, metadata with a mode, once a write of it
  -- has gone through, is read back, whatever the file held before: each field has the value that
  -- was written, an old name of a mode or of a layout being replaced by its present one.
  pub read_project_meta-write_project_meta :
      (m : ProjectMeta) (file after : Option F)
      → m.mode ≢ []
      → write_project_meta yaml file m ≡ ok after
      → read_project_meta yaml scalars after ≡ ok (some (as_stored m))
  unfolding write_project_meta
  read_project_meta-write_project_meta m file after h k =
      write_then_read m
        (mapping (
          get (text "resolved")
            (put (text "project") (table (project_section m)) (load_doc yaml file))))
        (load_doc yaml file) after h k
