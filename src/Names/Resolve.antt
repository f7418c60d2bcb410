-- ===== src/Names/Resolve.antt =====
-- `resolve_name` and `resolve_qualified_name` of src/kanibako/names.py, on the registry that was
-- loaded. The file system is a parameter: `candidate root name` is the text of the path
-- `root / "workspaces" / name`, and `is_dir` tells of a path whether it is a directory.
use kanibako.Prelude.{
  ◌≡◌, refl, Bool, true, false, ◌&&◌, ◌||◌, Option, none, some, [], ◌∷◌, ◌++◌, arith, Text, text,
  ◌==◌, text_eq, nat_eq, if◌then◌else◌, Result, ok, err, All,
}
use kanibako.Prelude.Dict.{Dict, lookup}
use kanibako.Prelude.Strings.{starts_with, has_char}
use kanibako.Names.Document.{Registry}
use kanibako.Names.Registry.{
  ProjectError, unknown_name, unknown_workset, not_qualified, not_in_workset,
}

pub data Kind : Type 0 where
  project workset : Kind

-- `cwd_str == ws_root or cwd_str.startswith(ws_root + "/")`
unfoldable pub is_inside : Text → Text → Bool
is_inside cwd root = cwd == root || starts_with cwd (root ++ text "/")

-- `qualified.split("/", 1)`: what stands before and behind the first slash.
unfoldable pub split_slash : Text → Option (Text × Text)
split_slash [] = none
split_slash (c ∷ s) =
    let rest : Option (Text × Text) = elim (split_slash s) [
      | none ↦ none
      | some p ↦ some (c ∷ p.0, p.1)
    ] in
    if c == b'/' then some ([], s) else rest

module _ (candidate : Text → Text → Text) (is_dir : Text → Bool) where
  -- The first workset around the directory in which the name is a project.
  unfoldable pub in_worksets : Text → Text → Dict Text Text → Option Text
  in_worksets cwd name [] = none
  in_worksets cwd name ((_, root) ∷ rest) =
      let later = in_worksets cwd name rest in
      if is_inside cwd root && is_dir (candidate root name)
      then some (candidate root name)
      else later

  by_context : Option Text → Text → Registry → Option Text
  unfolding in_worksets
  by_context none name names = none
  by_context (some cwd) name names = in_worksets cwd name names.worksets

  -- `cwd` is the resolved directory, if one was given.
  unfoldable pub resolve_name : Registry → Text → Option Text → Result ProjectError (Text × Kind)
  unfolding by_context
  resolve_name names name cwd = elim (by_context cwd name names) [
    | some path ↦ ok (path, project)
    | none ↦ elim (lookup name names.projects) [
      | some path ↦ ok (path, project)
      | none ↦ elim (lookup name names.worksets) [
        | some path ↦ ok (path, workset)
        | none ↦ err (unknown_name name)
      ]
    ]
  ]

  resolve_halves : Registry → Text → Option (Text × Text) → Result ProjectError (Text × Text)
  resolve_halves names qualified none = err (not_qualified qualified)
  resolve_halves names qualified (some (ws_name, proj_name)) =
      elim (lookup ws_name names.worksets) [
        | none ↦ err (unknown_workset ws_name)
        | some root ↦
            if is_dir (candidate root proj_name)
            then ok (candidate root proj_name, ws_name)
            else err (not_in_workset proj_name ws_name)
      ]

  unfoldable pub resolve_qualified_name : Registry → Text → Result ProjectError (Text × Text)
  unfolding resolve_halves split_slash
  resolve_qualified_name names qualified = resolve_halves names qualified (split_slash qualified)

  -- The directory is in the workset of the entry, which has the project.
  unfoldable pub serves : Text → Text → Text × Text → Bool
  serves cwd name (_, root) = is_inside cwd root && is_dir (candidate root name)

  in_worksets-first :
      (cwd name : Text) (before : Dict Text Text) (entry : Text × Text) (after : Dict Text Text)
      → All (λ e. serves cwd name e ≡ false) before
      → serves cwd name entry ≡ true
      → in_worksets cwd name (before ++ entry ∷ after) ≡ some (candidate entry.1 name)
  unfolding in_worksets serves
  in_worksets-first cwd name [] (_, root) after h k = rw k
  in_worksets-first cwd name ((_, root) ∷ before) entry after (h, hs) k =
      rw h (in_worksets-first cwd name before entry after hs k)

  in_worksets-none :
      (cwd name : Text) (entries : Dict Text Text)
      → All (λ e. serves cwd name e ≡ false) entries
      → in_worksets cwd name entries ≡ none
  unfolding in_worksets serves
  in_worksets-none cwd name [] h = refl
  in_worksets-none cwd name ((_, root) ∷ rest) (h, hs) = rw h (in_worksets-none cwd name rest hs)

  -- In a directory inside a workset that has a project of that name, the project of the first such
  -- workset is found, whatever is registered under the name.
  pub resolve_name-inside :
      (cwd name : Text) (registered before : Dict Text Text) (entry : Text × Text)
      (after : Dict Text Text)
      → All (λ e. serves cwd name e ≡ false) before
      → serves cwd name entry ≡ true
      → resolve_name
          (record { projects = registered; worksets = before ++ entry ∷ after })
          name
          (some cwd)
        ≡ ok (candidate entry.1 name, project)
  unfolding resolve_name by_context
  resolve_name-inside cwd name registered before entry after h k =
      rw (resolve_name, in_worksets-first cwd name before entry after h k)

  -- In a directory that no workset with a project of that name is around, a registered project is
  -- found, then a registered workset, and the name is refused if there is neither.
  pub resolve_name-outside :
      (cwd name : Text) (names : Registry)
      → All (λ e. serves cwd name e ≡ false) names.worksets
      → resolve_name names name (some cwd) ≡ (elim (lookup name names.projects) [
        | some path ↦ ok (path, project)
        | none ↦ elim (lookup name names.worksets) [
          | some path ↦ ok (path, workset)
          | none ↦ err (unknown_name name)
        ]
      ])
  unfolding resolve_name by_context
  resolve_name-outside cwd name names h =
      rw (resolve_name, in_worksets-none cwd name names.worksets h)

  split_slash-append :
      (s t : Text) → has_char b'/' s ≡ false → split_slash (s ++ b'/' ∷ t) ≡ some (s, t)
  unfolding split_slash has_char
  split_slash-append [] t h = ground arith
  split_slash-append (c ∷ s) t h = ground (arith, split_slash-append s t)

  -- A workset's name without a slash, a slash and any project's name resolve to that project's
  -- directory in the workset's root if it exists, and otherwise fail by what is missing.
  pub resolve_qualified_name-join :
      (names : Registry) (ws_name proj_name : Text)
      → has_char b'/' ws_name ≡ false
      → ((root : Text)
          → lookup ws_name names.worksets ≡ some root
          → resolve_qualified_name names (ws_name ++ b'/' ∷ proj_name) ≡ (
              if is_dir (candidate root proj_name)
              then ok (candidate root proj_name, ws_name)
              else err (not_in_workset proj_name ws_name)))
        × (lookup ws_name names.worksets ≡ none
            → resolve_qualified_name names (ws_name ++ b'/' ∷ proj_name)
              ≡ err (unknown_workset ws_name))
  unfolding resolve_qualified_name resolve_halves
  resolve_qualified_name-join names ws_name proj_name h = (
    λ root found. rw (split_slash-append ws_name proj_name h, found, resolve_halves),
    λ missing. rw (split_slash-append ws_name proj_name h, missing, resolve_halves),
  )
