-- ===== src/Env/File.antt =====
-- The operations of src/kanibako/shellenv.py. A file is its text, or `none`. Its newlines need no
-- translation, since `splitlines` ends lines at all of them.
use kanibako.Prelude.{
  Bool, true, false, ◌&&◌, Option, none, some, List, [], ◌∷◌, ◌++◌, Text, ◌==◌, nat_eq, text_eq,
  if◌then◌else◌, Result, ok, err,
}
use kanibako.Prelude.Dict.{Dict, insert, erase, has}
use kanibako.Prelude.Strings.{strip}
use kanibako.Settings.Expand.{is_letter, is_word}
use kanibako.Names.Document.{in_order}
use kanibako.Env.Lines.{splitlines}

-- Word characters up to the end, or up to a line feed that is the last character, as `$` has it.
unfoldable pub words_to_end : Text → Bool
unfolding is_word
words_to_end [] = true
words_to_end (c ∷ s) = if is_word c then words_to_end s else (c == 10 && s == [])

-- `_KEY_RE.match`
unfoldable pub is_key : Text → Bool
unfolding words_to_end is_letter
is_key [] = false
is_key (c ∷ s) = is_letter c && words_to_end s

-- `line.partition("=")`, where there is one.
unfoldable pub split_equals : Text → Option (Text × Text)
split_equals [] = none
split_equals (c ∷ s) =
    let rest : Option (Text × Text) = elim (split_equals s) [
      | none ↦ none
      | some p ↦ some (c ∷ p.0, p.1)
    ] in
    if c == b'=' then some ([], s) else rest

-- A key that is accepted, with its value.
unfoldable pub checked : Option (Text × Text) → Option (Text × Text)
unfolding strip is_key
checked none = none
checked (some (key, value)) = if is_key (strip key) then some (strip key, value) else none

-- A stripped line; an empty one and a comment say nothing.
unfoldable pub assignment : Text → Option (Text × Text)
unfolding checked split_equals
assignment [] = none
assignment (c ∷ s) = if c == b'#' then none else checked (split_equals (c ∷ s))

abbrev pub add_to : Dict Text Text → Option (Text × Text) → Dict Text Text
add_to env none = env
add_to env (some (key, value)) = insert key value env

unfoldable pub read_lines : Dict Text Text → List Text → Dict Text Text
unfolding assignment strip
read_lines env [] = env
read_lines env (line ∷ lines) = read_lines (add_to env (assignment (strip line))) lines

unfoldable pub read_env_file : Option Text → Dict Text Text
unfolding read_lines splitlines
read_env_file none = []
read_env_file (some content) = read_lines [] (splitlines content)

-- The lines, a line feed behind each.
unfoldable pub env_lines : Dict Text Text → Text
env_lines [] = []
env_lines ((key, value) ∷ env) = (key ++ b'=' ∷ value) ++ 10 ∷ env_lines env

unfoldable pub write_env_file : Dict Text Text → Option Text
unfolding env_lines in_order
write_env_file env = some (env_lines (in_order env))

-- The `ValueError` of a name.
pub data EnvError : Type 0 where
  invalid_name : Text → EnvError

unfoldable pub set_env_var : Option Text → Text → Text → Result EnvError (Option Text)
unfolding read_env_file write_env_file is_key
set_env_var file key value =
    if is_key key
    then ok (write_env_file (insert key value (read_env_file file)))
    else err (invalid_name key)

unfoldable pub unset_env_var : Option Text → Text → Bool × Option Text
unfolding read_env_file write_env_file
unset_env_var file key =
    let env = read_env_file file in
    if has key env then (true, write_env_file (erase key env)) else (false, file)

-- `env.update(other)`
unfoldable pub update_all : Dict Text Text → Dict Text Text → Dict Text Text
update_all env [] = env
update_all env ((key, value) ∷ rest) = update_all (insert key value env) rest

-- A path that was not given has no file.
abbrev read_given : Option (Option Text) → Dict Text Text
read_given none = []
read_given (some file) = read_env_file file

unfoldable pub merge_env : Option (Option Text) → Option (Option Text) → Dict Text Text
unfolding read_env_file update_all
merge_env global_file project_file =
    update_all (update_all [] (read_given global_file)) (read_given project_file)
