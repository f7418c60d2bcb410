-- ===== src/Env/Tests.antt =====
-- Files of variables, and the theorems at them.
use kanibako.Prelude.{
  ◌≡◌, refl, true, Option, none, some, [], ◌∷◌, Text, text, ◌==◌, text_eq, ℕ_discrete,
  if◌then◌else◌, ok, err,
}
use kanibako.Prelude.Dict.{lookup, insert, has}
use kanibako.Prelude.Strings.{strip_right}
use kanibako.Env.File.{
  is_key, read_env_file, write_env_file, set_env_var, unset_env_var, invalid_name,
}
use kanibako.Env.RoundTrip.{Storable, read_env_file-write_env_file}
use kanibako.Env.Update.{set_env_var-read_env_file, unset_env_var-read_env_file}

abbrev sample : Option Text
sample = some (text "# settings\nPORT = 80\n\nbad line\nHOST=a b\n")

read_sample : read_env_file sample ≡ (text "PORT", text " 80") ∷ (text "HOST", text "a b") ∷ []
unfolding read_env_file insert text_eq ℕ_discrete
read_sample = refl

name_refused : set_env_var sample (text "2A") (text "x") ≡ err (invalid_name (text "2A"))
unfolding set_env_var ℕ_discrete
name_refused = refl

-- A trailing space of a value is lost.
space_lost : read_env_file (write_env_file ((text "A", text "x ") ∷ [])) ≡ (text "A", text "x") ∷ []
unfolding read_env_file write_env_file insert text_eq ℕ_discrete
space_lost = refl

-- A name with a line feed behind it is accepted and its variable is lost.
name_lost : read_env_file (write_env_file ((text "A\n", text "x") ∷ [])) ≡ []
unfolding read_env_file write_env_file insert text_eq ℕ_discrete
name_lost = refl

name_accepted : is_key (text "A\n") ≡ true
unfolding is_key text_eq ℕ_discrete
name_accepted = refl

user-Storable : Storable (text "USER", text "me")
unfolding is_key strip_right ℕ_discrete
user-Storable = (refl, (refl, (refl, (refl, (refl, tt)))), (refl, (refl, tt)), refl)

read_env_file-write_env_file_example :
    lookup (text "USER") (read_env_file (write_env_file ((text "USER", text "me") ∷ [])))
    ≡ lookup (text "USER") ((text "USER", text "me") ∷ [])
unfolding lookup
read_env_file-write_env_file_example =
    read_env_file-write_env_file ((text "USER", text "me") ∷ []) (refl, tt) (user-Storable, tt)
      (text "USER")

set_env_var-read_env_file_example :
    (file' : Option Text) × (set_env_var sample (text "USER") (text "me") ≡ ok file')
    × ((k : Text)
        → lookup k (read_env_file file')
          ≡ (if k == text "USER" then some (text "me") else lookup k (read_env_file sample)))
set_env_var-read_env_file_example =
    set_env_var-read_env_file sample (text "USER") (text "me") user-Storable

unset_env_var-read_env_file_example :
    ((unset_env_var sample (text "HOST")).0 ≡ has (text "HOST") (read_env_file sample))
    × ((k : Text)
        → lookup k (read_env_file (unset_env_var sample (text "HOST")).1)
          ≡ (if k == text "HOST" then none else lookup k (read_env_file sample)))
unset_env_var-read_env_file_example = unset_env_var-read_env_file sample (text "HOST")
