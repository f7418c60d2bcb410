-- ===== src/PathNames/Codec.antt =====
-- `escape_path`, `unescape_path`, `short_hash` and `container_name_for` of src/kanibako/utils.py.
use kanibako.Prelude.{
  ℕ, true, false, ◌&&◌, [], ◌∷◌, ◌++◌, Text, text, ◌==◌, nat_eq, if◌then◌else◌, take,
}

-- `s.lstrip(c)`
unfoldable pub lstrip : ℕ → Text → Text
lstrip c [] = []
lstrip c (d ∷ s) = let rest = lstrip c s in if d == c then rest else d ∷ s

-- `s.replace(c, new)` for one character.
unfoldable pub replace_char : ℕ → Text → Text → Text
replace_char c new [] = []
replace_char c new (d ∷ s) = (if d == c then new else d ∷ []) ++ replace_char c new s

-- `s.replace(a + b, new)` for two characters: left to right, with no overlap.
unfoldable pub replace_pair : ℕ → ℕ → Text → Text → Text
replace_pair a b new [] = []
replace_pair a b new (c ∷ []) = c ∷ []
replace_pair a b new (c ∷ d ∷ s) = elim (c == a && d == b) [
  | true ↦ new ++ replace_pair a b new s
  | false ↦ c ∷ replace_pair a b new (d ∷ s)
]

abbrev pub dash_escape : Text
dash_escape = text "-."

unfoldable pub escape_path : Text → Text
unfolding lstrip replace_char
escape_path path = replace_char b'/' (b'-' ∷ []) (replace_char b'-' dash_escape (lstrip b'/' path))

-- The sentinel is the character 0.
unfoldable pub unescape_path : Text → Text
unfolding replace_char replace_pair
unescape_path encoded =
    b'/'
    ∷ replace_char 0 (b'-' ∷ [])
        (replace_char b'-' (b'/' ∷ []) (replace_pair b'-' b'.' (0 ∷ []) encoded))

-- `full_hash[:length]`
unfoldable pub short_hash : Text → ℕ → Text
short_hash full_hash length = take length full_hash

pub data ProjectMode : Type 0 where
  default workset standalone : ProjectMode

-- What `container_name_for` reads of a `ProjectPaths`.
pub record ProjectId : Type 0 where
  pub mode : ProjectMode
  pub project_path : Text
  pub name : Text
  pub project_hash : Text

abbrev named : Text → Text → Text
named [] hash = text "kanibako-" ++ short_hash hash 8
named (c ∷ name) hash = text "kanibako-" ++ (c ∷ name)

abbrev by_mode : ProjectMode → ProjectId → Text
by_mode standalone proj = text "kanibako-ronin-" ++ escape_path proj.project_path
by_mode default proj = named proj.name proj.project_hash
by_mode workset proj = named proj.name proj.project_hash

unfoldable pub container_name_for : ProjectId → Text
unfolding escape_path short_hash
container_name_for proj = by_mode proj.mode proj
