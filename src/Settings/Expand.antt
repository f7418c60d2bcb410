-- ===== src/Settings/Expand.antt =====
-- `expand_expr` of src/kanibako/settings_resolve.py and its helpers. The scan is a loop over the
-- text that is left, on fuel: each round leaves a shorter text, so the length is enough
-- (Expand/Total.antt).
pub mod Total
pub mod Guard
pub mod Literal
use kanibako.Prelude.{
  ℕ, zero, suc, Bool, true, false, ◌&&◌, ◌||◌, Option, none, some, List, [], ◌∷◌, ◌++◌, length, leb,
  Text, text, ◌==◌, contains, nat_eq, text_eq, if◌then◌else◌,
}
use kanibako.Prelude.Dict.{lookup}
use kanibako.Prelude.Strings.{starts_with}
use kanibako.Settings.Types.{
  SettingsError, malformed_variable, unterminated_brace, malformed_ref, unset_variable,
  unknown_variable, cyclic_ref, depth_cap, Outcome, returned, raised, out_of_fuel, ◌>>=◌, Space,
  host, guest, ResolveCtx, Lookup, guest_home, max_ref_depth,
}
use kanibako.Settings.Escape.{backslash}

unfoldable pub is_letter : ℕ → Bool
is_letter c = (leb b'A' c && leb c b'Z') || (leb b'a' c && leb c b'z') || c == b'_'

unfoldable pub is_digit : ℕ → Bool
is_digit c = leb b'0' c && leb c b'9'

unfoldable pub is_word : ℕ → Bool
unfolding is_letter is_digit
is_word c = is_letter c || is_digit c

-- The longest run of word characters at the front, and the rest.
unfoldable pub word_run : Text → Text × Text
word_run [] = ([], [])
word_run (c ∷ s) =
    let (run, rest) = word_run s in if is_word c then (c ∷ run, rest) else ([], c ∷ s)

-- `_VAR_NAME_RE.match`: a letter or `_`, then word characters.
unfoldable pub match_var : Text → Option (Text × Text)
unfolding word_run is_word
match_var [] = none
match_var (c ∷ s) =
    let (run, rest) = word_run s in if is_letter c then some (c ∷ run, rest) else none

-- `_REF_NAME_RE.match`: runs of word characters joined by single dots. A dot with no word character
-- behind it is not part of the name.
ref_run : Text → Text × Text
ref_run [] = ([], [])
ref_run (c ∷ []) = if is_word c then (c ∷ [], []) else ([], c ∷ [])
ref_run (c ∷ d ∷ s) =
    let (run, rest) = ref_run (d ∷ s) in
    if is_word c
    then (c ∷ run, rest)
    else if c == b'.' && is_word d
    then (c ∷ run, rest)
    else ([], c ∷ d ∷ s)

unfoldable pub match_ref : Text → Option (Text × Text)
unfolding ref_run is_word
match_ref [] = none
match_ref (c ∷ s) =
    let (run, rest) = ref_run (c ∷ s) in if is_word c then some (run, rest) else none

set_or_raise : Text → Option Text → Outcome Text
set_or_raise name none = raised (unset_variable name)
set_or_raise name (some v) = returned v

unfoldable pub resolve_var : Text → ResolveCtx → Outcome Text
unfolding set_or_raise
resolve_var name ctx =
    if name == text "CRAB"
    then set_or_raise name ctx.crab_name
    else if name == text "WORKSET"
    then set_or_raise name ctx.workset_name
    else if starts_with name (text "XDG_")
    then set_or_raise name (lookup name ctx.xdg)
    else raised (unknown_variable name)

-- The text behind the name of a braced variable must begin with the closing brace.
close_brace : Text → Text × Text → Outcome (Text × Text)
close_brace expr (name, []) = raised (unterminated_brace expr)
close_brace expr (name, c ∷ rest) =
    if c == b'}' then returned (name, rest) else raised (unterminated_brace expr)

plain_name : Text → Option (Text × Text) → Outcome (Text × Text)
plain_name expr none = raised (malformed_variable expr)
plain_name expr (some m) = returned m

-- The name behind a `$`, and what follows it; `expr` is the text from the `$` on, for the message.
var_name : Text → Text → Outcome (Text × Text)
var_name expr [] = raised (malformed_variable expr)
var_name expr (c ∷ s) =
    if c == b'{'
    then (do m ← plain_name expr (match_var s); close_brace expr m)
    else plain_name expr (match_var (c ∷ s))

-- `expr` starts behind the `$`.
unfoldable pub expand_var : Text → ResolveCtx → Outcome (Text × Text)
unfolding var_name close_brace plain_name resolve_var match_var
expand_var expr ctx = do
  (name, rest) ← var_name (b'$' ∷ expr) expr
  value ← resolve_var name ctx
  returned (value, rest)

-- The cycle guard and the depth cap, then the callback.
unfoldable pub checked_lookup : Lookup → List Text → Text → Outcome Text
checked_lookup find chain name =
    if contains chain name
    then raised (cyclic_ref (chain ++ name ∷ []))
    else if leb max_ref_depth (length chain)
    then raised (depth_cap name)
    else find name (chain ++ name ∷ [])

ref_found : Text → Lookup → List Text → Option (Text × Text) → Outcome (Text × Text)
ref_found expr find chain none = raised (malformed_ref (b'@' ∷ expr))
ref_found expr find chain (some (name, rest)) = do
  value ← checked_lookup find chain name
  returned (value, rest)

-- `expr` starts behind the `@`.
unfoldable pub expand_ref : Text → Lookup → List Text → Outcome (Text × Text)
unfolding ref_found checked_lookup match_ref
expand_ref expr find chain = ref_found expr find chain (match_ref expr)

-- A backslash and what follows it; at the end it stands for itself.
escaped : Text → Text × Text
escaped [] = (backslash ∷ [], [])
escaped (d ∷ s) = (d ∷ [], s)

module _ (ctx : ResolveCtx) (find : Lookup) (chain : List Text) where
  -- One round of the scan: the segment that `c` begins, and the text behind it.
  unfoldable pub segment : ℕ → Text → Outcome (Text × Text)
  unfolding escaped
  segment c s =
      if c == backslash
      then returned (escaped s)
      else if c == b'$'
      then expand_var s ctx
      else if c == b'@'
      then expand_ref s find chain
      else returned (c ∷ [], s)

  unfoldable pub scan : ℕ → Text → Outcome Text
  scan fuel [] = returned []
  scan zero (c ∷ s) = out_of_fuel
  scan (suc fuel) (c ∷ s) = do
    (seg, rest) ← segment c s
    tail ← scan fuel rest
    returned (seg ++ tail)

  home_of : Space → Text
  home_of host = ctx.host_home
  home_of guest = guest_home

  -- A `~` counts at the first position alone.
  unfoldable pub expand_expr : Space → Text → Outcome Text
  unfolding home_of
  expand_expr space [] = returned []
  expand_expr space (c ∷ s) =
      if c == b'~'
      then (do tail ← scan (length s) s; returned (home_of space ++ tail))
      else scan (length (c ∷ s)) (c ∷ s)
