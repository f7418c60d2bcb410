-- ===== src/Settings/Tests/Expressions.antt =====
-- Runs of the expression grammar, and its theorems at concrete inputs.
use kanibako.Prelude.{
  if◌then◌else◌, ◌≡◌, refl, none, some, [], ◌∷◌, ◌++◌, arith, text, contains, text_eq, ℕ_discrete,
}
use kanibako.Prelude.Dict.{lookup}
use kanibako.Prelude.Strings.{starts_with}
use kanibako.Settings.Types.{returned, raised, cyclic_ref, host, guest, Lookup}
use kanibako.Settings.Escape.{escape, bind_special, split_raw, split_bind, split_bind-escape}
use kanibako.Settings.Expand.{expand_expr, expand_var, expand_ref, scan, segment, match_ref}
use kanibako.Settings.Expand.Guard.{AgreeBeyond, expand_expr_agree}
use kanibako.Settings.Expand.Literal.{quote, expand_expr-quote}
use kanibako.Settings.Tests.{ctx, find}

split_escaped : split_bind (text "a\\:b:c") ≡ (text "a:b", some (text "c"))
unfolding split_bind ℕ_discrete
split_escaped = refl

split_bind-escape_example :
    (split_bind (escape bind_special (text "a:b") ++ b':' ∷ escape bind_special (text "c"))
      ≡ (text "a:b", some (text "c")))
    × (split_bind (escape bind_special (text "a:b")) ≡ (text "a:b", none))
split_bind-escape_example = split_bind-escape (text "a:b") (text "c")

first_colon : split_raw (text "a:b:c") ≡ some (text "a", text "b:c")
unfolding split_raw ℕ_discrete
first_colon = refl

expansion :
    expand_expr ctx find [] host (text "~/$CRAB/@data/x")
    ≡ returned (text "/home/u/claude//srv/$x/x")
unfolding expand_expr scan segment expand_var expand_ref text_eq starts_with lookup
expansion = refl

cycle :
    expand_expr ctx find (text "a" ∷ text "b" ∷ []) host (text "@a")
    ≡ raised (cyclic_ref (text "a" ∷ text "b" ∷ text "a" ∷ []))
unfolding expand_expr scan segment expand_var expand_ref text_eq
cycle = refl

-- A callback that differs from `find` on a chain that repeats a name.
abbrev find' : Lookup
find' ref chain = if contains (text "data" ∷ []) ref then find ref chain else find ref []

agrees : AgreeBeyond find find' []
agrees name fresh below = ground arith

expand_expr_agree_example :
    expand_expr ctx find [] host (text "@data/x") ≡ expand_expr ctx find' [] host (text "@data/x")
expand_expr_agree_example = expand_expr_agree ctx find find' [] agrees host (text "@data/x")

expand_expr-quote_example :
    expand_expr ctx find [] guest (quote (text "~$CRAB@x\\")) ≡ returned (text "~$CRAB@x\\")
expand_expr-quote_example = expand_expr-quote ctx find [] guest (text "~$CRAB@x\\")

name_ends : match_ref (text "data" ++ quote (text "/$y")) ≡ some (text "data", quote (text "/$y"))
unfolding match_ref escape ℕ_discrete
name_ends = refl

data_found : find (text "data") (text "data" ∷ []) ≡ returned (text "/srv/$x")
unfolding text_eq
data_found = refl
