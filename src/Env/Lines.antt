-- ===== src/Env/Lines.antt =====
-- Python's `str.splitlines`, with which src/kanibako/shellenv.py reads a file.
use kanibako.Prelude.{
  ℕ, ◌≡◌, ap, ◌∙◌, Bool, true, false, ◌&&◌, ◌||◌, List, [], ◌∷◌, ◌++◌, arith, All, Text, ◌==◌,
  nat_eq, if◌then◌else◌, leb, Bool-cases, inl, inr,
}

-- The characters that end a line.
abbrev pub is_break : ℕ → Bool
is_break c = (leb 10 c && leb c 13) || (leb 28 c && leb c 30) || c == 133 || c == 8232 || c == 8233

-- A character before the first line.
unfoldable pub onto : ℕ → List Text → List Text
onto c [] = (c ∷ []) ∷ []
onto c (line ∷ lines) = (c ∷ line) ∷ lines

-- A carriage return and a line feed end one line; a break at the end begins no further line.
unfoldable pub splitlines : Text → List Text
unfolding onto
splitlines [] = []
splitlines (c ∷ []) = if is_break c then [] ∷ [] else (c ∷ []) ∷ []
splitlines (c ∷ d ∷ s) = elim (c == 13 && d == 10) [
  | true ↦ [] ∷ splitlines s
  | false ↦ elim (is_break c) [
    | true ↦ [] ∷ splitlines (d ∷ s)
    | false ↦ onto c (splitlines (d ∷ s))
  ]
]

-- A text within one line.
abbrev pub OneLine : Text → Type 0
OneLine s = All (λ c. is_break c ≡ false) s

splitlines_plain :
    (c : ℕ) (s : Text) → is_break c ≡ false → splitlines (c ∷ s) ≡ onto c (splitlines s)
unfolding splitlines onto
splitlines_plain c [] h = rw h
splitlines_plain c (d ∷ s) h = ground arith

-- A line, its line feed and what follows.
pub splitlines-append :
    (line rest : Text) → OneLine line → splitlines (line ++ 10 ∷ rest) ≡ line ∷ splitlines rest
unfolding splitlines onto
splitlines-append [] [] h = ground arith
splitlines-append [] (d ∷ rest) h = ground arith
splitlines-append (c ∷ line) rest (h, hs) =
    splitlines_plain c (line ++ 10 ∷ rest) h ∙ ap (onto c) (splitlines-append line rest hs)

onto-OneLine :
    (c : ℕ) (lines : List Text)
    → is_break c ≡ false
    → All OneLine lines
    → All OneLine (onto c lines)
unfolding onto
onto-OneLine c [] h k = ((h, tt), tt)
onto-OneLine c (line ∷ lines) h (k, ks) = ((h, k), ks)

-- No line of a text holds a break.
pub splitlines-OneLine : (s : Text) → All OneLine (splitlines s)
unfolding splitlines
splitlines-OneLine [] = tt
splitlines-OneLine (c ∷ []) = elim (Bool-cases (is_break c)) [
  | inl e ↦ rw e (tt, tt)
  | inr e ↦ rw e ((e, tt), tt)
]
splitlines-OneLine (c ∷ d ∷ s) = elim (Bool-cases (c == 13 && d == 10)) [
  | inl e ↦ rw (splitlines, e) (tt, splitlines-OneLine s)
  | inr e ↦ elim (Bool-cases (is_break c)) [
    | inl f ↦ rw (splitlines, e, f) (tt, splitlines-OneLine (d ∷ s))
    | inr f ↦
        rw (splitlines, e, f) (onto-OneLine c (splitlines (d ∷ s)) f (splitlines-OneLine (d ∷ s)))
  ]
]
