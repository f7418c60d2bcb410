-- ===== src/Settings/Escape.antt =====
-- `_unescape` and `split_bind` of src/kanibako/settings_resolve.py. The index into the text is the
-- text that is left.
use kanibako.Prelude.{
  ℕ, ◌≡◌, ◌≢◌, refl, ap, Bool, true, false, ◌||◌, Option, none, some, [], ◌∷◌, ◌++◌, arith, Text,
  ◌==◌, nat_eq, if◌then◌else◌, append_assoc, append-nil, ◌∙◌, sym, ℕ_discrete,
}

abbrev pub backslash : ℕ
backslash = 92

unfoldable pub unescape : Text → Text
unescape [] = []
unescape (c ∷ []) = if c == backslash then backslash ∷ [] else c ∷ []
unescape (c ∷ d ∷ s) = elim (c == backslash) [
  | true ↦ d ∷ unescape s
  | false ↦ c ∷ unescape (d ∷ s)
]

abbrev before : Text → Option (Text × Text) → Option (Text × Text)
before p none = none
before p (some (host, guest)) = some (p ++ host, guest)

-- The two halves around the first unescaped colon, with their escapes.
unfoldable pub split_raw : Text → Option (Text × Text)
split_raw [] = none
split_raw (c ∷ []) = if c == backslash then none else if c == b':' then some ([], []) else none
split_raw (c ∷ d ∷ s) = elim (c == backslash) [
  | true ↦ before (c ∷ d ∷ []) (split_raw s)
  | false ↦ elim (c == b':') [
    | true ↦ some ([], d ∷ s)
    | false ↦ before (c ∷ []) (split_raw (d ∷ s))
  ]
]

halves : Text → Option (Text × Text) → Text × Option Text
halves value none = (unescape value, none)
halves value (some (host, guest)) = (unescape host, some (unescape guest))

unfoldable pub split_bind : Text → Text × Option Text
unfolding halves split_raw unescape
split_bind value = halves value (split_raw value)

split_bind_lem : (value : Text) → split_bind value ≡ halves value (split_raw value)
unfolding split_bind
split_bind_lem value = refl

-- The way to write a text in a bind: a backslash before each character of `special`.
unfoldable pub escape : (ℕ → Bool) → Text → Text
escape special [] = []
escape special (c ∷ s) =
    let rest = escape special s in if special c then backslash ∷ c ∷ rest else c ∷ rest

abbrev pub bind_special : ℕ → Bool
bind_special c = c == backslash || c == b':'

-- An escape and the character behind it resolve to that character.
unescape_pair : (c : ℕ) (s : Text) → unescape (backslash ∷ c ∷ s) ≡ c ∷ unescape s
unfolding unescape
unescape_pair c s = ground arith

unescape_plain : (c : ℕ) (s : Text) → c ≢ backslash → unescape (c ∷ s) ≡ c ∷ unescape s
unfolding unescape
unescape_plain c [] h = ground arith
unescape_plain c (d ∷ s) h = ground arith

split_raw_pair :
    (c : ℕ) (s : Text) → split_raw (backslash ∷ c ∷ s) ≡ before (backslash ∷ c ∷ []) (split_raw s)
unfolding split_raw
split_raw_pair c s = ground arith

split_raw_plain :
    (c : ℕ) (s : Text)
    → c ≢ backslash
    → c ≢ b':'
    → split_raw (c ∷ s) ≡ before (c ∷ []) (split_raw s)
unfolding split_raw
split_raw_plain c [] h k = ground arith
split_raw_plain c (d ∷ s) h k = ground arith

split_raw_colon : (s : Text) → split_raw (b':' ∷ s) ≡ some ([], s)
unfolding split_raw
split_raw_colon [] = ground arith
split_raw_colon (d ∷ s) = ground arith

-- Escaping is undone, whatever characters beside the backslash were escaped.
pub unescape-escape :
    (special : ℕ → Bool) → special backslash ≡ true → (s : Text) → unescape (escape special s) ≡ s
unfolding escape unescape
unescape-escape special h [] = refl
unescape-escape special h (c ∷ s) = ground (
  arith,
  unescape_pair c (escape special s),
  unescape_plain c (escape special s),
  unescape-escape special h s,
)

before_nil : (o : Option (Text × Text)) → o ≡ before [] o
before_nil none = refl
before_nil (some p) = refl

before-before : (p q : Text) (o : Option (Text × Text)) → before p (before q o) ≡ before (p ++ q) o
before-before p q none = refl
before-before p q (some (h, g)) = ap (λ t. some (t, g)) (rw append_assoc)

split_raw-escape :
    (s rest : Text)
    → split_raw (escape bind_special s ++ rest) ≡ before (escape bind_special s) (split_raw rest)
unfolding escape
split_raw-escape [] rest = before_nil (split_raw rest)
split_raw-escape (c ∷ s) rest = ground (
  arith,
  split_raw_pair c (escape bind_special s ++ rest),
  split_raw_plain c (escape bind_special s ++ rest),
  split_raw-escape s rest,
  before-before (backslash ∷ c ∷ []) (escape bind_special s) (split_raw rest),
  before-before (c ∷ []) (escape bind_special s) (split_raw rest),
)

split_raw_escaped : (s : Text) → split_raw (escape bind_special s) ≡ none
unfolding split_raw
split_raw_escaped s = ap split_raw (sym (append-nil _)) ∙ split_raw-escape s []

-- A bind whose halves are written with escapes is split into those halves, and a value written so
-- with no colon between is a plain scalar.
pub split_bind-escape :
    (host guest : Text)
    → (split_bind (escape bind_special host ++ b':' ∷ escape bind_special guest)
        ≡ (host, some guest))
      × (split_bind (escape bind_special host) ≡ (host, none))
unfolding halves ℕ_discrete
split_bind-escape host guest = (
  rw (split_bind_lem, split_raw-escape, split_raw_colon)
      (simp (append-nil, unescape-escape bind_special refl)),
  split_bind_lem _
      ∙ ap (halves _) (split_raw_escaped host)
      ∙ ap (λ t. (t, none)) (unescape-escape bind_special refl host),
)

abbrev pub SplitsFirst : Text → Text × Text → Type 0
SplitsFirst value (host, guest) = (value ≡ host ++ b':' ∷ guest) × (split_raw host ≡ none)

before-some :
    (p : Text) (o : Option (Text × Text)) (host guest : Text)
    → before p o ≡ some (host, guest)
    → (rest : Text) × (host ≡ p ++ rest) × (o ≡ some (rest, guest))
before-some p none host guest h = cc
before-some p (some (x, y)) host guest h = (x, ground arith, ground arith)

-- `split_raw` cuts at a colon, and there is none to cut at in what stands before it.
split_raw_first :
    (value host guest : Text)
    → split_raw value ≡ some (host, guest)
    → SplitsFirst value (host, guest)
unfolding split_raw
split_raw_first [] host guest h = cc
split_raw_first (c ∷ []) host guest h = ground arith
split_raw_first (c ∷ d ∷ s) host guest h = elim (ℕ_discrete c backslash) [
  | yes e ↦
      let (rest, p, q) = before-some (c ∷ d ∷ []) (split_raw s) host guest (ground arith) in
      let (cut, clean) = split_raw_first s rest guest q in
      rw p (rw cut, ground (arith, split_raw_pair d rest))
  | no n ↦ elim (ℕ_discrete c b':') [
    | yes e ↦ ground arith
    | no m ↦
        let (rest, p, q) = before-some (c ∷ []) (split_raw (d ∷ s)) host guest (ground arith) in
        let (cut, clean) = split_raw_first (d ∷ s) rest guest q in
        rw p (rw cut, ground (arith, split_raw_plain c rest))
  ]
]
