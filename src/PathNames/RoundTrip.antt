-- ===== src/PathNames/RoundTrip.antt =====
-- When `unescape_path` undoes `escape_path`, and when two paths share an encoding.
use kanibako.Prelude.{
  ℕ, ◌≡◌, ◌≢◌, refl, ap, sym, ◌∙◌, [], ◌∷◌, ◌++◌, arith, Text, text, ◌==◌, nat_eq, if◌then◌else◌,
  append_assoc, ℕ_discrete, Bool-cases, inl, inr,
}
use kanibako.PathNames.Codec.{
  lstrip, replace_char, replace_pair, dash_escape, escape_path, unescape_path,
}

-- Both replacements of `escape_path`, one character at a time.
encode_char : ℕ → Text
encode_char c = if c == b'-' then dash_escape else if c == b'/' then b'-' ∷ [] else c ∷ []

encode : Text → Text
encode [] = []
encode (c ∷ s) = encode_char c ++ encode s

replace-replace :
    (s : Text) → replace_char b'/' (b'-' ∷ []) (replace_char b'-' dash_escape s) ≡ encode s
unfolding replace_char encode encode_char
replace-replace [] = refl
replace-replace (c ∷ s) = ground (arith, replace-replace s)

escape_path-encode : (path : Text) → escape_path path ≡ encode (lstrip b'/' path)
unfolding escape_path
escape_path-encode path = replace-replace (lstrip b'/' path)

-- No character 0, and no component that begins with a dot but perhaps the first.
abbrev pub IsPlain : Text → Type 0
IsPlain [] = Unit
IsPlain (c ∷ []) = c ≢ 0
IsPlain (c ∷ d ∷ s) = (c ≢ 0) × (c ≡ b'/' → d ≢ b'.') × IsPlain (d ∷ s)

marked_char : ℕ → ℕ
marked_char c = if c == b'-' then 0 else if c == b'/' then b'-' else c

-- What the first replacement of `unescape_path` makes of an encoding.
mark : Text → Text
mark [] = []
mark (c ∷ s) = marked_char c ∷ mark s

pair_dash :
    (s : Text)
    → replace_pair b'-' b'.' (0 ∷ []) (b'-' ∷ b'.' ∷ s) ≡ 0 ∷ replace_pair b'-' b'.' (0 ∷ []) s
unfolding replace_pair ℕ_discrete
pair_dash s = refl

pair_other :
    (c : ℕ) (s : Text)
    → c ≢ b'-'
    → replace_pair b'-' b'.' (0 ∷ []) (c ∷ s) ≡ c ∷ replace_pair b'-' b'.' (0 ∷ []) s
unfolding replace_pair
pair_other c [] h = refl
pair_other c (d ∷ s) h = ground arith

abbrev NotDot : Text → Type 0
NotDot [] = Unit
NotDot (c ∷ s) = c ≢ b'.'

pair_lone :
    (s : Text)
    → NotDot s
    → replace_pair b'-' b'.' (0 ∷ []) (b'-' ∷ s) ≡ b'-' ∷ replace_pair b'-' b'.' (0 ∷ []) s
unfolding replace_pair
pair_lone [] h = refl
pair_lone (d ∷ s) h = ground arith

encode-NotDot : (d : ℕ) (s : Text) → d ≢ b'.' → NotDot (encode (d ∷ s))
unfolding encode encode_char
encode-NotDot d s h = elim (Bool-cases (d == b'-')) [
  | inl e ↦ rw e (omega arith)
  | inr e ↦ elim (Bool-cases (d == b'/')) [ inl f ↦ rw (e, f) (omega arith) | inr f ↦ rw (e, f) h ]
]

slash_tail : (c : ℕ) (s : Text) → IsPlain (c ∷ s) → c ≡ b'/' → NotDot (encode s)
unfolding encode
slash_tail c [] h e = tt
slash_tail c (d ∷ s) (z, dot, h) e = encode-NotDot d s (dot e)

IsPlain-tail : (c : ℕ) (s : Text) → IsPlain (c ∷ s) → IsPlain s
IsPlain-tail c [] h = tt
IsPlain-tail c (d ∷ s) (z, dot, h) = h

IsPlain-head : (c : ℕ) (s : Text) → IsPlain (c ∷ s) → c ≢ 0
IsPlain-head c [] h = h
IsPlain-head c (d ∷ s) (z, dot, h) = z

replace_pair-encode : (s : Text) → IsPlain s → replace_pair b'-' b'.' (0 ∷ []) (encode s) ≡ mark s
unfolding encode encode_char mark marked_char
replace_pair-encode [] h = unfold replace_pair in refl
replace_pair-encode (c ∷ s) h =
    let ih : replace_pair b'-' b'.' (0 ∷ []) (encode s) ≡ mark s =
      replace_pair-encode s (IsPlain-tail c s h) in
    elim (ℕ_discrete c b'-') [
      | yes e ↦ ground (arith, pair_dash (encode s))
      | no n ↦ elim (ℕ_discrete c b'/') [
        | yes e ↦ ground (arith, pair_lone (encode s) (slash_tail c s h e))
        | no m ↦ ground (arith, pair_other c (encode s))
      ]
    ]

-- The other two replacements undo the marks.
unmark :
    (s : Text) → IsPlain s → replace_char 0 (b'-' ∷ []) (replace_char b'-' (b'/' ∷ []) (mark s)) ≡ s
unfolding replace_char mark marked_char
unmark [] h = refl
unmark (c ∷ s) h = ground (arith, unmark s (IsPlain-tail c s h), IsPlain-head c s h)

unescape_path-encode : (s : Text) → IsPlain s → unescape_path (encode s) ≡ b'/' ∷ s
unfolding unescape_path
unescape_path-encode s h = rw (replace_pair-encode s h) (ap (λ t. b'/' ∷ t) (unmark s h))

lstrip_slash : (c : ℕ) (s : Text) → c ≢ b'/' → lstrip b'/' (b'/' ∷ c ∷ s) ≡ c ∷ s
unfolding lstrip
lstrip_slash c s h = ground arith

-- An absolute path that does not begin with two slashes, holds no character 0 and has no component
-- beyond the first that begins with a dot is decoded from its encoding.
pub unescape_path-escape_path :
    (c : ℕ) (s : Text)
    → c ≢ b'/'
    → IsPlain (c ∷ s)
    → unescape_path (escape_path (b'/' ∷ c ∷ s)) ≡ b'/' ∷ c ∷ s
unescape_path-escape_path c s first h =
    ap unescape_path (escape_path-encode (b'/' ∷ c ∷ s) ∙ ap encode (lstrip_slash c s first))
    ∙ unescape_path-encode (c ∷ s) h

encode-append : (s t : Text) → encode (s ++ t) ≡ encode s ++ encode t
unfolding encode
encode-append [] t = refl
encode-append (c ∷ s) t =
    rw (encode-append s t) (sym (append_assoc (encode_char c) (encode s) (encode t)))

encode_dash : (s t : Text) → encode (s ++ (text "/." ++ t)) ≡ encode (s ++ (text "-" ++ t))
unfolding encode encode_char ℕ_discrete
encode_dash s t = rw (encode-append s (text "/." ++ t), encode-append s (text "-" ++ t)) refl

-- A hidden component and a dash are encoded alike: the absolute paths that differ only in "/." for
-- "-" behind their first component have one encoding.
pub escape_path-collision :
    (c : ℕ) (s t : Text)
    → c ≢ b'/'
    → escape_path (b'/' ∷ c ∷ (s ++ (text "/." ++ t)))
      ≡ escape_path (b'/' ∷ c ∷ (s ++ (text "-" ++ t)))
escape_path-collision c s t first =
    rw
      (
        escape_path-encode (b'/' ∷ c ∷ (s ++ (text "/." ++ t))),
        escape_path-encode (b'/' ∷ c ∷ (s ++ (text "-" ++ t))),
        lstrip_slash c (s ++ (text "/." ++ t)) first,
        lstrip_slash c (s ++ (text "-" ++ t)) first,
      )
      (encode_dash (c ∷ s) t)
