-- ===== src/Env/RoundTrip.antt =====
-- A file of variables that was written is read back.
use kanibako.Prelude.{
  ℕ, ◌≡◌, ◌≢◌, refl, ap, ◌∙◌, true, false, Option, none, some, [], ◌∷◌, ◌++◌, arith, All, Text,
  nat_eq, text_eq, Bool-cases, inl, inr, ℕ_discrete,
}
use kanibako.Prelude.Dict.{Dict, lookup, insert, lookup-insert}
use kanibako.Prelude.Sort.{insert_sorted, sort, sort-All, text_leb}
use kanibako.Prelude.Strings.{is_whitespace, attach, strip_left, strip_right, strip}
use kanibako.Settings.Expand.{is_letter, is_word}
use kanibako.Names.Document.{in_order, name_leb, lookup-in_order, lookup-insert_sorted}
use kanibako.Env.Lines.{splitlines, splitlines-append, OneLine}
use kanibako.Env.File.{
  words_to_end, is_key, split_equals, checked, assignment, read_lines, read_env_file, env_lines,
  write_env_file, update_all, add_to,
}

abbrev AllWords : Text → Type 0
AllWords s = All (λ c. is_word c ≡ true) s

word_not_space : (c : ℕ) → is_word c ≡ true → is_whitespace c ≡ false
unfolding is_word
word_not_space c h = ground arith

word_not_equals : (c : ℕ) → is_word c ≡ true → c ≢ b'='
unfolding is_word
word_not_equals c h = ground arith

letter_word : (c : ℕ) → is_letter c ≡ true → is_word c ≡ true
unfolding is_word
letter_word c h = ground arith

words_to_end-AllWords : (s : Text) → words_to_end s ≡ true → OneLine s → AllWords s
unfolding words_to_end
words_to_end-AllWords [] h k = tt
words_to_end-AllWords (c ∷ s) h (k, ks) = (ground arith, words_to_end-AllWords s (ground arith) ks)

attach_plain : (c : ℕ) (s : Text) → is_whitespace c ≡ false → attach c s ≡ c ∷ s
unfolding attach
attach_plain c [] h = rw h
attach_plain c (d ∷ s) h = refl

strip_left_plain : (c : ℕ) (s : Text) → is_whitespace c ≡ false → strip_left (c ∷ s) ≡ c ∷ s
unfolding strip_left
strip_left_plain c s h = rw h

strip_right-AllWords : (s : Text) → AllWords s → strip_right s ≡ s
unfolding strip_right
strip_right-AllWords [] h = refl
strip_right-AllWords (c ∷ s) (h, hs) =
    ap (attach c) (strip_right-AllWords s hs) ∙ attach_plain c s (word_not_space c h)

strip_right-append :
    (s : Text) (c : ℕ) (t : Text)
    → strip_right (c ∷ t) ≡ c ∷ t
    → strip_right (s ++ c ∷ t) ≡ s ++ c ∷ t
unfolding strip_right attach
strip_right-append [] c t h = h
strip_right-append (d ∷ []) c t h = ap (attach d) h
strip_right-append (d ∷ e ∷ s) c t h = ap (attach d) (strip_right-append (e ∷ s) c t h)

split_equals-append :
    (key value : Text) → AllWords key → split_equals (key ++ b'=' ∷ value) ≡ some (key, value)
unfolding split_equals
split_equals-append [] value h = ground arith
split_equals-append (c ∷ key) value (h, hs) =
    ground (arith, split_equals-append key value hs, word_not_equals c h)

-- A name that is accepted and has no line feed behind it, and a value within one line that ends
-- with no whitespace.
abbrev pub Storable : Text × Text → Type 0
Storable (key, value) =
    (is_key key ≡ true) × OneLine key × OneLine value × (strip_right value ≡ value)

strip_plain :
    (c : ℕ) (s : Text)
    → is_whitespace c ≡ false
    → strip_right (c ∷ s) ≡ c ∷ s
    → strip (c ∷ s) ≡ c ∷ s
unfolding strip
strip_plain c s h k = ap strip_right (strip_left_plain c s h) ∙ k

strip_right_equals :
    (value : Text) → strip_right value ≡ value → strip_right (b'=' ∷ value) ≡ b'=' ∷ value
unfolding strip_right ℕ_discrete
strip_right_equals value h = ap (attach b'=') h ∙ attach_plain b'=' value refl

checked_key :
    (key value : Text)
    → strip key ≡ key
    → is_key key ≡ true
    → checked (some (key, value)) ≡ some (key, value)
unfolding checked
checked_key key value h k = rw (h, k) refl

letter_not_hash : (c : ℕ) → is_letter c ≡ true → c ≢ b'#'
unfolding is_letter
letter_not_hash c h = ground arith

assignment_plain :
    (c : ℕ) (s : Text) → is_letter c ≡ true → assignment (c ∷ s) ≡ checked (split_equals (c ∷ s))
unfolding assignment
assignment_plain c s h = ground (arith, letter_not_hash c h)

is_key_parts :
    (c : ℕ) (s : Text) → is_key (c ∷ s) ≡ true → (is_letter c ≡ true) × (words_to_end s ≡ true)
unfolding is_key
is_key_parts c s h = (ground arith, ground arith)

-- The line of a variable says what it was written from.
assignment-line :
    (key value : Text)
    → Storable (key, value)
    → assignment (strip (key ++ b'=' ∷ value)) ≡ some (key, value)
assignment-line [] value (h, k, l, m) = absurd (unfold is_key in (ground arith))
assignment-line (c ∷ key) value (h, (k, ks), l, m) =
    let (letter, rest) = is_key_parts c key h in
    let first : is_whitespace c ≡ false = word_not_space c (letter_word c letter) in
    let words : AllWords (c ∷ key) = (letter_word c letter, words_to_end-AllWords key rest ks) in
    ap assignment (
      strip_plain c (key ++ b'=' ∷ value) first
        (strip_right-append (c ∷ key) b'=' value (strip_right_equals value m)))
    ∙ assignment_plain c (key ++ b'=' ∷ value) letter
    ∙ ap checked (split_equals-append (c ∷ key) value words)
    ∙ checked_key (c ∷ key) value (strip_plain c key first (strip_right-AllWords (c ∷ key) words)) h

-- The keys of a dict are distinct.
abbrev pub Distinct : Dict Text Text → Type 0
Distinct [] = Unit
Distinct ((key, value) ∷ env) = (lookup key env ≡ none) × Distinct env

line-OneLine : (key value : Text) → OneLine key → OneLine value → OneLine (key ++ b'=' ∷ value)
unfolding ℕ_discrete
line-OneLine [] value h k = (refl, k)
line-OneLine (c ∷ key) value (h, hs) k = (h, line-OneLine key value hs k)

read_lines-env_lines :
    (acc env : Dict Text Text)
    → All Storable env
    → read_lines acc (splitlines (env_lines env)) ≡ update_all acc env
unfolding read_lines env_lines update_all splitlines
read_lines-env_lines acc [] h = refl
read_lines-env_lines acc ((key, value) ∷ env) ((h, k, l, m), hs) =
    ap (read_lines acc)
      (splitlines-append (key ++ b'=' ∷ value) (env_lines env) (line-OneLine key value k l))
    ∙ ap (λ a. read_lines (add_to acc a) (splitlines (env_lines env)))
        (assignment-line key value (h, k, l, m))
    ∙ read_lines-env_lines (insert key value acc) env hs

-- The entries win over what was there.
pub lookup-update_all :
    (k : Text) (acc env : Dict Text Text)
    → Distinct env
    → lookup k (update_all acc env) ≡ elim (lookup k env) [ none ↦ lookup k acc | some v ↦ some v ]
unfolding update_all lookup
lookup-update_all k acc [] h = refl
lookup-update_all k acc ((key, value) ∷ env) (h, hs) =
    lookup-update_all k (insert key value acc) env hs
    ∙ ground (arith, lookup-insert k key value acc)

insert_sorted-Distinct :
    (key value : Text) (env : Dict Text Text)
    → lookup key env ≡ none
    → Distinct env
    → Distinct (insert_sorted name_leb (key, value) env)
unfolding insert_sorted lookup
insert_sorted-Distinct key value [] h k = (refl, tt)
insert_sorted-Distinct key value ((j, w) ∷ env) h (k, ks) = elim (Bool-cases (text_leb key j)) [
  | inl e ↦ rw (insert_sorted, e) (h, (k, ks))
  | inr e ↦
      rw (insert_sorted, e)
        (
          lookup-insert_sorted j key value env ∙ ground arith,
          insert_sorted-Distinct key value env (ground arith) ks,
        )
]

in_order-Distinct : (env : Dict Text Text) → Distinct env → Distinct (in_order env)
unfolding in_order sort
in_order-Distinct [] h = tt
in_order-Distinct ((key, value) ∷ env) (h, hs) =
    insert_sorted-Distinct key value (in_order env) (lookup-in_order key env ∙ h)
      (in_order-Distinct env hs)

in_order-Storable : (env : Dict Text Text) → All Storable env → All Storable (in_order env)
unfolding in_order
in_order-Storable env h = sort-All name_leb Storable env h

-- A dict of storable variables is read back from the file that it is written to: every name has the
-- value that it had.
pub read_env_file-write_env_file :
    (env : Dict Text Text)
    → Distinct env
    → All Storable env
    → (key : Text) → lookup key (read_env_file (write_env_file env)) ≡ lookup key env
unfolding read_env_file write_env_file
read_env_file-write_env_file env h k key =
    ap (lookup key) (read_lines-env_lines [] (in_order env) (in_order-Storable env k))
    ∙ lookup-update_all key [] (in_order env) (in_order-Distinct env h)
    ∙ unfold lookup in (rw (lookup-in_order key env) (own (lookup key env)))
  where
    own : (o : Option Text) → (elim o as (λ x. Option Text) [ none ↦ none | some v ↦ some v ]) ≡ o
    own none = refl
    own (some v) = refl
