-- ===== src/Env/Update.antt =====
-- What is read from any file is storable; setting, unsetting and merging, seen through a reading.
use mathlib.Core.List.{tail-eq_of_cons-eq}
use kanibako.Prelude.{
  ℕ, ◌≡◌, refl, ap, ◌∙◌, Bool, true, false, Option, none, some, List, [], ◌∷◌, ◌++◌, arith, All,
  Text, ◌==◌, nat_eq, text_eq, if◌then◌else◌, Bool-cases, Option-cases, inl, inr, ok,
}
use kanibako.Prelude.Dict.{
  Dict, lookup, insert, erase, has, lookup-nil, lookup-insert, lookup-erase,
}
use kanibako.Prelude.Strings.{is_whitespace, attach, strip_left, strip_right, strip}
use kanibako.Env.Lines.{splitlines, splitlines-OneLine, OneLine, is_break}
use kanibako.Env.File.{
  is_key, split_equals, checked, assignment, add_to, read_lines, read_env_file, write_env_file,
  update_all, set_env_var, unset_env_var, merge_env,
}
use kanibako.Env.RoundTrip.{Storable, Distinct, read_env_file-write_env_file, lookup-update_all}

attach-OneLine : (c : ℕ) (s : Text) → is_break c ≡ false → OneLine s → OneLine (attach c s)
unfolding attach
attach-OneLine c [] h k = elim (Bool-cases (is_whitespace c)) [
  | inl e ↦ rw e tt
  | inr e ↦ rw e (h, tt)
]
attach-OneLine c (d ∷ s) h k = (h, k)

strip_right-OneLine : (s : Text) → OneLine s → OneLine (strip_right s)
unfolding strip_right
strip_right-OneLine [] h = tt
strip_right-OneLine (c ∷ s) (h, hs) = attach-OneLine c (strip_right s) h (strip_right-OneLine s hs)

strip_left-OneLine : (s : Text) → OneLine s → OneLine (strip_left s)
unfolding strip_left
strip_left-OneLine [] h = tt
strip_left-OneLine (c ∷ s) (h, hs) = elim (Bool-cases (is_whitespace c)) [
  | inl e ↦ rw (strip_left, e) (strip_left-OneLine s hs)
  | inr e ↦ rw (strip_left, e) (h, hs)
]

strip-OneLine : (s : Text) → OneLine s → OneLine (strip s)
unfolding strip
strip-OneLine s h = strip_right-OneLine (strip_left s) (strip_left-OneLine s h)

strip_lone :
    (c : ℕ) (b : Bool)
    → is_whitespace c ≡ b
    → strip_right (if b then [] else c ∷ []) ≡ (if b then [] else c ∷ [])
unfolding strip_right attach
strip_lone c true e = refl
strip_lone c false e = rw e

attach-attach : (c : ℕ) (s : Text) → strip_right s ≡ s → strip_right (attach c s) ≡ attach c s
unfolding strip_right attach
attach-attach c [] h = strip_lone c (is_whitespace c) refl
attach-attach c (d ∷ s) h = ap (attach c) h

strip_right_idem : (s : Text) → strip_right (strip_right s) ≡ strip_right s
unfolding strip_right
strip_right_idem [] = refl
strip_right_idem (c ∷ s) = attach-attach c (strip_right s) (strip_right_idem s)

lone_cancel : (b : Bool) (c : ℕ) (t : Text) → (if b then [] else c ∷ []) ≡ c ∷ t → [] ≡ t
lone_cancel true c t h = cc
lone_cancel false c t h = tail-eq_of_cons-eq h

attach_cancel : (c : ℕ) (s t : Text) → attach c s ≡ c ∷ t → s ≡ t
unfolding attach
attach_cancel c [] t h = lone_cancel (is_whitespace c) c t h
attach_cancel c (d ∷ s) t h = tail-eq_of_cons-eq h

strip_right_suffix : (s t : Text) → strip_right (s ++ t) ≡ s ++ t → strip_right t ≡ t
unfolding strip_right
strip_right_suffix [] t h = h
strip_right_suffix (c ∷ s) t h =
    strip_right_suffix s t (attach_cancel c (strip_right (s ++ t)) (s ++ t) h)

split_equals_sound :
    (s key value : Text) → split_equals s ≡ some (key, value) → s ≡ key ++ b'=' ∷ value
unfolding split_equals
split_equals_sound [] key value h = cc
split_equals_sound (c ∷ s) key value h = elim (Bool-cases (c == b'=')) [
  | inl e ↦ ground arith
  | inr e ↦ elim (Option-cases (split_equals s)) [
    | inl f ↦ ground arith
    | inr (p, f) ↦ ground (arith, split_equals_sound s p.0 p.1)
  ]
]

checked_sound :
    (o : Option (Text × Text)) (key value : Text)
    → checked o ≡ some (key, value)
    → (raw : Text) × (o ≡ some (raw, value)) × (strip raw ≡ key) × (is_key key ≡ true)
unfolding checked
checked_sound none key value h = cc
checked_sound (some (raw, v)) key value h = (raw, ground arith, ground arith, ground arith)

assignment_sound :
    (s key value : Text)
    → assignment s ≡ some (key, value)
    → (raw : Text) × (s ≡ raw ++ b'=' ∷ value) × (strip raw ≡ key) × (is_key key ≡ true)
unfolding assignment
assignment_sound [] key value h = cc
assignment_sound (c ∷ s) key value h =
    let (raw, e, k, t) = checked_sound (split_equals (c ∷ s)) key value (ground arith) in
    (raw, split_equals_sound (c ∷ s) raw value e, k, t)

OneLine-append : (s t : Text) → OneLine (s ++ t) → OneLine s × OneLine t
OneLine-append [] t h = (tt, h)
OneLine-append (c ∷ s) t (h, hs) = let (a, b) = OneLine-append s t hs in ((h, a), b)

assignment-Storable :
    (line key value : Text)
    → OneLine line
    → assignment (strip line) ≡ some (key, value)
    → Storable (key, value)
unfolding strip
assignment-Storable line key value h e =
    let (raw, cut, k, t) = assignment_sound (strip line) key value e in
    let (a, (_, b)) = OneLine-append raw (b'=' ∷ value) (rw (← cut) (strip-OneLine line h)) in
    (
      t,
      rw (← k) (strip-OneLine raw a),
      b,
      attach_cancel b'=' (strip_right value) value
          (strip_right_suffix raw (b'=' ∷ value) (rw (← cut) (strip_right_idem (strip_left line)))),
    )

insert-Distinct :
    (key value : Text) (env : Dict Text Text) → Distinct env → Distinct (insert key value env)
unfolding insert lookup
insert-Distinct key value [] h = (refl, tt)
insert-Distinct key value ((j, w) ∷ env) (h, hs) = elim (Bool-cases (key == j)) [
  | inl e ↦ rw (insert, e) (ground arith, hs)
  | inr e ↦
      rw (insert, e)
        (lookup-insert j key value env ∙ ground arith, insert-Distinct key value env hs)
]

insert-Storable :
    (key value : Text) (env : Dict Text Text)
    → Storable (key, value)
    → All Storable env
    → All Storable (insert key value env)
unfolding insert
insert-Storable key value [] h k = (h, tt)
insert-Storable key value ((j, w) ∷ env) h (k, ks) = elim (Bool-cases (key == j)) [
  | inl e ↦ rw (insert, e) (h, ks)
  | inr e ↦ rw (insert, e) (k, insert-Storable key value env h ks)
]

erase-Distinct : (key : Text) (env : Dict Text Text) → Distinct env → Distinct (erase key env)
unfolding erase
erase-Distinct key [] h = tt
erase-Distinct key ((j, w) ∷ env) (h, hs) = elim (Bool-cases (key == j)) [
  | inl e ↦ rw (erase, e) (erase-Distinct key env hs)
  | inr e ↦ rw (erase, e) (lookup-erase j key env ∙ ground arith, erase-Distinct key env hs)
]

erase-Storable :
    (key : Text) (env : Dict Text Text) → All Storable env → All Storable (erase key env)
unfolding erase
erase-Storable key [] h = tt
erase-Storable key ((j, w) ∷ env) (h, hs) = elim (Bool-cases (key == j)) [
  | inl e ↦ rw (erase, e) (erase-Storable key env hs)
  | inr e ↦ rw (erase, e) (h, erase-Storable key env hs)
]

abbrev Sound : Dict Text Text → Type 0
Sound env = Distinct env × All Storable env

add_to-Sound :
    (env : Dict Text Text) (line : Text) (o : Option (Text × Text))
    → OneLine line
    → assignment (strip line) ≡ o
    → Sound env
    → Sound (add_to env o)
add_to-Sound env line none h e s = s
add_to-Sound env line (some (key, value)) h e (d, s) = (
  insert-Distinct key value env d,
  insert-Storable key value env (assignment-Storable line key value h e) s,
)

read_lines-Sound :
    (env : Dict Text Text) (lines : List Text)
    → All OneLine lines
    → Sound env
    → Sound (read_lines env lines)
unfolding read_lines
read_lines-Sound env [] h s = s
read_lines-Sound env (line ∷ lines) (h, hs) s =
    read_lines-Sound (add_to env (assignment (strip line))) lines hs
      (add_to-Sound env line (assignment (strip line)) h refl s)

read_env_file-Sound : (file : Option Text) → Sound (read_env_file file)
unfolding read_env_file
read_env_file-Sound none = (tt, tt)
read_env_file-Sound (some content) =
    read_lines-Sound [] (splitlines content) (splitlines-OneLine content) (tt, tt)

-- Setting a variable whose name is accepted and ends with no line feed, to a value within one line
-- that ends with no whitespace, succeeds on any file; read again, the file has the value under the
-- name and every other variable as before.
pub set_env_var-read_env_file :
    (file : Option Text) (key value : Text)
    → Storable (key, value)
    → (file' : Option Text) × (set_env_var file key value ≡ ok file')
      × ((k : Text)
          → lookup k (read_env_file file')
            ≡ (if k == key then some value else lookup k (read_env_file file)))
unfolding set_env_var
set_env_var-read_env_file file key value stored =
    let env = read_env_file file in
    let (d, s) = read_env_file-Sound file in
    (
      write_env_file (insert key value env),
      rw stored.0 refl,
      λ k.
          read_env_file-write_env_file (insert key value env) (insert-Distinct key value env d)
            (insert-Storable key value env stored s) k
          ∙ lookup-insert k key value env,
    )

-- Unsetting a variable answers whether the file had it; afterwards the file has it no more, and
-- every other variable is as before.
pub unset_env_var-read_env_file :
    (file : Option Text) (key : Text)
    → ((unset_env_var file key).0 ≡ has key (read_env_file file))
      × ((k : Text)
          → lookup k (read_env_file (unset_env_var file key).1)
            ≡ (if k == key then none else lookup k (read_env_file file)))
unfolding unset_env_var has
unset_env_var-read_env_file file key =
    let env = read_env_file file in
    let (d, s) = read_env_file-Sound file in
    elim (Option-cases (lookup key env)) [
      | inl e ↦ rw (unset_env_var, has, e) (refl, λ k. ground arith)
      | inr (v, e) ↦
          rw (unset_env_var, has, e)
            (
              refl,
              λ k.
                  read_env_file-write_env_file (erase key env) (erase-Distinct key env d)
                    (erase-Storable key env s) k
                  ∙ lookup-erase k key env,
            )
    ]

-- In the merged variables the project's file wins over the global one.
merge_env-lookup :
    (global_file project_file : Option Text) (key : Text)
    → lookup key (merge_env (some global_file) (some project_file))
      ≡ elim (lookup key (read_env_file project_file)) [
        | none ↦ lookup key (read_env_file global_file)
        | some v ↦ some v
      ]
unfolding merge_env
merge_env-lookup global_file project_file key =
    let g = update_all [] (read_env_file global_file) in
    lookup-update_all key g (read_env_file project_file) (read_env_file-Sound project_file).0
    ∙ ap
        (λ (o : Option Text). elim (lookup key (read_env_file project_file)) as (λ x. Option Text) [
          | none ↦ o
          | some v ↦ some v
        ])
        (lookup-update_all key [] (read_env_file global_file) (read_env_file-Sound global_file).0
          ∙ own (lookup key (read_env_file global_file)))
  where
    own :
        (o : Option Text)
        → (elim o as (λ x. Option Text) [ none ↦ lookup key [] | some v ↦ some v ]) ≡ o
    own none = lookup-nil key
    own (some v) = refl
