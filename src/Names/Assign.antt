-- ===== src/Names/Assign.antt =====
-- `assign_name` of src/kanibako/names.py. Its loop is on fuel; one round more than there are names
-- is enough, since the candidates differ.
use kanibako.Prelude.{
  ℕ, zero, suc, ◌+◌, ◌≤◌, ◌<◌, ◌≡◌, ◌≢◌, refl, ◌∙◌, sym, true, false, Option, none, some, List, [],
  ◌∷◌, ◌++◌, arith, Text, text, ◌==◌, contains, length, text_eq, nat_eq, if◌then◌else◌, Result, ok,
  ◌>>=◌, Bool-cases, inl, inr, append-nil, ℕ_discrete,
}
use mathlib.Core.List.{append_cancel_left}
use kanibako.Prelude.Decimal.{decimal, decimal_injective, decimal-nil}
use kanibako.Prelude.Dict.{Dict, keys, lookup, has, has-eq-contains}
use kanibako.Names.Document.{Section, projects, worksets, Document, load}
use kanibako.Names.Laws.{path_in, Changed, register_name-Changed, register_name-ok_iff}
use kanibako.Names.Registry.{ProjectError, register_name}

-- `f"{base}{n}"` from the second round on; the first candidate is the base itself.
unfoldable pub candidate : Text → ℕ → Text
unfolding decimal
candidate base n = if n == 1 then base else base ++ decimal n

-- The loop: `n` is the number of the candidate that is tried.
unfoldable pub free_name : ℕ → Text → ℕ → List Text → Option Text
free_name zero base n taken = none
free_name (suc fuel) base n taken =
    let next = free_name fuel base (n + 1) taken in
    if contains taken (candidate base n) then next else some (candidate base n)

-- `Path(path).name`, or "project" if that is empty.
abbrev base_of : Text → Text
base_of [] = text "project"
base_of (c ∷ name) = c ∷ name

module _ {V : Type 0} (show : V → Text) (quote : Text → V) (resolve : Text → Text) (home : Text)
    (name_of : Text → Text) where
  -- The new document and the name; `none` means that the fuel ran out.
  unfoldable pub assign_name :
      Document show quote
      → Text
      → Section
      → Option (Result ProjectError (Text × Document show quote))
  assign_name file path section =
      let names = load show quote file in
      let taken = keys names.projects ++ keys names.worksets in
      elim (free_name (length taken + 1) (base_of (name_of path)) 1 taken) [
        | none ↦ none
        | some name ↦ some (do
          file' ← register_name show quote resolve home file name path section
          ok (name, file'))
      ]

candidate_first : (base : Text) (n : ℕ) → n ≡ 1 → candidate base n ≡ base ++ []
unfolding candidate ℕ_discrete
candidate_first base n e = rw (e, append-nil) refl

candidate_later : (base : Text) (n : ℕ) → n ≢ 1 → candidate base n ≡ base ++ decimal n
unfolding candidate
candidate_later base n h = ground arith

candidate_injective :
    (base : Text) (m n : ℕ) → candidate base m ≡ candidate base n → 0 < m → 0 < n → m ≡ n
candidate_injective base m n e p q = elim (ℕ_discrete m 1) [
  | yes a ↦ elim (ℕ_discrete n 1) [
    | yes b ↦ omega arith
    | no b ↦ absurd (
        omega (
          arith,
          decimal-nil n (
              append_cancel_left base _ _
                (sym (candidate_later base n b) ∙ sym e ∙ candidate_first base m a)),
        ))
  ]
  | no a ↦ elim (ℕ_discrete n 1) [
    | yes b ↦ absurd (
        omega (
          arith,
          decimal-nil m (
              append_cancel_left base _ _
                (sym (candidate_later base m a) ∙ e ∙ candidate_first base n b)),
        ))
    | no b ↦ decimal_injective m n (
        append_cancel_left base _ _ (sym (candidate_later base m a) ∙ e ∙ candidate_later base n b))
  ]
]

remove : Text → List Text → List Text
remove a [] = []
remove a (x ∷ xs) = let rest = remove a xs in if a == x then rest else x ∷ rest

length-remove : (a : Text) (xs : List Text) → length (remove a xs) ≤ length xs
unfolding remove
length-remove a [] = omega arith
length-remove a (x ∷ xs) = ground (arith, length-remove a xs)

length-remove-lt :
    (a : Text) (xs : List Text) → contains xs a ≡ true → length (remove a xs) < length xs
unfolding remove
length-remove-lt a [] h = cc
length-remove-lt a (x ∷ xs) h = ground (arith, length-remove-lt a xs, length-remove a xs)

contains-remove : (a b : Text) (xs : List Text) → b ≢ a → contains (remove a xs) b ≡ contains xs b
unfolding remove
contains-remove a b [] h = refl
contains-remove a b (x ∷ xs) h = ground (arith, contains-remove a b xs h)

module _ (base : Text) where
  -- The loop asks about its own candidates alone.
  free_name_agree :
      (fuel n : ℕ) (xs ys : List Text)
      → ((m : ℕ) → n ≤ m → contains xs (candidate base m) ≡ contains ys (candidate base m))
      → free_name fuel base n xs ≡ free_name fuel base n ys
  unfolding free_name
  free_name_agree zero n xs ys h = refl
  free_name_agree (suc fuel) n xs ys h =
      rw (h n (omega arith), free_name_agree fuel (n + 1) xs ys (λ m k. h m (omega arith)))

  -- A candidate that is taken can be forgotten for the rounds behind it.
  free_name-remove :
      (fuel n : ℕ) (taken : List Text)
      → 0 < n
      → free_name fuel base (n + 1) taken
        ≡ free_name fuel base (n + 1) (remove (candidate base n) taken)
  free_name-remove fuel n taken p = free_name_agree fuel (n + 1) _ _ λ m k. sym (
      contains-remove (candidate base n) (candidate base m) taken
        (λ e. absurd (omega (arith, candidate_injective base m n e (omega arith) p))))

  pub free_name_found :
      (fuel n : ℕ) (taken : List Text)
      → 0 < n
      → length taken < fuel
      → (name : Text) × (free_name fuel base n taken ≡ some name)
  unfolding free_name
  free_name_found zero n taken p h = absurd (omega arith)
  free_name_found (suc fuel) n taken p h = elim (Bool-cases (contains taken (candidate base n))) [
    | inl e ↦
        let (name, q) =
          free_name_found fuel (n + 1) (remove (candidate base n) taken) (omega arith)
            (omega (arith, length-remove-lt (candidate base n) taken e)) in
        (name, rw (e) (free_name-remove fuel n taken p ∙ q))
    | inr e ↦ (candidate base n, rw e)
  ]

  pub free_name_fresh :
      (fuel n : ℕ) (taken : List Text) (name : Text)
      → free_name fuel base n taken ≡ some name
      → contains taken name ≡ false
  unfolding free_name
  free_name_fresh zero n taken name h = cc
  free_name_fresh (suc fuel) n taken name h =
      elim (Bool-cases (contains taken (candidate base n))) [
        | inl e ↦ free_name_fresh fuel (n + 1) taken name (ground arith)
        | inr e ↦ ground arith
      ]

contains-append :
    (xs ys : List Text) (a : Text)
    → contains (xs ++ ys) a ≡ false
    → (contains xs a ≡ false) × (contains ys a ≡ false)
contains-append [] ys a h = (refl, h)
contains-append (x ∷ xs) ys a h = ground (arith, contains-append xs ys a)

lookup-absent :
    (d : Dict Text Text) (name : Text) → contains (keys d) name ≡ false → lookup name d ≡ none
unfolding has
lookup-absent d name h = ground (arith, has-eq-contains name d)

module _ {V : Type 0} (show : V → Text) (quote : Text → V) (resolve : Text → Text) (home : Text)
    (name_of : Text → Text) (inverse : (t : Text) → show (quote t) ≡ t) where
  pub assign_name-register :
      (file : Document show quote) (path : Text) (section : Section)
      → (name : Text) × (path_in projects name (load show quote file) ≡ none)
        × (path_in worksets name (load show quote file) ≡ none)
        × (assign_name show quote resolve home name_of file path section
            ≡ some (do
              file' ← register_name show quote resolve home file name path section
              ok (name, file')))
  unfolding assign_name
  assign_name-register file path section =
      let names = load show quote file in
      let taken = keys names.projects ++ keys names.worksets in
      let (name, found) =
        free_name_found (base_of (name_of path)) (length taken + 1) 1 taken (omega arith)
          (omega arith) in
      let (p, w) =
        contains-append (keys names.projects) (keys names.worksets) name
          (free_name_fresh (base_of (name_of path)) (length taken + 1) 1 taken name found) in
      (
        name,
        lookup-absent names.projects name p,
        lookup-absent names.worksets name w,
        rw (assign_name, found),
      )

  -- For a path that is not the home directory, a name is assigned, whatever names there are: it was
  -- free in both sections, and afterwards it has the path, while every other name is as before.
  pub assign_name-Changed :
      (file : Document show quote) (path : Text) (section : Section)
      → resolve path ≢ resolve home
      → (name : Text) × (file' : Document show quote) × (assign_name show quote resolve home name_of
            file path section
          ≡ some (ok (name, file')))
        × (path_in projects name (load show quote file) ≡ none)
        × (path_in worksets name (load show quote file) ≡ none)
        × Changed (load show quote file) section name (some path) (load show quote file')
  assign_name-Changed file path section away =
      let (name, p, w, e) = assign_name-register file path section in
      let (file', r) =
        (register_name-ok_iff show quote resolve home inverse file name path section).1
          (away, p, w) in
      let (_, _, _, c) =
        register_name-Changed show quote resolve home inverse file file' name path section r in
      (name, file', e ∙ rw r, p, w, c)
