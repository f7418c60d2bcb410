-- ===== src/Hub/Numbers.antt =====
-- `_parse_helper_num` of src/kanibako/helper_listener.py. Python's `int` on texts is a parameter,
-- which is `none` where that raises `ValueError`.
use kanibako.Prelude.{
  ℕ, ◌≡◌, refl, ap, ◌∙◌, false, Option, none, some, List, [], ◌∷◌, ◌++◌, arith, Text, text, ◌==◌,
  nat_eq, text_eq, if◌then◌else◌, ℕ_discrete,
}
use kanibako.Prelude.Int.{ℤ}
use kanibako.Prelude.Strings.{has_char}

-- `s.split(c)`, the first part and the others.
unfoldable pub split_parts : ℕ → Text → Text × List Text
split_parts c [] = ([], [])
split_parts c (d ∷ s) =
    let later = split_parts c s in
    if d == c then ([], later.0 ∷ later.1) else (d ∷ later.0, later.1)

unfoldable pub split_on : ℕ → Text → List Text
unfolding split_parts
split_on c s = (split_parts c s).0 ∷ (split_parts c s).1

module _ (int : Text → Option ℤ) where
  -- The last pair of neighbours of which the first is "helper" and the second a number.
  unfoldable pub last_number : List Text → Option ℤ
  last_number [] = none
  last_number (a ∷ []) = none
  last_number (a ∷ b ∷ parts) = elim (last_number (b ∷ parts)) [
    | some n ↦ some n
    | none ↦ if a == text "helper" then int b else none
  ]

  unfoldable pub parse_helper_num : Text → Option ℤ
  unfolding last_number split_on
  parse_helper_num container_name = last_number (split_on b'-' container_name)

-- `f"{prefix}-helper-{helper_num}"`, the name that `_handle_spawn` gives.
unfoldable pub helper_container : Text → Text → Text
helper_container prefix number = prefix ++ (text "-helper-" ++ number)

split_parts-append :
    (c : ℕ) (s t : Text)
    → split_parts c (s ++ c ∷ t)
      ≡ ((split_parts c s).0, (split_parts c s).1 ++ (split_parts c t).0 ∷ (split_parts c t).1)
unfolding split_parts
split_parts-append c [] t = ground arith
split_parts-append c (d ∷ s) t = ground (arith, split_parts-append c s t)

split_parts_whole : (c : ℕ) (s : Text) → has_char c s ≡ false → split_parts c s ≡ (s, [])
unfolding split_parts has_char
split_parts_whole c [] h = refl
split_parts_whole c (d ∷ s) h = ground (arith, split_parts_whole c s)

split_suffix :
    (number : Text)
    → has_char b'-' number ≡ false
    → split_parts b'-' (text "helper-" ++ number) ≡ (text "helper", number ∷ [])
unfolding split_parts ℕ_discrete
split_suffix number h = rw (split_parts_whole b'-' number h) refl

split_container :
    (prefix number : Text)
    → has_char b'-' number ≡ false
    → split_parts b'-' (helper_container prefix number)
      ≡ ((split_parts b'-' prefix).0, (split_parts b'-' prefix).1 ++ text "helper" ∷ number ∷ [])
unfolding helper_container
split_container prefix number h =
    split_parts-append b'-' prefix (text "helper-" ++ number)
    ∙ ap (λ q. ((split_parts b'-' prefix).0, (split_parts b'-' prefix).1 ++ q.0 ∷ q.1))
        (split_suffix number h)

module _ (int : Text → Option ℤ) (number : Text) (n : ℤ) (reads : int number ≡ some n) where
  last_number-append :
      (parts : List Text) → last_number int (parts ++ text "helper" ∷ number ∷ []) ≡ some n
  unfolding last_number text_eq ℕ_discrete
  last_number-append [] = reads
  last_number-append (a ∷ []) = rw reads
  last_number-append (a ∷ b ∷ parts) = rw (last_number-append (b ∷ parts))

  -- The number is read back from the name of a helper's container, whatever dashes, digits or
  -- "helper" the prefix has, if the number's text has no dash and `int` reads it.
  pub parse_helper_num-helper_container :
      (prefix : Text)
      → has_char b'-' number ≡ false
      → parse_helper_num int (helper_container prefix number) ≡ some n
  unfolding parse_helper_num helper_container split_on
  parse_helper_num-helper_container prefix h =
      ap (λ q. last_number int (q.0 ∷ q.1)) (split_container prefix number h)
      ∙ last_number-append ((split_parts b'-' prefix).0 ∷ (split_parts b'-' prefix).1)
