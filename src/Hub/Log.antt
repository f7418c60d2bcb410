-- ===== src/Hub/Log.antt =====
-- `MessageLog` of src/kanibako/helper_listener.py: the file, a list of lines, and its backup.
-- `tell` is the position in the file, or `none` where that raises.
use kanibako.Prelude.{
  ℕ, ◌+◌, ◌≤◌, ◌<◌, ◌≡◌, ◌⊎◌, inl, inr, ◌∙◌, Bool-cases, All, refl, Option, none, some, List, [],
  ◌∷◌, ◌++◌, arith, Text, length, ltb, if◌then◌else◌,
}

-- `_LOG_MAX_BYTES`
abbrev pub log_max_bytes : ℕ
log_max_bytes = 1048576

pub record LogFile : Type 0 where
  pub lines : List Text
  pub backup : Option (List Text)

-- The bytes of the lines, a newline behind each.
unfoldable pub size : List Text → ℕ
size [] = 0
size (line ∷ lines) = length line + 1 + size lines

unfoldable pub rotate_if_needed : (List Text → Option ℕ) → LogFile → LogFile
rotate_if_needed tell log = elim (tell log.lines) [
  | none ↦ log
  | some position ↦
      if ltb position log_max_bytes then log else record { lines = []; backup = some log.lines }
]

-- `line` is the entry as JSON.
unfoldable pub write : (List Text → Option ℕ) → Text → LogFile → LogFile
unfolding rotate_if_needed
write tell line log =
    rotate_if_needed tell (record { lines = log.lines ++ line ∷ []; backup = log.backup })

unfoldable pub write_all : (List Text → Option ℕ) → List Text → LogFile → LogFile
unfolding write
write_all tell [] log = log
write_all tell (line ∷ lines) log = write_all tell lines (write tell line log)

size-append : (xs ys : List Text) → size (xs ++ ys) ≡ size xs + size ys
unfolding size
size-append [] ys = omega arith
size-append (x ∷ xs) ys = omega (arith, size-append xs ys)

abbrev pub BackupBelow : ℕ → Option (List Text) → Type 0
BackupBelow n none = Unit
BackupBelow n (some lines) = size lines < n

abbrev pub Bounded : ℕ → LogFile → Type 0
Bounded longest log =
    (size log.lines < log_max_bytes) × BackupBelow (log_max_bytes + longest) log.backup

module _ (tell : List Text → Option ℕ) (longest : ℕ)
    (tells : (lines : List Text) → tell lines ≡ some (size lines)) where
  rotate_cases :
      (log : LogFile)
      → ((size log.lines < log_max_bytes) × (rotate_if_needed tell log ≡ log))
        ⊎ ((log_max_bytes ≤ size log.lines)
            × (rotate_if_needed tell log ≡ record { lines = []; backup = some log.lines }))
  unfolding rotate_if_needed
  rotate_cases log = elim (Bool-cases (ltb (size log.lines) log_max_bytes)) [
    | inl e ↦ inl (ground arith, rw (rotate_if_needed, tells log.lines, e) refl)
    | inr e ↦ inr (ground arith, rw (rotate_if_needed, tells log.lines, e) refl)
  ]

  write-Bounded :
      (line : Text) (log : LogFile)
      → length line < longest
      → Bounded longest log
      → Bounded longest (write tell line log)
  unfolding write size
  write-Bounded line log short (h, k) =
      let total : size (log.lines ++ line ∷ []) ≡ size log.lines + (length line + 1) =
        size-append log.lines (line ∷ []) ∙ omega arith in
      elim (rotate_cases (record { lines = log.lines ++ line ∷ []; backup = log.backup })) [
        | inl (below, e) ↦ rw e (below, k)
        | inr (above, e) ↦ rw e (omega arith, omega (arith, total))
      ]

  -- Where `tell` gives the size of the file: whatever lines shorter than `longest` are written, the
  -- file stays below 1 MiB and its backup below 1 MiB plus `longest`.
  pub write_all-Bounded :
      (lines : List Text) (log : LogFile)
      → All (λ line. length line < longest) lines
      → Bounded longest log
      → Bounded longest (write_all tell lines log)
  unfolding write_all
  write_all-Bounded [] log short h = h
  write_all-Bounded (line ∷ lines) log (s, short) h =
      write_all-Bounded lines (write tell line log) short (write-Bounded line log s h)
