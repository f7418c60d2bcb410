-- ===== src/Hub/Lines.antt =====
-- `_client_reader` of src/kanibako/helper_listener.py: the bytes that arrive are cut into lines, and
-- each line is a request.
use kanibako.Prelude.{
  ℕ, ◌≡◌, refl, ap, ◌∙◌, sym, List, [], ◌∷◌, ◌++◌, arith, Text, ◌==◌, nat_eq, if◌then◌else◌,
  append_assoc, append-nil, ℕ_discrete, ◌≢◌,
}

-- A character before the first line that is cut, or before what is left.
unfoldable pub prepend : ℕ → List Text × Text → List Text × Text
prepend c ([], rest) = ([], c ∷ rest)
prepend c (line ∷ lines, rest) = ((c ∷ line) ∷ lines, rest)

-- `while b"\n" in buf: line, buf = buf.split(b"\n", 1)`: the lines, and what is left.
unfoldable pub cut : Text → List Text × Text
unfolding prepend
cut [] = ([], [])
cut (c ∷ s) = let later = cut s in if c == 10 then ([] ∷ later.0, later.1) else prepend c later

-- The reader's loop over the chunks that `recv` gives: the lines in order, and the buffer at the
-- end of the connection, which is dropped.
unfoldable pub read_chunks : Text → List Text → List Text × Text
unfolding cut
read_chunks buf [] = ([], buf)
read_chunks buf (chunk ∷ chunks) =
    let (lines, rest) = cut (buf ++ chunk) in
    let (more, last) = read_chunks rest chunks in (lines ++ more, last)

abbrev pub concat : List Text → Text
concat [] = []
concat (chunk ∷ chunks) = chunk ++ concat chunks

cut_other : (c : ℕ) (s : Text) → c ≢ 10 → cut (c ∷ s) ≡ prepend c (cut s)
unfolding cut
cut_other c s h = ground arith

cut_newline : (s : Text) → cut (10 ∷ s) ≡ ([] ∷ (cut s).0, (cut s).1)
unfolding cut ℕ_discrete
cut_newline s = refl

abbrev Splits : Text → Text → List Text × Text → Type 0
Splits s t first = cut (s ++ t) ≡ (first.0 ++ (cut (first.1 ++ t)).0, (cut (first.1 ++ t)).1)

prepend-Splits :
    (c : ℕ) (s t : Text) (first : List Text × Text)
    → c ≢ 10
    → Splits s t first
    → Splits (c ∷ s) t (prepend c first)
unfolding prepend
prepend-Splits c s t ([], rest) h k = rw (cut_other c (s ++ t) h, k, cut_other c (rest ++ t) h) refl
prepend-Splits c s t (line ∷ lines, rest) h k = rw (cut_other c (s ++ t) h, k) refl

-- The lines of a text in two parts: those of the first, then those of what it left and the second.
cut-append : (s t : Text) → Splits s t (cut s)
cut-append [] t = unfold cut in refl
cut-append (c ∷ s) t = elim (ℕ_discrete c 10) [
  | yes e ↦ rw e (rw (cut_newline s, cut_newline (s ++ t), cut-append s t) refl)
  | no n ↦ rw (cut_other c s n) (prepend-Splits c s t (cut s) n (cut-append s t))
]

prepend-rest :
    (c : ℕ) (first : List Text × Text)
    → cut first.1 ≡ ([], first.1)
    → c ≢ 10
    → cut (prepend c first).1 ≡ ([], (prepend c first).1)
unfolding prepend
prepend-rest c ([], rest) h n = rw (cut_other c rest n, h) refl
prepend-rest c (line ∷ lines, rest) h n = h

cut-rest : (s : Text) → cut (cut s).1 ≡ ([], (cut s).1)
cut-rest [] = unfold cut in refl
cut-rest (c ∷ s) = elim (ℕ_discrete c 10) [
  | yes e ↦ rw e (rw (cut_newline s) (cut-rest s))
  | no n ↦ rw (cut_other c s n) (prepend-rest c (cut s) (cut-rest s) n)
]

-- The lines that a connection delivers, and what is left of it at the end, do not depend on how the
-- bytes arrive in chunks: they are those of all the bytes together.
pub read_chunks-cut :
    (buf : Text) (chunks : List Text)
    → cut buf ≡ ([], buf)
    → read_chunks buf chunks ≡ cut (buf ++ concat chunks)
unfolding read_chunks
read_chunks-cut buf [] h = sym (ap cut (append-nil buf) ∙ h)
read_chunks-cut buf (chunk ∷ chunks) h =
    rw (read_chunks-cut (cut (buf ++ chunk)).1 chunks (cut-rest (buf ++ chunk))) (
      sym (
        ap cut (sym (append_assoc buf chunk (concat chunks)))
        ∙ cut-append (buf ++ chunk) (concat chunks)))
