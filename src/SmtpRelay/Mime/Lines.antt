-- ===== src/SmtpRelay/Mime/Lines.antt =====
-- The lines of a block of bytes.
use zendou_backend.Common.{
  ℕ, ◌≡◌, refl, ap, ◌∙◌, inl, inr, Bool, true, false, not, ◌&&◌, ◌||◌, List, [], ◌∷◌, ◌++◌, arith,
  ◌==◌, Bool-cases,
}
use mathlib.Core.List.{append-nil}
use zendou_backend.Common.Slices.{concat}
use zendou_backend.SmtpRelay.Mime.{Bytes, begin_line, lines_of}

abbrev pub is_nil : List Bytes → Bool
is_nil [] = true
is_nil (l ∷ ls) = false

-- A line that ends at its only line feed.
unfoldable pub is_complete : Bytes → Bool
is_complete [] = false
is_complete (c ∷ []) = c == 10
is_complete (c ∷ d ∷ s) = not (c == 10) && is_complete (d ∷ s)

-- A line that the end of the block cuts.
unfoldable pub is_open : Bytes → Bool
is_open [] = true
is_open (c ∷ s) = not (c == 10) && is_open s

abbrev pub is_last : Bytes → Bool
is_last [] = false
is_last (c ∷ s) = is_open (c ∷ s)

-- Complete lines, save that the last may be cut.
unfoldable pub are_lines : List Bytes → Bool
are_lines [] = true
are_lines (l ∷ ls) = (is_complete l && are_lines ls) || (is_last l && is_nil ls)

begin_line-concat : (c : ℕ) (ls : List Bytes) → concat (begin_line c ls) ≡ c ∷ concat ls
begin_line-concat c [] = refl
begin_line-concat c (l ∷ ls) = refl

begin_line-lines :
    (c : ℕ) (ls : List Bytes)
    → (c == 10) ≡ false
    → are_lines ls ≡ true
    → are_lines (begin_line c ls) ≡ true
unfolding are_lines is_complete is_open
begin_line-lines c [] e h = ground (arith, e)
begin_line-lines c ([] ∷ ls) e h = cc
begin_line-lines c ((d ∷ l) ∷ ls) e h = rw e h

pub lines_of-concat : (s : Bytes) → concat (lines_of s) ≡ s
unfolding lines_of
lines_of-concat [] = refl
lines_of-concat (c ∷ s) = elim (Bool-cases (c == 10)) [
  | inl ends ↦ rw ends (ap (λ (rest : Bytes). c ∷ rest) (lines_of-concat s))
  | inr within ↦
      rw within
        (begin_line-concat c (lines_of s) ∙ ap (λ (rest : Bytes). c ∷ rest) (lines_of-concat s))
]

pub lines_of-lines : (s : Bytes) → are_lines (lines_of s) ≡ true
unfolding lines_of are_lines is_complete is_open
lines_of-lines [] = refl
lines_of-lines (c ∷ s) = elim (Bool-cases (c == 10)) [
  | inl ends ↦ rw ends (rw ends (ground (arith, lines_of-lines s)))
  | inr within ↦ rw within (begin_line-lines c (lines_of s) within (lines_of-lines s))
]

pub lines_of_complete : (l s : Bytes) → is_complete l ≡ true → lines_of (l ++ s) ≡ l ∷ lines_of s
unfolding lines_of is_complete
lines_of_complete [] s h = cc
lines_of_complete (c ∷ []) s h = ground (arith, h)
lines_of_complete (c ∷ d ∷ l) s h = ground (arith, h, lines_of_complete (d ∷ l) s)

pub lines_of_last : (l : Bytes) → is_last l ≡ true → lines_of l ≡ l ∷ []
unfolding lines_of is_open
lines_of_last [] h = cc
lines_of_last (c ∷ []) h = ground (arith, h)
lines_of_last (c ∷ d ∷ l) h = ground (arith, h, lines_of_last (d ∷ l))

lines_of_cut :
    (l : Bytes) (ls : List Bytes)
    → is_complete l ≡ false
    → are_lines (l ∷ ls) ≡ true
    → lines_of (concat (l ∷ ls)) ≡ l ∷ ls
unfolding are_lines
lines_of_cut l [] cut h = rw append-nil (lines_of_last l (ground (arith, cut, h)))
lines_of_cut l (m ∷ ls) cut h = ground (arith, cut, h)

pub lines_of_lines : (ls : List Bytes) → are_lines ls ≡ true → lines_of (concat ls) ≡ ls
unfolding are_lines lines_of
lines_of_lines [] h = refl
lines_of_lines (l ∷ ls) h = elim (Bool-cases (is_complete l)) [
  | inl whole ↦
      lines_of_complete l (concat ls) whole
      ∙ ap (λ (rest : List Bytes). l ∷ rest) (lines_of_lines ls (ground (arith, h, whole)))
  | inr cut ↦ lines_of_cut l ls cut h
]
