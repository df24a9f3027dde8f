-- ===== src/SmtpRelay/Mime/Cut.antt =====
-- The cut of a message, told by its lines.
use zendou_backend.Common.{
  ℕ, ◌≡◌, refl, sym, ap, ◌∙◌, inl, inr, Bool, true, false, ◌&&◌, List, [], ◌∷◌, ◌++◌, arith, ◌==◌,
  if◌then◌else◌, Bool-cases,
}
use mathlib.Core.List.{append-nil, append_assoc}
use zendou_backend.Common.Slices.{concat}
use zendou_backend.SmtpRelay.Mime.{
  Bytes, RawMessageParts, is_empty_content, behind, split_from, split_raw_message, lines_of,
}
use zendou_backend.SmtpRelay.Mime.Lines.{
  is_complete, is_open, lines_of-concat, lines_of_complete, lines_of_last,
}

abbrev pub is_blank_line : Bytes → Bool
is_blank_line [] = false
is_blank_line (c ∷ []) = c == 10
is_blank_line (c ∷ d ∷ []) = c == 13 && d == 10
is_blank_line (c ∷ d ∷ e ∷ s) = false

-- The lines before the first blank one, and from it on.
abbrev pub head_lines : List Bytes → List Bytes
head_lines [] = []
head_lines (l ∷ ls) = let rest = head_lines ls in if is_blank_line l then [] else l ∷ rest

abbrev pub tail_lines : List Bytes → List Bytes
tail_lines [] = []
tail_lines (l ∷ ls) = let rest = tail_lines ls in if is_blank_line l then l ∷ ls else rest

abbrev pub first_line : List Bytes → Bytes
first_line [] = []
first_line (l ∷ ls) = l

abbrev pub other_lines : List Bytes → List Bytes
other_lines [] = []
other_lines (l ∷ ls) = ls

abbrev pub parts_of : List Bytes → RawMessageParts
parts_of ls = record {
  headers = concat (head_lines ls);
  separator = first_line (tail_lines ls);
  body = concat (other_lines (tail_lines ls));
}

open-longer :
    (line : Bytes) (c : ℕ)
    → is_open line ≡ true
    → (c == 10) ≡ false
    → is_open (line ++ c ∷ []) ≡ true
unfolding is_open
open-longer [] c h e = ground (arith, e)
open-longer (d ∷ line) c h e = ground (arith, h, e, open-longer line c)

open-ended :
    (line : Bytes) (c : ℕ)
    → is_open line ≡ true
    → (c == 10) ≡ true
    → is_complete (line ++ c ∷ []) ≡ true
unfolding is_open is_complete
open-ended [] c h e = e
open-ended (d ∷ []) c h e = ground (arith, h, e)
open-ended (d ∷ d' ∷ line) c h e = ground (arith, h, e, open-ended (d' ∷ line) c)

blank_when_empty :
    (line : Bytes) (c : ℕ)
    → is_open line ≡ true
    → (c == 10) ≡ true
    → is_blank_line (line ++ c ∷ []) ≡ is_empty_content line
unfolding is_open
blank_when_empty [] c h e = e
blank_when_empty (d ∷ []) c h e = ground (arith, h, e)
blank_when_empty (d ∷ d' ∷ []) c h e = refl
blank_when_empty (d ∷ d' ∷ d'' ∷ line) c h e = refl

blank-open : (l : Bytes) → is_open l ≡ true → is_blank_line l ≡ false
unfolding is_open
blank-open [] h = refl
blank-open (c ∷ []) h = ground (arith, h)
blank-open (c ∷ d ∷ []) h = ground (arith, h)
blank-open (c ∷ d ∷ e ∷ s) h = refl

parts_of-last :
    (l : Bytes)
    → is_blank_line l ≡ false
    → parts_of (l ∷ []) ≡ record { headers = l; separator = []; body = [] }
parts_of-last l h = rw h (rw append-nil refl)

parts_of-blank :
    (l s : Bytes)
    → is_blank_line l ≡ true
    → parts_of (l ∷ lines_of s) ≡ record { headers = []; separator = l; body = s }
parts_of-blank l s h =
    rw h (ap (λ (b : Bytes). record { headers = []; separator = l; body = b }) (lines_of-concat s))

parts_of-behind :
    (l : Bytes) (ls : List Bytes)
    → is_blank_line l ≡ false
    → parts_of (l ∷ ls) ≡ behind l (parts_of ls)
parts_of-behind l ls h = rw h refl

last_line :
    (l : Bytes)
    → is_open l ≡ true
    → lines_of l ≡ l ∷ []
    → record { headers = l; separator = []; body = [] } ≡ parts_of (lines_of l)
last_line l h e = sym (ap parts_of e ∙ parts_of-last l (blank-open l h))

last_part :
    (line : Bytes)
    → is_open line ≡ true
    → record { headers = line; separator = []; body = [] } ≡ parts_of (lines_of line)
unfolding lines_of
last_part [] h = refl
last_part (c ∷ line) h = last_line (c ∷ line) h (lines_of_last (c ∷ line) h)

open-nil : is_open [] ≡ true
unfolding is_open
open-nil = refl

split_from-parts :
    (line s : Bytes) → is_open line ≡ true → split_from line s ≡ parts_of (lines_of (line ++ s))
unfolding split_from
split_from-parts line [] h = rw append-nil (last_part line h)
split_from-parts line (c ∷ s) h =
    let whole : lines_of (line ++ c ∷ s) ≡ lines_of ((line ++ c ∷ []) ++ s) =
      ap lines_of (sym (append_assoc line (c ∷ []) s)) in
    elim (Bool-cases (c == 10)) [
      | inr within ↦
          rw (whole, within) (split_from-parts (line ++ c ∷ []) s (open-longer line c h within))
      | inl ends ↦
          let cut : lines_of (line ++ c ∷ s) ≡ (line ++ c ∷ []) ∷ lines_of s =
            whole ∙ lines_of_complete (line ++ c ∷ []) s (open-ended line c h ends) in
          let kind = blank_when_empty line c h ends in
          elim (Bool-cases (is_empty_content line)) [
            | inl blank ↦
                rw (ends, blank) (sym (ap parts_of cut ∙ parts_of-blank _ s (kind ∙ blank)))
            | inr full ↦
                rw (ends, full)
                  (ap (behind (line ++ c ∷ [])) (split_from-parts [] s open-nil)
                    ∙ sym (ap parts_of cut ∙ parts_of-behind _ (lines_of s) (kind ∙ full)))
          ]
    ]

pub split_raw_message-parts : (raw : Bytes) → split_raw_message raw ≡ parts_of (lines_of raw)
split_raw_message-parts raw = split_from-parts [] raw open-nil

pub head-tail : (ls : List Bytes) → head_lines ls ++ tail_lines ls ≡ ls
head-tail [] = refl
head-tail (l ∷ ls) = elim (Bool-cases (is_blank_line l)) [
  | inl blank ↦ rw blank refl
  | inr full ↦ rw full (ap (λ (rest : List Bytes). l ∷ rest) (head-tail ls))
]
