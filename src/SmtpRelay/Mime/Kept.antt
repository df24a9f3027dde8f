-- ===== src/SmtpRelay/Mime/Kept.antt =====
-- What the rewriting keeps is a block of lines before the same blank line.
use zendou_backend.Common.{
  ◌≡◌, refl, sym, ap, ◌∙◌, inl, inr, Bool, true, false, not, ◌&&◌, List, [], ◌∷◌, ◌++◌, arith,
  Bool-cases, Option-cases,
}
use mathlib.Core.List.{append-nil}
use zendou_backend.Common.Slices.{concat, concat-append}
use zendou_backend.SmtpRelay.Mime.{
  Bytes, lines_of, is_folded, field_name, is_kept, begun, RawMessageParts, split_raw_message,
}
use zendou_backend.SmtpRelay.Mime.Lines.{
  is_nil, is_complete, are_lines, lines_of-concat, lines_of-lines, lines_of_lines,
}
use zendou_backend.SmtpRelay.Mime.Cut.{
  is_blank_line, head_lines, tail_lines, first_line, other_lines, parts_of, head-tail,
  split_raw_message-parts,
}
use zendou_backend.SmtpRelay.Mime.Rewriting.{keep}

-- Some of these lines, in their order.
pub data Sublist : List Bytes → List Bytes → Type 0 where
  done : Sublist [] []
  dropped : {l : Bytes} {ks ls : List Bytes} → Sublist ks ls → Sublist ks (l ∷ ls)
  taken : {l : Bytes} {ks ls : List Bytes} → Sublist ks ls → Sublist (l ∷ ks) (l ∷ ls)

none_of : (ls : List Bytes) → Sublist [] ls
none_of [] = done
none_of (l ∷ ls) = dropped (none_of ls)

pub all_of : (ls : List Bytes) → Sublist ls ls
all_of [] = done
all_of (l ∷ ls) = taken (all_of ls)

pub keep-Sublist : (b : Bool) (ls : List Bytes) → Sublist (keep b ls) ls
unfolding keep
keep-Sublist b [] = done
keep-Sublist b (l ∷ ls) = elim (Bool-cases (is_folded l)) [
  | inl folded ↦ elim (Bool-cases b) [
    | inl kept ↦ rw folded (rw kept (taken (keep-Sublist true ls)))
    | inr gone ↦ rw folded (rw gone (dropped (keep-Sublist false ls)))
  ]
  | inr field ↦ elim (Option-cases (field_name l)) [
    | inl bad ↦ rw (field, bad) (none_of (l ∷ ls))
    | inr (name, named) ↦ elim (Bool-cases (is_kept (begun name l))) [
      | inl kept ↦ rw (field, named) (rw kept (taken (keep-Sublist true ls)))
      | inr gone ↦ rw (field, named) (rw gone (dropped (keep-Sublist false ls)))
    ]
  ]
]

sublist-nil :
    (ks hs ts : List Bytes) → Sublist ks hs → is_nil (hs ++ ts) ≡ true → is_nil (ks ++ ts) ≡ true
sublist-nil ks hs ts done h = h
sublist-nil ks hs ts (dropped s) h = cc
sublist-nil ks hs ts (taken s) h = cc

nil-lines : (ls : List Bytes) → is_nil ls ≡ true → are_lines ls ≡ true
unfolding are_lines
nil-lines [] h = refl
nil-lines (l ∷ ls) h = cc

-- Lines are lost from the head of a list of lines only whole.
sublist-lines :
    (ks hs ts : List Bytes)
    → Sublist ks hs
    → are_lines (hs ++ ts) ≡ true
    → are_lines (ks ++ ts) ≡ true
unfolding are_lines
sublist-lines ks hs ts done h = h
sublist-lines ks hs' ts (dropped {l} {ls = hs} s) h = elim (Bool-cases (is_complete l)) [
  | inl whole ↦ sublist-lines ks hs ts s (ground (arith, h, whole, nil-lines (hs ++ ts)))
  | inr cut ↦ nil-lines (ks ++ ts) (sublist-nil ks hs ts s (ground (arith, h, cut)))
]
sublist-lines ks' hs' ts (taken {l} {ks} {ls = hs} s) h =
    let rest = sublist-lines ks hs ts s in
    let empty = sublist-nil ks hs ts s in ground (arith, h, rest, empty)

-- None of the lines is blank.
unfoldable pub are_full : List Bytes → Bool
are_full [] = true
are_full (l ∷ ls) = not (is_blank_line l) && are_full ls

head_lines-full : (ls : List Bytes) → are_full (head_lines ls) ≡ true
unfolding are_full
head_lines-full [] = refl
head_lines-full (l ∷ ls) = elim (Bool-cases (is_blank_line l)) [
  | inl blank ↦ rw blank refl
  | inr full ↦ rw full (rw full (head_lines-full ls))
]

sublist-full : (ks hs : List Bytes) → Sublist ks hs → are_full hs ≡ true → are_full ks ≡ true
unfolding are_full
sublist-full ks hs done h = h
sublist-full ks hs' (dropped {l} {ls = hs} s) h = sublist-full ks hs s (ground (arith, h))
sublist-full ks' hs' (taken {l} {ks} {ls = hs} s) h = ground (arith, h, sublist-full ks hs s)

head-full : (ks ts : List Bytes) → are_full ks ≡ true → head_lines (ks ++ ts) ≡ ks ++ head_lines ts
unfolding are_full
head-full [] ts h = refl
head-full (k ∷ ks) ts h =
    let full : is_blank_line k ≡ false = ground (arith, h) in
    rw full (ap (λ (ls : List Bytes). k ∷ ls) (head-full ks ts (ground (arith, h))))

tail-full : (ks ts : List Bytes) → are_full ks ≡ true → tail_lines (ks ++ ts) ≡ tail_lines ts
unfolding are_full
tail-full [] ts h = refl
tail-full (k ∷ ks) ts h =
    let full : is_blank_line k ≡ false = ground (arith, h) in
    rw full (tail-full ks ts (ground (arith, h)))

head-of_tail : (ls : List Bytes) → head_lines (tail_lines ls) ≡ []
head-of_tail [] = refl
head-of_tail (l ∷ ls) = elim (Bool-cases (is_blank_line l)) [
  | inl blank ↦ rw blank (rw blank refl)
  | inr full ↦ rw full (head-of_tail ls)
]

tail-of_tail : (ls : List Bytes) → tail_lines (tail_lines ls) ≡ tail_lines ls
tail-of_tail [] = refl
tail-of_tail (l ∷ ls) = elim (Bool-cases (is_blank_line l)) [
  | inl blank ↦ rw blank (rw blank refl)
  | inr full ↦ rw full (tail-of_tail ls)
]

tail-concat : (ts : List Bytes) → first_line ts ++ concat (other_lines ts) ≡ concat ts
tail-concat [] = refl
tail-concat (t ∷ ts) = refl

prefix-nil : (ks ts : List Bytes) → is_nil (ks ++ ts) ≡ true → is_nil ks ≡ true
prefix-nil [] ts h = refl
prefix-nil (k ∷ ks) ts h = h

prefix-lines : (ks ts : List Bytes) → are_lines (ks ++ ts) ≡ true → are_lines ks ≡ true
unfolding are_lines
prefix-lines [] ts h = refl
prefix-lines (k ∷ ks) ts h =
    let rest = prefix-lines ks ts in let empty = prefix-nil ks ts in ground (arith, h, rest, empty)

with_tail : List Bytes → List Bytes → RawMessageParts
with_tail ks ts = record {
  headers = concat ks;
  separator = first_line ts;
  body = concat (other_lines ts);
}

parts-with_tail :
    (ks ls : List Bytes)
    → are_full ks ≡ true
    → parts_of (ks ++ tail_lines ls) ≡ with_tail ks (tail_lines ls)
unfolding with_tail
parts-with_tail ks ls full =
    let head =
      head-full ks (tail_lines ls) full
      ∙ ap (λ (rest : List Bytes). ks ++ rest) (head-of_tail ls)
      ∙ append-nil ks in
    let tail = tail-full ks (tail_lines ls) full ∙ tail-of_tail ls in rw head (rw tail refl)

bytes-with_tail :
    (ks ts : List Bytes)
    → concat ks ++ (first_line ts ++ concat (other_lines ts)) ≡ concat (ks ++ ts)
bytes-with_tail ks ts =
    ap (λ (b : Bytes). concat ks ++ b) (tail-concat ts) ∙ sym (concat-append ks ts)

-- Some head lines of a message before its separator and its body are cut as they stand.
pub cut-sublist :
    (raw : Bytes) (ks : List Bytes)
    → Sublist ks (head_lines (lines_of raw))
    → let parts = split_raw_message raw in
      (split_raw_message (concat ks ++ (parts.separator ++ parts.body))
        ≡ record parts { headers = concat ks })
      × (lines_of (concat ks) ≡ ks)
unfolding with_tail
cut-sublist raw ks s =
    let ls = lines_of raw in
    let ts = tail_lines ls in
    let whole = lines_of-lines raw in
    let full = sublist-full ks (head_lines ls) s (head_lines-full ls) in
    let lines : are_lines (ks ++ ts) ≡ true =
      sublist-lines ks (head_lines ls) ts s (rw (head-tail ls) whole) in
    (
      rw (split_raw_message-parts raw) (
          ap split_raw_message (bytes-with_tail ks ts)
          ∙ split_raw_message-parts (concat (ks ++ ts))
          ∙ ap parts_of (lines_of_lines (ks ++ ts) lines)
          ∙ parts-with_tail ks ls full),
      lines_of_lines ks (prefix-lines ks ts lines),
    )

-- The three parts are the message.
pub split_raw_message-whole :
    (raw : Bytes)
    → concat (head_lines (lines_of raw))
        ++ ((split_raw_message raw).separator ++ (split_raw_message raw).body)
      ≡ raw
split_raw_message-whole raw =
    let ls = lines_of raw in
    rw (split_raw_message-parts raw) (
      bytes-with_tail (head_lines ls) (tail_lines ls)
      ∙ ap concat (head-tail ls)
      ∙ lines_of-concat raw)
