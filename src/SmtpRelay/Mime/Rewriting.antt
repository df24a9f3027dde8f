-- ===== src/SmtpRelay/Mime/Rewriting.antt =====
-- The lines that the rewriting of a block keeps, and what they are read as.
use zendou_backend.Common.{
  ◌≡◌, refl, sym, ap, ◌∙◌, inl, inr, Bool, true, false, Option, none, some, List, [], ◌∷◌, ◌++◌,
  if◌then◌else◌, Bool-cases, Option-cases,
}
use mathlib.Core.List.{append-nil, append_assoc}
use zendou_backend.Common.Slices.{concat, filter}
use zendou_backend.SmtpRelay.Mime.{
  Bytes, MimeHeaderField, is_stripped_header, is_folded, field_name, begun, extended, closed,
  after_field, parse_lines, is_kept, kept_bytes, stripped_names,
}

-- The lines of the kept fields, where the lines follow a field that is kept or not.
unfoldable pub keep : Bool → List Bytes → List Bytes
keep kept [] = []
keep kept (l ∷ ls) =
    let same = keep kept ls in
    let on = keep true ls in
    let off = keep false ls in
    if is_folded l then (if kept then l ∷ same else same) else elim (field_name l) [
      | none ↦ []
      | some name ↦ if is_kept (begun name l) then l ∷ on else off
    ]

abbrev pub keeps : Option MimeHeaderField → Bool
keeps none = false
keeps (some f) = is_kept f

abbrev pub instead : Option MimeHeaderField → Option MimeHeaderField → Option MimeHeaderField
instead previous c = if keeps previous then previous else c

abbrev pub before : Option MimeHeaderField → Option MimeHeaderField → Option MimeHeaderField
before previous c = if keeps previous then none else c

-- A field that has been read in full, and the others.
record Read (previous : Option MimeHeaderField) (o : Option (List MimeHeaderField))
    (fs : List MimeHeaderField) : Type 0 where
  pub others : List MimeHeaderField
  pub read : o ≡ some others
  pub whole : fs ≡ closed previous ++ others

after_field-Read :
    (previous : Option MimeHeaderField) (o : Option (List MimeHeaderField))
    (fs : List MimeHeaderField)
    → after_field previous o ≡ some fs
    → Read previous o fs
after_field-Read previous none fs h = cc
after_field-Read previous (some gs) fs h = record { others = gs; read = refl; whole = cc }

closed-filter :
    (previous c : Option MimeHeaderField) (gs : List MimeHeaderField)
    → closed (instead previous c) ++ filter is_kept gs
      ≡ closed (before previous c) ++ filter is_kept (closed previous ++ gs)
closed-filter none c gs = refl
closed-filter (some f) c gs = elim (Bool-cases (is_kept f)) [
  | inl kept ↦ rw kept refl
  | inr gone ↦ rw gone refl
]

-- The lines kept are read as the fields kept.
pub keep-read :
    (previous : Option MimeHeaderField) (ls : List Bytes) (fs : List MimeHeaderField)
    (c : Option MimeHeaderField)
    → parse_lines previous ls ≡ some fs
    → parse_lines (instead previous c) (keep (keeps previous) ls)
      ≡ some (closed (before previous c) ++ filter is_kept fs)
unfolding parse_lines keep
keep-read previous [] fs c h =
    let all : closed previous ≡ fs = cc in
    ap some (
      sym (append-nil (closed (instead previous c)))
      ∙ closed-filter previous c []
      ∙ ap (λ (gs : List MimeHeaderField). closed (before previous c) ++ filter is_kept gs)
          (append-nil (closed previous) ∙ all))
keep-read previous (l ∷ ls) fs c h = elim (Bool-cases (is_folded l)) [
  | inl folded ↦ elim (Option-cases previous) [
    | inl absent ↦ cc (rw (absent, folded) at h)
    | inr (f, e) ↦
        let rest = keep-read (some (extended f l)) ls fs c (rw (e, folded) at h) in
        elim (Bool-cases (is_kept f)) [
          | inl kept ↦ rw (e, folded) (rw kept (rw folded (rw kept at rest)))
          | inr gone ↦ rw (e, folded) (rw gone (rw gone at rest))
        ]
  ]
  | inr field ↦ elim (Option-cases (field_name l)) [
    | inl bad ↦ cc (rw (field, bad) at h)
    | inr (name, named) ↦
        let r = after_field-Read previous _ fs (rw (field, named) at h) in
        let rest = keep-read (some (begun name l)) ls r.others (instead previous c) r.read in
        let final =
          closed-filter previous c r.others
          ∙ ap (λ (gs : List MimeHeaderField). closed (before previous c) ++ filter is_kept gs)
              (sym r.whole) in
        elim (Bool-cases (is_kept (begun name l))) [
          | inl kept ↦
              rw (field, named)
                (rw kept (
                  rw (field, named)
                    (ap (after_field (instead previous c)) (rw kept at rest) ∙ ap some final)))
          | inr gone ↦ rw (field, named) (rw gone ((rw gone at rest) ∙ ap some final))
        ]
  ]
]

kept_bytes-append :
    (fs gs : List MimeHeaderField) → kept_bytes (fs ++ gs) ≡ kept_bytes fs ++ kept_bytes gs
kept_bytes-append [] gs = refl
kept_bytes-append (f ∷ fs) gs = elim (Bool-cases (is_stripped_header f.key)) [
  | inl gone ↦ rw gone (kept_bytes-append fs gs)
  | inr kept ↦ rw kept (
      ap (λ (b : Bytes). f.bytes ++ b) (kept_bytes-append fs gs)
      ∙ sym (append_assoc f.bytes (kept_bytes fs) (kept_bytes gs)))
]

grouped : (a l k : Bytes) → ((a ++ l) ++ []) ++ k ≡ (a ++ []) ++ (l ++ k)
grouped a l k = rw (append-nil (a ++ l)) (rw (append-nil a) (append_assoc a l k))

-- The kept lines are the bytes of the kept fields.
pub keep-bytes :
    (previous : Option MimeHeaderField) (ls : List Bytes) (fs : List MimeHeaderField)
    → parse_lines previous ls ≡ some fs
    → kept_bytes fs ≡ kept_bytes (closed previous) ++ concat (keep (keeps previous) ls)
unfolding parse_lines keep
keep-bytes previous [] fs h = cc (append-nil (kept_bytes (closed previous)))
keep-bytes previous (l ∷ ls) fs h = elim (Bool-cases (is_folded l)) [
  | inl folded ↦ elim (Option-cases previous) [
    | inl absent ↦ cc (rw (absent, folded) at h)
    | inr (f, e) ↦
        let rest = keep-bytes (some (extended f l)) ls fs (rw (e, folded) at h) in
        elim (Bool-cases (is_stripped_header f.key)) [
          | inl gone ↦ rw (e, folded) (rw gone (rw gone at rest))
          | inr kept ↦
              rw (e, folded)
                (rw kept ((rw kept at rest) ∙ grouped f.bytes l (concat (keep true ls))))
        ]
  ]
  | inr field ↦ elim (Option-cases (field_name l)) [
    | inl bad ↦ cc (rw (field, bad) at h)
    | inr (name, named) ↦
        let r = after_field-Read previous _ fs (rw (field, named) at h) in
        let rest = keep-bytes (some (begun name l)) ls r.others r.read in
        let final = ap kept_bytes r.whole ∙ kept_bytes-append (closed previous) r.others in
        elim (Bool-cases (is_stripped_header (begun name l).key)) [
          | inl gone ↦
              rw (field, named)
                (rw gone
                  (final ∙ ap (λ (b : Bytes). kept_bytes (closed previous) ++ b) (rw gone at rest)))
          | inr kept ↦
              rw (field, named)
                (rw kept (
                  final
                  ∙ ap (λ (b : Bytes). kept_bytes (closed previous) ++ b)
                      ((rw kept at rest)
                        ∙ ap (λ (b : Bytes). b ++ concat (keep true ls)) (append-nil l))))
        ]
  ]
]

-- All bytes of the fields.
abbrev pub all_bytes : List MimeHeaderField → Bytes
all_bytes [] = []
all_bytes (f ∷ fs) = f.bytes ++ all_bytes fs

all_bytes-append :
    (fs gs : List MimeHeaderField) → all_bytes (fs ++ gs) ≡ all_bytes fs ++ all_bytes gs
all_bytes-append [] gs = refl
all_bytes-append (f ∷ fs) gs =
    ap (λ (b : Bytes). f.bytes ++ b) (all_bytes-append fs gs)
    ∙ sym (append_assoc f.bytes (all_bytes fs) (all_bytes gs))

-- The fields cover the block without a gap.
pub parse_lines-covers :
    (previous : Option MimeHeaderField) (ls : List Bytes) (fs : List MimeHeaderField)
    → parse_lines previous ls ≡ some fs
    → all_bytes fs ≡ all_bytes (closed previous) ++ concat ls
unfolding parse_lines
parse_lines-covers previous [] fs h = cc (append-nil (all_bytes (closed previous)))
parse_lines-covers previous (l ∷ ls) fs h = elim (Bool-cases (is_folded l)) [
  | inl folded ↦ elim (Option-cases previous) [
    | inl absent ↦ cc (rw (absent, folded) at h)
    | inr (f, e) ↦ rw e (
        parse_lines-covers (some (extended f l)) ls fs (rw (e, folded) at h)
        ∙ grouped f.bytes l (concat ls))
  ]
  | inr field ↦ elim (Option-cases (field_name l)) [
    | inl bad ↦ cc (rw (field, bad) at h)
    | inr (name, named) ↦
        let r = after_field-Read previous _ fs (rw (field, named) at h) in
        ap all_bytes r.whole
        ∙ all_bytes-append (closed previous) r.others
        ∙ ap (λ (b : Bytes). all_bytes (closed previous) ++ b)
            (parse_lines-covers (some (begun name l)) ls r.others r.read
              ∙ ap (λ (b : Bytes). b ++ concat ls) (append-nil l))
  ]
]

pub kept-all : (fs : List MimeHeaderField) → stripped_names fs ≡ [] → kept_bytes fs ≡ all_bytes fs
kept-all [] h = refl
kept-all (f ∷ fs) h = elim (Bool-cases (is_stripped_header f.key)) [
  | inl gone ↦ cc (rw gone at h)
  | inr kept ↦ rw kept (ap (λ (b : Bytes). f.bytes ++ b) (kept-all fs (rw kept at h)))
]
