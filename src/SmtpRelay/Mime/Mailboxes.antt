-- ===== src/SmtpRelay/Mime/Mailboxes.antt =====
-- src/smtp/mime-headers.ts: `splitMailboxList`. The loop goes by code points and the model by code
-- units; what it compares with is ASCII, and the second unit of a pair changes no state.
use zendou_backend.Common.{
  ℕ, ◌+◌, ◌-◌, Bool, true, false, not, ◌&&◌, List, [], ◌∷◌, ◌++◌, ltb, ◌==◌, if◌then◌else◌,
}
use zendou_backend.Text.{Text, is_blank, trim}

pub record Scan : Type 0 where
  pub mailboxes : List Text
  pub current : Text
  pub quoted : Bool
  pub angled : Bool
  pub comment_depth : ℕ
  pub escaped : Bool

abbrev pub scan_start : Scan
scan_start = record {
  mailboxes = [];
  current = [];
  quoted = false;
  angled = false;
  comment_depth = 0;
  escaped = false;
}

-- `current += character`
abbrev pub joined : ℕ → Scan → Scan
joined c s = record s { current = s.current ++ c ∷ [] }

abbrev in_comment : ℕ → Scan → Scan
in_comment c s =
    if c == b'('
    then record (joined c s) { comment_depth = s.comment_depth + 1 }
    else if c == b')'
    then record (joined c s) { comment_depth = s.comment_depth - 1 }
    else joined c s

abbrev at_top : ℕ → Scan → Scan
at_top c s =
    if c == b'"'
    then record (joined c s) { quoted = true }
    else if c == b'('
    then record (joined c s) { comment_depth = s.comment_depth + 1 }
    else if c == b'<'
    then record (joined c s) { angled = true }
    else if c == b'>'
    then record (joined c s) { angled = false }
    else joined c s

-- One character of the loop.
unfoldable pub scan : Scan → ℕ → Scan
scan s c =
    if s.escaped
    then record (joined c s) { escaped = false }
    else if c == b'\\'
    then record (joined c s) { escaped = true }
    else if s.quoted
    then record (joined c s) { quoted = not (c == b'"') }
    else if ltb 0 s.comment_depth
    then in_comment c s
    else if c == b',' && not s.angled
    then record s { mailboxes = s.mailboxes ++ s.current ∷ []; current = [] }
    else at_top c s

unfoldable pub scan_all : Scan → Text → Scan
scan_all s [] = s
scan_all s (c ∷ rest) = scan_all (scan s c) rest

-- `.map(trim).filter(length > 0)`
abbrev trimmed_boxes : List Text → List Text
trimmed_boxes [] = []
trimmed_boxes (box ∷ boxes) =
    let rest = trimmed_boxes boxes in if is_blank (trim box) then rest else trim box ∷ rest

unfoldable pub split_mailbox_list : Text → List Text
unfolding scan scan_all
split_mailbox_list value =
    let s = scan_all scan_start value in trimmed_boxes (s.mailboxes ++ s.current ∷ [])
