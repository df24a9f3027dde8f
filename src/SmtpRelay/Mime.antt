-- ===== src/SmtpRelay/Mime.antt =====
-- src/smtp/mime-headers.ts: the headers of a message in transit are cut, read and rewritten by
-- slices. A buffer is the list of its bytes. A field holds its slice of the block in place of the
-- two offsets. The decoding of UTF-8 and of encoded words are functions of the platform and of
-- libmime, and arguments.
pub mod Lines
pub mod Cut
pub mod Rewriting
pub mod Kept
pub mod Fields
pub mod Stable
pub mod Mailboxes
pub mod Analysis
use zendou_backend.Common.{
  ℕ, suc, ◌+◌, Bool, true, false, not, ◌&&◌, ◌||◌, Option, none, some, List, [], ◌∷◌, ◌++◌, ltb,
  leb, ◌==◌, if◌then◌else◌, length, all, find,
}
use zendou_backend.Common.Slices.{drop}
use zendou_backend.Text.{Text, text, text_eq, is_blank, trim, to_lower_case, starts_with}

abbrev pub Bytes : Type 0
Bytes = List ℕ

-- `Buffer.toString('utf8')`, `Buffer.from(…, 'utf8')` and libmime's `decodeWords`.
pub record Decoders : Type 0 where
  pub decode_utf8 : Bytes → Text
  pub encode_utf8 : Text → Bytes
  pub decode_words : Text → Text

-- `STRIPPED_HEADER_NAMES` and `STRIPPED_HEADER_PREFIX`
unfoldable pub is_stripped_header : Text → Bool
is_stripped_header key =
    text_eq key (text "bcc")
    || text_eq key (text "return-path")
    || text_eq key (text "sender")
    || starts_with key (text "resent-")

pub record RawMessageParts : Type 0 where
  pub headers : Bytes
  pub separator : Bytes
  pub body : Bytes

pub record MimeHeaderField : Type 0 where
  pub name : Text
  pub key : Text
  pub value : Text
  pub bytes : Bytes

-- The content of the line ends at its CR, if it has one, and is empty.
abbrev pub is_empty_content : Bytes → Bool
is_empty_content [] = true
is_empty_content (c ∷ []) = c == 13
is_empty_content (c ∷ d ∷ s) = false

abbrev pub behind : Bytes → RawMessageParts → RawMessageParts
behind line parts = record parts { headers = line ++ parts.headers }

-- The loop over the bytes, with the line begun at `lineStart`.
unfoldable pub split_from : Bytes → Bytes → RawMessageParts
split_from line [] = record { headers = line; separator = []; body = [] }
split_from line (c ∷ rest) =
    let longer = split_from (line ++ c ∷ []) rest in
    let next = split_from [] rest in
    if not (c == 10)
    then longer
    else if is_empty_content line
    then record { headers = []; separator = line ++ c ∷ []; body = rest }
    else behind (line ++ c ∷ []) next

abbrev pub split_raw_message : Bytes → RawMessageParts
split_raw_message raw = split_from [] raw

-- The slices from `lineStart` to `lineEnd`, the line feed with its line.
abbrev pub begin_line : ℕ → List Bytes → List Bytes
begin_line c [] = (c ∷ []) ∷ []
begin_line c (line ∷ rest) = (c ∷ line) ∷ rest

unfoldable pub lines_of : Bytes → List Bytes
lines_of [] = []
lines_of (c ∷ s) = let rest = lines_of s in if c == 10 then (c ∷ []) ∷ rest else begin_line c rest

-- A line that continues the field before it.
abbrev pub is_folded : Bytes → Bool
is_folded [] = false
is_folded (c ∷ s) = c == 32 || c == 9

-- The bytes before the first colon of the line.
unfoldable pub before_colon : Bytes → Option Bytes
before_colon [] = none
before_colon (c ∷ s) =
    if c == 58 then some [] else elim (before_colon s) [ none ↦ none | some name ↦ some (c ∷ name) ]

abbrev is_field_name : Bytes → Bool
is_field_name name = all (λ byte. leb 33 byte && leb byte 126) name

abbrev checked_name : Option Bytes → Option Bytes
checked_name none = none
checked_name (some name) = if is_blank name || not (is_field_name name) then none else some name

abbrev pub field_name : Bytes → Option Bytes
field_name line = checked_name (before_colon line)

abbrev pub begun : Bytes → Bytes → MimeHeaderField
begun name line = record { name = name; key = to_lower_case name; value = []; bytes = line }

abbrev pub extended : MimeHeaderField → Bytes → MimeHeaderField
extended field line = record field { bytes = field.bytes ++ line }

abbrev pub closed : Option MimeHeaderField → List MimeHeaderField
closed none = []
closed (some field) = field ∷ []

abbrev pub after_field :
    Option MimeHeaderField → Option (List MimeHeaderField) → Option (List MimeHeaderField)
after_field previous none = none
after_field previous (some fields) = some (closed previous ++ fields)

-- The loop over the lines. `previous` is the last field so far, which alone can still grow.
unfoldable pub parse_lines : Option MimeHeaderField → List Bytes → Option (List MimeHeaderField)
parse_lines previous [] = some (closed previous)
parse_lines previous (line ∷ lines) =
    if is_folded line
    then elim previous [ none ↦ none | some field ↦ parse_lines (some (extended field line)) lines ]
    else elim (field_name line) [
      | none ↦ none
      | some name ↦ after_field previous (parse_lines (some (begun name line)) lines)
    ]

abbrev begins_lf : Text → Bool
begins_lf [] = false
begins_lf (c ∷ s) = c == 10

-- `replace(/\r?\n/g, '')`
unfoldable pub without_line_ends : Text → Text
without_line_ends [] = []
without_line_ends (c ∷ s) =
    let rest = without_line_ends s in if c == 10 || (c == 13 && begins_lf s) then rest else c ∷ rest

abbrev unfold_value : Text → Text
unfold_value value = trim (without_line_ends value)

abbrev pub read_value : Decoders → MimeHeaderField → MimeHeaderField
read_value lib field = record field {
  value = unfold_value (lib.decode_utf8 (drop (length field.name + 1) field.bytes));
}

abbrev pub read_values : Decoders → List MimeHeaderField → List MimeHeaderField
read_values lib [] = []
read_values lib (field ∷ fields) = read_value lib field ∷ read_values lib fields

abbrev pub read_all : Decoders → Option (List MimeHeaderField) → Option (List MimeHeaderField)
read_all lib none = none
read_all lib (some fields) = some (read_values lib fields)

unfoldable pub parse_mime_headers : Decoders → Bytes → Option (List MimeHeaderField)
parse_mime_headers lib headers = read_all lib (parse_lines none (lines_of headers))

abbrev pub is_kept : MimeHeaderField → Bool
is_kept field = not (is_stripped_header field.key)

abbrev pub kept_bytes : List MimeHeaderField → Bytes
kept_bytes [] = []
kept_bytes (field ∷ fields) =
    if is_stripped_header field.key then kept_bytes fields else field.bytes ++ kept_bytes fields

abbrev pub stripped_names : List MimeHeaderField → List Text
stripped_names [] = []
stripped_names (field ∷ fields) =
    if is_stripped_header field.key
    then field.name ∷ stripped_names fields
    else stripped_names fields

-- The rewritten bytes and the names of what went.
abbrev pub strip_forbidden_headers : RawMessageParts → List MimeHeaderField → Bytes × List Text
strip_forbidden_headers parts fields =
    (kept_bytes fields ++ (parts.separator ++ parts.body), stripped_names fields)
