-- ===== src/SmtpRelay/Mime/Analysis.antt =====
-- src/smtp/mime-headers.ts: `analyzeRawMessage`, what a message declares and the bytes to send.
use zendou_backend.Common.{Bool, Option, none, some, List, [], ◌∷◌, if◌then◌else◌, find}
use zendou_backend.Common.Slices.{filter}
use zendou_backend.Text.{Text, text, text_eq, is_blank, trim}
use zendou_backend.EmailAddress.{ParsedAddress, parse_email_address}
use zendou_backend.SmtpRelay.Mime.{
  Bytes, Decoders, RawMessageParts, MimeHeaderField, split_raw_message, parse_mime_headers,
  strip_forbidden_headers,
}
use zendou_backend.SmtpRelay.Mime.Mailboxes.{split_mailbox_list}

pub data MimeRefusalReason : Type 0 where
  malformed_headers multiple_from multiple_reply_to invalid_from : MimeRefusalReason

pub record MimeHeaderAnalysis : Type 0 where
  pub from : Option ParsedAddress
  pub reply_to : Option (List Text)
  pub subject : Option Text
  pub raw : Bytes
  pub stripped_headers : List Text

pub data MimeHeaderResult : Type 0 where
  analyzed : MimeHeaderAnalysis → MimeHeaderResult
  refused : MimeRefusalReason → MimeHeaderResult

abbrev pub has_key : Text → MimeHeaderField → Bool
has_key key field = text_eq field.key key

abbrev decoded_name : ParsedAddress → Text → ParsedAddress
decoded_name parsed name = record parsed { name = (if is_blank name then none else some name) }

abbrev decode_display_name : Decoders → ParsedAddress → ParsedAddress
decode_display_name lib parsed = elim parsed.name [
  | none ↦ parsed
  | some name ↦ if is_blank name then parsed else decoded_name parsed (trim (lib.decode_words name))
]

-- The reading of the `From:` fields.
pub data FromHeader : Type 0 where
  no_from : FromHeader
  one_from : ParsedAddress → FromHeader
  bad_from : MimeRefusalReason → FromHeader

abbrev parsed_from : Decoders → Option ParsedAddress → FromHeader
parsed_from lib none = bad_from invalid_from
parsed_from lib (some parsed) = one_from (decode_display_name lib parsed)

abbrev from_mailboxes : Decoders → List Text → FromHeader
from_mailboxes lib [] = bad_from invalid_from
from_mailboxes lib (mailbox ∷ []) = parsed_from lib (parse_email_address mailbox)
from_mailboxes lib (mailbox ∷ other ∷ more) = bad_from multiple_from

abbrev pub from_of : Decoders → List MimeHeaderField → FromHeader
from_of lib [] = no_from
from_of lib (field ∷ []) = from_mailboxes lib (split_mailbox_list field.value)
from_of lib (field ∷ other ∷ more) = bad_from multiple_from

-- The `Reply-To:` fields: a refusal, or the boxes of the only one.
abbrev pub reply_to_of : List MimeHeaderField → Option (Option (List Text))
reply_to_of [] = some none
reply_to_of (field ∷ []) = some (some (split_mailbox_list field.value))
reply_to_of (field ∷ other ∷ more) = none

abbrev pub subject_of : Decoders → Option MimeHeaderField → Option Text
subject_of lib none = none
subject_of lib (some field) = some (lib.decode_words field.value)

abbrev pub with_reply_to :
    Decoders
    → RawMessageParts
    → List MimeHeaderField
    → Option ParsedAddress
    → Option (Option (List Text))
    → MimeHeaderResult
with_reply_to lib parts fields from none = refused multiple_reply_to
with_reply_to lib parts fields from (some reply_to) =
    let (raw, stripped) = strip_forbidden_headers parts fields in
    analyzed (record {
      from = from;
      reply_to = reply_to;
      subject = subject_of lib (find (has_key (text "subject")) fields);
      raw = raw;
      stripped_headers = stripped;
    })

abbrev pub with_from :
    Decoders → RawMessageParts → List MimeHeaderField → FromHeader → MimeHeaderResult
with_from lib parts fields (bad_from reason) = refused reason
with_from lib parts fields no_from =
    with_reply_to lib parts fields none (reply_to_of (filter (has_key (text "reply-to")) fields))
with_from lib parts fields (one_from parsed) =
    with_reply_to lib parts fields (some parsed)
      (reply_to_of (filter (has_key (text "reply-to")) fields))

abbrev pub analyze_fields : Decoders → RawMessageParts → List MimeHeaderField → MimeHeaderResult
analyze_fields lib parts fields =
    with_from lib parts fields (from_of lib (filter (has_key (text "from")) fields))

abbrev pub analyze_parsed :
    Decoders → RawMessageParts → Option (List MimeHeaderField) → MimeHeaderResult
analyze_parsed lib parts none = refused malformed_headers
analyze_parsed lib parts (some fields) = analyze_fields lib parts fields

unfoldable pub analyze_raw_message : Decoders → Bytes → MimeHeaderResult
analyze_raw_message lib raw =
    let parts = split_raw_message raw in
    analyze_parsed lib parts (parse_mime_headers lib parts.headers)
