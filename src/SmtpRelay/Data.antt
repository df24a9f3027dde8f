-- ===== src/SmtpRelay/Data.antt =====
-- src/smtp/smtp-pipeline.service.ts, the message: `data` with `readMessage` and `toUtf8String`.
pub mod Whole
use zendou_backend.Common.{
  ℕ, ◌+◌, Bool, true, false, ◌||◌, Option, none, some, List, [], ◌∷◌, ◌++◌, ltb, if◌then◌else◌,
  length,
}
use zendou_backend.Text.{Text, text_eq}
use zendou_backend.EmailAddress.{ParsedAddress, format_email_address}
use zendou_backend.Emails.Refusal.{Failure}
use zendou_backend.Emails.Checks.{Env}
use zendou_backend.SmtpRelay.Replies.{
  SmtpReply, reply_size_exceeded, reply_mime_invalid, reply_raw_not_utf8,
}
use zendou_backend.SmtpRelay.Throttle.{Session, RelayConfig}
use zendou_backend.SmtpRelay.Conversation.{
  Answer, done, replied, thrown, RelayState, Handler, ◌>>=◌, give,
}
use zendou_backend.SmtpRelay.Envelope.{SmtpSessionUser, max_message_bytes}
use zendou_backend.SmtpRelay.Mime.{Bytes, Decoders}
use zendou_backend.SmtpRelay.Mime.Analysis.{
  MimeHeaderAnalysis, MimeHeaderResult, analyzed, refused, analyze_raw_message,
}
use zendou_backend.SmtpRelay.FanOut.{
  Recipient, Message, fan_out, stored_subject, format_smtp_accepted_reply,
}

-- The chunks of a stream that ends, with the flag `sizeExceeded` of the library, or its error.
pub data DataStream : Type 0 where
  ended : (chunks : List Bytes) (size_exceeded : Bool) → DataStream
  broken : Failure → DataStream

pub record Reading : Type 0 where
  pub kept : Bytes
  pub received : ℕ
  pub exceeded : Bool

-- The handler of the event `data`; `kept` is the concatenation of the chunks.
abbrev pub on_chunk : ℕ → Reading → Bytes → Reading
on_chunk limit r chunk =
    let received = r.received + length chunk in
    if ltb limit received
    then record { kept = []; received = received; exceeded = true }
    else record r { kept = r.kept ++ chunk; received = received }

unfoldable pub read_chunks : ℕ → Reading → List Bytes → Reading
read_chunks limit r [] = r
read_chunks limit r (chunk ∷ chunks) = read_chunks limit (on_chunk limit r chunk) chunks

abbrev pub reading_start : Reading
reading_start = record { kept = []; received = 0; exceeded = false }

unfoldable pub read_message : ℕ → List Bytes → Bool → Option Bytes
read_message limit chunks size_exceeded =
    let r = read_chunks limit reading_start chunks in
    if r.exceeded || size_exceeded then none else some r.kept

abbrev pub consume : RelayConfig → DataStream → Handler (Option Bytes)
consume cfg (ended chunks size_exceeded) s =
    (done (read_message (max_message_bytes cfg) chunks size_exceeded), s)
consume cfg (broken error) s = (thrown error, s)

abbrev pub require : {A : Type 0} → SmtpReply → Option A → Handler A
require reply none s = (replied reply, s)
require reply (some a) s = (done a, s)

abbrev pub analysis_of : MimeHeaderResult → Option MimeHeaderAnalysis
analysis_of (refused reason) = none
analysis_of (analyzed analysis) = some analysis

unfoldable pub to_utf8_string : Decoders → Bytes → Option Text
to_utf8_string lib raw =
    let decoded = lib.decode_utf8 raw in
    if text_eq (lib.encode_utf8 decoded) raw then some decoded else none

abbrev sender_of : Session → Option ParsedAddress → Text
sender_of session none = session.mail_from
sender_of session (some from) = format_email_address from

abbrev boxes_of : Option (List Text) → List Text
boxes_of none = []
boxes_of (some boxes) = boxes

-- The message that goes to each recipient.
abbrev pub message_of : Session → MimeHeaderAnalysis → Text → Message
message_of session analysis raw = record {
  from = sender_of session analysis.from;
  reply_to = boxes_of analysis.reply_to;
  subject = stored_subject analysis.subject;
  raw = raw;
}

-- `data`: the text of the 250. The recipients are those of the session's envelope.
unfoldable pub receive_data :
    RelayConfig
    → Decoders
    → (ℕ → Text)
    → Env
    → Session
    → SmtpSessionUser
    → List Recipient
    → DataStream
    → Handler Text
receive_data cfg lib show env session user recipients stream = do
  consumed ← consume cfg stream
  received ← require reply_size_exceeded consumed
  analysis ← require reply_mime_invalid (analysis_of (analyze_raw_message lib received))
  raw ← require reply_raw_not_utf8 (to_utf8_string lib analysis.raw)
  outcomes ← fan_out env session user (message_of session analysis raw) recipients
  give (format_smtp_accepted_reply show outcomes)
