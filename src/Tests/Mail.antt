-- ===== src/Tests/Mail.antt =====
-- A message with a hidden copy, folded on two lines, on its way through the relay.
use zendou_backend.Common.{
  ◌≡◌, refl, false, none, some, List, [], ◌∷◌, ◌++◌, length, ltb, ◌||◌, if◌then◌else◌,
}
use zendou_backend.Common.Slices.{concat}
use zendou_backend.Text.{
  Text, text, text_eq, starts_with, trim, trim_start, trim_end, is_space, to_lower_case, split,
  split_last,
}
use zendou_backend.EmailAddress.{
  is_atom, is_atom_mark, matches_local_part, matches_domain_name, normalize_email_address,
  match_named_address, before_closing, parse_email_address,
}
use zendou_backend.SmtpRelay.Mime.{
  Bytes, Decoders, split_from, split_raw_message, lines_of, before_colon, parse_lines,
  without_line_ends, parse_mime_headers, is_stripped_header,
}
use zendou_backend.SmtpRelay.Mime.Mailboxes.{scan, scan_all, split_mailbox_list}
use zendou_backend.SmtpRelay.Mime.Analysis.{MimeHeaderAnalysis, analyzed, analyze_raw_message}
use zendou_backend.SmtpRelay.Mime.Stable.{analyze_raw_message_stable, analyze_raw_message-keeps}
use zendou_backend.SmtpRelay.Conversation.{Answer, RelayState}
use zendou_backend.SmtpRelay.Data.{DataStream, ended, read_message, receive_data}
use zendou_backend.SmtpRelay.Data.Whole.{read_message_exact, DataOutcome, receive_data-DataOutcome}
use zendou_backend.Tests.{env}
use zendou_backend.Tests.Relay.{cfg, session, ann_relay, start, both}

-- Seven-bit text, without encoded words.
abbrev plain : Decoders
plain = record { decode_utf8 = λ b. b; encode_utf8 = λ t. t; decode_words = λ t. t }

abbrev eol : Bytes
eol = 13 ∷ 10 ∷ []

abbrev subject_line : Bytes
subject_line = text "Subject: Hi" ++ eol

abbrev letter_end : Bytes
letter_end = eol ++ text "Body" ++ eol

abbrev with_copy : Bytes
with_copy =
    text "From: Shop <hi@shop.gn>"
    ++ eol
    ++ text "Bcc: eve@x.gn,"
    ++ eol
    ++ text " mal@x.gn"
    ++ eol
    ++ subject_line
    ++ letter_end

abbrev read_letter : MimeHeaderAnalysis
read_letter = record {
  from =
      some (record {
        name = some (text "Shop");
        address = text "hi@shop.gn";
        domain = text "shop.gn";
      });
  reply_to = none;
  subject = some (text "Hi");
  raw = text "From: Shop <hi@shop.gn>" ++ eol ++ subject_line ++ letter_end;
  stripped_headers = text "Bcc" ∷ [];
}

letter_is_read : analyze_raw_message plain with_copy ≡ analyzed read_letter
unfolding analyze_raw_message split_from lines_of before_colon parse_lines without_line_ends
    parse_mime_headers is_stripped_header text_eq starts_with trim trim_start trim_end is_space
    to_lower_case split split_last scan scan_all split_mailbox_list parse_email_address
    normalize_email_address match_named_address before_closing is_atom is_atom_mark
    matches_local_part matches_domain_name
letter_is_read = refl

analyze_raw_message_stable_example :
    analyze_raw_message plain read_letter.raw
    ≡ analyzed (record read_letter { stripped_headers = [] })
analyze_raw_message_stable_example =
    analyze_raw_message_stable plain with_copy read_letter letter_is_read

analyze_raw_message-keeps_example :
    ((split_raw_message read_letter.raw).separator ≡ (split_raw_message with_copy).separator)
    × ((split_raw_message read_letter.raw).body ≡ (split_raw_message with_copy).body)
    × (read_letter.stripped_headers ≡ [] → read_letter.raw ≡ with_copy)
analyze_raw_message-keeps_example =
    analyze_raw_message-keeps plain with_copy read_letter letter_is_read

-- In two chunks, and without a name for its public identifiers.
abbrev in_chunks : List Bytes
in_chunks = with_copy ∷ text "More" ∷ []

read_message_exact_example :
    read_message 10 in_chunks false
    ≡ (if ltb 10 (length (concat in_chunks)) || false then none else some (concat in_chunks))
read_message_exact_example = read_message_exact 10 in_chunks false

abbrev stream : DataStream
stream = ended in_chunks false

abbrev answered : Answer Text × RelayState
answered = receive_data cfg plain (λ id. []) env session ann_relay both stream start

receive_data-DataOutcome_example :
    DataOutcome cfg plain (λ id. []) env session ann_relay both start stream answered.0 answered.1
receive_data-DataOutcome_example =
    receive_data-DataOutcome cfg plain (λ id. []) env session ann_relay both start stream
