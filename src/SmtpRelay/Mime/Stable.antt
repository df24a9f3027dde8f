-- ===== src/SmtpRelay/Mime/Stable.antt =====
-- A rewritten message is read as the original, without what went, and keeps all else.
use zendou_backend.Common.{
  ◌≡◌, refl, sym, ap, ◌∙◌, inl, inr, false, none, some, List, [], ◌∷◌, ◌++◌, Option-cases,
}
use zendou_backend.Common.Slices.{concat, filter}
use zendou_backend.SmtpRelay.Mime.{
  Bytes, Decoders, RawMessageParts, MimeHeaderField, split_raw_message, lines_of, parse_lines,
  read_values, read_all, parse_mime_headers, is_kept, kept_bytes, stripped_names,
}
use zendou_backend.SmtpRelay.Mime.Analysis.{
  MimeHeaderAnalysis, analyzed, analyze_fields, analyze_parsed, analyze_raw_message,
}
use zendou_backend.SmtpRelay.Mime.Cut.{head_lines, split_raw_message-parts}
use zendou_backend.SmtpRelay.Mime.Rewriting.{keep, keep-read, keep-bytes}
use zendou_backend.SmtpRelay.Mime.Kept.{keep-Sublist, cut-sublist, all_of, split_raw_message-whole}
use zendou_backend.SmtpRelay.Mime.Rewriting.{parse_lines-covers, kept-all}
use zendou_backend.SmtpRelay.Mime.Fields.{
  Restripped, fields-Restripped, read_values-filter, kept-read,
}

-- A message that is accepted, and its analysis.
module _ (lib : Decoders) (raw : Bytes) where
  heads : List Bytes
  heads = head_lines (lines_of raw)

  parsed_heads :
      parse_mime_headers lib (split_raw_message raw).headers ≡ read_all lib (parse_lines none heads)
  unfolding heads parse_mime_headers
  parsed_heads =
      ap (λ (parts : RawMessageParts). read_all lib (parse_lines none (lines_of parts.headers)))
        (split_raw_message-parts raw)
      ∙ ap (λ (ls : List Bytes). read_all lib (parse_lines none ls))
          (cut-sublist raw heads (all_of heads)).1

  kept_lines : List Bytes
  kept_lines = keep false heads

  rewritten :
      (fs : List MimeHeaderField)
      → parse_lines none heads ≡ some fs
      → kept_bytes (read_values lib fs) ≡ concat kept_lines
  unfolding kept_lines
  rewritten fs h = kept-read lib fs ∙ keep-bytes none heads fs h

  reread :
      (fs : List MimeHeaderField)
      → parse_lines none heads ≡ some fs
      → parse_mime_headers lib (concat kept_lines) ≡ some (filter is_kept (read_values lib fs))
  unfolding kept_lines heads parse_mime_headers
  reread fs h =
      ap (λ (ls : List Bytes). read_all lib (parse_lines none ls))
        (cut-sublist raw kept_lines (keep-Sublist false heads)).1
      ∙ ap (read_all lib) (keep-read none heads fs none h)
      ∙ ap some (read_values-filter lib fs)

  -- What an accepted message was found to be.
  record Found (a : MimeHeaderAnalysis) : Type 0 where
    pub fields : List MimeHeaderField
    pub read : parse_lines none heads ≡ some fields
    pub facts :
        Restripped
          (analyze_fields lib
            (record (split_raw_message raw) { headers = concat kept_lines })
            (filter is_kept (read_values lib fields)))
          (kept_bytes (read_values lib fields)
            ++ ((split_raw_message raw).separator ++ (split_raw_message raw).body))
          (stripped_names (read_values lib fields))
          a

  found : (a : MimeHeaderAnalysis) → analyze_raw_message lib raw ≡ analyzed a → Found a
  unfolding analyze_raw_message
  found a h = elim (Option-cases (parse_lines none heads)) [
    | inl bad ↦ cc (rw (parsed_heads ∙ ap (read_all lib) bad) at h)
    | inr (fs, read) ↦ record {
      fields = fs;
      read = read;
      facts =
          fields-Restripped lib (split_raw_message raw) (concat kept_lines) (read_values lib fs) a
            (rw (parsed_heads ∙ ap (read_all lib) read) at h);
    }
  ]

  names-read : (fs : List MimeHeaderField) → stripped_names (read_values lib fs) ≡ stripped_names fs
  names-read [] = refl
  names-read (f ∷ fs) = rw (names-read fs) refl

  module _ (a : MimeHeaderAnalysis) (accepted : analyze_raw_message lib raw ≡ analyzed a) where
    bytes-found :
        a.raw
        ≡ concat kept_lines ++ ((split_raw_message raw).separator ++ (split_raw_message raw).body)
    bytes-found =
        let f = found a accepted in
        f.facts.bytes
        ∙ ap
            (λ (b : Bytes).
              b ++ ((split_raw_message raw).separator ++ (split_raw_message raw).body))
            (rewritten f.fields f.read)

    cut-found :
        split_raw_message a.raw ≡ record (split_raw_message raw) { headers = concat kept_lines }
    unfolding kept_lines heads
    cut-found =
        ap split_raw_message bytes-found ∙ (cut-sublist raw kept_lines (keep-Sublist false heads)).0

    -- An accepted message is rewritten into one that the same analysis accepts, with the same
    -- sender, reply addresses and subject and the very same bytes, and that has no forbidden
    -- header left: nothing is stripped the second time.
    pub analyze_raw_message_stable :
        analyze_raw_message lib a.raw ≡ analyzed (record a { stripped_headers = [] })
    unfolding analyze_raw_message
    analyze_raw_message_stable =
        let f = found a accepted in
        ap (λ (q : RawMessageParts). analyze_parsed lib q (parse_mime_headers lib q.headers))
          cut-found
        ∙ ap (analyze_parsed lib (record (split_raw_message raw) { headers = concat kept_lines }))
            (reread f.fields f.read)
        ∙ f.facts.again

    -- The rewriting of an accepted message keeps the blank line and the body, and where no header
    -- is stripped, every byte: the message that is sent is the message that was received.
    pub analyze_raw_message-keeps :
        ((split_raw_message a.raw).separator ≡ (split_raw_message raw).separator)
        × ((split_raw_message a.raw).body ≡ (split_raw_message raw).body)
        × (a.stripped_headers ≡ [] → a.raw ≡ raw)
    unfolding heads lines_of
    analyze_raw_message-keeps =
        let f = found a accepted in
        (
          ap (λ (q : RawMessageParts). q.separator) cut-found,
          ap (λ (q : RawMessageParts). q.body) cut-found,
          λ nothing.
              let names = sym (names-read f.fields) ∙ sym f.facts.stripped ∙ nothing in
              let all =
                kept-read lib f.fields
                ∙ kept-all f.fields names
                ∙ parse_lines-covers none heads f.fields f.read in
              f.facts.bytes
              ∙ ap
                  (λ (b : Bytes).
                    b ++ ((split_raw_message raw).separator ++ (split_raw_message raw).body))
                  all
              ∙ split_raw_message-whole raw,
        )
