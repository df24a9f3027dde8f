-- ===== src/SmtpRelay/Data/Whole.antt =====
-- What the end of a message hands on, and what it refuses before anything is written.
use zendou_backend.Common.{
  ℕ, ◌+◌, ◌≤◌, ◌<◌, ◌≡◌, refl, sym, ap, ◌∙◌, inl, inr, Bool, true, false, ◌||◌, none, some, List,
  [], ◌∷◌, ◌++◌, arith, ltb, ltb→lt, if◌then◌else◌, length, length-append, Bool-cases, Option-cases,
}
use mathlib.Core.List.{append-nil, append_assoc}
use mathlib.Core.Path.{subst}
use zendou_backend.Common.Slices.{concat}
use zendou_backend.Text.{Text, text_eq}
use zendou_backend.Text.Laws.{text_eq_sound}
use zendou_backend.Emails.Refusal.{Failure}
use zendou_backend.Emails.Checks.{Env}
use zendou_backend.SmtpRelay.Replies.{reply_size_exceeded, reply_mime_invalid, reply_raw_not_utf8}
use zendou_backend.SmtpRelay.Throttle.{Session, RelayConfig}
use zendou_backend.SmtpRelay.Conversation.{Answer, done, replied, thrown, RelayState, next, give}
use zendou_backend.SmtpRelay.Envelope.{SmtpSessionUser, max_message_bytes}
use zendou_backend.SmtpRelay.Mime.{Bytes, Decoders, split_raw_message}
use zendou_backend.SmtpRelay.Mime.Analysis.{
  MimeHeaderAnalysis, MimeHeaderResult, analyzed, refused, analyze_raw_message,
}
use zendou_backend.SmtpRelay.Mime.Stable.{analyze_raw_message_stable, analyze_raw_message-keeps}
use zendou_backend.SmtpRelay.FanOut.{
  Recipient, SmtpRecipientOutcome, fan_out, format_smtp_accepted_reply,
}
use zendou_backend.SmtpRelay.Data.{
  DataStream, ended, broken, Reading, on_chunk, read_chunks, read_message, analysis_of,
  to_utf8_string, message_of, receive_data,
}

-- Once the limit is passed, nothing more is kept and nothing forgotten.
stays-exceeded :
    (limit : ℕ) (chunks : List Bytes) (r : Reading)
    → r.exceeded ≡ true
    → (read_chunks limit r chunks).exceeded ≡ true
unfolding read_chunks
stays-exceeded limit [] r h = h
stays-exceeded limit (chunk ∷ chunks) r h =
    stays-exceeded limit chunks (on_chunk limit r chunk)
      (elim (Bool-cases (ltb limit (r.received + length chunk))) [
        | inl over ↦ rw over refl
        | inr within ↦ rw within h
      ])

abbrev reading : Bytes → ℕ → Reading
reading kept received = record { kept = kept; received = received; exceeded = false }

reads-within :
    (limit : ℕ) (chunks : List Bytes) (kept : Bytes) (received : ℕ)
    → received + length (concat chunks) ≤ limit
    → ((read_chunks limit (reading kept received) chunks).exceeded ≡ false)
      × ((read_chunks limit (reading kept received) chunks).kept ≡ kept ++ concat chunks)
unfolding read_chunks
reads-within limit [] kept received h = (refl, sym (append-nil kept))
reads-within limit (chunk ∷ chunks) kept received h =
    let parts = length-append chunk (concat chunks) in
    let fits : ltb limit (received + length chunk) ≡ false = ground (arith, h, parts) in
    let rest =
      reads-within limit chunks (kept ++ chunk) (received + length chunk)
        (omega (arith, h, parts)) in
    rw (read_chunks, fits) (rest.0, rest.1 ∙ append_assoc kept chunk (concat chunks))

reads-over :
    (limit : ℕ) (chunks : List Bytes) (kept : Bytes) (received : ℕ)
    → received ≤ limit
    → limit < received + length (concat chunks)
    → (read_chunks limit (reading kept received) chunks).exceeded ≡ true
unfolding read_chunks
reads-over limit [] kept received fits h = ground (arith, fits, h)
reads-over limit (chunk ∷ chunks) kept received fits h =
    let parts = length-append chunk (concat chunks) in
    elim (Bool-cases (ltb limit (received + length chunk))) [
      | inl over ↦ rw (read_chunks, over) (stays-exceeded limit chunks _ refl)
      | inr within ↦
          rw (read_chunks, within)
            (reads-over limit chunks (kept ++ chunk) (received + length chunk)
              (ground (arith, within)) (omega (arith, h, parts)))
    ]

-- A message is read whole, however it is cut into chunks, if it fits the limit and the library has
-- not flagged it; else it is dropped whole.
pub read_message_exact :
    (limit : ℕ) (chunks : List Bytes) (flagged : Bool)
    → read_message limit chunks flagged
      ≡ (if ltb limit (length (concat chunks)) || flagged then none else some (concat chunks))
unfolding read_message
read_message_exact limit chunks flagged = elim (Bool-cases (ltb limit (length (concat chunks)))) [
  | inl over ↦
      let long = ltb→lt limit (length (concat chunks)) over in
      rw over (rw (reads-over limit chunks [] 0 (omega arith) (omega (arith, long))) refl)
  | inr within ↦
      let r = reads-within limit chunks [] 0 (ground (arith, within)) in
      rw within (rw (r.0) (rw (r.1) refl))
]

-- Text that stands for these bytes exactly, and is free of what is stripped.
pub record IsFaithful (lib : Decoders) (received : Bytes) (a : MimeHeaderAnalysis) (raw : Text)
    : Type 0 where
  pub analysis : analyze_raw_message lib received ≡ analyzed a
  pub exact : lib.encode_utf8 raw ≡ a.raw
  pub clean :
      analyze_raw_message lib (lib.encode_utf8 raw) ≡ analyzed (record a { stripped_headers = [] })
  pub body : (split_raw_message (lib.encode_utf8 raw)).body ≡ (split_raw_message received).body

to_utf8_string-exact :
    (lib : Decoders) (raw : Bytes) (decoded : Text)
    → to_utf8_string lib raw ≡ some decoded
    → lib.encode_utf8 decoded ≡ raw
unfolding to_utf8_string
to_utf8_string-exact lib raw decoded h =
    elim (Bool-cases (text_eq (lib.encode_utf8 (lib.decode_utf8 raw)) raw)) [
      | inl same ↦
          let own : lib.decode_utf8 raw ≡ decoded = cc (rw same at h) in
          ap lib.encode_utf8 (sym own)
          ∙ text_eq_sound (lib.encode_utf8 (lib.decode_utf8 raw)) raw same
      | inr differ ↦ cc (rw differ at h)
    ]

faithful :
    (lib : Decoders) (received : Bytes) (a : MimeHeaderAnalysis) (raw : Text)
    → analyze_raw_message lib received ≡ analyzed a
    → to_utf8_string lib a.raw ≡ some raw
    → IsFaithful lib received a raw
faithful lib received a raw analysis decoded =
    let exact = to_utf8_string-exact lib a.raw raw decoded in
    record {
      analysis = analysis;
      exact = exact;
      clean =
          ap (analyze_raw_message lib) exact ∙ analyze_raw_message_stable lib received a analysis;
      body =
          ap (λ (b : Bytes). (split_raw_message b).body) exact
          ∙ (analyze_raw_message-keeps lib received a analysis).1;
    }

pub answer_text : (ℕ → Text) → Answer (List SmtpRecipientOutcome) → Answer Text
answer_text show (done outcomes) = done (format_smtp_accepted_reply show outcomes)
answer_text show (replied reply) = replied reply
answer_text show (thrown error) = thrown error

finish :
    (show : ℕ → Text) (answer : Answer (List SmtpRecipientOutcome)) (s : RelayState)
    → next answer s (λ outcomes. give (format_smtp_accepted_reply show outcomes))
      ≡ (answer_text show answer, s)
unfolding answer_text
finish show (done outcomes) s = refl
finish show (replied reply) s = refl
finish show (thrown error) s = refl

analysis_of-some :
    (result : MimeHeaderResult) (a : MimeHeaderAnalysis)
    → analysis_of result ≡ some a
    → result ≡ analyzed a
analysis_of-some (refused reason) a h = cc
analysis_of-some (analyzed b) a h = cc

module _ (cfg : RelayConfig) (lib : Decoders) (show : ℕ → Text) (env : Env) (session : Session)
    (user : SmtpSessionUser) (recipients : List Recipient) (s : RelayState) where
  abbrev sent : MimeHeaderAnalysis → Text → Answer (List SmtpRecipientOutcome) × RelayState
  sent a raw = fan_out env session user (message_of session a raw) recipients s

  -- The branches of the handler.
  pub data DataOutcome : DataStream → Answer Text → RelayState → Type 0 where
    breaks : (error : Failure) → DataOutcome (broken error) (thrown error) s
    too_large :
        (chunks : List Bytes) (flagged : Bool)
        → (ltb (max_message_bytes cfg) (length (concat chunks)) || flagged) ≡ true
        → DataOutcome (ended chunks flagged) (replied reply_size_exceeded) s
    bad_headers :
        (chunks : List Bytes)
        → analysis_of (analyze_raw_message lib (concat chunks)) ≡ none
        → DataOutcome (ended chunks false) (replied reply_mime_invalid) s
    not_text :
        (chunks : List Bytes) (a : MimeHeaderAnalysis)
        → analyze_raw_message lib (concat chunks) ≡ analyzed a
        → to_utf8_string lib a.raw ≡ none
        → DataOutcome (ended chunks false) (replied reply_raw_not_utf8) s
    hands :
        (chunks : List Bytes) (a : MimeHeaderAnalysis) (raw : Text)
        → length (concat chunks) ≤ max_message_bytes cfg
        → IsFaithful lib (concat chunks) a raw
        → DataOutcome (ended chunks false) (answer_text show (sent a raw).0) (sent a raw).1

  -- The end of a message answers in one of five ways: the stream breaks; the message, whole, is
  -- longer than the limit or flagged as such; its headers are refused; it is no UTF-8; or it is
  -- handed to the recipients as text that encodes to the rewritten bytes exactly, has the body
  -- received, and no forbidden header left. In the first four nothing is written or counted.
  pub receive_data-DataOutcome :
      (stream : DataStream)
      → DataOutcome stream
          (receive_data cfg lib show env session user recipients stream s).0
          (receive_data cfg lib show env session user recipients stream s).1
  unfolding receive_data answer_text
  receive_data-DataOutcome (broken error) = breaks error
  receive_data-DataOutcome (ended chunks true) =
      let over : (ltb (max_message_bytes cfg) (length (concat chunks)) || true) ≡ true =
        ground arith in
      rw (read_message_exact (max_message_bytes cfg) chunks true)
        (rw over (too_large chunks true over))
  receive_data-DataOutcome (ended chunks false) =
      let limit = max_message_bytes cfg in
      let read = read_message_exact limit chunks false in
      elim (Bool-cases (ltb limit (length (concat chunks)) || false)) [
        | inl over ↦ rw read (rw over (too_large chunks false over))
        | inr within ↦
            let whole : read_message limit chunks false ≡ some (concat chunks) =
              rw within at read in
            let result = analyze_raw_message lib (concat chunks) in
            elim (Option-cases (analysis_of result)) [
              | inl bad ↦ rw whole (rw bad (bad_headers chunks bad))
              | inr (a, good) ↦
                  let analysis = analysis_of-some result a good in
                  elim (Option-cases (to_utf8_string lib a.raw)) [
                    | inl none_read ↦
                        rw whole (rw good (rw none_read (not_text chunks a analysis none_read)))
                    | inr (raw, decoded) ↦ rw whole (
                        rw good (
                          rw decoded (
                            subst
                              (λ (out : Answer Text × RelayState).
                                DataOutcome (ended chunks false) out.0 out.1)
                              (sym (finish show (sent a raw).0 (sent a raw).1))
                              (hands chunks a raw (ground (arith, within))
                                (faithful lib (concat chunks) a raw analysis decoded)))))
                  ]
            ]
      ]
