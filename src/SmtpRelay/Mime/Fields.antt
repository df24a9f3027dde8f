-- ===== src/SmtpRelay/Mime/Fields.antt =====
-- The result of an analysis, from its fields and from those that are kept.
use zendou_backend.Common.{
  ◌≡◌, refl, sym, ap, ◌∙◌, ◌⊎◌, inl, inr, false, Option, none, some, List, [], ◌∷◌, ◌++◌, arith,
  Bool-cases, find,
}
use mathlib.Core.Path.{subst}
use zendou_backend.Common.Slices.{filter}
use zendou_backend.Text.{Text, text, text_eq, starts_with}
use zendou_backend.Text.Laws.{text_eq_sound}
use zendou_backend.SmtpRelay.Mime.{
  Bytes, Decoders, RawMessageParts, MimeHeaderField, is_stripped_header, read_value, read_values,
  is_kept, kept_bytes, stripped_names,
}
use zendou_backend.SmtpRelay.Mime.Analysis.{
  MimeHeaderAnalysis, MimeHeaderResult, MimeRefusalReason, analyzed, refused, with_from,
  with_reply_to, has_key, from_of, FromHeader, no_from, one_from, bad_from, reply_to_of, subject_of,
  analyze_fields,
}
use zendou_backend.EmailAddress.{ParsedAddress}

-- The result from its parts.
core : FromHeader → Option (Option (List Text)) → Option Text → Bytes → List Text → MimeHeaderResult
core (bad_from reason) reply_to subject raw names = refused reason
core no_from none subject raw names = refused MimeRefusalReason.multiple_reply_to
core no_from (some boxes) subject raw names = analyzed (record {
  from = none;
  reply_to = boxes;
  subject = subject;
  raw = raw;
  stripped_headers = names;
})
core (one_from p) none subject raw names = refused MimeRefusalReason.multiple_reply_to
core (one_from p) (some boxes) subject raw names = analyzed (record {
  from = some p;
  reply_to = boxes;
  subject = subject;
  raw = raw;
  stripped_headers = names;
})

-- The same result with no name of a stripped header, and its bytes.
pub record Restripped (result : MimeHeaderResult) (raw : Bytes) (names : List Text)
    (a : MimeHeaderAnalysis) : Type 0 where
  pub stripped : a.stripped_headers ≡ names
  pub again : result ≡ analyzed (record a { stripped_headers = [] })
  pub bytes : a.raw ≡ raw

analyzed-Restripped :
    (a a' : MimeHeaderAnalysis)
    → analyzed a' ≡ analyzed a
    → Restripped (analyzed (record a' { stripped_headers = [] })) a'.raw a'.stripped_headers a
analyzed-Restripped a a' h =
    let same : a' ≡ a = cc in
    subst
      (λ (x : MimeHeaderAnalysis).
        Restripped (analyzed (record a' { stripped_headers = [] })) a'.raw a'.stripped_headers x)
      same (record { stripped = refl; again = refl; bytes = refl })

core-Restripped :
    (f : FromHeader) (r : Option (Option (List Text))) (s : Option Text) (raw : Bytes)
    (names : List Text) (a : MimeHeaderAnalysis)
    → core f r s raw names ≡ analyzed a
    → Restripped (core f r s raw []) raw names a
unfolding core
core-Restripped (bad_from reason) r s raw names a h = cc
core-Restripped no_from none s raw names a h = cc
core-Restripped no_from (some boxes) s raw names a h = analyzed-Restripped a _ h
core-Restripped (one_from p) none s raw names a h = cc
core-Restripped (one_from p) (some boxes) s raw names a h = analyzed-Restripped a _ h

with_reply_to-core :
    (lib : Decoders) (parts : RawMessageParts) (fs : List MimeHeaderField) (f : FromHeader)
    (from : Option ParsedAddress) (r : Option (Option (List Text)))
    → (f ≡ no_from) × (from ≡ none) ⊎ ((p : ParsedAddress) × (f ≡ one_from p) × (from ≡ some p))
    → with_reply_to lib parts fs from r
      ≡ core f r
          (subject_of lib (find (has_key (text "subject")) fs))
          (kept_bytes fs ++ (parts.separator ++ parts.body))
          (stripped_names fs)
unfolding core
with_reply_to-core lib parts fs f from none (inl (e, e')) = rw e refl
with_reply_to-core lib parts fs f from none (inr (p, e, e')) = rw e refl
with_reply_to-core lib parts fs f from (some boxes) (inl (e, e')) = rw (e, e') refl
with_reply_to-core lib parts fs f from (some boxes) (inr (p, e, e')) = rw (e, e') refl

with_from-core :
    (lib : Decoders) (parts : RawMessageParts) (fs : List MimeHeaderField) (f : FromHeader)
    → with_from lib parts fs f
      ≡ core f
          (reply_to_of (filter (has_key (text "reply-to")) fs))
          (subject_of lib (find (has_key (text "subject")) fs))
          (kept_bytes fs ++ (parts.separator ++ parts.body))
          (stripped_names fs)
unfolding core
with_from-core lib parts fs (bad_from reason) = refl
with_from-core lib parts fs no_from =
    with_reply_to-core lib parts fs no_from none _ (inl (refl, refl))
with_from-core lib parts fs (one_from p) =
    with_reply_to-core lib parts fs (one_from p) (some p) _ (inr (p, refl, refl))

analyze_fields-core :
    (lib : Decoders) (parts : RawMessageParts) (fs : List MimeHeaderField)
    → analyze_fields lib parts fs
      ≡ core
          (from_of lib (filter (has_key (text "from")) fs))
          (reply_to_of (filter (has_key (text "reply-to")) fs))
          (subject_of lib (find (has_key (text "subject")) fs))
          (kept_bytes fs ++ (parts.separator ++ parts.body))
          (stripped_names fs)
analyze_fields-core lib parts fs = with_from-core lib parts fs _

module _ (key : Text) (safe : is_stripped_header key ≡ false) where
  -- A field that goes has another key.
  other : (f : MimeHeaderField) → is_kept f ≡ false → has_key key f ≡ false
  other f gone = elim (Bool-cases (has_key key f)) [
    | inr differ ↦ differ
    | inl same ↦
        let own : is_stripped_header f.key ≡ false =
          ap is_stripped_header (text_eq_sound f.key key same) ∙ safe in
        cc (rw own at gone)
  ]

  filter-kept :
      (fs : List MimeHeaderField)
      → filter (has_key key) (filter is_kept fs) ≡ filter (has_key key) fs
  filter-kept [] = refl
  filter-kept (f ∷ fs) = elim (Bool-cases (is_kept f)) [
    | inl kept ↦ rw kept (ground (arith, filter-kept fs))
    | inr gone ↦ rw gone (rw (other f gone) (filter-kept fs))
  ]

  find-kept :
      (fs : List MimeHeaderField) → find (has_key key) (filter is_kept fs) ≡ find (has_key key) fs
  find-kept [] = refl
  find-kept (f ∷ fs) = elim (Bool-cases (is_kept f)) [
    | inl kept ↦ rw kept (ground (arith, find-kept fs))
    | inr gone ↦ rw gone (rw (other f gone) (find-kept fs))
  ]

read_fields_kept :
    (is_stripped_header (text "from") ≡ false)
    × (is_stripped_header (text "reply-to") ≡ false)
    × (is_stripped_header (text "subject") ≡ false)
unfolding is_stripped_header text_eq starts_with
read_fields_kept = (refl, refl, refl)

kept-again : (fs : List MimeHeaderField) → kept_bytes (filter is_kept fs) ≡ kept_bytes fs
kept-again [] = refl
kept-again (f ∷ fs) = elim (Bool-cases (is_stripped_header f.key)) [
  | inl gone ↦ rw gone (kept-again fs)
  | inr kept ↦ rw kept (rw kept (ap (λ (b : Bytes). f.bytes ++ b) (kept-again fs)))
]

none_stripped : (fs : List MimeHeaderField) → stripped_names (filter is_kept fs) ≡ []
none_stripped [] = refl
none_stripped (f ∷ fs) = elim (Bool-cases (is_stripped_header f.key)) [
  | inl gone ↦ rw gone (none_stripped fs)
  | inr kept ↦ rw kept (rw kept (none_stripped fs))
]

module _ (lib : Decoders) where
  pub read_values-filter :
      (fs : List MimeHeaderField)
      → read_values lib (filter is_kept fs) ≡ filter is_kept (read_values lib fs)
  read_values-filter [] = refl
  read_values-filter (f ∷ fs) = elim (Bool-cases (is_stripped_header f.key)) [
    | inl gone ↦ rw gone (read_values-filter fs)
    | inr kept ↦
        rw kept (ap (λ (gs : List MimeHeaderField). read_value lib f ∷ gs) (read_values-filter fs))
  ]

  pub kept-read : (fs : List MimeHeaderField) → kept_bytes (read_values lib fs) ≡ kept_bytes fs
  kept-read [] = refl
  kept-read (f ∷ fs) = elim (Bool-cases (is_stripped_header f.key)) [
    | inl gone ↦ rw gone (kept-read fs)
    | inr kept ↦ rw kept (ap (λ (b : Bytes). f.bytes ++ b) (kept-read fs))
  ]

  -- The fields kept give the same result, with nothing more to strip.
  pub fields-Restripped :
      (parts : RawMessageParts) (headers : Bytes) (fs : List MimeHeaderField)
      (a : MimeHeaderAnalysis)
      → analyze_fields lib parts fs ≡ analyzed a
      → Restripped
          (analyze_fields lib (record parts { headers = headers }) (filter is_kept fs))
          (kept_bytes fs ++ (parts.separator ++ parts.body))
          (stripped_names fs)
          a
  fields-Restripped parts headers fs a h =
      let r = core-Restripped _ _ _ _ _ a (sym (analyze_fields-core lib parts fs) ∙ h) in
      record {
        again =
            analyze_fields-core lib (record parts { headers = headers }) (filter is_kept fs)
            ∙ cc (
              filter-kept (text "from") read_fields_kept.0 fs,
              filter-kept (text "reply-to") read_fields_kept.1 fs,
              find-kept (text "subject") read_fields_kept.2 fs,
              kept-again fs,
              none_stripped fs,
            )
            ∙ r.again;
        stripped = r.stripped;
        bytes = r.bytes;
      }
