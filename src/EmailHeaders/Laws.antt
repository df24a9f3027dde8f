-- ===== src/EmailHeaders/Laws.antt =====
-- What an accepted set of headers looks like.
use zendou_backend.Common.{
  ◌+◌, ◌≤◌, ◌≡◌, true, false, Option, none, some, List, [], ◌∷◌, arith, length, All,
}
use zendou_backend.Text.{Text, to_lower_case}
use zendou_backend.EmailHeaders.{
  HeaderError, HeaderValue, string, other, is_header_name, is_header_value, is_allowed_name,
  contains, value_error, name_error, or_else, check_entries, validate_custom_headers,
}

-- One header that SES can be handed: printable ASCII, within its limits, and on the white list.
pub record IsSafeHeader (name : Text) (value : Text) : Type 0 where
  pub name_printable : is_header_name name ≡ true
  pub name_bounded : length name ≤ 126
  pub allowed : is_allowed_name (to_lower_case name) ≡ true
  pub value_printable : is_header_value value ≡ true
  pub value_bounded : length value ≤ 995
  pub total_bounded : length name + length value ≤ 996

abbrev pub IsSafeEntry : Text × HeaderValue → Type 0
IsSafeEntry (name, string value) = IsSafeHeader name value
IsSafeEntry (name, other) = ⊥

-- No name in lower case is in `seen`, or twice in the entries.
abbrev pub HasDistinctNames : List Text → List (Text × HeaderValue) → Type 0
HasDistinctNames seen [] = Unit
HasDistinctNames seen ((name, _) ∷ entries) =
    (contains seen (to_lower_case name) ≡ false)
    × HasDistinctNames (to_lower_case name ∷ seen) entries

or_else-none : (a b : Option HeaderError) → or_else a b ≡ none → (a ≡ none) × (b ≡ none)
unfolding or_else
or_else-none a b h = ground arith

name_error-none :
    (seen : List Text) (name : Text)
    → name_error seen name ≡ none
    → (is_header_name name ≡ true)
      × (length name ≤ 126)
      × (is_allowed_name (to_lower_case name) ≡ true)
      × (contains seen (to_lower_case name) ≡ false)
unfolding name_error
name_error-none seen name h = ground arith

value_error-none :
    (name value : Text)
    → value_error name (string value) ≡ none
    → (is_header_value value ≡ true) × (length value ≤ 995) × (length name + length value ≤ 996)
unfolding value_error
value_error-none name value h = ground arith

entry-IsSafe :
    (seen : List Text) (name : Text) (value : HeaderValue)
    → name_error seen name ≡ none
    → value_error name value ≡ none
    → IsSafeEntry (name, value)
entry-IsSafe seen name (string value) h k =
    let (printable, bounded, allowed, _) = name_error-none seen name h in
    let (v_printable, v_bounded, total) = value_error-none name value k in
    record {
      name_printable = printable;
      name_bounded = bounded;
      allowed = allowed;
      value_printable = v_printable;
      value_bounded = v_bounded;
      total_bounded = total;
    }
entry-IsSafe seen name other h k = unfold value_error in cc

check_entries-IsSafe :
    (seen : List Text) (entries : List (Text × HeaderValue))
    → check_entries seen entries ≡ none
    → All IsSafeEntry entries × HasDistinctNames seen entries
unfolding check_entries
check_entries-IsSafe seen [] h = (tt, tt)
check_entries-IsSafe seen ((name, value) ∷ entries) h =
    let (name_fine, rest) = or_else-none _ _ h in
    let (value_fine, later) = or_else-none _ _ rest in
    let (safe, distinct) = check_entries-IsSafe (to_lower_case name ∷ seen) entries later in
    let (_, _, _, fresh) = name_error-none seen name name_fine in
    ((entry-IsSafe seen name value name_fine value_fine, safe), (fresh, distinct))

-- Headers that `validateCustomHeaders` accepts number at most 20; each is printable ASCII without a
-- line break, within the limits of SES and on the white list; no two names agree in lower case.
pub validate_custom_headers_sound :
    (entries : List (Text × HeaderValue))
    → validate_custom_headers (some entries) ≡ none
    → (length entries ≤ 20) × All IsSafeEntry entries × HasDistinctNames [] entries
unfolding validate_custom_headers
validate_custom_headers_sound entries h =
    let (safe, distinct) = check_entries-IsSafe [] entries (ground arith) in
    (ground arith, safe, distinct)
