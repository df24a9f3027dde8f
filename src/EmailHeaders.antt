-- ===== src/EmailHeaders.antt =====
-- src/emails/email-headers.ts: which custom headers an API send may carry.
pub mod Laws
use zendou_backend.Common.{
  ℕ, ◌+◌, Bool, true, false, not, ◌&&◌, ◌||◌, Option, none, some, List, [], ◌∷◌, ltb, leb, ◌==◌,
  if◌then◌else◌, length, all,
}
use zendou_backend.Text.{Text, text, text_eq, is_blank, trim, to_lower_case, starts_with}

abbrev pub max_custom_headers : ℕ
max_custom_headers = 20

abbrev pub max_header_value_length : ℕ
max_header_value_length = 995

abbrev pub max_header_name_length : ℕ
max_header_name_length = 126

abbrev pub max_header_total_length : ℕ
max_header_total_length = 996

-- The message that is returned names one of these.
pub data HeaderError : Type 0 where
  not_an_object too_many name_invalid name_too_long name_forbidden duplicate value_invalid
        too_long :
      HeaderError

-- The value of a property: a string, or anything else.
pub data HeaderValue : Type 0 where
  string : Text → HeaderValue
  other : HeaderValue

-- HEADER_NAME_PATTERN `^[\x21-\x39\x3B-\x7E]+$`
abbrev pub is_header_name : Text → Bool
is_header_name s = not (is_blank s) && all (λ c. leb 0x21 c && leb c 0x7E && not (c == 0x3A)) s

-- HEADER_VALUE_PATTERN `^[\x20-\x7E]+$`
abbrev pub is_header_value : Text → Bool
is_header_value s = not (is_blank s) && all (λ c. leb 0x20 c && leb c 0x7E) s

-- In ALLOWED_HEADER_NAMES, or a name of the form `x-*` that is not reserved for SES.
unfoldable pub is_allowed_name : Text → Bool
is_allowed_name lower =
    text_eq lower (text "list-unsubscribe")
    || text_eq lower (text "list-unsubscribe-post")
    || (starts_with lower (text "x-")
        && ltb 2 (length lower)
        && not (starts_with lower (text "x-ses-")))

unfoldable pub contains : List Text → Text → Bool
contains [] s = false
contains (t ∷ ts) s = text_eq t s || contains ts s

value_error : Text → HeaderValue → Option HeaderError
value_error name other = some value_invalid
value_error name (string value) =
    if is_blank (trim value)
      || ltb max_header_value_length (length value)
      || not (is_header_value value)
    then some value_invalid
    else if ltb max_header_total_length (length name + length value)
    then some too_long
    else none

name_error : List Text → Text → Option HeaderError
name_error seen name =
    if not (is_header_name name)
    then some name_invalid
    else if ltb max_header_name_length (length name)
    then some name_too_long
    else if not (is_allowed_name (to_lower_case name))
    then some name_forbidden
    else if contains seen (to_lower_case name)
    then some duplicate
    else none

or_else : Option HeaderError → Option HeaderError → Option HeaderError
or_else none next = next
or_else (some e) next = some e

-- The loop over the entries; `seen` is the set of names in lower case.
check_entries : List Text → List (Text × HeaderValue) → Option HeaderError
check_entries seen [] = none
check_entries seen ((name, value) ∷ entries) =
    or_else (name_error seen name)
      (or_else (value_error name value) (check_entries (to_lower_case name ∷ seen) entries))

-- The entries of an object; `none` is a value that is no object.
unfoldable pub validate_custom_headers : Option (List (Text × HeaderValue)) → Option HeaderError
unfolding check_entries name_error value_error or_else
validate_custom_headers none = some not_an_object
validate_custom_headers (some entries) =
    if ltb max_custom_headers (length entries) then some too_many else check_entries [] entries
