-- ===== src/EmailAddress.antt =====
-- src/emails/email-address.ts: parsing, normalising and formatting addresses.
use zendou_backend.Common.{
  ℕ, ◌+◌, Bool, true, false, not, ◌&&◌, ◌||◌, Option, none, some, List, [], ◌∷◌, ◌++◌, ltb, leb,
  ◌==◌, if◌then◌else◌, length, all,
}
use zendou_backend.Text.{Text, is_blank, trim, to_lower_case, split_last, split}

abbrev pub email_address_max_length : ℕ
email_address_max_length = 254

abbrev pub local_part_max_length : ℕ
local_part_max_length = 64

abbrev pub domain_name_max_length : ℕ
domain_name_max_length = 253

abbrev pub display_name_max_length : ℕ
display_name_max_length = 128

pub record ParsedAddress : Type 0 where
  pub name : Option Text
  pub address : Text
  pub domain : Text

abbrev pub is_digit : ℕ → Bool
is_digit c = leb 48 c && leb c 57

abbrev pub is_lower : ℕ → Bool
is_lower c = leb 97 c && leb c 122

abbrev pub is_upper : ℕ → Bool
is_upper c = leb 65 c && leb c 90

-- One of !#$%&'*+/=?^_`{|}~-
unfoldable pub is_atom_mark : ℕ → Bool
is_atom_mark c =
    c == 33
    || (leb 35 c && leb c 39)
    || c == 42
    || c == 43
    || c == 45
    || c == 47
    || c == 61
    || c == 63
    || (leb 94 c && leb c 96)
    || (leb 123 c && leb c 126)

-- [a-z0-9!#$%&'*+/=?^_`{|}~-] with the flag `i`
unfoldable pub is_atom : ℕ → Bool
is_atom c = is_lower c || is_upper c || is_digit c || is_atom_mark c

abbrev is_atom_part : Text → Bool
is_atom_part s = not (is_blank s) && all is_atom s

-- LOCAL_PART_REGEX: the parts between the dots are not empty and hold atom characters.
unfoldable pub matches_local_part : Text → Bool
unfolding is_atom is_atom_mark
matches_local_part s =
    let (first, others) = split b'.' s in is_atom_part first && all is_atom_part others

abbrev is_alnum : ℕ → Bool
is_alnum c = is_lower c || is_digit c

-- A label's last character, read from the others: `[a-z0-9-]{0,61}[a-z0-9]`, or nothing at all.
label_tail : Text → Bool
label_tail [] = true
label_tail (c ∷ []) = is_alnum c
label_tail (c ∷ d ∷ s) = (is_alnum c || c == b'-') && label_tail (d ∷ s)

-- `[a-z0-9](?:[a-z0-9-]{0,61}[a-z0-9])?`
is_label : Text → Bool
is_label [] = false
is_label (c ∷ s) = is_alnum c && leb (length s) 62 && label_tail s

-- `[a-z]{2,63}`
abbrev is_tld : Text → Bool
is_tld s = leb 2 (length s) && leb (length s) 63 && all is_lower s

-- Labels, the last one a top-level domain.
are_labels : Text → List Text → Bool
are_labels s [] = is_tld s
are_labels s (t ∷ ts) = is_label s && are_labels t ts

-- DOMAIN_NAME_REGEX; at least one dot.
unfoldable pub matches_domain_name : Text → Bool
unfolding is_label label_tail are_labels
matches_domain_name s = elim (split b'.' s).1 [
  | [] ↦ false
  | t ∷ ts ↦ is_label (split b'.' s).0 && are_labels t ts
]

-- The checks of `normalizeEmailAddress` on the two sides of the last "@".
check_parts : Text → Text → Option Text
check_parts local raw_domain =
    let domain = to_lower_case raw_domain in
    if is_blank local || is_blank raw_domain
    then none
    else if ltb local_part_max_length (length local) || not (matches_local_part local)
    then none
    else if ltb domain_name_max_length (length domain) || not (matches_domain_name domain)
    then none
    else some (to_lower_case local ++ b'@' ∷ domain)

abbrev check_split : Option (Text × Text) → Option Text
check_split none = none
check_split (some (local, domain)) = check_parts local domain

unfoldable pub normalize_email_address : Text → Option Text
unfolding check_parts
normalize_email_address raw =
    let trimmed = trim raw in
    if is_blank trimmed || ltb email_address_max_length (length trimmed)
    then none
    else check_split (split_last b'@' trimmed)

-- A unit that `.` does not match.
abbrev is_line_terminator : ℕ → Bool
is_line_terminator c = c == 10 || c == 13 || c == 0x2028 || c == 0x2029

-- The text before a final ">", if it ends so.
unfoldable pub before_closing : Text → Option Text
before_closing [] = none
before_closing (c ∷ []) = if c == b'>' then some [] else none
before_closing (c ∷ d ∷ s) = elim (before_closing (d ∷ s)) [ none ↦ none | some t ↦ some (c ∷ t) ]

-- NAMED_ADDRESS_REGEX `^(.*?)<([^<>]*)>$`: the second group holds no "<", so the "<" before it is
-- the last one of the text; the two groups.
abbrev check_groups : Option (Text × Text) → Option (Text × Text)
check_groups none = none
check_groups (some (name, inner)) =
    if all (λ c. not (is_line_terminator c)) name && all (λ c. not (c == b'>')) inner
    then some (name, inner)
    else none

abbrev split_named : Option Text → Option (Text × Text)
split_named none = none
split_named (some body) = check_groups (split_last b'<' body)

unfoldable pub match_named_address : Text → Option (Text × Text)
unfolding before_closing
match_named_address s = split_named (before_closing s)

-- `replace(/\\(.)/g, '$1')`
unfoldable pub unescape : Text → Text
unescape [] = []
unescape (c ∷ []) = c ∷ []
unescape (c ∷ d ∷ s) =
    let rest = unescape (d ∷ s) in
    let after = d ∷ unescape s in if c == 92 && not (is_line_terminator d) then after else c ∷ rest

-- The inside of a quoted name.
abbrev strip_quotes : Text → Text → Text
strip_quotes name s = elim (split_last 34 s) [ some (inner, []) ↦ trim (unescape inner) | _ ↦ name ]

unquote_display_name : Text → Text
unfolding unescape
unquote_display_name [] = []
unquote_display_name (c ∷ s) = if c == 34 then strip_quotes (c ∷ s) s else c ∷ s

-- `address.slice(address.lastIndexOf('@') + 1)`: the whole text where there is no "@".
abbrev pub domain_of : Text → Text
domain_of address = elim (split_last b'@' address) [ some (_, domain) ↦ domain | none ↦ address ]

abbrev with_name : Text → Text → ParsedAddress
with_name name address = record {
  name = (if is_blank name then none else some name);
  address = address;
  domain = domain_of address;
}

abbrev named_result : Option Text → Text → Option ParsedAddress
named_result none name = none
named_result (some address) name = some (with_name (unquote_display_name (trim name)) address)

abbrev bare_result : Option Text → Option ParsedAddress
bare_result none = none
bare_result (some address) = some (with_name [] address)

unfoldable pub parse_email_address : Text → Option ParsedAddress
unfolding unquote_display_name
parse_email_address raw =
    let trimmed = trim raw in
    if is_blank trimmed then none else elim (match_named_address trimmed) [
      | some (name, inner) ↦ named_result (normalize_email_address inner) name
      | none ↦ bare_result (normalize_email_address trimmed)
    ]

-- NAME_NEEDS_QUOTES_REGEX: one of "(),:;<>@[\]
unfoldable pub needs_quotes : ℕ → Bool
needs_quotes c =
    c == 34
    || c == 40
    || c == 41
    || c == 44
    || c == 58
    || c == 59
    || c == 60
    || c == 62
    || c == 64
    || c == 91
    || c == 92
    || c == 93

-- `replace(/(["\\])/g, '\\$1')`
unfoldable pub escape : Text → Text
escape [] = []
escape (c ∷ s) = let rest = escape s in if c == 34 || c == 92 then 92 ∷ c ∷ rest else c ∷ rest

abbrev quote_if_needed : Text → Text
quote_if_needed name =
    if all (λ c. not (needs_quotes c)) name then name else 34 ∷ (escape name ++ 34 ∷ [])

unfoldable pub format_email_address : ParsedAddress → Text
unfolding escape needs_quotes
format_email_address parsed = elim parsed.name [
  | none ↦ parsed.address
  | some name ↦
      if is_blank name
      then parsed.address
      else quote_if_needed name ++ (32 ∷ 60 ∷ (parsed.address ++ 62 ∷ []))
]

-- `Array.from(s).length`: code points, a surrogate pair being one.
code_points : Text → ℕ
code_points [] = 0
code_points (c ∷ []) = 1
code_points (c ∷ d ∷ s) =
    let pair = code_points s + 1 in
    let single = code_points (d ∷ s) + 1 in
    if (leb 0xD800 c && leb c 0xDBFF) && (leb 0xDC00 d && leb d 0xDFFF) then pair else single

unfoldable pub has_oversized_display_name : ParsedAddress → Bool
unfolding code_points
has_oversized_display_name parsed = elim parsed.name [
  | none ↦ false
  | some name ↦ ltb display_name_max_length (code_points name)
]
