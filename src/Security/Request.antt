-- ===== src/Security/Request.antt =====
-- A request as the guards read it, and apps/api/src/common/auth/cookie.util.ts.
use eventory.Common.{
  ℕ, Option, none, some, List, [], ◌∷◌, nat_beq, if◌then◌else◌, ◌==◌, nat_eq, Text, text_eq,
  is_empty, trim, split,
}
use eventory.Errors.{internal, Result, ok, err}

pub record Request : Type 0 where
  pub method : Text
  -- `request.header(name)`, for a name in lower case
  pub header : Text → Option Text
  -- `request.cookies`, where a parser has run, and `request.headers.cookie`
  pub cookies : Option (Text → Option Text)
  pub raw_cookies : Option Text

-- A text that is there and not empty, as `if (value)` tests it.
abbrev pub given : Option Text → Option Text
given none = none
given (some s) = if is_empty s then none else some s

-- What is before the first `=` and after it, if there is one.
unfoldable pub cut_at : ℕ → Text → Option (Text × Text)
cut_at sep [] = none
cut_at sep (c ∷ s) =
    let rest = cut_at sep s in
    if nat_beq c sep
    then some ([], s)
    else elim rest [ none ↦ none | some (before, after) ↦ some (c ∷ before, after) ]

-- The loop over the parts; `decode` is `decodeURIComponent`, which throws where it gives nothing.
unfoldable pub find_cookie : (Text → Option Text) → Text → List Text → Result (Option Text)
find_cookie decode name [] = ok none
find_cookie decode name (part ∷ parts) =
    let rest = find_cookie decode name parts in
    elim (cut_at b'=' part) [
      | none ↦ rest
      | some (key, value) ↦
          if trim key == name
          then elim (decode (trim value)) [ none ↦ err internal | some v ↦ ok (some v) ]
          else rest
    ]

abbrev pub parsed_cookie : Request → Text → Option Text
parsed_cookie request name = elim request.cookies [
  | none ↦ none
  | some cookies ↦ given (cookies name)
]

unfoldable pub get_request_cookie : (Text → Option Text) → Request → Text → Result (Option Text)
get_request_cookie decode request name = elim (parsed_cookie request name) [
  | some value ↦ ok (some value)
  | none ↦ elim (given request.raw_cookies) [
    | none ↦ ok none
    | some raw ↦ find_cookie decode name (split b';' raw)
  ]
]
