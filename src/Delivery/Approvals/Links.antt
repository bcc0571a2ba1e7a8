-- ===== src/Delivery/Approvals/Links.antt =====
-- packages/delivery/src/file-delivery-store.ts, `safeToolResultUrl`: which link of a tool's result is
-- kept. `URL` is not part of the repository and stands as the parameter `Urls`.
pub mod Secrets
use maxtag.Base.{
  ℕ, ◌+◌, Bool, true, false, ◌&&◌, ◌||◌, not, Text, text, text_eq, List, [], ◌∷◌, map, Option, none,
  some, leb, ltb, ◌==◌, if◌then◌else◌, any, length, is_empty, trim, strip_prefix,
}

-- What `new URL(text)` gives.
pub record Url : Type 0 where
  pub protocol : Text
  pub username : Text
  pub password : Text
  pub parameter_names : List Text
  -- `toString`
  pub href : Text

abbrev pub Urls : Type 0
Urls = Text → Option Url

-- Simple case folding as far as it reaches the letters of the pattern: /iu also folds the long s and
-- the Kelvin sign.
unfoldable pub fold : ℕ → ℕ
fold c =
    if leb b'A' c && leb c b'Z'
    then c + 32
    else if c == 0x17f
    then b's'
    else if c == 0x212a
    then b'k'
    else c

unfoldable pub secret_words : List Text
secret_words =
    text "token"
    ∷ text "secret"
    ∷ text "password"
    ∷ text "credential"
    ∷ text "signature"
    ∷ text "apikey"
    ∷ text "api_key"
    ∷ text "api-key"
    ∷ text "auth"
    ∷ []

-- `$` or a separator.
pub ends_word : Text → Bool
ends_word [] = true
ends_word (c ∷ t) = c == b'_' || c == b'-'

pub starts_with_word : Text → Text → Bool
unfolding ends_word
starts_with_word t word = elim (strip_prefix word t) [ none ↦ false | some rest ↦ ends_word rest ]

-- The pattern at the start of the text or behind a separator.
pub matches_from : Bool → Text → Bool
unfolding starts_with_word secret_words
matches_from at_word [] = false
matches_from at_word (c ∷ t) =
    at_word && any (starts_with_word (c ∷ t)) secret_words
    || matches_from (c == b'_' || c == b'-') t

unfoldable pub names_secret : Text → Bool
unfolding matches_from fold
names_secret key = matches_from true (map fold key)

-- The checks on a link that has been read.
abbrev pub is_unsafe : Url → Bool
is_unsafe url =
    not (text_eq url.protocol (text "https:"))
    || not (is_empty url.username)
    || not (is_empty url.password)
    || any names_secret url.parameter_names

pub checked_url : Option Url → Option Text
checked_url none = none
checked_url (some url) = if is_unsafe url then none else some url.href

unfoldable pub safe_tool_result_url : Urls → Option Text → Option Text
unfolding checked_url
safe_tool_result_url urls none = none
safe_tool_result_url urls (some value) =
    let candidate = trim value in
    if is_empty candidate || ltb 2_048 (length candidate)
    then none
    else checked_url (urls candidate)
