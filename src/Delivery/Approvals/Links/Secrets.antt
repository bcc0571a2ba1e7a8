-- ===== src/Delivery/Approvals/Links/Secrets.antt =====
-- Links of a result that carry a secret in a parameter.
use maxtag.Base.{
  ℕ, ◌≡◌, refl, ap, ◌∙◌, inl, inr, Bool, true, false, ◌&&◌, ◌||◌, Text, text, List, [], ◌∷◌, ◌++◌,
  map, none, some, ltb, ◌==◌, any, any-false, length, is_empty, trim, strip_prefix-append,
  Bool-cases, All, All-mem, Memᴰ, arith,
}
use maxtag.Delivery.Approvals.Links.{
  Url, Urls, fold, secret_words, ends_word, starts_with_word, matches_from, names_secret,
  checked_url, safe_tool_result_url,
}

-- `_` or `-`
abbrev is_separator : ℕ → Bool
is_separator c = c == b'_' || c == b'-'

-- Whether a word may begin after the text: it is empty and one may begin in front, or it ends with a
-- separator.
abbrev pub may_begin : Bool → Text → Bool
may_begin at [] = at
may_begin at (c ∷ t) = may_begin (is_separator c) t

-- Whether a word may end before the text: it is empty or begins with a separator.
abbrev pub may_end : Text → Bool
may_end [] = true
may_end (c ∷ t) = is_separator c

any-mem {ℓ} :
    {A : Type ℓ} (t : A → Bool) (xs : List A) {a : A} → Memᴰ a xs → t a ≡ true → any t xs ≡ true
any-mem t xs {a} m h = elim (Bool-cases (any t xs)) [
  | inl hit ↦ hit
  | inr miss ↦ cc (any-false t xs miss m, h)
]

starts-append : (w rest : Text) → may_end rest ≡ true → starts_with_word (w ++ rest) w ≡ true
unfolding starts_with_word ends_word
starts-append w [] h = rw (starts_with_word, strip_prefix-append w []) refl
starts-append w (c ∷ rest) h = rw (starts_with_word, strip_prefix-append w (c ∷ rest)) h

words-filled : All (λ w. is_empty w ≡ false) secret_words
unfolding secret_words text
words-filled = (refl, (refl, (refl, (refl, (refl, (refl, (refl, (refl, (refl, tt)))))))))

-- The pattern finds a secret word that stands between separators or ends.
matches-word :
    (at : Bool) (front w rest : Text)
    → Memᴰ w secret_words
    → may_begin at front ≡ true
    → may_end rest ≡ true
    → matches_from at (front ++ (w ++ rest)) ≡ true
unfolding matches_from
matches-word at [] [] rest m begins ends =
    let filled : is_empty {A = ℕ} [] ≡ false =
      All-mem (λ w. is_empty w ≡ false) secret_words words-filled m in
    cc filled
matches-word at [] (c ∷ w) rest m begins ends =
    let starts =
      any-mem (starts_with_word (c ∷ w ++ rest)) secret_words m (starts-append (c ∷ w) rest ends) in
    rw (begins, starts) refl
matches-word at (c ∷ front) w rest m begins ends =
    let later = matches-word (is_separator c) front w rest m begins ends in
    elim (Bool-cases (at && any (starts_with_word (c ∷ front ++ (w ++ rest))) secret_words)) [
      | inl here ↦ rw here refl
      | inr miss ↦ rw (miss, later) refl
    ]

-- No link is kept that has a parameter whose name, in small letters, has one of the secret words between
-- separators or its ends.
pub safe_tool_result_url-refuses :
    (urls : Urls) (value : Text) (url : Url) (name front w rest : Text)
    → urls (trim value) ≡ some url
    → Memᴰ name url.parameter_names
    → map fold name ≡ front ++ (w ++ rest)
    → Memᴰ w secret_words
    → may_begin true front ≡ true
    → may_end rest ≡ true
    → safe_tool_result_url urls (some value) ≡ none
unfolding safe_tool_result_url names_secret checked_url
safe_tool_result_url-refuses urls value url name front w rest reads has parts m begins ends =
    let found : names_secret name ≡ true =
      ap (matches_from true) parts ∙ matches-word true front w rest m begins ends in
    let unsafe = any-mem names_secret url.parameter_names has found in
    elim (Bool-cases (is_empty (trim value) || ltb 2_048 (length (trim value)))) [
      | inl refused ↦ rw refused refl
      | inr taken ↦ rw (taken, reads) (ground (arith, unsafe))
    ]
