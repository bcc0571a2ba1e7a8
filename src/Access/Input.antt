-- ===== src/Access/Input.antt =====
-- How the access store reads its input.
use maxtag.Base.{
  ◌≡◌, refl, false, Text, text, [], ◌∷◌, ◌++◌, none, ok, arith, trim, is_empty, strip_prefix,
  strip_prefix-append,
}
use maxtag.Access.Types.{required, project_key}

is_empty-middle : (s t : Text) → is_empty (s ++ text ":" ++ t) ≡ false
unfolding text
is_empty-middle [] t = refl
is_empty-middle (c ∷ s) t = refl

-- A project is named by its key or by its key behind the workspace and a colon, where the texts have no
-- blank at their ends and the key itself does not begin with the workspace and a colon.
pub project_key-prefix :
    (w p : Text)
    → trim (w ++ text ":" ++ p) ≡ w ++ text ":" ++ p
    → trim p ≡ p
    → is_empty p ≡ false
    → strip_prefix (w ++ text ":") p ≡ none
    → (project_key w (w ++ text ":" ++ p) ≡ ok p) × (project_key w p ≡ ok p)
unfolding project_key required
project_key-prefix w p whole key filled bare = (
  ground (arith, whole, is_empty-middle w p, strip_prefix-append (w ++ text ":") p),
  ground (arith, key, filled, bare),
)
