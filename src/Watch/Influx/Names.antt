-- ===== src/Watch/Influx/Names.antt =====
-- The names of samples, and their identifiers.
use Prim.Native.Char.{Char, code}
use Prim.Native.String.{String}
use Prim.Native.String.{◌++◌ as ◌<>◌}
use metrika_agent.Prelude.{◌≡◌, refl, ◌∙◌, Bool, true, false, [], ◌∷◌, if◌then◌else◌, if-branches}
use metrika_agent.Prelude.Outcome.{Yields, yields, Yields-branch}
use metrika_agent.Watch.Influx.{
  is_valid, is_digit, underscore, replace_each, prefixed, replace_invalid_chars, join, text_leb,
  sort_labels, sample_id,
}

-- Every character is a letter, a digit or an underscore.
abbrev pub AllValid : String → Type 0
AllValid String.[] = Unit
AllValid (String.◌∷◌ c s) = (is_valid (code c) ≡ true) × AllValid s

-- A name that begins with no digit.
abbrev pub IsName : String → Type 0
IsName String.[] = ⊥
IsName (String.◌∷◌ c s) = (is_digit (code c) ≡ false) × AllValid (String.◌∷◌ c s)

abbrev pub not_empty : String → Bool
not_empty String.[] = false
not_empty (String.◌∷◌ c s) = true

underscore-valid : (is_valid (code underscore) ≡ true) × (is_digit (code underscore) ≡ false)
unfolding is_valid is_digit
underscore-valid = (refl, refl)

valid_or : (c : Char) → is_valid (code (if is_valid (code c) then c else underscore)) ≡ true
valid_or c =
    if-branches (λ x. is_valid (code x) ≡ true) (is_valid (code c)) (λ h. h)
      (λ _. underscore-valid.0)

replace_each-AllValid : (s : String) → AllValid (replace_each s)
unfolding replace_each
replace_each-AllValid String.[] = tt
replace_each-AllValid (String.◌∷◌ c s) = (valid_or c, replace_each-AllValid s)

prefixed-IsName : (s : String) → not_empty s ≡ true → AllValid s → Yields IsName (prefixed s)
prefixed-IsName String.[] h v = absurd (cc)
prefixed-IsName (String.◌∷◌ c s) h v =
    Yields-branch (is_digit (code c)) (λ _. yields (underscore-valid.1, (underscore-valid.0, v)))
      (λ no_digit. yields (no_digit, v))

not_empty-replace_each : (s : String) → not_empty (replace_each s) ≡ not_empty s
unfolding replace_each
not_empty-replace_each String.[] = refl
not_empty-replace_each (String.◌∷◌ c s) = refl

-- Of an ASCII text that is not empty `ReplaceInvalidChars` makes, without a panic, a name: not
-- empty, of letters, digits and underscores, and not beginning with a digit.
pub replace_invalid_chars-IsName :
    (s : String) → not_empty s ≡ true → Yields IsName (replace_invalid_chars s)
unfolding replace_invalid_chars
replace_invalid_chars-IsName s h =
    prefixed-IsName (replace_each s) (not_empty-replace_each s ∙ h) (replace_each-AllValid s)

-- Samples of one name with different labels have the same identifier: two labels with values
-- `value` and `last`, and the first label alone, where its value is `value`, a dot, the name of the
-- second label, a dot and `last`; if the names are in the order of texts.
pub sample_id_collides :
    (name key other value last : String)
    → text_leb key other ≡ true
    → sample_id name ((key, value <> ("." <> (other <> ("." <> last)))) ∷ [])
      ≡ sample_id name ((key, value) ∷ (other, last) ∷ [])
unfolding sample_id sort_labels join
sample_id_collides name key other value last sorted = rw sorted refl
