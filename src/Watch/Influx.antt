-- ===== src/Watch/Influx.antt =====
-- internal/pkg/watch/influx_exporter.go: the samples of the influx exporter. Texts are ASCII: of a
-- letter of several bytes, the code would replace the first byte only. A value is of a type `V`,
-- with the conversions to it; a time is in nanoseconds. Maps are association lists.
pub mod Latest
pub mod Names
mod Tests
use Prim.Native.Char.{Char, code}
use Prim.Native.Nat.{Ordering}
use Prim.Native.String.{String, compare as compare_text}
use Prim.Native.String.{◌++◌ as ◌<>◌}
use text.Mathlib.Text.{◌==◌ as str_eq}
use metrika_agent.Prelude.{
  ℕ, zero, suc, ◌==◌, leb, Bool, true, false, ◌&&◌, ◌||◌, Option, none, some, List, [], ◌∷◌, ◌++◌,
  if◌then◌else◌,
}
use metrika_agent.Prelude.Int.{ℤ, pos, negsuc, ltb_ℤ, ◌-ℤ◌}
use metrika_agent.Prelude.Outcome.{Outcome, done, panic, ◌>>=◌}

abbrev pub Labels : Type 0
Labels = List (String × String)

pub record Sample (V : Type 0) : Type 0 where
  pub id : String
  pub name : String
  pub labels : Labels
  pub value : V
  pub timestamp : ℤ

abbrev pub five_minutes : ℤ
five_minutes = pos 300_000_000_000

-- The samples by their identifiers.
abbrev pub Samples : Type 0 → Type 0
Samples V = List (String × Sample V)

module _ {V : Type 0} where
  abbrev pub sample_at : String → Samples V → Option (Sample V)
  sample_at id [] = none
  sample_at id (entry ∷ entries) = if str_eq entry.0 id then some entry.1 else sample_at id entries

  abbrev pub put_sample : String → Sample V → Samples V → Samples V
  put_sample id s [] = (id, s) ∷ []
  put_sample id s (entry ∷ entries) =
      if str_eq entry.0 id then (id, s) ∷ entries else entry ∷ put_sample id s entries

  -- A sample is kept if it is the first with its identifier, or newer.
  abbrev pub newer : Option (Sample V) → Sample V → Samples V → Samples V
  newer none s samples = put_sample s.id s samples
  newer (some prev) s samples =
      if ltb_ℤ prev.timestamp s.timestamp then put_sample s.id s samples else samples

  unfoldable pub on_sample : Sample V → Samples V → Samples V
  on_sample s samples = newer (sample_at s.id samples) s samples

  -- The ticker's garbage collection, at the time `now`.
  unfoldable pub collect_garbage : ℤ → Samples V → Samples V
  collect_garbage now [] = []
  collect_garbage now (entry ∷ entries) =
      if ltb_ℤ entry.1.timestamp (now -ℤ five_minutes)
      then collect_garbage now entries
      else entry ∷ collect_garbage now entries

  -- `Collect`: the samples that are not too old.
  unfoldable pub collect : ℤ → Samples V → List (Sample V)
  collect now [] = []
  collect now (entry ∷ entries) =
      if ltb_ℤ entry.1.timestamp (now -ℤ five_minutes)
      then collect now entries
      else entry.1 ∷ collect now entries

unfoldable pub is_valid : ℕ → Bool
is_valid c =
    (leb 97 c && leb c 122) || (leb 65 c && leb c 90) || (leb 48 c && leb c 57) || (c == 95)

unfoldable pub is_digit : ℕ → Bool
is_digit c = leb 48 c && leb c 57

abbrev pub underscore : Char
underscore = Prim.Native.String.char_at "_" 0

unfoldable pub replace_each : String → String
replace_each String.[] = String.[]
replace_each (String.◌∷◌ c s) =
    String.◌∷◌ (if is_valid (code c) then c else underscore) (replace_each s)

-- The first character is read without a test.
abbrev pub prefixed : String → Outcome String
prefixed String.[] = panic
prefixed (String.◌∷◌ c s) =
    if is_digit (code c)
    then done (String.◌∷◌ underscore (String.◌∷◌ c s))
    else done (String.◌∷◌ c s)

unfoldable pub replace_invalid_chars : String → Outcome String
replace_invalid_chars s = prefixed (replace_each s)

unfoldable pub join : String → List String → String
join sep [] = ""
join sep (part ∷ []) = part
join sep (part ∷ other ∷ others) = part <> (sep <> join sep (other ∷ others))

-- `sort.Strings` of the names, with their values.
abbrev pub text_leb : String → String → Bool
text_leb s t = elim (compare_text s t) [ Ordering.gt ↦ false | _ ↦ true ]

abbrev pub insert_label : String × String → Labels → Labels
insert_label l [] = l ∷ []
insert_label l (m ∷ ms) = if text_leb l.0 m.0 then l ∷ m ∷ ms else m ∷ insert_label l ms

unfoldable pub sort_labels : Labels → Labels
sort_labels [] = []
sort_labels (l ∷ ls) = insert_label l (sort_labels ls)

abbrev pub label_parts : Labels → List String
label_parts [] = []
label_parts (l ∷ ls) = l.0 ∷ l.1 ∷ label_parts ls

unfoldable pub sample_id : String → Labels → String
sample_id name labels = join "." (name ∷ label_parts (sort_labels labels))

pub data FieldValue (V : Type 0) : Type 0 where
  float : V → FieldValue V
  int : ℤ → FieldValue V
  bool : Bool → FieldValue V
  other : FieldValue V

-- A point; `fields` is none if they cannot be read.
pub record Point (V : Type 0) : Type 0 where
  pub name : String
  pub fields : Option (List (String × FieldValue V))
  pub tags : Labels
  pub time : ℤ

abbrev pub set_label : String → String → Labels → Labels
set_label key value [] = (key, value) ∷ []
set_label key value (l ∷ ls) =
    if str_eq l.0 key then (key, value) ∷ ls else l ∷ set_label key value ls

-- The loop over the tags.
unfoldable pub labels_of : Labels → Labels → Outcome Labels
labels_of [] labels = done labels
labels_of (tag ∷ tags) labels =
    if str_eq tag.0 "__name__"
    then labels_of tags labels
    else (replace_invalid_chars tag.0 >>= λ key. labels_of tags (set_label key tag.1 labels))

module _ {V : Type 0} (of_int : ℤ → V) where
  abbrev pub number_of : FieldValue V → Option V
  number_of (float v) = some v
  number_of (int n) = some (of_int n)
  number_of (bool true) = some (of_int (pos 1))
  number_of (bool false) = some (of_int (pos 0))
  number_of other = none

  unfoldable pub sample_of : Point V → String → V → Outcome (Sample V)
  sample_of p field value =
      replace_invalid_chars (if str_eq field "value" then p.name else p.name <> ("_" <> field))
      >>= λ name. labels_of p.tags [] >>= λ labels. done (record {
        id = sample_id name labels;
        name = name;
        labels = labels;
        value = value;
        timestamp = p.time;
      })

  abbrev pub add_sample :
      Point V → String → Option V → Outcome (List (Sample V)) → Outcome (List (Sample V))
  add_sample p field none rest = rest
  add_sample p field (some value) rest =
      sample_of p field value >>= λ s. rest >>= λ ss. done (s ∷ ss)

  -- The loop over the fields of a point.
  unfoldable pub field_samples : Point V → List (String × FieldValue V) → Outcome (List (Sample V))
  field_samples p [] = done []
  field_samples p (field ∷ fields) =
      add_sample p field.0 (number_of field.1) (field_samples p fields)

  unfoldable pub parse_points_to_samples : List (Point V) → Outcome (List (Sample V))
  parse_points_to_samples [] = done []
  parse_points_to_samples (p ∷ ps) =
      let rest = parse_points_to_samples ps in
      elim p.fields [
        | none ↦ rest
        | some fields ↦ (field_samples p fields >>= λ ss. rest >>= λ more. done (ss ++ more))
      ]
