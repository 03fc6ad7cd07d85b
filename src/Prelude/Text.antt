-- ===== src/Prelude/Text.antt =====
-- The functions of Go's package strings that the agent uses, on native texts.
use Prim.Native.Char.{Char, code}
use Prim.Native.Nat.{ℕ, zero, suc, ◌-◌, ◌/◌, ◌%◌}
use Prim.Native.String.{String, char_at}
use mathlib.Core.Path.{◌≡◌, refl}
use mathlib.Core.Bool.{Bool, true, false, ◌&&◌}
use mathlib.Core.Option.{Option, none, some}
use mathlib.Core.List.{List, [], ◌∷◌}
use text.Mathlib.Text.{find?}
use metrika_agent.Prelude.Tests.{leb, ◌==◌, if◌then◌else◌}

-- The letters whose lower case is an ASCII letter: the capitals, U+0130 and U+212A. The other
-- letters are kept as they are; the agent compares the result with ASCII texts only.
abbrev pub lower : Char → Char
lower c =
    let letters : String = "abcdefghijklmnopqrstuvwxyz" in
    if leb 65 (code c) && leb (code c) 90
    then char_at letters (code c - 65)
    else if code c == 304
    then char_at letters 8
    else if code c == 8490
    then char_at letters 10
    else c

unfoldable pub to_lower : String → String
to_lower String.[] = String.[]
to_lower (String.◌∷◌ c s) = String.◌∷◌ (lower c) (to_lower s)

-- `strings.Split` at one character: the first part, and the others.
unfoldable pub split : ℕ → String → String × List String
split sep String.[] = (String.[], [])
split sep (String.◌∷◌ c s) =
    let (first, others) = split sep s in
    if code c == sep then (String.[], first ∷ others) else (String.◌∷◌ c first, others)

-- What comes after the first such character.
unfoldable pub after : ℕ → String → Option String
after sep String.[] = none
after sep (String.◌∷◌ c s) = if code c == sep then some s else after sep s

unfoldable pub contains : String → String → Bool
contains s part = elim (find? s part) [ none ↦ false | some i ↦ true ]

-- `strings.HasSuffix` of one character.
unfoldable pub last_char_is : ℕ → String → Bool
last_char_is sep String.[] = false
last_char_is sep (String.◌∷◌ c String.[]) = code c == sep
last_char_is sep (String.◌∷◌ c (String.◌∷◌ d s)) = last_char_is sep (String.◌∷◌ d s)

abbrev pub all_but_last : List String → List String
all_but_last [] = []
all_but_last (part ∷ []) = []
all_but_last (part ∷ other ∷ others) = part ∷ all_but_last (other ∷ others)

-- `strconv.Itoa` of a number of at most twenty digits.
unfoldable pub itoa_loop : ℕ → ℕ → String → String
itoa_loop zero n digits = digits
itoa_loop (suc fuel) n digits =
    let all : String = "0123456789" in
    let longer = itoa_loop fuel (n / 10) (String.◌∷◌ (char_at all (n % 10)) digits) in
    if leb n 9 then String.◌∷◌ (char_at all n) digits else longer

unfoldable pub itoa : ℕ → String
itoa n = itoa_loop 20 n ""

itoa_port : itoa 8080 ≡ "8080"
unfolding itoa itoa_loop
itoa_port = refl

to_lower_consensus : to_lower "ConSENSUS" ≡ "consensus"
unfolding to_lower
to_lower_consensus = refl

split_command : split b' ' "flow --nodeid=1" ≡ ("flow", "--nodeid=1" ∷ [])
unfolding split
split_command = refl

after_eq : after b'=' "--nodeid=1=2" ≡ some "1=2"
unfolding after
after_eq = refl

contains_net : contains "flow-mainnet-21" "mainnet" ≡ true
unfolding contains
contains_net = refl
