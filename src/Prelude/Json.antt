-- ===== src/Prelude/Json.antt =====
-- `encoding/json` as far as the program uses it: an object with the fields of a struct, in order.
-- Numbers are natural, and a text is escaped as `json.Marshal` escapes it.
use Prim.Native.Nat.{ℕ, zero, suc, ◌+◌, ◌/◌, ◌%◌}
use Prim.Native.Char.{Char, code}
use Prim.Native.String.{String, ◌++◌, slice}
use mathlib.Core.Path.{◌≡◌, refl}
use mathlib.Core.Bool.{Bool, true, false, ◌||◌}
use mathlib.Core.List.{List, [], ◌∷◌}
use text.Mathlib.Text.{◌==◌}
use proto_radar.Prelude.Tests.{if◌then◌else◌, eqb, ltb}

pub data Json : Type 0 where
  word : String → Json
  number : ℕ → Json
  flag : Bool → Json
  texts : List String → Json
  marshalled_object : String → Json

pub record Field : Type 0 where
  pub key : String
  pub value : Json

-- A field, and one with `omitempty`.
abbrev pub field : String → Json → List Field → List Field
field key value rest = record { key = key; value = value } ∷ rest

abbrev pub optional : String → String → List Field → List Field
optional key value rest = if value == "" then rest else field key (Json.word value) rest

digit : ℕ → String
digit n = slice "0123456789abcdef" n (n + 1)

-- The digits of a number below 10 ^ fuel, before a text.
decimal_before : ℕ → ℕ → String → String
unfolding digit
decimal_before zero n rest = rest
decimal_before (suc fuel) n rest =
    let more = decimal_before fuel (n / 10) (digit (n % 10) ++ rest) in
    if ltb n 10 then digit n ++ rest else more

-- `strconv.Itoa` of a number: n is below 10 ^ (n + 1).
unfoldable pub decimal : ℕ → String
unfolding decimal_before
decimal n = decimal_before (suc n) n ""

escape_char : Char → String → String
unfolding digit
escape_char c rest =
    let n = code c in
    if eqb n 34
    then "\\\"" ++ rest
    else if eqb n 92
    then "\\\\" ++ rest
    else if eqb n 8
    then "\\b" ++ rest
    else if eqb n 9
    then "\\t" ++ rest
    else if eqb n 10
    then "\\n" ++ rest
    else if eqb n 12
    then "\\f" ++ rest
    else if eqb n 13
    then "\\r" ++ rest
    else if ltb n 32 || (eqb n 38 || (eqb n 60 || eqb n 62))
    then "\\u00" ++ (digit (n / 16) ++ (digit (n % 16) ++ rest))
    else if eqb n 0x2028
    then "\\u2028" ++ rest
    else if eqb n 0x2029
    then "\\u2029" ++ rest
    else String.◌∷◌ c rest

unfoldable pub escape : String → String
unfolding escape_char
escape String.[] = ""
escape (String.◌∷◌ c s) = escape_char c (escape s)

unfoldable pub quoted : String → String
unfolding escape
quoted s = "\"" ++ (escape s ++ "\"")

marshal_texts : List String → String
unfolding quoted
marshal_texts [] = ""
marshal_texts (s ∷ []) = quoted s
marshal_texts (s ∷ t ∷ rest) = quoted s ++ ("," ++ marshal_texts (t ∷ rest))

unfoldable pub marshal_value : Json → String
unfolding quoted decimal marshal_texts
marshal_value (Json.word s) = quoted s
marshal_value (Json.number n) = decimal n
marshal_value (Json.flag true) = "true"
marshal_value (Json.flag false) = "false"
marshal_value (Json.texts list) = "[" ++ (marshal_texts list ++ "]")
marshal_value (Json.marshalled_object text) = text

marshal_fields : List Field → String
unfolding quoted marshal_value
marshal_fields [] = ""
marshal_fields (f ∷ []) = quoted f.key ++ (":" ++ marshal_value f.value)
marshal_fields (f ∷ g ∷ rest) =
    quoted f.key ++ (":" ++ (marshal_value f.value ++ ("," ++ marshal_fields (g ∷ rest))))

-- `json.Marshal` of a struct: it cannot fail on texts, numbers and lists of texts.
unfoldable pub marshal : List Field → String
unfolding marshal_fields
marshal fields = "{" ++ (marshal_fields fields ++ "}")

marshalled :
    marshal (field "a" (Json.word "x\"<y") (optional "b" "" (field "n" (Json.number 120) [])))
    ≡ "{\"a\":\"x\\\"\\u003cy\",\"n\":120}"
unfolding marshal
marshalled = refl
