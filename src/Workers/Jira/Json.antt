-- ===== src/Workers/Jira/Json.antt =====
-- The request bodies of the Jira client: `encodeJSON` of jira-service/internal/service/jira.go.
-- `fmt` is a parameter, and so is the order of a map, which Go leaves open.
use Prim.Native.Char.{code}
use Prim.Native.String.{◌++◌ as text_append}
use proctssor.Prelude.{
  ℕ, ℤ, String, ◌≡◌, refl, Bool, true, false, ◌&&◌, List, [], ◌∷◌, Map, Result, ok, err, is_ok, leb,
  if◌then◌else◌, arith, Result-cases, inl, inr,
}

-- The values that the client builds: `map[string]interface{}`, `map[string]string`,
-- `[]interface{}`, `[]string`, and the plain ones. A float64 is known by its bits.
mutual
  pub data Value : Type 0 where
    dict : Dict → Value
    texts : Map String → Value
    array : Values → Value
    strings : List String → Value
    text : String → Value
    integer : ℤ → Value
    float : ℕ → Value
    bool : Bool → Value

  pub data Dict : Type 0 where
    end : Dict
    entry : String → Value → Dict → Dict

  pub data Values : Type 0 where
    nil : Values
    cons : Value → Values → Values

-- `%d` and `%f`.
pub record Formats : Type 0 where
  pub int_text : ℤ → String
  pub float_text : ℕ → String

-- `strings.ReplaceAll` of one character, by its code.
unfoldable pub replace_all : ℕ → String → String → String
replace_all n new String.[] = String.[]
replace_all n new (String.◌∷◌ c s) =
    let rest = replace_all n new s in
    if leb (code c) n && leb n (code c) then text_append new rest else String.◌∷◌ c rest

-- `strings.Split` at a comma.
unfoldable pub split_commas : String → List String
split_commas String.[] = "" ∷ []
split_commas (String.◌∷◌ c s) =
    let rest = split_commas s in
    if leb (code c) 44 && leb 44 (code c)
    then "" ∷ rest
    else elim rest [ [] ↦ String.◌∷◌ c String.[] ∷ [] | word ∷ words ↦ String.◌∷◌ c word ∷ words ]

abbrev pub quoted : String → String
quoted s = text_append "\"" (text_append s "\"")

abbrev pub unsupported : {A : Type 0} → String → Result String A
unsupported type_name = err (text_append "unsupported type: " type_name)

unfoldable mutual
  unfolding replace_all

  pub encode_json : Formats → Value → Result String String
  encode_json fmt (dict d) = elim (encode_dict fmt true d) [
    | err e ↦ err e
    | ok s ↦ ok (text_append "{" (text_append s "}"))
  ]
  encode_json fmt (text s) = ok (quoted (replace_all 34 "\\\"" s))
  encode_json fmt (integer n) = ok (fmt.int_text n)
  encode_json fmt (float x) = ok (fmt.float_text x)
  encode_json fmt (bool b) = ok (if b then "true" else "false")
  encode_json fmt (texts m) = unsupported "map[string]string"
  encode_json fmt (array vs) = unsupported "[]interface {}"
  encode_json fmt (strings l) = unsupported "[]string"

  -- The loop, with `first`.
  pub encode_dict : Formats → Bool → Dict → Result String String
  encode_dict fmt first end = ok ""
  encode_dict fmt first (entry key v d) = elim (encode_json fmt v) [
    | err e ↦ err e
    | ok s ↦ elim (encode_dict fmt false d) [
      | err e ↦ err e
      | ok rest ↦ ok (
          text_append (if first then "" else ",")
            (text_append (quoted key) (text_append ":" (text_append s rest))))
    ]
  ]

-- The values without a map of texts and without a list, as an independent description.
unfoldable mutual
  pub plain : Value → Bool
  plain (dict d) = plain_dict d
  plain (texts m) = false
  plain (array vs) = false
  plain (strings l) = false
  plain (text s) = true
  plain (integer n) = true
  plain (float x) = true
  plain (bool b) = true

  pub plain_dict : Dict → Bool
  plain_dict end = true
  plain_dict (entry key v d) = plain v && plain_dict d

mutual
  unfolding encode_json encode_dict plain plain_dict

  plain-value : (fmt : Formats) (v : Value) → is_ok (encode_json fmt v) ≡ plain v
  plain-value fmt (dict d) = elim (Result-cases (encode_dict fmt true d)) [
    | inl (s, encoded) ↦
        rw (is_ok, encode_json, encoded) (ground (arith, plain-dict fmt true d, encoded))
    | inr (e, failed) ↦
        rw (is_ok, encode_json, failed) (ground (arith, plain-dict fmt true d, failed))
  ]
  plain-value fmt (text s) = refl
  plain-value fmt (integer n) = refl
  plain-value fmt (float x) = refl
  plain-value fmt (bool b) = refl
  plain-value fmt (texts m) = refl
  plain-value fmt (array vs) = refl
  plain-value fmt (strings l) = refl

  plain-dict :
      (fmt : Formats) (first : Bool) (d : Dict) → is_ok (encode_dict fmt first d) ≡ plain_dict d
  plain-dict fmt first end = refl
  plain-dict fmt first (entry key v d) = elim (Result-cases (encode_json fmt v)) [
    | inr (e, failed) ↦ rw (is_ok, encode_dict, failed) (ground (arith, plain-value fmt v, failed))
    | inl (s, encoded) ↦ elim (Result-cases (encode_dict fmt false d)) [
      | inl (rest, rest_encoded) ↦
          rw (is_ok, encode_dict, encoded, rest_encoded)
            (ground (arith, plain-value fmt v, plain-dict fmt false d, encoded, rest_encoded))
      | inr (e, failed) ↦
          rw (is_ok, encode_dict, encoded, failed)
            (ground (arith, plain-value fmt v, plain-dict fmt false d, encoded, failed))
    ]
  ]

-- Encoding succeeds exactly on the values that hold no map of texts and no list.
pub encode_json_lem : (fmt : Formats) (v : Value) → is_ok (encode_json fmt v) ≡ plain v
encode_json_lem fmt v = plain-value fmt v
