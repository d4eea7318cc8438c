-- ===== src/Executor/Expression.antt =====
-- The evaluator of conditions: `ExpressionEvaluator` of engine/internal/core/executor/expression.go.
-- A float64 is known by its bits; its order, its text and `strconv.ParseFloat` are parameters, and so
-- is what a reference among the variables stands for.
pub mod Pieces
pub mod Comparison
pub mod Task
use Prim.Native.Char.{Char, code}
use Prim.Native.String.{String, ◌++◌ as text_append}
use proctssor.Prelude.{
  ℕ, ℤ, ◌==◌, Bool, true, false, not, ◌&&◌, Map, lookup, Option, none, some, Result, ok, err, leb,
  if◌then◌else◌,
}
use proctssor.Token.{Value, null, bool, reference, Variables}
use proctssor.Executor.Delegate.{trim_space}

-- A Go value that is neither nil, a Boolean nor a text; `opaque` has the text that `%v` gives it and
-- the name of its type.
pub data Reference : Type 0 where
  integer : ℤ → Reference
  float : ℕ → Reference
  opaque : String → String → Reference

pub record Numbers : Type 0 where
  pub reference_of : ℕ → Reference
  pub parse_float : String → Result String ℕ
  pub float_of : ℤ → ℕ
  pub int_text : ℤ → String
  pub float_text : ℕ → String
  pub int_is_zero : ℤ → Bool
  pub float_is_zero : ℕ → Bool
  pub greater : ℕ → ℕ → Bool
  pub greater_or_equal : ℕ → ℕ → Bool

abbrev pub same : Char → Char → Bool
same c d = leb (code c) (code d) && leb (code d) (code c)

-- What follows a prefix, if it is one.
unfoldable pub strip_prefix : String → String → Option String
strip_prefix String.[] s = some s
strip_prefix (String.◌∷◌ c p) String.[] = none
strip_prefix (String.◌∷◌ c p) (String.◌∷◌ d s) =
    let rest = strip_prefix p s in if same c d then rest else none

-- `strings.TrimPrefix` and `strings.TrimSuffix`, the latter of one character.
unfoldable pub trim_prefix : String → String → String
trim_prefix p s = elim (strip_prefix p s) [ none ↦ s | some rest ↦ rest ]

unfoldable pub trim_suffix : ℕ → String → String
trim_suffix n String.[] = String.[]
trim_suffix n (String.◌∷◌ c String.[]) =
    if leb (code c) n && leb n (code c) then String.[] else String.◌∷◌ c String.[]
trim_suffix n (String.◌∷◌ c (String.◌∷◌ d s)) = String.◌∷◌ c (trim_suffix n (String.◌∷◌ d s))

-- `strings.Contains` with `strings.SplitN(s, sep, 2)`: the two parts, if the separator is there.
unfoldable pub split_first : String → String → Option (String × String)
split_first sep String.[] = elim (strip_prefix sep String.[]) [
  | none ↦ none
  | some rest ↦ some (String.[], rest)
]
split_first sep (String.◌∷◌ c s) =
    let later = split_first sep s in
    elim (strip_prefix sep (String.◌∷◌ c s)) [
      | some rest ↦ some (String.[], rest)
      | none ↦ elim later [ none ↦ none | some (left, right) ↦ some (String.◌∷◌ c left, right) ]
    ]

-- `strings.HasPrefix` and `strings.HasSuffix` of one character.
unfoldable pub begins : ℕ → String → Bool
begins n String.[] = false
begins n (String.◌∷◌ c s) = leb (code c) n && leb n (code c)

unfoldable pub ends : ℕ → String → Bool
ends n String.[] = false
ends n (String.◌∷◌ c String.[]) = leb (code c) n && leb n (code c)
ends n (String.◌∷◌ c (String.◌∷◌ d s)) = ends n (String.◌∷◌ d s)

-- `strings.Trim` with one character.
unfoldable pub trim_left : ℕ → String → String
trim_left n String.[] = String.[]
trim_left n (String.◌∷◌ c s) =
    let rest = trim_left n s in if leb (code c) n && leb n (code c) then rest else String.◌∷◌ c s

unfoldable pub trim_right : ℕ → String → String
trim_right n String.[] = String.[]
trim_right n (String.◌∷◌ c s) =
    let rest = trim_right n s in
    if leb (code c) n && leb n (code c) && (rest == "") then String.[] else String.◌∷◌ c rest

unfoldable pub get_value : Variables → String → Value
get_value vars name = elim (lookup name vars) [ none ↦ null | some v ↦ v ]

-- A value that `parseValue` reads: one of the variables' values, or a number of the text.
pub data Operand : Type 0 where
  value : Value → Operand
  number : ℕ → Operand

unfoldable pub parse_value : Numbers → Variables → String → Operand
parse_value go vars text =
    let s = trim_space text in
    let named : Operand =
      if begins 34 s && ends 34 s
      then value (Value.text (trim_right 34 (trim_left 34 s)))
      else if begins 39 s && ends 39 s
      then value (Value.text (trim_right 39 (trim_left 39 s)))
      else value (get_value vars s) in
    if s == "true"
    then value (bool true)
    else if s == "false"
    then value (bool false)
    else elim (go.parse_float s) [ ok x ↦ number x | err e ↦ named ]

-- `%v`.
unfoldable pub show_value : Numbers → Value → String
show_value go null = "<nil>"
show_value go (bool b) = if b then "true" else "false"
show_value go (Value.text s) = s
show_value go (reference n) = elim (go.reference_of n) [
  | integer i ↦ go.int_text i
  | float x ↦ go.float_text x
  | opaque text type_name ↦ text
]

unfoldable pub show_operand : Numbers → Operand → String
show_operand go (value v) = show_value go v
show_operand go (number x) = go.float_text x

-- `toNumber`.
unfoldable pub to_number : Numbers → Variables → String → Result String ℕ
to_number go vars name = elim (get_value vars name) [
  | null ↦ err (text_append "variable " (text_append name " not found"))
  | bool b ↦ err "cannot convert bool to number"
  | Value.text s ↦ go.parse_float s
  | reference n ↦ elim (go.reference_of n) [
    | integer i ↦ ok (go.float_of i)
    | float x ↦ ok x
    | opaque text type_name ↦
        err (text_append "cannot convert " (text_append type_name " to number"))
  ]
]

-- The operators, in the order in which `Evaluate` looks for them.
pub data Operator : Type 0 where
  equals not_equals at_least at_most above below : Operator

abbrev pub symbol : Operator → String
symbol equals = "=="
symbol not_equals = "!="
symbol at_least = ">="
symbol at_most = "<="
symbol above = ">"
symbol below = "<"

-- `evaluateGreater` and the three like it, on the trimmed sides and as they are.
unfoldable pub compare_trimmed :
    Numbers → Variables → (ℕ → ℕ → Bool) → String → String → Result String Bool
compare_trimmed go vars test left right = elim (to_number go vars left) [
  | err e ↦ err e
  | ok a ↦ elim (go.parse_float right) [ err e ↦ err e | ok b ↦ ok (test a b) ]
]

unfoldable pub compare_numbers :
    Numbers → Variables → (ℕ → ℕ → Bool) → String → String → Result String Bool
compare_numbers go vars test left right =
    compare_trimmed go vars test (trim_space left) (trim_space right)

-- `evaluateEquals`.
unfoldable pub equal_texts : Numbers → Variables → String → String → Bool
equal_texts go vars left right =
    show_value go (get_value vars (trim_space left))
    == show_operand go (parse_value go vars (trim_space right))

-- The function of each operator.
unfoldable pub apply_operator :
    Numbers → Variables → Operator → String × String → Result String Bool
apply_operator go vars equals (left, right) = ok (equal_texts go vars left right)
apply_operator go vars not_equals (left, right) = ok (not (equal_texts go vars left right))
apply_operator go vars at_least (left, right) =
    compare_numbers go vars go.greater_or_equal left right
apply_operator go vars at_most (left, right) =
    compare_numbers go vars (λ a b. go.greater_or_equal b a) left right
apply_operator go vars above (left, right) = compare_numbers go vars go.greater left right
apply_operator go vars below (left, right) =
    compare_numbers go vars (λ a b. go.greater b a) left right

unfoldable pub evaluate_truthy : Numbers → Variables → String → Bool
evaluate_truthy go vars name = elim (lookup name vars) [
  | none ↦ false
  | some v ↦ elim v [
    | null ↦ false
    | bool b ↦ b
    | Value.text s ↦ not (s == "")
    | reference n ↦ elim (go.reference_of n) [
      | integer i ↦ not (go.int_is_zero i)
      | float x ↦ not (go.float_is_zero x)
      | opaque text type_name ↦ true
    ]
  ]
]

-- The rest of `Evaluate`, on the text without its `${` and `}`.
unfoldable pub evaluate_text : Numbers → Variables → String → Result String Bool
evaluate_text go vars s = elim (split_first "==" s) [
  | some sides ↦ apply_operator go vars equals sides
  | none ↦ elim (split_first "!=" s) [
    | some sides ↦ apply_operator go vars not_equals sides
    | none ↦ elim (split_first ">=" s) [
      | some sides ↦ apply_operator go vars at_least sides
      | none ↦ elim (split_first "<=" s) [
        | some sides ↦ apply_operator go vars at_most sides
        | none ↦ elim (split_first ">" s) [
          | some sides ↦ apply_operator go vars above sides
          | none ↦ elim (split_first "<" s) [
            | some sides ↦ apply_operator go vars below sides
            | none ↦ ok (evaluate_truthy go vars s)
          ]
        ]
      ]
    ]
  ]
]

unfoldable pub evaluate : Numbers → Variables → String → Result String Bool
unfolding evaluate_text
evaluate go vars expression =
    evaluate_text go vars (trim_suffix 125 (trim_prefix "${" (trim_space expression)))
