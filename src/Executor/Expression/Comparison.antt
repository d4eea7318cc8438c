-- ===== src/Executor/Expression/Comparison.antt =====
-- What a comparison among the conditions means: engine/internal/core/executor/expression.go.
use Prim.Native.String.{String, ◌++◌ as text_append}
use proctssor.Prelude.{
  ℕ, ◌≡◌, refl, sym, ◌∙◌, ap, Bool, true, false, not, ◌==◌, Option, none, some, Result, ok, err,
  is_ok,
}
use proctssor.Token.{Variables}
use proctssor.Executor.Delegate.{trim_start, trim_space}
use proctssor.Executor.Expression.{
  Numbers, strip_prefix, trim_prefix, trim_suffix, split_first, Operator, equals, not_equals,
  at_least, at_most, above, below, symbol, get_value, parse_value, show_value, show_operand,
  to_number, equal_texts, compare_trimmed, compare_numbers, apply_operator, evaluate_truthy,
  evaluate_text, evaluate,
}
use proctssor.Executor.Expression.Pieces.{
  joined, append-joined, unsigned, after, split_first-unsigned, split_first-none,
  trim_suffix-joined, trim_end-closed, IsOperand, trim_space-operand, trim_space-left,
  trim_space-right,
}

-- The operator between blanks, before the right operand.
abbrev middle : Operator → String → String
middle op r = joined " " (joined (symbol op) (joined " " r))

-- A text without signs has no operator in it.
absent : (tested : Operator) (r : String) → unsigned r ≡ true → split_first (symbol tested) r ≡ none
absent equals r plain = split_first-none _ "=" r refl plain
absent not_equals r plain = split_first-none _ "=" r refl plain
absent at_least r plain = split_first-none _ "=" r refl plain
absent at_most r plain = split_first-none _ "=" r refl plain
absent above r plain = split_first-none _ "" r refl plain
absent below r plain = split_first-none _ "" r refl plain

-- The first operator that is there, in the order of `Evaluate`.
module _ (go : Numbers) (vars : Variables) (l r : String) (left : IsOperand l)
    (right : IsOperand r) where
  abbrev found : Operator → Result String Bool
  found op = apply_operator go vars op (joined l " ", joined " " r)

  seen :
      (tested : Operator) (t : String) (o : Option (String × String))
      → split_first (symbol tested) t ≡ o
      → split_first (symbol tested) (joined l t) ≡ after l o
  seen equals t o h = split_first-unsigned _ "=" l t refl left.plain ∙ ap (after l) h
  seen not_equals t o h = split_first-unsigned _ "=" l t refl left.plain ∙ ap (after l) h
  seen at_least t o h = split_first-unsigned _ "=" l t refl left.plain ∙ ap (after l) h
  seen at_most t o h = split_first-unsigned _ "=" l t refl left.plain ∙ ap (after l) h
  seen above t o h = split_first-unsigned _ "" l t refl left.plain ∙ ap (after l) h
  seen below t o h = split_first-unsigned _ "" l t refl left.plain ∙ ap (after l) h

  own :
      (op : Operator)
      → split_first (symbol op) (joined l (middle op r)) ≡ some (joined l " ", joined " " r)
  unfolding split_first strip_prefix
  own equals = seen equals (middle equals r) (some (" ", joined " " r)) refl
  own not_equals = seen not_equals (middle not_equals r) (some (" ", joined " " r)) refl
  own at_least = seen at_least (middle at_least r) (some (" ", joined " " r)) refl
  own at_most = seen at_most (middle at_most r) (some (" ", joined " " r)) refl
  own above = seen above (middle above r) (some (" ", joined " " r)) refl
  own below = seen below (middle below r) (some (" ", joined " " r)) refl

  -- The operators that are looked for before this one are not there.
  abbrev Missed : Operator → Operator → Type 0
  Missed tested op = split_first (symbol tested) (joined l (middle op r)) ≡ none

  before_not_equals : Missed equals not_equals
  unfolding split_first strip_prefix
  before_not_equals = seen equals (middle not_equals r) none (rw (absent equals r right.plain) refl)

  before_at_least : Missed equals at_least × Missed not_equals at_least
  unfolding split_first strip_prefix
  before_at_least = (
    seen equals (middle at_least r) none (rw (absent equals r right.plain) refl),
    seen not_equals (middle at_least r) none (rw (absent not_equals r right.plain) refl),
  )

  before_at_most : Missed equals at_most × Missed not_equals at_most × Missed at_least at_most
  unfolding split_first strip_prefix
  before_at_most = (
    seen equals (middle at_most r) none (rw (absent equals r right.plain) refl),
    seen not_equals (middle at_most r) none (rw (absent not_equals r right.plain) refl),
    seen at_least (middle at_most r) none (rw (absent at_least r right.plain) refl),
  )

  before_above :
      Missed equals above × Missed not_equals above × Missed at_least above × Missed at_most above
  unfolding split_first strip_prefix
  before_above = (
    seen equals (middle above r) none (rw (absent equals r right.plain) refl),
    seen not_equals (middle above r) none (rw (absent not_equals r right.plain) refl),
    seen at_least (middle above r) none (rw (absent at_least r right.plain) refl),
    seen at_most (middle above r) none (rw (absent at_most r right.plain) refl),
  )

  before_below :
      Missed equals below
      × Missed not_equals below
      × Missed at_least below
      × Missed at_most below
      × Missed above below
  unfolding split_first strip_prefix
  before_below = (
    seen equals (middle below r) none (rw (absent equals r right.plain) refl),
    seen not_equals (middle below r) none (rw (absent not_equals r right.plain) refl),
    seen at_least (middle below r) none (rw (absent at_least r right.plain) refl),
    seen at_most (middle below r) none (rw (absent at_most r right.plain) refl),
    seen above (middle below r) none (rw (absent above r right.plain) refl),
  )

  evaluate_text-comparison :
      (op : Operator) → evaluate_text go vars (joined l (middle op r)) ≡ found op
  unfolding evaluate_text
  evaluate_text-comparison equals = rw (evaluate_text, own equals) refl
  evaluate_text-comparison not_equals = rw (evaluate_text, before_not_equals, own not_equals) refl
  evaluate_text-comparison at_least =
      let (eq, ne) = before_at_least in rw (evaluate_text, eq, ne, own at_least) refl
  evaluate_text-comparison at_most =
      let (eq, ne, ge) = before_at_most in rw (evaluate_text, eq, ne, ge, own at_most) refl
  evaluate_text-comparison above =
      let (eq, ne, ge, le) = before_above in rw (evaluate_text, eq, ne, ge, le, own above) refl
  evaluate_text-comparison below =
      let (eq, ne, ge, le, gt) = before_below in
      rw (evaluate_text, eq, ne, ge, le, gt, own below) refl

-- A condition as it is written in a process.
abbrev pub condition : String → Operator → String → String
condition l op r = text_append "${" (
    text_append l (text_append " " (text_append (symbol op) (text_append " " (text_append r "}")))))

joined_assoc : (s t u : String) → joined (joined s t) u ≡ joined s (joined t u)
joined_assoc String.[] t u = refl
joined_assoc (String.◌∷◌ c s) t u = ap (λ x. String.◌∷◌ c x) (joined_assoc s t u)

condition-joined :
    (l : String) (op : Operator) (r : String)
    → condition l op r ≡ joined "${" (joined (joined l (middle op r)) "}")
condition-joined l op r = simp (append-joined, joined_assoc)

-- The text between the braces.
between :
    (s : String) → trim_suffix 125 (trim_prefix "${" (trim_space (joined "${" (joined s "}")))) ≡ s
unfolding trim_space trim_start trim_prefix strip_prefix
between s = ap (trim_suffix 125) (trim_end-closed s) ∙ trim_suffix-joined s

equal_texts-trimmed :
    (go : Numbers) (vars : Variables) (l r : String)
    → IsOperand l
    → IsOperand r
    → equal_texts go vars (joined l " ") (joined " " r) ≡ equal_texts go vars l r
unfolding equal_texts
equal_texts-trimmed go vars l r left right =
    rw
      (
        equal_texts,
        trim_space-left l left,
        trim_space-right r right,
        trim_space-operand l left,
        trim_space-operand r right,
      )
      refl

compare_numbers-trimmed :
    (go : Numbers) (vars : Variables) (test : ℕ → ℕ → Bool) (l r : String)
    → IsOperand l
    → IsOperand r
    → compare_numbers go vars test (joined l " ") (joined " " r) ≡ compare_numbers go vars test l r
unfolding compare_numbers
compare_numbers-trimmed go vars test l r left right =
    ap (λ s. compare_trimmed go vars test s (trim_space (joined " " r)))
      (trim_space-left l left ∙ sym (trim_space-operand l left))
    ∙ ap (λ s. compare_trimmed go vars test (trim_space l) s)
        (trim_space-right r right ∙ sym (trim_space-operand r right))

apply_operator-trimmed :
    (go : Numbers) (vars : Variables) (op : Operator) (l r : String)
    → IsOperand l
    → IsOperand r
    → apply_operator go vars op (joined l " ", joined " " r) ≡ apply_operator go vars op (l, r)
unfolding apply_operator
apply_operator-trimmed go vars equals l r left right =
    ap ok (equal_texts-trimmed go vars l r left right)
apply_operator-trimmed go vars not_equals l r left right =
    ap (λ b. ok (not b)) (equal_texts-trimmed go vars l r left right)
apply_operator-trimmed go vars at_least l r left right =
    compare_numbers-trimmed go vars _ l r left right
apply_operator-trimmed go vars at_most l r left right =
    compare_numbers-trimmed go vars _ l r left right
apply_operator-trimmed go vars above l r left right =
    compare_numbers-trimmed go vars _ l r left right
apply_operator-trimmed go vars below l r left right =
    compare_numbers-trimmed go vars _ l r left right

-- The comparison of the two sides as they are.
pub evaluate-apply_operator :
    (go : Numbers) (vars : Variables) (l : String) (op : Operator) (r : String)
    → IsOperand l
    → IsOperand r
    → evaluate go vars (condition l op r) ≡ apply_operator go vars op (l, r)
unfolding evaluate
evaluate-apply_operator go vars l op r left right =
    ap (evaluate go vars) (condition-joined l op r)
    ∙ ap (evaluate_text go vars) (between (joined l (middle op r)))
    ∙ evaluate_text-comparison go vars l r left right op
    ∙ apply_operator-trimmed go vars op l r left right

-- What the six operators say of two operands, of which the left is a variable's name: `==` and `!=`
-- compare texts, the four others the variable's number with the one that is written.
abbrev pub holds : Numbers → Operator → ℕ → ℕ → Bool
holds go at_least a b = go.greater_or_equal a b
holds go at_most a b = go.greater_or_equal b a
holds go above a b = go.greater a b
holds go below a b = go.greater b a
holds go _ a b = false

abbrev pub same_text : Numbers → Variables → String → String → Bool
same_text go vars l r = show_value go (get_value vars l) == show_operand go (parse_value go vars r)

abbrev pub meaning : Numbers → Variables → Operator → String → String → Result String Bool
meaning go vars equals l r = ok (same_text go vars l r)
meaning go vars not_equals l r = ok (not (same_text go vars l r))
meaning go vars op l r = elim (to_number go vars l) [
  | err e ↦ err e
  | ok a ↦ elim (go.parse_float r) [ err e ↦ err e | ok b ↦ ok (holds go op a b) ]
]

apply_operator-meaning :
    (go : Numbers) (vars : Variables) (l : String) (op : Operator) (r : String)
    → IsOperand l
    → IsOperand r
    → apply_operator go vars op (l, r) ≡ meaning go vars op l r
unfolding apply_operator equal_texts compare_numbers compare_trimmed
apply_operator-meaning go vars l equals r left right =
    rw (trim_space-operand l left, trim_space-operand r right) refl
apply_operator-meaning go vars l not_equals r left right =
    rw (trim_space-operand l left, trim_space-operand r right) refl
apply_operator-meaning go vars l at_least r left right =
    rw (trim_space-operand l left, trim_space-operand r right) refl
apply_operator-meaning go vars l at_most r left right =
    rw (trim_space-operand l left, trim_space-operand r right) refl
apply_operator-meaning go vars l above r left right =
    rw (trim_space-operand l left, trim_space-operand r right) refl
apply_operator-meaning go vars l below r left right =
    rw (trim_space-operand l left, trim_space-operand r right) refl

-- A condition of two operands means the comparison that its operator names: with `==` and `!=` of the
-- texts of the left variable and of the right literal or variable, with `>=`, `<=`, `>` and `<` of the
-- left variable's number and the right number, in that order, or the error of the side that is none.
pub evaluate_lem :
    (go : Numbers) (vars : Variables) (l : String) (op : Operator) (r : String)
    → IsOperand l
    → IsOperand r
    → evaluate go vars (condition l op r) ≡ meaning go vars op l r
evaluate_lem go vars l op r left right =
    evaluate-apply_operator go vars l op r left right
    ∙ apply_operator-meaning go vars l op r left right

evaluate_text-name :
    (go : Numbers) (vars : Variables) (name : String)
    → unsigned name ≡ true
    → evaluate_text go vars name ≡ ok (evaluate_truthy go vars name)
unfolding evaluate_text
evaluate_text-name go vars name plain =
    rw
      (
        evaluate_text,
        absent equals name plain,
        absent not_equals name plain,
        absent at_least name plain,
        absent at_most name plain,
        absent above name plain,
        absent below name plain,
      )
      refl

-- A condition that is a name tells whether the variable is true, not zero, or not empty, and never fails.
pub evaluate-truthy :
    (go : Numbers) (vars : Variables) (name : String)
    → IsOperand name
    → evaluate go vars (text_append "${" (text_append name "}")) ≡ ok (evaluate_truthy go vars name)
unfolding evaluate
evaluate-truthy go vars name named =
    ap (evaluate go vars) (simp (append-joined))
    ∙ ap (evaluate_text go vars) (between name)
    ∙ evaluate_text-name go vars name named.plain

-- A condition and the one with the opposite test.
abbrev pub negated : Result String Bool → Result String Bool
negated r = elim r [ ok b ↦ ok (not b) | err e ↦ err e ]

-- Between the same two operands `!=` says the opposite of `==`, and neither fails.
pub evaluate-not_equals :
    (go : Numbers) (vars : Variables) (l r : String)
    → IsOperand l
    → IsOperand r
    → (evaluate go vars (condition l not_equals r)
        ≡ negated (evaluate go vars (condition l equals r)))
      × (is_ok (evaluate go vars (condition l equals r)) ≡ true)
unfolding apply_operator
evaluate-not_equals go vars l r left right = (
  evaluate-apply_operator go vars l not_equals r left right
      ∙ ap negated (sym (evaluate-apply_operator go vars l equals r left right)),
  ap is_ok (evaluate-apply_operator go vars l equals r left right),
)
