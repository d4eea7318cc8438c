-- ===== src/Executor/Expression/Task.antt =====
-- A service task with an expression: `executeExpression` of engine/internal/core/executor/executor.go
-- with the evaluator of engine/internal/core/executor/expression.go.
use Prim.Native.String.{String}
use proctssor.Prelude.{
  ℕ, ◌≡◌, refl, ap, ◌∙◌, Bool, true, Result, ok, err, Option, none, some, insert, arith,
}
use proctssor.Token.{bool, Variables}
use proctssor.Execution.{ExecutionResult}
use proctssor.Executor.Node.{Executor, ExecutorError, evaluation_failed, passes, execute_expression}
use proctssor.Executor.Expression.{
  Numbers, Operator, equals, not_equals, at_least, at_most, above, below, to_number,
  compare_trimmed, compare_numbers, apply_operator, evaluate,
}
use proctssor.Executor.Expression.Pieces.{IsOperand, trim_space-operand}
use proctssor.Executor.Expression.Comparison.{condition, evaluate-apply_operator}

-- The executor with the evaluator in its place, as `executeExpression` makes it.
abbrev pub with_evaluator : Numbers → Executor → Executor
with_evaluator go e = record e { evaluate = λ vars text. evaluate go vars text }

-- Why a condition cannot be evaluated: a side that is no number, where numbers are compared.
abbrev pub unreadable : Numbers → Variables → Operator → String → String → Option String
unreadable go vars equals l r = none
unreadable go vars not_equals l r = none
unreadable go vars _ l r = elim (to_number go vars l) [
  | err message ↦ some message
  | ok a ↦ elim (go.parse_float r) [ err message ↦ some message | ok b ↦ none ]
]

abbrev pub outcome : Variables → Option String → Result ExecutorError ExecutionResult
outcome vars reason = elim reason [
  | some message ↦ err (evaluation_failed message)
  | none ↦ ok (passes (insert "_lastExpressionResult" (bool true) vars))
]

-- What `executeExpression` makes of an evaluation.
abbrev concluded : Variables → Result String Bool → Result ExecutorError ExecutionResult
concluded vars r = elim r [
  | err message ↦ err (evaluation_failed message)
  | ok _ ↦ ok (passes (insert "_lastExpressionResult" (bool true) vars))
]

execute_expression-concluded :
    (go : Numbers) (e : Executor) (text : String) (vars : Variables)
    → execute_expression (with_evaluator go e) text vars ≡ concluded vars (evaluate go vars text)
unfolding execute_expression
execute_expression-concluded go e text vars = refl

compared :
    (go : Numbers) (vars : Variables) (test : ℕ → ℕ → Bool) (l r : String)
    → IsOperand l
    → IsOperand r
    → concluded vars (compare_numbers go vars test l r)
      ≡ outcome vars (unreadable go vars above l r)
unfolding compare_numbers compare_trimmed
compared go vars test l r left right =
    rw (trim_space-operand l left, trim_space-operand r right) (ground arith)

applied :
    (go : Numbers) (vars : Variables) (l : String) (op : Operator) (r : String)
    → IsOperand l
    → IsOperand r
    → concluded vars (apply_operator go vars op (l, r)) ≡ outcome vars (unreadable go vars op l r)
unfolding apply_operator
applied go vars l equals r left right = refl
applied go vars l not_equals r left right = refl
applied go vars l at_least r left right = compared go vars _ l r left right
applied go vars l at_most r left right = compared go vars _ l r left right
applied go vars l above r left right = compared go vars _ l r left right
applied go vars l below r left right = compared go vars _ l r left right

-- A service task whose expression compares two operands succeeds, with its result set to true, unless
-- numbers are compared and a side is none; what the comparison says makes no difference.
pub execute_expression-condition :
    (go : Numbers) (e : Executor) (vars : Variables) (l : String) (op : Operator) (r : String)
    → IsOperand l
    → IsOperand r
    → execute_expression (with_evaluator go e) (condition l op r) vars
      ≡ outcome vars (unreadable go vars op l r)
execute_expression-condition go e vars l op r left right =
    execute_expression-concluded go e (condition l op r) vars
    ∙ ap (concluded vars) (evaluate-apply_operator go vars l op r left right)
    ∙ applied go vars l op r left right
