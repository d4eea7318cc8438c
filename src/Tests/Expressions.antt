-- ===== src/Tests/Expressions.antt =====
-- The theorems on conditions, tried on one with two names and on one with a number.
use proctssor.Prelude.{
  pos, negsuc, ◌==◌, ◌≡◌, refl, [], ◌∷◌, true, false, ok, err, lookup, if◌then◌else◌, leb, ltb,
}
use proctssor.Token.{Variables, reference}
use proctssor.Executor.Delegate.{trim_space, trim_end, is_nothing}
use proctssor.Executor.Expression.{
  Numbers, Reference, apply_operator, evaluate, at_least, evaluate_text, split_first, strip_prefix,
  trim_prefix, trim_suffix, get_value, to_number, compare_numbers, compare_trimmed,
}
use proctssor.Executor.Expression.Pieces.{IsOperand}
use proctssor.Executor.Expression.Comparison.{condition, meaning, evaluate_lem}
use proctssor.Executor.Expression.Task.{
  with_evaluator, unreadable, outcome, execute_expression-condition,
}
use proctssor.Executor.Node.{execute_expression}
use proctssor.Executor.Expression.{below}
use proctssor.Tests.Instances.{lone}

-- Floats that are natural numbers, of which the text 10 is read.
abbrev naturals : Numbers
naturals = record {
  reference_of = λ n. Reference.float n;
  parse_float = λ text. if text == "10" then ok 10 else err "invalid syntax";
  float_of = λ i. elim i [ pos n ↦ n | negsuc n ↦ 0 ];
  int_text = λ i. "0";
  float_text = λ x. if leb x 9 then "9" else "10";
  int_is_zero = λ i. false;
  float_is_zero = λ x. leb x 0;
  greater = λ a b. ltb b a;
  greater_or_equal = λ a b. leb b a;
}

abbrev amounts : Variables
amounts = ("amount", reference 12) ∷ []

-- A condition without blanks.
amount_enough : evaluate naturals amounts "${amount>=10}" ≡ ok true
unfolding evaluate evaluate_text apply_operator split_first strip_prefix trim_prefix trim_suffix
    trim_space get_value to_number compare_numbers compare_trimmed lookup
amount_enough = refl

amount-IsOperand : IsOperand "amount"
unfolding trim_end is_nothing
amount-IsOperand = record { start = refl; end = refl; plain = refl }

ten-IsOperand : IsOperand "10"
unfolding trim_end is_nothing
ten-IsOperand = record { start = refl; end = refl; plain = refl }

evaluate_lem_example :
    evaluate naturals amounts (condition "amount" at_least "10")
    ≡ meaning naturals amounts at_least "amount" "10"
evaluate_lem_example =
    evaluate_lem naturals amounts "amount" at_least "10" amount-IsOperand ten-IsOperand

-- What the comparison says is not in the result.
execute_expression-condition_example :
    execute_expression (with_evaluator naturals lone) (condition "amount" below "10") amounts
    ≡ outcome amounts (unreadable naturals amounts below "amount" "10")
execute_expression-condition_example =
    execute_expression-condition naturals lone amounts "amount" below "10" amount-IsOperand
      ten-IsOperand
