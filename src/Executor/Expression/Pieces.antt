-- ===== src/Executor/Expression/Pieces.antt =====
-- How a condition comes apart: the text functions of engine/internal/core/executor/expression.go.
use Prim.Native.Char.{Char, code}
use Prim.Native.String.{String, ◌++◌ as text_append}
use text.Mathlib.TextLemmas.{nil-append, cons-append}
use proctssor.Prelude.{
  ◌≡◌, refl, sym, ◌∙◌, ap, Bool, true, false, not, ◌&&◌, ◌||◌, Option, none, some, leb, arith,
}
use proctssor.Executor.Delegate.{is_space, is_nothing, trim_start, trim_end, trim_space}
use proctssor.Executor.Expression.{strip_prefix, trim_suffix, split_first}

-- Appending, by the first text.
abbrev pub joined : String → String → String
joined String.[] t = t
joined (String.◌∷◌ c s) t = String.◌∷◌ c (joined s t)

pub append-joined : (s t : String) → text_append s t ≡ joined s t
append-joined String.[] t = nil-append t
append-joined (String.◌∷◌ c s) t = cons-append c s t ∙ ap (λ r. String.◌∷◌ c r) (append-joined s t)

-- The characters that operators are made of: `!`, `<`, `=` and `>`.
abbrev pub is_sign : Char → Bool
is_sign c = leb (code c) 33 && leb 33 (code c) || leb 60 (code c) && leb (code c) 62

abbrev pub unsigned : String → Bool
unsigned String.[] = true
unsigned (String.◌∷◌ c s) = not (is_sign c) && unsigned s

-- A separator does not begin within a text without such characters.
strip_prefix-unsigned :
    (sign c : Char) (sep s : String)
    → is_sign sign ≡ true
    → is_sign c ≡ false
    → strip_prefix (String.◌∷◌ sign sep) (String.◌∷◌ c s) ≡ none
unfolding strip_prefix
strip_prefix-unsigned sign c sep s signed plain = ground arith

abbrev pub after : String → Option (String × String) → Option (String × String)
after l o = elim o [ none ↦ none | some (left, right) ↦ some (joined l left, right) ]

after-nothing : (o : Option (String × String)) → after String.[] o ≡ o
after-nothing none = refl
after-nothing (some sides) = refl

after-after :
    (c : Char) (l : String) (o : Option (String × String))
    → (elim (after l o) [ none ↦ none | some (left, right) ↦ some (String.◌∷◌ c left, right) ])
      ≡ after (String.◌∷◌ c l) o
after-after c l none = refl
after-after c l (some sides) = refl

pub split_first-unsigned :
    (sign : Char) (sep l t : String)
    → is_sign sign ≡ true
    → unsigned l ≡ true
    → split_first (String.◌∷◌ sign sep) (joined l t) ≡ after l (split_first (String.◌∷◌ sign sep) t)
unfolding split_first
split_first-unsigned sign sep String.[] t signed plain =
    sym (after-nothing (split_first (String.◌∷◌ sign sep) t))
split_first-unsigned sign sep (String.◌∷◌ c l) t signed plain =
    rw
      (
        split_first,
        strip_prefix-unsigned sign c sep (joined l t) signed (ground arith),
        split_first-unsigned sign sep l t signed (ground arith),
      )
      (after-after c l (split_first (String.◌∷◌ sign sep) t))

pub split_first-none :
    (sign : Char) (sep l : String)
    → is_sign sign ≡ true
    → unsigned l ≡ true
    → split_first (String.◌∷◌ sign sep) l ≡ none
unfolding split_first strip_prefix
split_first-none sign sep String.[] signed plain = refl
split_first-none sign sep (String.◌∷◌ c l) signed plain =
    rw
      (
        split_first,
        strip_prefix-unsigned sign c sep l signed (ground arith),
        split_first-none sign sep l signed (ground arith),
      )
      refl

-- The ends of a text.
pub trim_suffix-joined : (s : String) → trim_suffix 125 (joined s "}") ≡ s
unfolding trim_suffix
trim_suffix-joined String.[] = refl
trim_suffix-joined (String.◌∷◌ c String.[]) = refl
trim_suffix-joined (String.◌∷◌ c (String.◌∷◌ d s)) =
    ap (λ r. String.◌∷◌ c r) (trim_suffix-joined (String.◌∷◌ d s))

is_nothing-joined : (s : String) → is_nothing (joined s "}") ≡ false
unfolding is_nothing
is_nothing-joined String.[] = refl
is_nothing-joined (String.◌∷◌ c s) = refl

pub trim_end-closed : (s : String) → trim_end (joined s "}") ≡ joined s "}"
unfolding trim_end
trim_end-closed String.[] = refl
trim_end-closed (String.◌∷◌ c s) =
    rw (trim_end, trim_end-closed s, is_nothing-joined s) (ground arith)

-- A blank at an end is trimmed away.
pub trim_end-blank : (s : String) → trim_end (joined s " ") ≡ trim_end s
unfolding trim_end is_nothing
trim_end-blank String.[] = refl
trim_end-blank (String.◌∷◌ c s) = rw (trim_end, trim_end-blank s) refl

abbrev pub starts_plain : String → Bool
starts_plain String.[] = false
starts_plain (String.◌∷◌ c s) = not (is_space c)

-- An operand of a condition: not empty, without a blank at either end and without a sign.
pub record IsOperand (s : String) : Type 0 where
  pub start : starts_plain s ≡ true
  pub end : trim_end s ≡ s
  pub plain : unsigned s ≡ true

pub trim_start-plain : (s t : String) → starts_plain s ≡ true → trim_start (joined s t) ≡ joined s t
unfolding trim_start
trim_start-plain String.[] t h = absurd (ground (arith, h))
trim_start-plain (String.◌∷◌ c s) t h = ground (arith, h)

joined-nil : (s : String) → joined s String.[] ≡ s
joined-nil String.[] = refl
joined-nil (String.◌∷◌ c s) = ap (λ r. String.◌∷◌ c r) (joined-nil s)

pub trim_space-operand : (s : String) → IsOperand s → trim_space s ≡ s
unfolding trim_space
trim_space-operand s h =
    ap trim_end
      (ap trim_start (sym (joined-nil s)) ∙ trim_start-plain s String.[] h.start ∙ joined-nil s)
    ∙ h.end

pub trim_space-left : (s : String) → IsOperand s → trim_space (joined s " ") ≡ s
unfolding trim_space
trim_space-left s h = ap trim_end (trim_start-plain s " " h.start) ∙ trim_end-blank s ∙ h.end

pub trim_space-right : (s : String) → IsOperand s → trim_space (joined " " s) ≡ s
unfolding trim_space trim_start
trim_space-right s h = trim_space-operand s h
