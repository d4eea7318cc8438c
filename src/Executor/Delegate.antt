-- ===== src/Executor/Delegate.antt =====
-- `${service.action}`: `DelegateExpressionParser` of
-- engine/internal/core/executor/delegate_expression.go. Go's regular expression
-- `^\$\{(\w+)\.(\w+)\}$` is read by hand: `\w` is an ASCII letter, digit or underscore, so each
-- group ends at the first other character.
use Prim.Native.Char.{Char, code}
use Prim.Native.String.{String}
use proctssor.Prelude.{ℕ, Bool, true, false, ◌&&◌, ◌||◌, Option, none, some, leb, if◌then◌else◌}

-- `unicode.IsSpace`.
abbrev pub is_space : Char → Bool
is_space c =
    let n = code c in
    (leb 9 n && leb n 13)
    || leb 32 n && leb n 32
    || leb 133 n && leb n 133
    || leb 160 n && leb n 160
    || leb 5760 n && leb n 5760
    || leb 8192 n && leb n 8202
    || leb 8232 n && leb n 8233
    || leb 8239 n && leb n 8239
    || leb 8287 n && leb n 8287
    || leb 12288 n && leb n 12288

unfoldable pub is_nothing : String → Bool
is_nothing String.[] = true
is_nothing (String.◌∷◌ c s) = false

unfoldable pub trim_start : String → String
trim_start String.[] = String.[]
trim_start (String.◌∷◌ c s) = let rest = trim_start s in if is_space c then rest else String.◌∷◌ c s

unfoldable pub trim_end : String → String
trim_end String.[] = String.[]
trim_end (String.◌∷◌ c s) =
    let rest = trim_end s in if is_space c && is_nothing rest then String.[] else String.◌∷◌ c rest

-- `strings.TrimSpace`.
unfoldable pub trim_space : String → String
unfolding is_nothing trim_start trim_end
trim_space s = trim_end (trim_start s)

abbrev pub is_word : Char → Bool
is_word c =
    let n = code c in
    leb 48 n && leb n 57 || leb 65 n && leb n 90 || leb 95 n && leb n 95 || leb 97 n && leb n 122

-- The longest start of word characters, and what follows it.
unfoldable pub span_word : String → String × String
span_word String.[] = (String.[], String.[])
span_word (String.◌∷◌ c s) =
    let (word, rest) = span_word s in
    if is_word c then (String.◌∷◌ c word, rest) else (String.[], String.◌∷◌ c s)

-- `(\w+)`.
group : String → Option (String × String)
unfolding is_nothing
group s = let (word, rest) = span_word s in if is_nothing word then none else some (word, rest)

-- One literal character.
literal : ℕ → String → Option String
literal n String.[] = none
literal n (String.◌∷◌ c s) = if leb (code c) n && leb n (code c) then some s else none

infixl 5 ◌>>=◌
abbrev ◌>>=◌ : {A B : Type 0} → Option A → (A → Option B) → Option B
o >>= f = elim o [ none ↦ none | some a ↦ f a ]

-- `Parse`: the name of the service and of its action.
unfoldable pub parse : String → Option (String × String)
unfolding literal group is_nothing
parse expression = do
  s1 ← literal 36 (trim_space expression)
  s2 ← literal 123 s1
  (service, s3) ← group s2
  s4 ← literal 46 s3
  (action, s5) ← group s4
  s6 ← literal 125 s5
  if is_nothing s6 then some (service, action) else none
