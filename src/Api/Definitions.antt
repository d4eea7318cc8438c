-- ===== src/Api/Definitions.antt =====
-- The table of process definitions: `PostgresProcessRepository` of
-- engine/internal/integration/postgres/repository.go. XML decoding is a parameter. A call of the
-- database fails, without a change, where its `Option String` is an error.
pub mod Keys
use Prim.Native.Char.{Char, code}
use Prim.Native.String.{◌++◌ as text_append}
use proctssor.Prelude.{
  ℕ, String, ◌==◌, Bool, true, false, ◌&&◌, not, List, [], ◌∷◌, select, exists, Option, none, some,
  is_some, if◌then◌else◌, Result, ok, err, leb, newest_first,
}
use proctssor.Executor.Delegate.{is_space}

pub record Definition : Type 0 where
  pub id : String
  pub process_key : String
  pub version : ℕ
  pub name : String
  pub definition : String
  pub deployed_at : ℕ

abbrev pub Table : Type 0
Table = List Definition

abbrev pub Fault : Type 0
Fault = Option String

-- What `fmt.Sscanf(id, "%s_%d", …)` reads: `%s` takes everything up to a space, so that the text that
-- is left never begins with the underscore, and the number is not read.
unfoldable pub first_word : String → String
first_word String.[] = String.[]
first_word (String.◌∷◌ c s) =
    let rest = first_word s in if is_space c then String.[] else String.◌∷◌ c rest

unfoldable pub skip_spaces : String → String
skip_spaces String.[] = String.[]
skip_spaces (String.◌∷◌ c s) =
    let rest = skip_spaces s in
    if is_space c && not (leb (code c) 10 && leb 10 (code c)) then rest else String.◌∷◌ c s

-- The key and the version of an identifier.
unfoldable pub scan_id : String → String × ℕ
scan_id id = let word = first_word (skip_spaces id) in if word == "" then (id, 1) else (word, 0)

abbrev pub has_key : String → ℕ → Definition → Bool
has_key key version row =
    (row.process_key == key) && (leb row.version version && leb version row.version)

-- `ON CONFLICT (process_key, version) DO UPDATE`.
unfoldable pub update_definition : String → ℕ → String → ℕ → Table → Table
update_definition key version definition now [] = []
update_definition key version definition now (row ∷ rows) =
    let rest = update_definition key version definition now rows in
    if has_key key version row
    then record row { definition = definition; deployed_at = now } ∷ rows
    else row ∷ rest

-- `DeployProcess` of a process with an identifier and a name; the answer is its error.
unfoldable pub deploy_process : Fault → ℕ → String → String → String → Table → Option String × Table
deploy_process fault now id name definition rows =
    let (key, version) = scan_id id in
    let row : Definition = record {
      id = id;
      process_key = key;
      version = version;
      name = name;
      definition = definition;
      deployed_at = now;
    } in
    let written : Option String × Table =
      if exists (has_key key version) rows
      then (none, update_definition key version definition now rows)
      else if exists (λ r. r.id == id) rows
      then (some (text_append "failed to deploy process: duplicate " id), rows)
      else (none, row ∷ rows) in
    if id == "" then (some "process is nil or has no ID", rows) else elim fault [
      | some e ↦ (some (text_append "failed to deploy process: " e), rows)
      | none ↦ written
    ]

-- The row that a query for one row gives: `WHERE id = $1`.
unfoldable pub row_of_id : String → Table → Option Definition
row_of_id id [] = none
row_of_id id (row ∷ rows) = if row.id == id then some row else row_of_id id rows

-- `WHERE process_key = $1 ORDER BY version DESC LIMIT 1`.
unfoldable pub latest_of_key : String → Table → Option Definition
latest_of_key key [] = none
latest_of_key key (row ∷ rows) =
    let best = latest_of_key key rows in
    if row.process_key == key
    then elim best [
      | none ↦ some row
      | some b ↦ if leb b.version row.version then some row else some b
    ]
    else best

-- The end of `GetProcessByID` and `GetProcessByKey`.
unfoldable pub load :
    {P : Type 0}
    → (String → Result String P)
    → Fault
    → String
    → Option Definition
    → Result String (P × String)
load parse fault name found = elim fault [
  | some e ↦ err (text_append "failed to get process: " e)
  | none ↦ elim found [
    | none ↦ err (text_append "process not found: " name)
    | some row ↦ elim (parse row.definition) [
      | err e ↦ err (text_append "failed to parse process definition: " e)
      | ok process ↦ ok (process, row.definition)
    ]
  ]
]

unfoldable pub get_process_by_id :
    {P : Type 0} → (String → Result String P) → Fault → String → Table → Result String (P × String)
get_process_by_id parse fault id rows = load parse fault id (row_of_id id rows)

unfoldable pub get_process_by_key :
    {P : Type 0} → (String → Result String P) → Fault → String → Table → Result String (P × String)
get_process_by_key parse fault key rows = load parse fault key (latest_of_key key rows)

-- The rows of each key with its greatest version.
abbrev pub is_latest : Table → Definition → Bool
is_latest rows row = elim (latest_of_key row.process_key rows) [
  | none ↦ false
  | some best ↦ leb row.version best.version && leb best.version row.version
]

unfoldable pub list_processes : Fault → Table → Result String Table
list_processes fault rows = elim fault [
  | some e ↦ err (text_append "failed to list processes: " e)
  | none ↦ ok (newest_first (λ row. row.deployed_at) (select (is_latest rows) rows))
]

unfoldable pub delete_process : Fault → String → Table → Option String × Table
delete_process fault id rows = elim fault [
  | some e ↦ (some (text_append "failed to delete process: " e), rows)
  | none ↦ (none, select (λ row. not (row.id == id)) rows)
]
