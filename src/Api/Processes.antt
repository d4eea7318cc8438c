-- ===== src/Api/Processes.antt =====
-- The handlers of process definitions: engine/internal/api/handlers/processes.go. XML decoding and
-- the decimal text of a number are parameters. A request that gin could not read, or in which it
-- missed a field that is required, is its error.
pub mod Stored
pub mod Started
use Prim.Native.String.{◌++◌ as text_append}
use proctssor.Prelude.{
  ℕ, ℤ, pos, negsuc, String, ◌==◌, Bool, is_empty, length, [], ◌∷◌, Result, ok, err, Option, none,
  some, if◌then◌else◌, List, leb,
}
use proctssor.Bpmn.Process.{Process}
use proctssor.Bpmn.Validator.Report.{ValidationError}
use proctssor.Bpmn.Validator.{validate}
use proctssor.Api.{
  Reply, reply, ok_status, created, no_content, bad_request, not_found, server_error,
}
use proctssor.Api.Definitions.{
  Definition, Table, Fault, deploy_process, get_process_by_id, get_process_by_key, list_processes,
  delete_process,
}

pub record DeployRequest : Type 0 where
  pub process_key : String
  pub name : String
  pub xml : String
  pub version : ℤ

pub record DeployResponse : Type 0 where
  pub id : String
  pub process_key : String
  pub version : ℤ
  pub name : String

-- What `Get` and `GetByKey` show; only the latter adds the key.
pub record Details : Type 0 where
  pub id : String
  pub name : String
  pub process_key : Option String
  pub is_executable : String
  pub elements : ℕ
  pub flows : ℕ
  pub definition : String

pub data Body : Type 0 where
  error : String → Body
  deployed : DeployResponse → Body
  processes : List Definition → Body
  details : Details → Body
  xml : String → Body
  invalid : String → Body
  validated : Bool → List ValidationError → String → String → Body
  empty : Body

-- The version that a request means, and the identifier that a process gets.
unfoldable pub version_of : ℤ → ℤ
version_of (pos n) = if leb n 0 then pos 1 else pos n
version_of (negsuc n) = negsuc n

unfoldable pub id_of : (ℤ → String) → DeployRequest → String
id_of itoa req = text_append req.process_key (text_append "_" (itoa (version_of req.version)))

unfoldable pub name_of : DeployRequest → Process → String
name_of req process = if req.name == "" then process.name else req.name

unfoldable pub deploy :
    (String → Result String Process)
    → (ℤ → String)
    → Fault
    → ℕ
    → Result String DeployRequest
    → Table
    → Reply Body × Table
deploy parse itoa fault now body rows = elim body [
  | err e ↦ (reply bad_request (error e), rows)
  | ok req ↦ elim (parse req.xml) [
    | err e ↦ (reply bad_request (error (text_append "Invalid BPMN XML: " e)), rows)
    | ok process ↦
        let id = id_of itoa req in
        let name = name_of req process in
        let (failed, rows') = deploy_process fault now id name req.xml rows in
        let response : DeployResponse = record {
          id = id;
          process_key = req.process_key;
          version = version_of req.version;
          name = name;
        } in
        elim failed [
          | some e ↦ (reply server_error (error e), rows')
          | none ↦ (reply created (deployed response), rows')
        ]
  ]
]

unfoldable pub list : Fault → Table → Reply Body
list fault rows = elim (list_processes fault rows) [
  | err e ↦ reply server_error (error e)
  | ok found ↦ reply ok_status (processes found)
]

-- The end of `Get` and `GetByKey`.
unfoldable pub show : Option String → Process → String → Reply Body
show key process definition = reply ok_status (
    details (record {
      id = process.id;
      name = process.name;
      process_key = key;
      is_executable = process.is_executable;
      elements = length process.flow_element;
      flows = length process.sequence_flow;
      definition = definition;
    }))

unfoldable pub get : (String → Result String Process) → Fault → String → Table → Reply Body
get parse fault id rows = elim (get_process_by_id parse fault id rows) [
  | err e ↦ reply not_found (error "process not found")
  | ok (process, definition) ↦ show none process definition
]

unfoldable pub get_by_key : (String → Result String Process) → Fault → String → Table → Reply Body
get_by_key parse fault key rows = elim (get_process_by_key parse fault key rows) [
  | err e ↦ reply not_found (error e)
  | ok (process, definition) ↦ show (some key) process definition
]

unfoldable pub get_xml : (String → Result String Process) → Fault → String → Table → Reply Body
get_xml parse fault id rows = elim (get_process_by_id parse fault id rows) [
  | err e ↦ reply not_found (error e)
  | ok (process, definition) ↦ reply ok_status (xml definition)
]

unfoldable pub get_xml_by_key :
    (String → Result String Process) → Fault → String → Table → Reply Body
get_xml_by_key parse fault key rows = elim (get_process_by_key parse fault key rows) [
  | err e ↦ reply not_found (error e)
  | ok (process, definition) ↦ reply ok_status (xml definition)
]

unfoldable pub delete : Fault → String → Table → Reply Body × Table
delete fault id rows =
    let (failed, rows') = delete_process fault id rows in
    elim failed [
      | some e ↦ (reply server_error (error e), rows')
      | none ↦ (reply no_content empty, rows')
    ]

-- `Validate` of the XML of a request.
unfoldable pub validate_xml : (String → Result String Process) → Result String String → Reply Body
validate_xml parse body = elim body [
  | err e ↦ reply bad_request (error e)
  | ok text ↦ elim (parse text) [
    | err e ↦ reply bad_request (invalid e)
    | ok process ↦
        let errors = validate process in
        reply ok_status (validated (is_empty errors) errors process.id process.name)
  ]
]

-- The requests that change the table.
pub data Request : Type 0 where
  deploys : Fault → ℕ → Result String DeployRequest → Request
  deletes : Fault → String → Request

unfoldable pub serve :
    (String → Result String Process) → (ℤ → String) → List Request → Table → Table
serve parse itoa [] rows = rows
serve parse itoa (deploys fault now body ∷ later) rows =
    serve parse itoa later (deploy parse itoa fault now body rows).1
serve parse itoa (deletes fault id ∷ later) rows = serve parse itoa later (delete fault id rows).1
