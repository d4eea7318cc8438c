-- ===== src/Api/Processes/Started.antt =====
-- Starting a deployed process: `StartInstance` of engine/internal/service/instance_service.go over
-- the repository of engine/internal/integration/postgres/repository.go.
use proctssor.Prelude.{
  ℕ, ℤ, String, ◌≡◌, false, ◌∙◌, List, [], All, Option, none, some, Result, ok, err, arith,
}
use proctssor.Bpmn.Process.{Process}
use proctssor.Token.{Variables}
use proctssor.Instance.Store.{World}
use proctssor.Instance.Service.{process_not_found}
use proctssor.Instance.Walk.{start_instance}
use proctssor.Api.Definitions.{Table, Fault, load, latest_of_key, get_process_by_key}
use proctssor.Api.Definitions.Keys.{marked, latest-row, row_of_id-unmarked}
use proctssor.Api.Processes.{Request, serve}
use proctssor.Api.Processes.Stored.{IsCompact, IsKeyed, serve-IsPlain}

-- The repository as `StartInstance` asks it; every error counts as a process that is not found.
unfoldable pub find_process :
    (String → Result String Process) → Fault → Table → String → Option Process
find_process parse fault rows key = elim (get_process_by_key parse fault key rows) [
  | err e ↦ none
  | ok (process, definition) ↦ some process
]

unlisted :
    (parse : String → Result String Process) (fault : Fault) (rows : Table) (key : String)
    → latest_of_key key rows ≡ none
    → find_process parse fault rows key ≡ none
unfolding find_process get_process_by_key load
unlisted parse fault rows key h = ground (arith, h)

-- After any deployments and deletions over HTTP under keys without a space, no instance can be
-- started under a key that has no underscore, also if a process was deployed under that very key.
pub start_instance-serve :
    (parse : String → Result String Process) (itoa : ℤ → String) (requests : List Request)
    (fault fault' : Fault) (fresh : String) (now : ℕ) (key : String) (variables : Variables)
    (w : World)
    → IsCompact itoa
    → All IsKeyed requests
    → marked key ≡ false
    → start_instance
        (find_process parse fault (serve parse itoa requests []))
        fault'
        fresh
        now
        key
        variables
        w
      ≡ (err (process_not_found key), w)
unfolding start_instance
start_instance-serve parse itoa requests fault fault' fresh now key variables w compact keyed h =
    let plain = serve-IsPlain parse itoa requests [] compact keyed tt in
    ground (
      arith,
      unlisted parse fault (serve parse itoa requests []) key
          (latest-row key _ plain ∙ row_of_id-unmarked key _ plain h),
    )
