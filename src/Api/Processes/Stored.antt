-- ===== src/Api/Processes/Stored.antt =====
-- What is found of the processes that were deployed: engine/internal/api/handlers/processes.go and
-- engine/internal/integration/postgres/repository.go.
use Prim.Native.String.{◌++◌ as text_append}
use proctssor.Prelude.{
  ℕ, ℤ, String, ◌≡◌, refl, sym, ap, subst, true, List, [], ◌∷◌, All, none, some, Result, ok, err,
  arith, ◌⊎◌, inl, inr,
}
use proctssor.Executor.Expression.Pieces.{append-joined}
use proctssor.Bpmn.Process.{Process}
use proctssor.Api.{reply, ok_status, created}
use proctssor.Api.Definitions.{
  Table, Fault, deploy_process, load, get_process_by_id, get_process_by_key, delete_process,
}
use proctssor.Api.Definitions.Keys.{
  spaceless, marked, spaceless-joined, marked-joined, IsPlain, latest-row, definition_of,
  deploy_process-definition, deploy_process-IsPlain, delete_process-IsPlain,
}
use proctssor.Api.Processes.{
  DeployRequest, xml, version_of, id_of, name_of, deploy, get_xml, delete, Request, deploys,
  deletes, serve,
}

-- The number's text has no space, as the documentation of `strconv.Itoa` says.
abbrev pub IsCompact : (ℤ → String) → Type 0
IsCompact itoa = (v : ℤ) → spaceless (itoa v) ≡ true

abbrev pub IsKeyed : Request → Type 0
IsKeyed (deploys fault now (ok req)) = spaceless req.process_key ≡ true
IsKeyed _ = Unit

pub id_of-spaceless :
    (itoa : ℤ → String) (req : DeployRequest)
    → IsCompact itoa
    → spaceless req.process_key ≡ true
    → spaceless (id_of itoa req) ≡ true
unfolding id_of
id_of-spaceless itoa req compact h =
    rw
      (
        append-joined req.process_key (text_append "_" (itoa (version_of req.version))),
        append-joined "_" (itoa (version_of req.version)),
      )
      (spaceless-joined req.process_key _ h (compact (version_of req.version)))

pub id_of-marked : (itoa : ℤ → String) (req : DeployRequest) → marked (id_of itoa req) ≡ true
unfolding id_of
id_of-marked itoa req =
    rw
      (
        append-joined req.process_key (text_append "_" (itoa (version_of req.version))),
        append-joined "_" (itoa (version_of req.version)),
      )
      (marked-joined req.process_key _ refl)

deploy-table :
    (parse : String → Result String Process) (itoa : ℤ → String) (fault : Fault) (now : ℕ)
    (req : DeployRequest) (rows : Table) (process : Process)
    → parse req.xml ≡ ok process
    → (deploy parse itoa fault now (ok req) rows).1
      ≡ (deploy_process fault now (id_of itoa req) (name_of req process) req.xml rows).1
unfolding deploy
deploy-table parse itoa fault now req rows process h = ground (arith, h)

deploy-unread :
    (parse : String → Result String Process) (itoa : ℤ → String) (fault : Fault) (now : ℕ)
    (req : DeployRequest) (rows : Table) (e : String)
    → parse req.xml ≡ err e
    → (deploy parse itoa fault now (ok req) rows).1 ≡ rows
unfolding deploy
deploy-unread parse itoa fault now req rows e h = ground (arith, h)

result-cases :
    {P : Type 0} (r : Result String P) → ((e : String) × (r ≡ err e)) ⊎ ((p : P) × (r ≡ ok p))
result-cases (err e) = inl (e, refl)
result-cases (ok p) = inr (p, refl)

delete-table :
    (fault : Fault) (id : String) (rows : Table)
    → (delete fault id rows).1 ≡ (delete_process fault id rows).1
unfolding delete
delete-table fault id rows = ground arith

deploy-IsPlain :
    (parse : String → Result String Process) (itoa : ℤ → String) (fault : Fault) (now : ℕ)
    (req : DeployRequest) (rows : Table)
    → IsCompact itoa
    → spaceless req.process_key ≡ true
    → All IsPlain rows
    → All IsPlain (deploy parse itoa fault now (ok req) rows).1
deploy-IsPlain parse itoa fault now req rows compact h plain = elim (result-cases (parse req.xml)) [
  | inl (e, bad) ↦
      subst (All IsPlain) (sym (deploy-unread parse itoa fault now req rows e bad)) plain
  | inr (process, read) ↦
      subst (All IsPlain) (sym (deploy-table parse itoa fault now req rows process read)) (
        deploy_process-IsPlain fault now _ (name_of req process) req.xml rows
          (id_of-spaceless itoa req compact h) (id_of-marked itoa req) plain)
]

pub serve-IsPlain :
    (parse : String → Result String Process) (itoa : ℤ → String) (requests : List Request)
    (rows : Table)
    → IsCompact itoa
    → All IsKeyed requests
    → All IsPlain rows
    → All IsPlain (serve parse itoa requests rows)
unfolding serve deploy
serve-IsPlain parse itoa [] rows compact h plain = plain
serve-IsPlain parse itoa (deploys fault now (ok req) ∷ later) rows compact h plain =
    serve-IsPlain parse itoa later _ compact h.1
      (deploy-IsPlain parse itoa fault now req rows compact h.0 plain)
serve-IsPlain parse itoa (deploys fault now (err e) ∷ later) rows compact h plain =
    serve-IsPlain parse itoa later rows compact h.1 plain
serve-IsPlain parse itoa (deletes fault id ∷ later) rows compact h plain =
    serve-IsPlain parse itoa later _ compact h.1 (
      subst (All IsPlain) (sym (delete-table fault id rows))
        (delete_process-IsPlain fault id rows plain))

-- After any requests whose keys have no space, looking a process up by its key is looking it up by
-- its whole identifier.
pub serve-by_key :
    (parse : String → Result String Process) (itoa : ℤ → String) (fault : Fault)
    (requests : List Request) (k : String)
    → IsCompact itoa
    → All IsKeyed requests
    → get_process_by_key parse fault k (serve parse itoa requests [])
      ≡ get_process_by_id parse fault k (serve parse itoa requests [])
unfolding get_process_by_key get_process_by_id
serve-by_key parse itoa fault requests k compact h =
    ap (load parse fault k) (latest-row k _ (serve-IsPlain parse itoa requests [] compact h tt))

get_xml-definition :
    (parse : String → Result String Process) (id d : String) (rows : Table) (process : Process)
    → definition_of id rows ≡ some d
    → parse d ≡ ok process
    → get_xml parse none id rows ≡ reply ok_status (xml d)
unfolding get_xml get_process_by_id load
get_xml-definition parse id d rows process stored read = ground (arith, stored, read)

deploy-stored :
    (parse : String → Result String Process) (itoa : ℤ → String) (now : ℕ) (req : DeployRequest)
    (rows : Table) (process : Process)
    → IsCompact itoa
    → spaceless req.process_key ≡ true
    → parse req.xml ≡ ok process
    → All IsPlain rows
    → ((deploy parse itoa none now (ok req) rows).0.status ≡ created)
      × (definition_of (id_of itoa req) (deploy parse itoa none now (ok req) rows).1 ≡ some req.xml)
unfolding deploy
deploy-stored parse itoa now req rows process compact h read plain = ground (
  arith,
  read,
  deploy_process-definition now (id_of itoa req) (name_of req process) req.xml rows
      (id_of-spaceless itoa req compact h) (id_of-marked itoa req) plain,
)

-- With a database that works, a process whose XML can be read and whose key has no space is deployed,
-- and its XML is then answered under its identifier, whatever was deployed and deleted before.
pub get_xml-deploy :
    (parse : String → Result String Process) (itoa : ℤ → String) (requests : List Request) (now : ℕ)
    (req : DeployRequest) (process : Process)
    → IsCompact itoa
    → All IsKeyed requests
    → spaceless req.process_key ≡ true
    → parse req.xml ≡ ok process
    → ((deploy parse itoa none now (ok req) (serve parse itoa requests [])).0.status ≡ created)
      × (get_xml parse none
            (id_of itoa req)
            (deploy parse itoa none now (ok req) (serve parse itoa requests [])).1
          ≡ reply ok_status (xml req.xml))
get_xml-deploy parse itoa requests now req process compact keyed h read =
    let rows : Table = serve parse itoa requests [] in
    let stored =
      deploy-stored parse itoa now req rows process compact h read
        (serve-IsPlain parse itoa requests [] compact keyed tt) in
    (stored.0, get_xml-definition parse (id_of itoa req) req.xml _ process stored.1 read)
