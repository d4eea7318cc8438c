-- ===== src/Tests/Apis.antt =====
-- The theorems on the HTTP interface, tried on the deployment of a small process and on a table with
-- one running instance.
use proctssor.Prelude.{
  ℤ, pos, negsuc, String, ◌==◌, ◌≡◌, refl, [], ◌∷◌, List, All, Bool, true, false, none, some,
  Result, ok, err, lookup, if◌then◌else◌, leb,
}
use proctssor.Bpmn.Process.{Process}
use proctssor.Instance.Service.{process_not_found}
use proctssor.Instance.Store.{suspended}
use proctssor.Instance.Walk.{start_instance}
use proctssor.Instance.Status.{Command}
use proctssor.Api.{reply, ok_status, created, not_found, bad_request, server_error}
use proctssor.Api.Definitions.{scan_id, first_word, skip_spaces}
use proctssor.Api.Definitions.Keys.{spaceless}
use proctssor.Api.Processes.{
  DeployRequest, Request, deploys, deletes, serve, deploy, get_xml, xml, id_of, version_of,
}
use proctssor.Api.Processes.Stored.{IsCompact, IsKeyed, get_xml-deploy}
use proctssor.Api.Processes.Started.{find_process, start_instance-serve}
use proctssor.Api.Instances.{
  suspend, resume, terminate, put_variables, get_by_id, get_variables, complete_task,
}
use proctssor.Api.Instances.Statuses.{handle, IsReplied, handle_lem, handle_missing}
use proctssor.Tests.Samples.{tidy, receipt}
use proctssor.Tests.Instances.{instance_1, world, instance_1-IsRow}

abbrev read_xml : String → Result String Process
read_xml text = if text == "<order/>" then ok tidy else err "no process"

abbrev one_or_two : Bool → String
one_or_two b = if b then "1" else "2"

one_or_two-spaceless : (b : Bool) → spaceless (one_or_two b) ≡ true
one_or_two-spaceless true = refl
one_or_two-spaceless false = refl

abbrev digits : ℤ → String
digits (pos n) = one_or_two (leb n 1)
digits (negsuc n) = "-1"

digits-IsCompact : IsCompact digits
digits-IsCompact (pos n) = one_or_two-spaceless (leb n 1)
digits-IsCompact (negsuc n) = refl

abbrev order_request : DeployRequest
order_request = record { process_key = "order"; name = ""; xml = "<order/>"; version = pos 2 }

abbrev before : List Request
before =
    deploys none 1 (ok (record order_request { version = pos 0 })) ∷ deletes none "order_7" ∷ []

before-IsKeyed : All IsKeyed before
before-IsKeyed = (refl, (tt, tt))

-- The second version comes beside the first, each under its own identifier.
order_identified : id_of digits order_request ≡ "order_2"
unfolding id_of version_of
order_identified = refl

order_scanned : scan_id "order_2" ≡ ("order_2", 0)
unfolding scan_id first_word skip_spaces
order_scanned = refl

get_xml-deploy_example :
    ((deploy read_xml digits none 5 (ok order_request) (serve read_xml digits before [])).0.status
      ≡ created)
    × (get_xml read_xml none
          (id_of digits order_request)
          (deploy read_xml digits none 5 (ok order_request) (serve read_xml digits before [])).1
        ≡ reply ok_status (xml "<order/>"))
get_xml-deploy_example =
    get_xml-deploy read_xml digits before 5 order_request tidy digits-IsCompact before-IsKeyed refl
      refl

start_instance-serve_example :
    start_instance
      (find_process read_xml none (serve read_xml digits before []))
      none
      "f"
      9
      "order"
      receipt
      world
    ≡ (err (process_not_found "order"), world)
start_instance-serve_example =
    start_instance-serve read_xml digits before none none "f" 9 "order" receipt world
      digits-IsCompact before-IsKeyed refl

handle_lem_example :
    IsReplied Command.suspend "i" instance_1 world
      (handle Command.suspend (λ k. none) "i" world)
      (some suspended)
handle_lem_example =
    handle_lem Command.suspend (λ k. none) "i" instance_1 world instance_1-IsRow (λ k. refl)

unknown : lookup "j" world.instances ≡ none
unfolding lookup
unknown = refl

handle_missing_example :
    ((get_by_id none "j" world).status ≡ not_found)
    × (((get_variables none "j" world).status ≡ not_found)
        × ((((suspend (λ k. none) "j" world).0.status ≡ bad_request)
              × ((suspend (λ k. none) "j" world).1 ≡ world))
            × ((((resume (λ k. none) "j" world).0.status ≡ bad_request)
                  × ((resume (λ k. none) "j" world).1 ≡ world))
                × ((((terminate (λ k. none) 3 "j" world).0.status ≡ bad_request)
                      × ((terminate (λ k. none) 3 "j" world).1 ≡ world))
                    × ((((complete_task (λ k. none) "j" "t" (err "EOF") world).0.status
                            ≡ bad_request)
                          × ((complete_task (λ k. none) "j" "t" (err "EOF") world).1 ≡ world))
                        × (((put_variables (λ k. none) false "j" (ok receipt) world).0.status
                              ≡ server_error)
                            × ((put_variables (λ k. none) false "j" (ok receipt) world).1
                                ≡ world)))))))
handle_missing_example =
    handle_missing (λ k. none) false 3 "j" "t" receipt (err "EOF") world unknown refl
