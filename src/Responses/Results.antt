-- ===== src/Responses/Results.antt =====
-- The response that a result becomes, and which handler gets it:
-- engine/internal/integration/nats/subscriber.go.
use proctssor.Prelude.{
  ℕ, ◌≡◌, refl, sym, ap, ◌∙◌, true, List, [], ◌∷◌, is_some, arith, Option-cases, inl, inr,
  if◌then◌else◌,
}
use proctssor.Token.{Token}
use proctssor.Execution.{ExecutionResult}
use proctssor.Responses.{
  success, error, ServiceResponse, taken, succeeded, failed, ResponseHandler, process_response,
  process_next, create_workflow_response,
}

-- The identifiers of a token.
pub record IsAbout (token : Token) (response : ServiceResponse) : Type 0 where
  pub same_instance : response.instance_id ≡ token.instance_id
  pub same_token : response.token_id ≡ token.id
  pub same_node : response.node_id ≡ token.node_id

process_next-first :
    (h : ResponseHandler) (response : ServiceResponse) (rest : List ServiceResponse)
    → h.response_chan ≡ response ∷ rest
    → (process_next h).0 ≡ taken response ∷ process_response h response
unfolding process_next process_response
process_next-first h response rest waiting = rw (process_next, waiting) refl

process_response-success :
    (h : ResponseHandler) (response : ServiceResponse)
    → h.success_set ≡ true
    → response.status ≡ success
    → process_response h response ≡ succeeded response ∷ []
unfolding process_response
process_response-success h response set status = ground (arith, set, status)

process_response-error :
    (h : ResponseHandler) (response : ServiceResponse)
    → h.error_set ≡ true
    → response.status ≡ error
    → process_response h response ≡ failed response ∷ []
unfolding process_response
process_response-error h response set status = ground (arith, set, status)

module _ (now : ℕ) (token : Token) (result : ExecutionResult) where
  abbrev made : ServiceResponse
  made = create_workflow_response now token result

  made-IsAbout : IsAbout token made × (made.output_variables ≡ result.variables)
  unfolding create_workflow_response
  made-IsAbout = elim (Option-cases result.error) [
    | inl fine ↦
        rw (create_workflow_response, fine)
          (record { same_instance = refl; same_token = refl; same_node = refl }, refl)
    | inr (e, faulted) ↦
        rw (create_workflow_response, faulted)
          (record { same_instance = refl; same_token = refl; same_node = refl }, refl)
  ]

  made-routed :
      (h : ResponseHandler)
      → h.success_set ≡ true
      → h.error_set ≡ true
      → process_response h made
        ≡ (if is_some result.error then failed made else succeeded made) ∷ []
  unfolding create_workflow_response
  made-routed h success_set error_set = elim (Option-cases result.error) [
    | inl fine ↦
        let status : made.status ≡ success = rw (create_workflow_response, fine) refl in
        process_response-success h made success_set status
        ∙ ap (λ o. (if is_some o then failed made else succeeded made) ∷ []) (sym fine)
    | inr (e, faulted) ↦
        let status : made.status ≡ error = rw (create_workflow_response, faulted) refl in
        process_response-error h made error_set status
        ∙ ap (λ o. (if is_some o then failed made else succeeded made) ∷ []) (sym faulted)
  ]

-- The response to an execution carries the token's identifiers and the variables of the result, and,
-- first in the channel with both handlers set, it goes to the error handler exactly if the result has
-- an error, and to the success handler else.
pub create_workflow_response_lem :
    (now : ℕ) (token : Token) (result : ExecutionResult) (h : ResponseHandler)
    (rest : List ServiceResponse)
    → h.success_set ≡ true
    → h.error_set ≡ true
    → h.response_chan ≡ create_workflow_response now token result ∷ rest
    → let response = create_workflow_response now token result in
      IsAbout token response
      × (response.output_variables ≡ result.variables)
      × ((process_next h).0
          ≡ taken response
            ∷ (if is_some result.error then failed response else succeeded response)
            ∷ [])
create_workflow_response_lem now token result h rest success_set error_set waiting =
    let (about, variables) = made-IsAbout now token result in
    (
      about,
      variables,
      process_next-first h (create_workflow_response now token result) rest waiting
          ∙ ap (λ acts. taken (create_workflow_response now token result) ∷ acts)
              (made-routed now token result h success_set error_set),
    )
