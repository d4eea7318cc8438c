-- ===== src/Workers/Notification/Webhook.antt =====
-- The attempts at a webhook: notification-service/internal/service/handler.go.
use Prim.Native.Nat.{ℕ, ◌≤◌, ◌<◌}
use proctssor.Prelude.{
  String, ◌≡◌, [], ◌∷◌, ◌++◌, Map, Option, none, Result, ok, err, length, All, ◌⊎◌,
}
use proctssor.Workers.Notification.{Request, Requests, World, left_in}

-- A request of the webhook, with what was left of what the reader held at first.
pub record IsAttempt (method url : String) (headers : Map String) (reader : Option String)
    (request : Request) : Type 0 where
  pub same_method : request.method ≡ method
  pub same_url : request.url ≡ url
  pub same_headers : request.headers ≡ headers
  pub from_reader : (n : ℕ) × (request.body ≡ left_in n reader)

-- The first request has all that the reader held.
abbrev pub IsFirst : Option String → Requests → Type 0
IsFirst reader [] = Unit
IsFirst reader (request ∷ more) = request.body ≡ reader

-- What the attempts come to: the requests that they add are of the webhook and no more than allowed;
-- an answer that counts is below 400; and without one there were as many requests as allowed.
pub record Tried (w : World) (method url : String) (headers : Map String) (left : ℕ)
    (reader : Option String) (t : Requests) (r : Result (Option String) (ℕ × String) × Requests)
    : Type 0 where
  pub made : Requests
  pub added : r.1 ≡ t ++ made
  pub attempts : All (IsAttempt method url headers reader) made
  pub first : IsFirst reader made
  pub bounded : length made ≤ left
  pub settled :
      ((answer : ℕ × String) × (r.0 ≡ ok answer) × (answer.0 < 400))
      ⊎ ((last : Option String) × (r.0 ≡ err last)
          × (w.refuses method url ≡ none → length made ≡ left))

module _ (w : World) (method url : String) (headers : Map String) where
  abbrev Outcome :
      ℕ → Option String → Requests → Result (Option String) (ℕ × String) × Requests → Type 0
  Outcome left reader t r = Tried w method url headers left reader t r
