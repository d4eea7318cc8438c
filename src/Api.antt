-- ===== src/Api.antt =====
-- The HTTP interface: engine/internal/api/handlers. A handler gets the request as gin has read it,
-- and gives the reply and what it leaves behind.
pub mod Definitions
pub mod Processes
pub mod Instances
use proctssor.Prelude.{ℕ, String}

pub record Reply (B : Type 0) : Type 0 where
  pub status : ℕ
  pub body : B

abbrev pub reply : {B : Type 0} → ℕ → B → Reply B
reply status body = record { status = status; body = body }

-- The statuses that the handlers use.
abbrev pub ok_status : ℕ
ok_status = 200

abbrev pub created : ℕ
created = 201

abbrev pub no_content : ℕ
no_content = 204

abbrev pub bad_request : ℕ
bad_request = 400

abbrev pub not_found : ℕ
not_found = 404

abbrev pub server_error : ℕ
server_error = 500
