-- ===== src/Response.antt =====
-- The answers of the HTTP handlers, as `writeJSON` sends them.
use bandolier.Prelude.{ℕ, String}

-- The status of the answer, with the error text or the deployment's id.
pub data Response : Type 0 where
  no_content : Response
  accepted : String → Response
  bad_request : String → Response
  not_found_answer : String → Response
  conflict : String → Response
  server_error : String → Response
  -- 503, and 201 with the id of the new row
  unavailable : String → Response
  created : ℕ → Response
  -- 200 with a status text
  okay : String → Response
  -- 201 with the status `ok`, and 401
  created_ok : Response
  unauthorized : String → Response
  not_implemented : String → Response

-- The answer of a handler that reads: its rows, or an error.
pub data Reply {ℓ} (A : Type ℓ) : Type ℓ where
  sent : A → Reply A
  refused : Response → Reply A
