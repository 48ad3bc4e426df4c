-- ===== src/Prelude/Http.antt =====
-- What an endpoint answers: a value, or FastAPI's `HTTPException` by its status code.
use Prim.Native.Nat.{ℕ}

pub data Response (A : Type 0) : Type 0 where
  ok : A → Response A
  http_error : ℕ → Response A
