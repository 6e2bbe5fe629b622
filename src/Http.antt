-- ===== src/Http.antt =====
-- What the routes raise: FastAPI's `HTTPException` with its status code and detail.
use vibe_voice_vendor.Base.{ℕ, Text}

pub record HttpException : Type 0 where
  pub status_code : ℕ
  pub detail : Text
