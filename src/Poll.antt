-- ===== src/Poll.antt =====
-- How a poll of a future or of a stream ends: std::task::Poll over an io::Result, or a panic.
use kcp_server.Error.{IoError}

pub data Poll {ℓ} (A : Type ℓ) : Type ℓ where
  done : A → Poll A
  failed : IoError → Poll A
  pending : Poll A
  panicked : Poll A
