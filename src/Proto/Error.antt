-- ===== src/Proto/Error.antt =====
-- The errors of internal/proto/error.go.
use eswim.Base.{ℕ}

pub data Error : Type 0 where
  could_not_parse_packet : Error
  no_decoder : ℕ → Error
  no_event_decoder : ℕ → Error
