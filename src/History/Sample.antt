-- ===== src/History/Sample.antt =====
-- `Sample` of internal/server/history.go.
use rbr_mp_server.Common.{ℕ}
use rbr_mp_server.Clock.{Time}
use rbr_mp_server.Protocol.Types.{Transform, Telemetry}

pub record Sample : Type 0 where
  pub recv_at : Time
  pub client_time_ms : ℕ
  pub transform : Transform
  pub telemetry : Telemetry
