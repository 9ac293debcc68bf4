-- ===== src/Tests/Settings.antt =====
-- The settings at a concrete input.
use kcp_server.Base.{◌≡◌, refl}
use kcp_server.Setup.{set_interval}
use kcp_server.Tests.{fresh}

-- set_interval keeps an interval that its match brings into bounds.
set_interval_short : (set_interval fresh 1).interval ≡ 1
unfolding set_interval
set_interval_short = refl
