-- ===== src/Setup/Limits.antt =====
-- What the settings let through.
use kcp_server.Base.{◌≤◌, ◌≡◌, Bool, true, arith, ℤ, pos, leb_ℤ}
use kcp_server.Control.{Kcp}
use kcp_server.Setup.{set_nodelay}

-- set_nodelay: a given interval is brought into 10..5000.
pub set_nodelay-interval :
    (k : Kcp) (nodelay : Bool) (interval resend : ℤ) (nc : Bool)
    → leb_ℤ (pos 0) interval ≡ true
    → (10 ≤ (set_nodelay k nodelay interval resend nc).interval)
      × ((set_nodelay k nodelay interval resend nc).interval ≤ 5000)
unfolding set_nodelay
set_nodelay-interval k nodelay interval resend nc h = ground arith
