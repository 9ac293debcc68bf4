-- ===== src/Peer/Idle.antt =====
-- What a peer skips while it waits for its next update.
use kcp_server.Base.{ℕ, ◌≡◌, true, All, ltb_ℤ, pos}
use kcp_server.Control.{Kcp, timediff}

-- While a peer has nothing to do: no segment is due for a resend and no flush is due.
abbrev pub IsIdle : Kcp → ℕ → Type 0
IsIdle k t =
    All (λ s. ltb_ℤ (timediff t s.resendts) (pos 0) ≡ true) k.snd_buf
    × (ltb_ℤ (timediff t k.ts_flush) (pos 0) ≡ true)
