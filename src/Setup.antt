-- ===== src/Setup.antt =====
-- The settings of Kcp in src/kcp/kcp_module/kcp.rs, and src/kcp/kcp_module/kcp_config.rs.
pub mod Limits
use kcp_server.Base.{
  ℕ, ◌+◌, ◌-◌, Bool, true, false, ◌||◌, not, Option, none, some, length, min, max, ltb, leb, ◌==◌,
  if◌then◌else◌, ltb_ℤ, leb_ℤ, ℤ, pos, negsuc, pos_part, as_u32,
}
use kcp_server.Error.{Error}
use kcp_server.Segment.{overhead}
use kcp_server.Control.{Kcp, rto_ndl, rto_min, wnd_rcv}
use kcp_server.Outcome.{Outcome, ok, err, panic, ◌>>=◌}

-- The lines up to the two fields. The reserve of the buffer's capacity behind them is left out: it
-- grows the buffer, or panics where three times the MTU and more is no size of an allocation.
unfoldable pub set_mtu : Kcp → ℕ → Outcome Kcp Kcp
set_mtu k mtu =
    if ltb mtu 50 || ltb mtu overhead
    then err (Error.invalid_mtu mtu) k
    else ok (record k { mtu = mtu; mss = as_u32 (mtu - overhead) })

-- The match sets a bounded interval, and the line behind it sets it again.
unfoldable pub set_interval : Kcp → ℕ → Kcp
set_interval k interval =
    let k1 =
      (if ltb interval 10
        then record k { interval = 10 }
        else if ltb 5000 interval
        then record k { interval = 5000 }
        else record k { interval = interval }) in
    record k1 { interval = interval }

unfoldable pub set_nodelay : Kcp → Bool → ℤ → ℤ → Bool → Kcp
set_nodelay k nodelay interval resend nc =
    let k1 =
      (if nodelay
        then record k { nodelay = true; rx_minrto = rto_ndl }
        else record k { nodelay = false; rx_minrto = rto_min }) in
    let k2 =
      (if leb_ℤ (pos 0) interval
        then record k1 { interval = min (max (pos_part interval) 10) 5000 }
        else k1) in
    let k3 = (if leb_ℤ (pos 0) resend then record k2 { fastresend = pos_part resend } else k2) in
    record k3 { nocwnd = nc }

unfoldable pub set_wndsize : Kcp → ℕ → ℕ → Kcp
set_wndsize k sndwnd rcvwnd =
    let k1 = (if ltb 0 sndwnd then record k { snd_wnd = sndwnd } else k) in
    if ltb 0 rcvwnd then record k1 { rcv_wnd = max rcvwnd wnd_rcv } else k1

unfoldable pub set_rx_minrto : Kcp → ℕ → Kcp
set_rx_minrto k rto = record k { rx_minrto = rto }

unfoldable pub set_fast_resend : Kcp → ℕ → Kcp
set_fast_resend k fr = record k { fastresend = fr }

unfoldable pub set_stream : Kcp → Bool → Kcp
set_stream k stream = record k { stream = stream }

unfoldable pub set_maximum_resend_times : Kcp → ℕ → Kcp
set_maximum_resend_times k dead_link = record k { dead_link = dead_link }

unfoldable pub set_conversation : Kcp → ℕ → Kcp
set_conversation k conv = record k { conv = conv }

unfoldable pub request_conv : Kcp → Kcp
request_conv k = record k { input_conv = true }

unfoldable pub is_dead_link : Kcp → Bool
is_dead_link k = not (pos_part k.state == 0) || ltb_ℤ k.state (pos 0)

unfoldable pub wait_snd : Kcp → ℕ
wait_snd k = length k.snd_buf + length k.snd_queue

pub record KcpNoDelayConfig : Type 0 where
  pub nodelay : Bool
  pub interval : ℤ
  pub resend : ℤ
  pub nc : Bool

abbrev pub default_nodelay : KcpNoDelayConfig
default_nodelay = record { nodelay = false; interval = pos 100; resend = pos 0; nc = false }

-- KcpNoDelayConfig::fastest.
abbrev pub fastest : KcpNoDelayConfig
fastest = record { nodelay = true; interval = pos 10; resend = pos 2; nc = true }

-- A Duration is a number of milliseconds.
pub record KcpConfig : Type 0 where
  pub mtu : Option ℕ
  pub interval : Option ℕ
  pub nodelay : Option KcpNoDelayConfig
  pub wnd_size : Option (ℕ × ℕ)
  pub rx_minrto : Option ℕ
  pub session_expire : Option ℕ
  pub fast_resend : Option ℕ
  pub flush_write : Bool
  pub flush_acks_input : Bool
  pub stream : Bool

-- `impl Default for KcpConfig`.
abbrev pub default_config : KcpConfig
default_config = record {
  mtu = none;
  interval = none;
  nodelay = none;
  wnd_size = none;
  rx_minrto = some 10;
  session_expire = none;
  fast_resend = none;
  flush_write = true;
  flush_acks_input = true;
  stream = true;
}

-- An `if let` on an option: a setting, or the state as it is.
abbrev pub when_set {ℓ κ} : {A : Type ℓ} {S : Type κ} → Option A → (S → A → S) → S → S
when_set none f k = k
when_set (some a) f k = f k a

-- The settings behind the MTU.
unfoldable pub apply_settings : KcpConfig → Kcp → Kcp
unfolding set_interval set_nodelay set_rx_minrto set_wndsize set_fast_resend set_stream
apply_settings c k =
    let k1 = when_set c.interval set_interval k in
    let k2 = when_set c.nodelay (λ k n. set_nodelay k n.nodelay n.interval n.resend n.nc) k1 in
    let k3 = when_set c.rx_minrto set_rx_minrto k2 in
    let k4 = when_set c.wnd_size (λ k w. set_wndsize k w.0 w.1) k3 in
    let k5 = when_set c.fast_resend set_fast_resend k4 in set_stream k5 c.stream

-- `expect` panics on an error.
abbrev expect {ℓ κ} : {S : Type ℓ} {A : Type κ} → Outcome S A → Outcome S A
expect (ok a) = ok a
expect (err e s) = panic
expect panic = panic

unfoldable pub apply_config : KcpConfig → Kcp → Outcome Kcp Kcp
unfolding set_mtu apply_settings
apply_config c k = elim c.mtu [
  | none ↦ ok (apply_settings c k)
  | some mtu ↦ expect (set_mtu k mtu) >>= λ k1. ok (apply_settings c k1)
]
