-- ===== src/Ack.antt =====
-- What Kcp does with an acknowledgement: the round-trip estimate, and the send buffer.
pub mod Buffer
pub mod Selective
use kcp_server.Base.{
  ℕ, ◌+◌, ◌-◌, ◌*◌, ◌/◌, Bool, ◌||◌, not, List, [], ◌∷◌, ◌++◌, min, max, ltb, leb, ◌==◌,
  if◌then◌else◌, ltb_ℤ, leb_ℤ, pos, add_u32, mul_u32,
}
use kcp_server.Segment.{KcpSegment}
use kcp_server.Control.{Kcp, timediff, rto_max}

-- `bound`.
unfoldable pub bound : ℕ → ℕ → ℕ → ℕ
bound lower v upper = min (max lower v) upper

-- `u32::abs_diff`.
abbrev pub abs_diff : ℕ → ℕ → ℕ
abs_diff a b = if ltb a b then b - a else a - b

-- The end of `update_ack`, from the new estimates on.
unfoldable pub set_rto : Kcp → Kcp
unfolding bound
set_rto k =
    let rto = add_u32 k.rx_srtt (max k.interval (mul_u32 4 k.rx_rttval)) in
    record k { rx_rto = bound k.rx_minrto rto rto_max }

unfoldable pub update_ack : Kcp → ℕ → Kcp
unfolding set_rto
update_ack k rtt =
    if k.rx_srtt == 0
    then set_rto (record k { rx_srtt = rtt; rx_rttval = rtt / 2 })
    else (let delta = abs_diff rtt k.rx_srtt in
        let rttval = add_u32 (mul_u32 3 k.rx_rttval) delta / 4 in
        let srtt = add_u32 (mul_u32 7 k.rx_srtt) rtt / 8 in
        set_rto (record k { rx_rttval = rttval; rx_srtt = (if ltb srtt 1 then 1 else srtt) }))

unfoldable pub front_sn : List KcpSegment → ℕ → ℕ
front_sn [] nxt = nxt
front_sn (s ∷ b) nxt = s.sn

unfoldable pub shrink_buf : Kcp → Kcp
unfolding front_sn
shrink_buf k = record k { snd_una = front_sn k.snd_buf k.snd_nxt }

-- The guard of `parse_ack` and `parse_fastack`: is `sn` outside what was sent and not acknowledged?
unfoldable pub out_of_flight : Kcp → ℕ → Bool
unfolding timediff
out_of_flight k sn = ltb_ℤ (timediff sn k.snd_una) (pos 0) || leb_ℤ (pos 0) (timediff sn k.snd_nxt)

-- The loop of `parse_ack`, by the plain order of the numbers.
unfoldable pub remove_acked : ℕ → List KcpSegment → List KcpSegment
remove_acked sn [] = []
remove_acked sn (s ∷ b) =
    let rest = remove_acked sn b in
    if sn == s.sn then b else if ltb sn s.sn then s ∷ b else s ∷ rest

unfoldable pub parse_ack : Kcp → ℕ → Kcp
unfolding out_of_flight remove_acked
parse_ack k sn = if out_of_flight k sn then k else record k { snd_buf = remove_acked sn k.snd_buf }

-- The loop of `parse_una`.
unfoldable pub drop_before : ℕ → List KcpSegment → List KcpSegment
drop_before una [] = []
drop_before una (s ∷ b) =
    let rest = drop_before una b in if ltb_ℤ (pos 0) (timediff una s.sn) then rest else s ∷ b

unfoldable pub parse_una : Kcp → ℕ → Kcp
unfolding drop_before timediff
parse_una k una = record k { snd_buf = drop_before una k.snd_buf }

-- The loop of `parse_fastack`.
unfoldable pub count_skips : ℕ → List KcpSegment → List KcpSegment
count_skips sn [] = []
count_skips sn (s ∷ b) =
    let rest = count_skips sn b in
    if ltb_ℤ (timediff sn s.sn) (pos 0)
    then s ∷ b
    else (if not (sn == s.sn) then record s { fastack = add_u32 s.fastack 1 } else s) ∷ rest

unfoldable pub parse_fastack : Kcp → ℕ → Kcp
unfolding out_of_flight count_skips
parse_fastack k sn =
    if out_of_flight k sn then k else record k { snd_buf = count_skips sn k.snd_buf }

unfoldable pub ack_push : Kcp → ℕ → ℕ → Kcp
ack_push k sn ts = record k { acklist = k.acklist ++ (sn, ts) ∷ [] }
