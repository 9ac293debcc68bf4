-- ===== src/Tests/Sending.antt =====
-- The sender's theorems at concrete inputs.
use kcp_server.Base.{
  ℕ, zero, suc, ◌+◌, ◌-◌, ◌≤◌, ◌<◌, ◌≡◌, ◌^◌, refl, ap, true, List, [], ◌∷◌, ◌++◌, length, take,
  drop, arith, as_u32,
}
use kcp_server.Error.{Error}
use kcp_server.Segment.{Bytes, KcpSegment, new_with_data}
use kcp_server.Control.{Kcp, wnd_rcv}
use kcp_server.Outcome.{ok, err}
use kcp_server.Transmit.{send, send_rest, push_fragments, fragment_count, extend_back}
use kcp_server.Transmit.Message.{SentMessage, send-SentMessage, send-recv}
use kcp_server.Transmit.Stream.{SentStream, send-SentStream, send_stream_partial}
use kcp_server.Receive.{recv}
use kcp_server.Receive.Messages.{payloads, refilled}
use kcp_server.Ack.{parse_una, shrink_buf}
use kcp_server.Ack.Buffer.{Acknowledged, parse_una-Acknowledged}
use kcp_server.Ack.{parse_ack, parse_fastack}
use kcp_server.Ack.Selective.{IsInFlight, others, skipped, parse_ack-others}
use kcp_server.Base.{map}
use kcp_server.Tests.{fresh, push}

-- Two bytes to a segment.
abbrev narrow : Kcp
narrow = record (fresh) { mss = 2 }

abbrev streaming : Kcp
streaming = record (narrow) { stream = true; snd_queue = new_with_data (1 ∷ []) ∷ [] }

abbrev message : Bytes
message = 1 ∷ 2 ∷ 3 ∷ []

-- The fragments of the message.
abbrev fragments : List KcpSegment
fragments = record (new_with_data (1 ∷ 2 ∷ [])) { frg = 1 } ∷ new_with_data (3 ∷ []) ∷ []

send-message : send narrow message ≡ ok (3, record (narrow) { snd_queue = fragments })
unfolding send send_rest push_fragments fragment_count extend_back fresh
send-message = refl

send-SentMessage_example : SentMessage narrow message (send narrow message)
unfolding fresh
send-SentMessage_example = send-SentMessage narrow message (omega arith) refl

send-recv_example :
    recv (record (fresh) { rcv_queue = fragments }) (0 ∷ 0 ∷ 0 ∷ 4 ∷ [])
    ≡ ok (
      3,
      message ++ drop 3 (0 ∷ 0 ∷ 0 ∷ 4 ∷ []),
      refilled (record (fresh) { rcv_queue = fragments }),
    )
unfolding fresh
send-recv_example =
    send-recv narrow (record (narrow) { snd_queue = fragments })
      (record (fresh) { rcv_queue = fragments }) message (0 ∷ 0 ∷ 0 ∷ 4 ∷ []) 3 fragments []
      (omega arith) refl send-message refl refl (omega arith)

send-SentStream_example : SentStream streaming message (send streaming message)
unfolding fresh
send-SentStream_example = send-SentStream streaming message (omega arith) refl

-- A buffer of 300 bytes.
unfoldable many : ℕ → Bytes
many zero = []
many (suc n) = 5 ∷ many n

length-many : (n : ℕ) → length (many n) ≡ n
unfolding many
length-many zero = refl
length-many (suc n) = ap suc (length-many n)

many_fragments : wnd_rcv ≤ fragment_count 2 (length (many 300) - 1)
unfolding fragment_count
many_fragments = grind (arith, length-many 300)

send_stream_partial_example :
    (k' : Kcp) × (send streaming (many 300) ≡ err Error.user_buf_too_big k')
    × (payloads k'.snd_queue ≡ payloads streaming.snd_queue ++ take 1 (many 300))
    × (length (payloads streaming.snd_queue) < length (payloads k'.snd_queue))
unfolding fresh
send_stream_partial_example =
    send_stream_partial streaming (many 300) [] (new_with_data (1 ∷ [])) (omega arith) refl refl
      (omega arith) many_fragments (omega (arith, length-many 300))

abbrev numbered : ℕ → KcpSegment
numbered n = push (as_u32 n) []

-- Two segments in flight across the wrap of the numbers.
abbrev in_flight : Kcp
in_flight = record (fresh) { snd_nxt = 1; snd_buf = numbered (2 ^ 32 - 1) ∷ numbered (2 ^ 32) ∷ [] }

parse_una-Acknowledged_example :
    Acknowledged numbered
      (2 ^ 32 - 1)
      (2 ^ 32)
      (2 ^ 32 + 1)
      in_flight
      (shrink_buf (parse_una in_flight (as_u32 (2 ^ 32))))
unfolding fresh
parse_una-Acknowledged_example =
    parse_una-Acknowledged numbered (record { number = λ n. refl }) (2 ^ 32) (2 ^ 32 + 1)
      (2 ^ 32 - 1) in_flight (omega arith) (omega arith) (omega arith) refl
      (2 ^ 32 - 1, refl, omega arith, omega arith, (2 ^ 32, refl, omega arith, omega arith, tt))

-- Three segments in flight, the second of which is acknowledged.
abbrev three : Kcp
three = record (fresh) {
  snd_una = 5;
  snd_nxt = 8;
  snd_buf = numbered 5 ∷ numbered 6 ∷ numbered 7 ∷ [];
}

three-IsInFlight : IsInFlight 5 8 three
three-IsInFlight = record {
  una = refl;
  nxt = refl;
  bounds = (omega arith, omega arith, omega arith);
  sorted = (omega arith, omega arith, (omega arith, omega arith, (omega arith, omega arith, tt)));
}

parse_ack-others_example :
    ((parse_ack three 6).snd_buf ≡ others 6 three.snd_buf)
    × ((parse_fastack three 6).snd_buf ≡ map (skipped 6) three.snd_buf)
parse_ack-others_example = parse_ack-others 5 8 6 three three-IsInFlight (omega arith) (omega arith)
