-- ===== src/Tests/Reading.antt =====
-- The theorems on datagrams and on the cipher at concrete inputs.
use kcp_server.Base.{inr, ℕ, true, ◌≤◌, ◌≡◌, refl, some, List, [], ◌∷◌, ◌++◌, length, arith}
use kcp_server.Segment.{Bytes, KcpSegment, encode, get_u32_le, read_header}
use kcp_server.Segment.RoundTrip.{Fits, on_wire, encode-read_header}
use kcp_server.Cipher.{decode}
use kcp_server.Cipher.Laws.{decode-cyclic, xor_cyclic}
use kcp_server.Input.Total.{input-Ends}
use kcp_server.Outcome.{Ends}
use kcp_server.Control.{Kcp}
use kcp_server.Input.{input, input_plain, known_cmd}
use kcp_server.Input.Loop.{IsValid, datagram, handle_all, start, concluded, input_plain-datagram}
use kcp_server.Input.Parses.{Parsed, read_header-Parsed}
use kcp_server.Tests.{fresh, push}

abbrev key : Bytes
key = 17 ∷ 250 ∷ []

abbrev bytes : Bytes
bytes = 1 ∷ 2 ∷ 255 ∷ []

decode-cyclic_example : decode (some key) bytes ≡ xor_cyclic key 0 bytes
decode-cyclic_example = decode-cyclic key bytes (omega arith)

push-Fits : Fits (push 3 bytes)
push-Fits = record {
  conv_fits = omega arith;
  cmd_fits = omega arith;
  frg_fits = omega arith;
  wnd_fits = omega arith;
  ts_fits = omega arith;
  sn_fits = omega arith;
  una_fits = omega arith;
  len_fits = omega arith;
}

encode-read_header_example :
    (wire after : Bytes) × (encode (push 3 bytes) [] ≡ some wire)
    × (get_u32_le (wire ++ 9 ∷ []) ≡ some ((push 3 bytes).conv, after))
    × (read_header (push 3 bytes).conv after
        ≡ some (record (on_wire (push 3 bytes)) { payload = [] }, length bytes, bytes ++ 9 ∷ []))
encode-read_header_example = encode-read_header (push 3 bytes) (9 ∷ []) push-Fits

-- A datagram of two segments and one byte more.
abbrev pair : List KcpSegment
pair = push 3 bytes ∷ push 3 bytes ∷ []

push-IsValid : IsValid fresh.conv (push 3 bytes)
unfolding fresh known_cmd
push-IsValid = record { fits = push-Fits; same_conv = refl; command = refl }

input_plain-datagram_example :
    let r = handle_all pair (9 ∷ []) (start fresh (datagram pair ++ 9 ∷ [])) in
    (input_plain fresh (datagram pair ++ 9 ∷ []) ≡ concluded fresh r)
    × (r.position ≡ length (datagram pair))
input_plain-datagram_example =
    input_plain-datagram fresh pair (9 ∷ []) (push-IsValid, (push-IsValid, tt)) (λ e. cc)
      (omega arith)

-- A datagram of five bytes, which is shorter than a header.
input-Ends_example :
    Ends
      (λ (x : ℕ × Kcp). (x.0 ≤ 5) × (x.1.mss ≡ fresh.mss))
      (λ k'. k'.mss ≡ fresh.mss)
      (input fresh (1 ∷ 2 ∷ 3 ∷ 4 ∷ 5 ∷ []) true)
unfolding fresh
input-Ends_example =
    input-Ends fresh (1 ∷ 2 ∷ 3 ∷ 4 ∷ 5 ∷ []) true (omega arith) (inr (omega arith))

-- A header with a payload of two bytes.
abbrev arrived : Bytes
arrived =
    7 ∷ 0 ∷ 0 ∷ 0 ∷ 81 ∷ 0 ∷ 128 ∷ 0 ∷ 1 ∷ 2 ∷ 3 ∷ 4 ∷ 200 ∷ 0 ∷ 0 ∷ 0 ∷ 0 ∷ 1 ∷ 0 ∷ 255 ∷ 2 ∷ 0 ∷ 0
    ∷ 0 ∷ 9 ∷ 8 ∷ []

read_header-Parsed_example : Parsed arrived
read_header-Parsed_example = read_header-Parsed arrived (omega arith) (
  omega arith,
  (
    omega arith,
    (
      omega arith,
      (
        omega arith,
        (
          omega arith,
          (
            omega arith,
            (
              omega arith,
              (
                omega arith,
                (
                  omega arith,
                  (
                    omega arith,
                    (
                      omega arith,
                      (
                        omega arith,
                        (
                          omega arith,
                          (
                            omega arith,
                            (
                              omega arith,
                              (
                                omega arith,
                                (
                                  omega arith,
                                  (
                                    omega arith,
                                    (
                                      omega arith,
                                      (
                                        omega arith,
                                        (
                                          omega arith,
                                          (
                                            omega arith,
                                            (
                                              omega arith,
                                              (omega arith, (omega arith, (omega arith, tt))),
                                            ),
                                          ),
                                        ),
                                      ),
                                    ),
                                  ),
                                ),
                              ),
                            ),
                          ),
                        ),
                      ),
                    ),
                  ),
                ),
              ),
            ),
          ),
        ),
      ),
    ),
  ),
)
