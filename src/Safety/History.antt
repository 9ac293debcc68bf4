-- ===== src/Safety/History.antt =====
-- Two control blocks, each a Kcp of src/kcp/kcp_module/kcp.rs, and the history of the calls on both
-- and of the datagrams that reach them over a network.
use kcp_server.Base.{◌++◌, ◌≡◌, ℕ, some, true, Option, none, get_elem?, List, [], ◌∷◌}
use kcp_server.Segment.{Bytes}
use kcp_server.Control.{Kcp, UdpSend}
use kcp_server.Safety.Operations.{Hands, numbers, Operation, perform, LongEnough}

pub record Link : Type 0 where
  pub left : Kcp
  pub right : Kcp

-- One end makes a call, where what it reads may be forged, or a datagram that the other end sent
-- at some time arrives.
pub data Event : Type 0 where
  left_calls : Operation → Event
  right_calls : Operation → Event
  reaches_left : ℕ → Event
  reaches_right : ℕ → Event

-- What arrives is given to `input`; there may be no such datagram.
abbrev pub arrive : UdpSend → Option Bytes → Kcp → Option Kcp
arrive udp none k = some k
arrive udp (some d) k = perform udp (Operation.inputs d true) k

abbrev pub with_left : Link → Option Kcp → Option Link
with_left n none = none
with_left n (some k) = some (record n { left = k })

abbrev pub with_right : Link → Option Kcp → Option Link
with_right n none = none
with_right n (some k) = some (record n { right = k })

-- What an event makes of the two ends; `none` is a panic.
unfoldable pub happen : UdpSend → UdpSend → Event → Link → Option Link
happen u v (Event.left_calls op) n = with_left n (perform u op n.left)
happen u v (Event.right_calls op) n = with_right n (perform v op n.right)
happen u v (Event.reaches_left i) n =
    with_left n (arrive u (get_elem? n.right.output.sent i) n.left)
happen u v (Event.reaches_right i) n =
    with_right n (arrive v (get_elem? n.left.output.sent i) n.right)

abbrev pub happen_next : Option Link → (Link → Option Link) → Option Link
happen_next none next = none
happen_next (some n) next = next n

unfoldable pub happen_all : UdpSend → UdpSend → List Event → Link → Option Link
happen_all u v [] n = some n
happen_all u v (e ∷ es) n = happen_next (happen u v e n) (happen_all u v es)

-- A datagram to be decoded has four bytes at least.
abbrev pub Answerable : Event → Type 0
Answerable (Event.left_calls op) = LongEnough op
Answerable (Event.right_calls op) = LongEnough op
Answerable (Event.reaches_left i) = Unit
Answerable (Event.reaches_right i) = Unit

-- There was no panic, and the ends have the property.
abbrev pub Outlives : (Link → Type 0) → Option Link → Type 0
Outlives P none = ⊥
Outlives P (some n) = P n

pub Outlives-map :
    (P Q : Link → Type 0) (o : Option Link) → ((n : Link) → P n → Q n) → Outlives P o → Outlives Q o
Outlives-map P Q none f h = h
Outlives-map P Q (some n) f h = f n h

-- What an event adds to the bytes that an end is to send.
abbrev pub LeftHands : Event → Link → Bytes → Type 0
LeftHands (Event.left_calls op) n b = Hands op n.left b
LeftHands (Event.right_calls op) n b = b ≡ []
LeftHands (Event.reaches_left i) n b = b ≡ []
LeftHands (Event.reaches_right i) n b = b ≡ []

abbrev pub RightHands : Event → Link → Bytes → Type 0
RightHands (Event.left_calls op) n b = b ≡ []
RightHands (Event.right_calls op) n b = Hands op n.right b
RightHands (Event.reaches_left i) n b = b ≡ []
RightHands (Event.reaches_right i) n b = b ≡ []

-- What an event gives numbers at an end.
abbrev pub left_numbers : Event → Link → Link → List (ℕ × Bytes)
left_numbers (Event.left_calls op) n n' = numbers op n.left n'.left
left_numbers (Event.right_calls op) n n' = []
left_numbers (Event.reaches_left i) n n' = []
left_numbers (Event.reaches_right i) n n' = []

abbrev pub right_numbers : Event → Link → Link → List (ℕ × Bytes)
right_numbers (Event.left_calls op) n n' = []
right_numbers (Event.right_calls op) n n' = numbers op n.right n'.right
right_numbers (Event.reaches_left i) n n' = []
right_numbers (Event.reaches_right i) n n' = []

-- What a history gives numbers, one event behind the other.
abbrev pub along_next : Option Link → (Link → List (ℕ × Bytes)) → List (ℕ × Bytes)
along_next none next = []
along_next (some n) next = next n

unfoldable pub numbered_along :
    UdpSend
    → UdpSend
    → (Event → Link → Link → List (ℕ × Bytes))
    → List Event
    → Link
    → List (ℕ × Bytes)
numbered_along u v f [] n = []
numbered_along u v f (e ∷ es) n =
    along_next (happen u v e n) (λ n'. f e n n' ++ numbered_along u v f es n')

-- What a history adds, one event behind the other.
abbrev pub Adds :
    UdpSend → UdpSend → (Event → Link → Bytes → Type 0) → List Event → Link → Bytes → Type 0
Adds u v hands [] n b = b ≡ []
Adds u v hands (e ∷ es) n b =
    (x : Bytes) × (y : Bytes) × (b ≡ x ++ y)
    × hands e n x
    × Outlives (λ n'. Adds u v hands es n' y) (happen u v e n)
