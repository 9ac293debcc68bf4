-- ===== src/Safety/Delivered.antt =====
-- What `send` takes at one end of a connection, as `recv` gives it at the other: two control blocks,
-- each a Kcp of src/kcp/kcp_module/kcp.rs, over a network that loses, repeats and reorders.
use kcp_server.Base.{
  ℕ, ◌+◌, ◌<◌, ◌≡◌, ◌^◌, ◌⊎◌, inl, inr, Bool, refl, sym, ap, ◌∙◌, Option, none, some, List, [], ◌∷◌,
  ◌++◌, append-nil, append_assoc, length, length-append, ltb→lt, ltb_false→le, All, u32_mod, arith,
  Bool-cases, ltb,
}
use kcp_server.Segment.{Bytes}
use kcp_server.Control.{Kcp, UdpSend, new_stream}
use kcp_server.Receive.Messages.{payloads}
use kcp_server.Flush.Frames.{Log, Longer, Terms}
use kcp_server.Flush.Datagrams.{IsLogged, Tidy}
use kcp_server.Safety.Operations.{empty_log}
use kcp_server.Safety.Exchange.{frames-Takes}
use kcp_server.Safety.Sequence.{Receives, Receives-first, Receives-Longer, Few}
use kcp_server.Safety.History.{
  Link, Event, happen, happen_next, happen_all, Outlives, Outlives-map, LeftHands, RightHands,
  left_numbers, right_numbers, along_next, numbered_along, Adds, Answerable,
}
use kcp_server.Safety.Network.{shared, Happened, happen-Happened}
use kcp_server.Safety.Unforged.{AnyLeft, Honest-LongEnough}
use kcp_server.Safety.Hearing.{Unforged, left_gets, right_gets, Stays, Hears, happen-Hears}

-- More than 2 ^ 31 - 2 ^ 16 numbers were given out.
abbrev pub Many : Log → Type 0
Many L = 2 ^ 31 < length L.numbered + 2 ^ 16

-- What `from` was given in all: first what the other end's caller got, next what waits there in
-- the queue, then what is under way, and last what waits in the queue of `from`. The log of `from`
-- has `numbered` under its numbers.
pub record IsDelivered (numbered : List (ℕ × Bytes)) (supply got : Bytes) (from to : Kcp)
    : Type 0 where
  pub log : Log
  pub logged : IsLogged log from
  pub same_numbered : log.numbered ≡ numbered
  pub supplied : log.given ≡ supply
  pub in_order :
      (2 ^ 31 < length numbered + 2 ^ 16)
      ⊎ ((way : Bytes) × (got ++ (payloads to.rcv_queue ++ (way ++ payloads from.snd_queue))
            ≡ supply))

-- A receiver of the log, unless there are too many numbers.
abbrev Follows : Log → Bytes → Kcp → Type 0
Follows L g k = Many L ⊎ Receives L g k

Few-or_Many : (L : Log) → Few L ⊎ Many L
Few-or_Many L = elim (Bool-cases (ltb (2 ^ 31) (length L.numbered + 2 ^ 16))) [
  | inl many ↦ inr (ltb→lt _ _ many)
  | inr few ↦ inl (ltb_false→le _ _ few)
]

Many-Longer : (L L' : Log) → Longer L L' → Many L → Many L'
Many-Longer L L' (m, e) many = omega (arith, many, ap length e, length-append L.numbered m)

Follows-Stays :
    (L L' : Log) (g b : Bytes) (k k' : Kcp)
    → Longer L L'
    → Stays L g k b k'
    → Follows L g k
    → Follows L' (g ++ b) k'
Follows-Stays L L' g b k k' l s (inl many) = inl (Many-Longer L L' l many)
Follows-Stays L L' g b k k' l s (inr v) = elim (Few-or_Many L) [
  | inl few ↦ inr (Receives-Longer L L' (g ++ b) k' l (s few v))
  | inr many ↦ inl (Many-Longer L L' l many)
]

Follows-IsDelivered :
    (L : Log) (g : Bytes) (from to : Kcp)
    → IsLogged L from
    → Follows L g to
    → IsDelivered L.numbered L.given g from to
Follows-IsDelivered L g from to logged f = record {
  log = L;
  logged = logged;
  same_numbered = refl;
  supplied = refl;
  in_order = elim f [
    | inl many ↦ inl many
    | inr v ↦
        let (way, e) = Receives-first L g to v in
        inr (
          way,
          ap (λ b. g ++ b)
                (sym (append_assoc (payloads to.rcv_queue) way (payloads from.snd_queue)))
              ∙ (sym (append_assoc g (payloads to.rcv_queue ++ way) (payloads from.snd_queue))
                  ∙ (ap (λ b. b ++ payloads from.snd_queue) e ∙ logged.1)),
        )
  ];
}

-- What is got behind an event, unless there was a panic.
abbrev pub got_next : Option Link → (Link → Bytes) → Bytes
got_next none next = []
got_next (some n) next = next n

-- The bytes that are got along a history.
unfoldable pub collected : UdpSend → UdpSend → (Event → Link → Bytes) → List Event → Link → Bytes
collected u v f [] n = []
collected u v f (e ∷ es) n = f e n ++ got_next (happen u v e n) (collected u v f es)

-- What a history leaves, from ends with the logs `L` and `M` that have given `h` and `g` to their
-- callers.
abbrev pub Conveyed :
    UdpSend → UdpSend → List Event → Link → Log → Log → Bytes → Bytes → Link → Type 0
Conveyed u v es n L M g h n' =
    (x1 : Bytes) × (y1 : Bytes) × Adds u v LeftHands es n x1
    × Adds u v RightHands es n y1
    × IsDelivered (L.numbered ++ numbered_along u v left_numbers es n) (L.given ++ x1)
        (g ++ collected u v right_gets es n) n'.left n'.right
    × IsDelivered (M.numbered ++ numbered_along u v right_numbers es n) (M.given ++ y1)
        (h ++ collected u v left_gets es n) n'.right n'.left

Unforged-Answerable : (e : Event) → Unforged e → Answerable e
Unforged-Answerable (Event.left_calls op) h = Honest-LongEnough op h
Unforged-Answerable (Event.right_calls op) h = Honest-LongEnough op h
Unforged-Answerable (Event.reaches_left i) h = tt
Unforged-Answerable (Event.reaches_right i) h = tt

regrouped :
    (L L' : Log) (l1 l2 : List (ℕ × Bytes)) (g b x1 x2 c : Bytes) (from to : Kcp)
    → L'.numbered ≡ L.numbered ++ l1
    → L'.given ≡ L.given ++ x1
    → IsDelivered (L'.numbered ++ l2) (L'.given ++ x2) ((g ++ b) ++ c) from to
    → IsDelivered (L.numbered ++ (l1 ++ l2)) (L.given ++ (x1 ++ x2)) (g ++ (b ++ c)) from to
regrouped L L' l1 l2 g b x1 x2 c from to l e d =
    rw
      (
        ← append_assoc L.numbered l1 l2,
        ← append_assoc L.given x1 x2,
        ← append_assoc g b c,
        ← l,
        ← e,
      )
      d

module _ (u v : UdpSend) (a b conv : ℕ) (bound : conv < u32_mod) (key : Option Bytes) where
  abbrev C : Terms
  C = shared u v a b conv bound key

  -- Each end is tidy, and follows the other one's log.
  record Joined (L M : Log) (g h : Bytes) (n : Link) : Type 0 where
    left : Tidy a C L n.left
    right : Tidy b C M n.right
    to_right : Follows L g n.right
    to_left : Follows M h n.left

  happen_all-Conveyed :
      (es : List Event) (L M : Log) (n : Link) (g h : Bytes)
      → All Unforged es
      → Joined L M g h n
      → Outlives (Conveyed u v es n L M g h) (happen_all u v es n)
  unfolding happen_all collected numbered_along
  happen_all-Conveyed [] L M n g h f j = (
    [],
    [],
    refl,
    refl,
    rw (append-nil L.given, append-nil L.numbered, append-nil g)
        (Follows-IsDelivered L g n.left n.right j.left.logged j.to_right),
    rw (append-nil M.given, append-nil M.numbered, append-nil h)
        (Follows-IsDelivered M h n.right n.left j.right.logged j.to_left),
  )
  happen_all-Conveyed (e ∷ es) L M n g h f j =
      next (happen u v e n)
        (happen-Happened u v a b C e L M n (Unforged-Answerable e f.0) j.left j.right)
        (happen-Hears u v L M n g h e f.0 j.left.mss_bounds.0 j.right.mss_bounds.0
          (frames-Takes L conv bound key n.right j.right.framed.0 j.right.framed.4
            n.left.output.sent j.right.mss_bounds.0 j.left.framed.3)
          (frames-Takes M conv bound key n.left j.left.framed.0 j.left.framed.4 n.right.output.sent
            j.left.mss_bounds.0 j.right.framed.3))
        (λ L' M' n' g' h'. happen_all-Conveyed es L' M' n' g' h' f.1)
    where
      next :
          (o : Option Link)
          → Outlives (Happened u v a b C e L M n) o
          → AnyLeft (Hears u v L M n g h e) o
          → ((L' M' : Log) (n' : Link) (g' h' : Bytes)
              → Joined L' M' g' h' n'
              → Outlives (Conveyed u v es n' L' M' g' h') (happen_all u v es n'))
          → Outlives
              (λ n2.
                (x : Bytes) × (y : Bytes) × ((x1 : Bytes) × (x2 : Bytes) × (x ≡ x1 ++ x2)
                  × LeftHands e n x1
                  × Outlives (λ n'. Adds u v LeftHands es n' x2) o)
                × ((y1 : Bytes) × (y2 : Bytes) × (y ≡ y1 ++ y2)
                    × RightHands e n y1
                    × Outlives (λ n'. Adds u v RightHands es n' y2) o)
                × IsDelivered
                    (L.numbered
                      ++ along_next o
                          (λ n'. left_numbers e n n' ++ numbered_along u v left_numbers es n'))
                    (L.given ++ x)
                    (g ++ (right_gets e n ++ got_next o (collected u v right_gets es)))
                    n2.left
                    n2.right
                × IsDelivered
                    (M.numbered
                      ++ along_next o
                          (λ n'. right_numbers e n n' ++ numbered_along u v right_numbers es n'))
                    (M.given ++ y)
                    (h ++ (left_gets e n ++ got_next o (collected u v left_gets es)))
                    n2.right
                    n2.left)
              (happen_next o (happen_all u v es))
      next none w s rest = w
      next (some n') (x1, y1, i, k, ((L', l, supply, p), (M', m, supply', q))) (sr, sl) rest =
          Outlives-map _ _ (happen_all u v es n')
            (λ n2 (x2, y2, r, s, t, w). (
              x1 ++ x2,
              y1 ++ y2,
              (x1, x2, refl, i, r),
              (y1, y2, refl, k, s),
              regrouped L L' (left_numbers e n n') _ g (right_gets e n) x1 x2 _ n2.left n2.right l
                  supply t,
              regrouped M M' (right_numbers e n n') _ h (left_gets e n) y1 y2 _ n2.right n2.left m
                  supply' w,
            ))
            (rest L' M' n' (g ++ right_gets e n) (h ++ left_gets e n) (record {
              left = p;
              right = q;
              to_right =
                  Follows-Stays L L' g (right_gets e n) n.right n'.right (left_numbers e n n', l) sr
                    j.to_right;
              to_left =
                  Follows-Stays M M' h (left_gets e n) n.left n'.left (right_numbers e n n', m) sl
                    j.to_left;
            }))

  -- Two tidy ends of one conversation and one key, each a receiver of the log of what the other has
  -- numbered, over a network that loses, repeats and reorders what they send and forges nothing, and
  -- any calls on both in any order, but that `input` reads only what the network brings: there is no
  -- panic, and at either end the bytes that its calls of `recv` gave, before and along the history,
  -- and those that wait in its queue are a first part of the bytes given to the other end before and
  -- taken by that end's calls of `send` since: in their order, none lost, repeated or changed. The
  -- part behind them ends with what waits in the sender's queue. This may fail for a direction only
  -- in which more than 2 ^ 31 - 2 ^ 16 segments were numbered: those of the sender's log of before, and
  -- those that its flushes took from its send queue along the history.
  pub happen_all-IsDelivered :
      (es : List Event) (L M : Log) (n : Link) (g h : Bytes)
      → All Unforged es
      → Tidy a C L n.left
      → Tidy b C M n.right
      → Receives L g n.right
      → Receives M h n.left
      → Outlives (Conveyed u v es n L M g h) (happen_all u v es n)
  happen_all-IsDelivered es L M n g h f p q r s =
      happen_all-Conveyed es L M n g h f
        (record { left = p; right = q; to_right = inr r; to_left = inr s })

-- A new control block has received nothing.
pub new_stream-Receives :
    (conv timestamp : ℕ) (stream : Bool) (key : Option Bytes)
    → Receives empty_log [] (new_stream conv timestamp stream key)
unfolding new_stream
new_stream-Receives conv timestamp stream key = record {
  progress = 0;
  reached = omega arith;
  order = record {
    receiver = record {
      tracks = record { next = refl; window = omega arith; buffered = tt };
      settled = inr tt;
    };
    bytes = refl;
  };
}
