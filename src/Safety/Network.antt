-- ===== src/Safety/Network.antt =====
-- Two ends of a connection over a network that may lose, repeat, reorder and forge datagrams: any
-- history of the calls of src/kcp/kcp_module/kcp.rs on both.
use kcp_server.Base.{
  refl, sym, subst, ◌++◌, append-nil, append_assoc, ◌≡◌, ℕ, some, zero, suc, ◌<◌, true, Option,
  none, get_elem?, List, [], ◌∷◌, u32_mod, All, inr,
}
use kcp_server.Segment.{Bytes}
use kcp_server.Control.{Kcp, UdpSend}
use kcp_server.Flush.Frames.{Log, Terms, IsFrame}
use kcp_server.Flush.Datagrams.{IsLogged, Tidy}
use kcp_server.Safety.Operations.{
  Hands, numbers, Furthered, Operation, perform, Survives, Survives-map,
}
use kcp_server.Safety.Calls.{perform-Tidy}
use kcp_server.Safety.Exchange.{Takes, terms_of, IsFrame-long, frames-Takes}
use kcp_server.Safety.History.{
  Link, Event, arrive, with_left, with_right, happen, happen_next, happen_all, Answerable, Outlives,
  Outlives-map, LeftHands, RightHands, Adds, left_numbers, right_numbers, along_next,
  numbered_along,
}

-- Each end takes all that the other has sent up to now, and for each there is a log of it, up to the
-- next number: it is `l` or `m`, and with the queue behind it what was given to that end.
pub record IsTaken (l m : List (ℕ × Bytes)) (to_left to_right : Bytes) (n : Link) : Type 0 where
  pub left_log : Log
  pub right_log : Log
  pub by_right : All (Takes left_log n.right) n.left.output.sent
  pub by_left : All (Takes right_log n.left) n.right.output.sent
  pub left_logged : IsLogged left_log n.left
  pub right_logged : IsLogged right_log n.right
  pub left_numbered : left_log.numbered ≡ l
  pub right_numbered : right_log.numbered ≡ m
  pub left_given : left_log.given ≡ to_left
  pub right_given : right_log.given ≡ to_right

-- What a history leaves, from ends with the logs `L` and `M`.
abbrev pub Exchanged : UdpSend → UdpSend → List Event → Link → Log → Log → Link → Type 0
Exchanged u v es n L M n' =
    (x : Bytes) × (y : Bytes) × Adds u v LeftHands es n x
    × Adds u v RightHands es n y
    × IsTaken (L.numbered ++ numbered_along u v left_numbers es n)
        (M.numbered ++ numbered_along u v right_numbers es n) (L.given ++ x) (M.given ++ y) n'

module _ (u v : UdpSend) (a b : ℕ) (C : Terms) where
  -- Both ends are tidy, on the same terms, with logs that go on from `L` and `M`.
  abbrev pub Linked :
      Log → Log → List (ℕ × Bytes) → List (ℕ × Bytes) → Bytes → Bytes → Link → Type 0
  Linked L M l m x y n = Furthered a C L l x n.left × Furthered b C M m y n.right

  arrive-Furthered :
      (udp : UdpSend) (mtu : ℕ) (L M : Log) (ds : List Bytes) (i : ℕ) (k : Kcp)
      → All (IsFrame C M) ds
      → Tidy mtu C L k
      → Survives (Furthered mtu C L [] []) (arrive udp (get_elem? ds i) k)
  arrive-Furthered udp mtu L M [] i k f t =
      (L, sym (append-nil L.numbered), sym (append-nil L.given), t)
  arrive-Furthered udp mtu L M (d ∷ ds) zero k f t =
      Survives-map _ _ (perform udp (Operation.inputs d true) k)
        (λ k' (x, e, w). subst (λ p. Furthered mtu C L [] p k') e w)
        (perform-Tidy udp mtu C L (Operation.inputs d true) k (inr (IsFrame-long C M d f.0)) t)
  arrive-Furthered udp mtu L M (d ∷ ds) (suc i) k f t = arrive-Furthered udp mtu L M ds i k f.1 t

  abbrev pub Happened : Event → Log → Log → Link → Link → Type 0
  Happened e L M n n' =
      (x : Bytes) × (y : Bytes) × LeftHands e n x
      × RightHands e n y
      × Linked L M (left_numbers e n n') (right_numbers e n n') x y n'

  on_left :
      (P : Bytes → Type 0) (N : Kcp → List (ℕ × Bytes)) (L M : Log) (n : Link) (o : Option Kcp)
      → Tidy b C M n.right
      → Survives (λ k. (x : Bytes) × P x × Furthered a C L (N k) x k) o
      → Outlives
          (λ n'. (x : Bytes) × (y : Bytes) × P x × (y ≡ []) × Linked L M (N n'.left) [] x y n')
          (with_left n o)
  on_left P N L M n none t h = h
  on_left P N L M n (some k) t (x, p, w) =
      (x, [], p, refl, (w, (M, sym (append-nil M.numbered), sym (append-nil M.given), t)))

  on_right :
      (P : Bytes → Type 0) (N : Kcp → List (ℕ × Bytes)) (L M : Log) (n : Link) (o : Option Kcp)
      → Tidy a C L n.left
      → Survives (λ k. (y : Bytes) × P y × Furthered b C M (N k) y k) o
      → Outlives
          (λ n'. (x : Bytes) × (y : Bytes) × (x ≡ []) × P y × Linked L M [] (N n'.right) x y n')
          (with_right n o)
  on_right P N L M n none t h = h
  on_right P N L M n (some k) t (y, p, w) =
      ([], y, refl, p, ((L, sym (append-nil L.numbered), sym (append-nil L.given), t), w))

  pub happen-Happened :
      (e : Event) (L M : Log) (n : Link)
      → Answerable e
      → Tidy a C L n.left
      → Tidy b C M n.right
      → Outlives (Happened e L M n) (happen u v e n)
  unfolding happen
  happen-Happened (Event.left_calls op) L M n h p q =
      on_left (Hands op n.left) (numbers op n.left) L M n (perform u op n.left) q
        (perform-Tidy u a C L op n.left h p)
  happen-Happened (Event.right_calls op) L M n h p q =
      on_right (Hands op n.right) (numbers op n.right) L M n (perform v op n.right) p
        (perform-Tidy v b C M op n.right h q)
  happen-Happened (Event.reaches_left i) L M n h p q =
      on_left (λ x. x ≡ []) (λ k. []) L M n (arrive u (get_elem? n.right.output.sent i) n.left) q
        (Survives-map _ _ (arrive u (get_elem? n.right.output.sent i) n.left) (λ k w. ([], refl, w))
          (arrive-Furthered u a L M n.right.output.sent i n.left q.framed.3 p))
  happen-Happened (Event.reaches_right i) L M n h p q =
      on_right (λ y. y ≡ []) (λ k. []) L M n (arrive v (get_elem? n.left.output.sent i) n.right) p
        (Survives-map _ _ (arrive v (get_elem? n.left.output.sent i) n.right) (λ k w. ([], refl, w))
          (arrive-Furthered v b M L n.left.output.sent i n.right p.framed.3 q))

regrouped-IsTaken :
    (L L' M M' : Log) (l1 l2 m1 m2 : List (ℕ × Bytes)) (x1 x2 y1 y2 : Bytes) (n : Link)
    → L'.numbered ≡ L.numbered ++ l1
    → L'.given ≡ L.given ++ x1
    → M'.numbered ≡ M.numbered ++ m1
    → M'.given ≡ M.given ++ y1
    → IsTaken (L'.numbered ++ l2) (M'.numbered ++ m2) (L'.given ++ x2) (M'.given ++ y2) n
    → IsTaken
        (L.numbered ++ (l1 ++ l2))
        (M.numbered ++ (m1 ++ m2))
        (L.given ++ (x1 ++ x2))
        (M.given ++ (y1 ++ y2))
        n
regrouped-IsTaken L L' M M' l1 l2 m1 m2 x1 x2 y1 y2 n e f g h t =
    rw
      (
        ← append_assoc L.numbered l1 l2,
        ← append_assoc M.numbered m1 m2,
        ← append_assoc L.given x1 x2,
        ← append_assoc M.given y1 y2,
        ← e,
        ← f,
        ← g,
        ← h,
      )
      t

module _ (u v : UdpSend) (a b conv : ℕ) (bound : conv < u32_mod) (key : Option Bytes) where
  abbrev pub shared : Terms
  shared = terms_of conv bound key

  Tidy-IsTaken :
      (L M : Log) (n : Link)
      → Tidy a shared L n.left
      → Tidy b shared M n.right
      → IsTaken L.numbered M.numbered L.given M.given n
  Tidy-IsTaken L M n p q = record {
    left_log = L;
    right_log = M;
    by_right =
        frames-Takes L conv bound key n.right q.framed.0 q.framed.4 n.left.output.sent
          q.mss_bounds.0 p.framed.3;
    by_left =
        frames-Takes M conv bound key n.left p.framed.0 p.framed.4 n.right.output.sent
          p.mss_bounds.0 q.framed.3;
    left_logged = p.logged;
    right_logged = q.logged;
    left_numbered = refl;
    right_numbered = refl;
    left_given = refl;
    right_given = refl;
  }

  -- Two tidy ends of one conversation and one key, over a network that loses, repeats and reorders
  -- what they send and forges more of it, where what is forged and to be decoded has four bytes at
  -- least, and any calls on both in any order: there is no panic, and whatever either end has sent
  -- until then, the other takes in full. `input` finds only valid segments in it, handles each once
  -- and in order, and returns the datagram's length. For each end there is a log, one fragment and
  -- payload for each number up to its next one: that of before, and behind it what the end's flushes
  -- took from its send queue since, in their order. Each push that it has sent, again or not, carries
  -- what the log has at a place that its number stands for, and the payloads of the log, with those
  -- of the queue behind them, are the bytes given to the end before and what its calls of `send`
  -- took since, in their order: the whole buffer, or on an error a first part of it, perhaps none.
  pub happen_all-IsTaken :
      (es : List Event) (L M : Log) (n : Link)
      → All Answerable es
      → Tidy a shared L n.left
      → Tidy b shared M n.right
      → Outlives (Exchanged u v es n L M) (happen_all u v es n)
  unfolding happen_all numbered_along
  happen_all-IsTaken [] L M n h p q = (
    [],
    [],
    refl,
    refl,
    rw (append-nil L.given, append-nil M.given, append-nil L.numbered, append-nil M.numbered)
        (Tidy-IsTaken L M n p q),
  )
  happen_all-IsTaken (e ∷ es) L M n h p q =
      next (happen u v e n) (happen-Happened u v a b shared e L M n h.0 p q)
        (λ L' M' n'. happen_all-IsTaken es L' M' n' h.1)
    where
      next :
          (o : Option Link)
          → Outlives (Happened u v a b shared e L M n) o
          → ((L' M' : Log) (n' : Link)
              → Tidy a shared L' n'.left
              → Tidy b shared M' n'.right
              → Outlives (Exchanged u v es n' L' M') (happen_all u v es n'))
          → Outlives
              (λ n2.
                (x : Bytes) × (y : Bytes) × ((x1 : Bytes) × (x2 : Bytes) × (x ≡ x1 ++ x2)
                  × LeftHands e n x1
                  × Outlives (λ n'. Adds u v LeftHands es n' x2) o)
                × ((y1 : Bytes) × (y2 : Bytes) × (y ≡ y1 ++ y2)
                    × RightHands e n y1
                    × Outlives (λ n'. Adds u v RightHands es n' y2) o)
                × IsTaken
                    (L.numbered
                      ++ along_next o
                          (λ n'. left_numbers e n n' ++ numbered_along u v left_numbers es n'))
                    (M.numbered
                      ++ along_next o
                          (λ n'. right_numbers e n n' ++ numbered_along u v right_numbers es n'))
                    (L.given ++ x)
                    (M.given ++ y)
                    n2)
              (happen_next o (happen_all u v es))
      next none w rest = w
      next (some n') (x1, y1, i, j, ((L', l, g, p'), (M', m, h', q'))) rest =
          Outlives-map _ _ (happen_all u v es n')
            (λ n2 (x2, y2, r, s, t). (
              x1 ++ x2,
              y1 ++ y2,
              (x1, x2, refl, i, r),
              (y1, y2, refl, j, s),
              regrouped-IsTaken L L' M M' (left_numbers e n n') _ (right_numbers e n n') _ x1 x2 y1
                  y2 n2 l g m h' t,
            ))
            (rest L' M' n' p' q')
