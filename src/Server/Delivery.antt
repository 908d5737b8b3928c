-- ===== src/Server/Delivery.antt =====
-- What the moves of the link come to: order, what a failed send leaves, and what completions bring.
use Prim.Native.String.{String}
use Prim.Native.Nat.{min}
use mathlib.Core.List.{append-nil, append_assoc, map-append}
use process_manager_module.Base.{
  ℕ, zero, suc, ◌+◌, ◌^◌, ◌≤◌, ◌≡◌, refl, sym, ◌∙◌, ap, true, false, List, [], ◌∷◌, ◌++◌, map,
  Option, Outcome, returns, ◌>>=◌, arith, length, nil_of_length, subst,
}
use process_manager_module.Base.Int.{ℤ}
use process_manager_module.MessageQueue
use process_manager_module.MessageQueue.{MessageQueue}
use process_manager_module.Messages.{Message}
use process_manager_module.Services.{Instance}
use process_manager_module.Server.State.{Destination, Datagram, Settings, Server, Cache, State}
use process_manager_module.Server.Requests.{complete_send}
use process_manager_module.Server.Link.{
  Link, Move, accepted, AtMostOne, IsStalled, outgoing, outgoing-Move,
}
use process_manager_module.Server.Sending.{sent, resend_timer, Registered, send_returns}
use process_manager_module.TimersCache.Invariant.{IsValid}
use process_manager_module.Server.Traffic.{link, datagram}
use process_manager_module.Server.Steps.{Reach, here, next, asked_all, Step-Move, Reach-IsStalled}

-- A run of the abstract link, with the messages that it accepts in order.
pub data Moves {X D : Type 0} (f : X → D) (v : Link X D) : List X → Link X D → Type 0 where
  done : Moves f v [] v
  more :
      {u w : Link X D} (ms ns : List X)
      → Moves f v ms u
      → (mv : Move f u w) → ns ≡ ms ++ accepted mv
      → Moves f v ns w

outgoing-Moves :
    {X D : Type 0} (f : X → D) {v w : Link X D} (ms : List X)
    → Moves f v ms w
    → outgoing f w ≡ outgoing f v ++ map f ms
outgoing-Moves f {v} ms done = sym (append-nil _)
outgoing-Moves f {v} {w} ms (more {u = u} ns _ r mv e) =
    rw (e, map-append)
      (outgoing-Move f mv
        ∙ ap (λ l. l ++ map f (accepted mv)) (outgoing-Moves f ns r)
        ∙ append_assoc (outgoing f v) (map f ns) (map f (accepted mv)))

module _ {Any Address : Type 0} (settings : Settings) (database : Instance)
    (from_string : String → Option Address) (serialize_to_string : Message Any → List ℕ) where
  abbrev Reaches : State Any Address → State Any Address → Type 0
  Reaches = Reach settings database from_string serialize_to_string

  abbrev item_datagram : Destination Address × Message Any → Datagram Address
  item_datagram = datagram settings serialize_to_string

  -- Any sequence of calls, completions, responses and resends is a run of the abstract link that
  -- accepts the messages which the calls and resends ask for: for each whose service has a
  -- destination, the message given, the request or subscription made of what is given with the code
  -- that is drawn, or the message that is to be sent again, in the order of the calls. What has been
  -- handed to the socket, followed by what waits behind the head of the queue, is what it was before
  -- with the datagrams of these messages at the end: none is lost on the way to the socket, handed
  -- over twice or overtaken.
  pub Reach-Moves :
      (x y : State Any Address) (r : Reaches x y)
      → let ms = asked_all settings database from_string serialize_to_string r in
        Moves item_datagram (link x.0) ms (link y.0)
        × (outgoing item_datagram (link y.0)
            ≡ outgoing item_datagram (link x.0) ++ map item_datagram ms)
  Reach-Moves x y here = (done, sym (append-nil _))
  Reach-Moves x y (next {y = z} r st) =
      let (run, e) = Reach-Moves x z r in
      let (mv, kept, k) = Step-Move settings database from_string serialize_to_string st in
      let before = asked_all settings database from_string serialize_to_string r in
      let all = asked_all settings database from_string serialize_to_string (next r st) in
      let run' : Moves item_datagram (link x.0) all (link y.0) =
        more before all run mv (ap (λ l. before ++ l) (sym k)) in
      (run', outgoing-Moves item_datagram all run')

  -- Once a send has failed nothing is sent again: in every state reached from there the log is as it
  -- was, nothing is in flight, and messages wait in the queue.
  pub failed_send_stalls :
      (now : ℤ) (s : Server Any Address) (c : Cache Any Address) (x y : State Any Address)
      (g : Datagram Address) (rest : List (Datagram Address))
      → AtMostOne (link s)
      → s.in_flight ≡ g ∷ rest
      → complete_send settings serialize_to_string true now (s, c) ≡ returns x
      → Reaches x y
      → IsStalled (link y.0) × (y.0.handed_over ≡ s.handed_over)
  unfolding complete_send
  failed_send_stalls now s c x y g rest one f h r =
      let e : (record s { in_flight = rest }, c) ≡ x = ground arith in
      let one' : length (g ∷ rest) ≤ min 1 (length s.message_queue.messages_queue) = rw f at one in
      let stalled : IsStalled (link (record s { in_flight = rest })) = record {
        nothing_in_flight = nil_of_length rest (omega arith);
        something_queued = λ z. omega (arith, ap length z);
      } in
      let (still, same) =
        Reach-IsStalled settings database from_string serialize_to_string
          (subst (λ z. IsStalled (link z.0)) e stalled) r in
      (still, same ∙ ap (λ z. z.0.handed_over) (sym e))

  -- The server when nothing is in flight, and these messages wait.
  abbrev pub waiting_with :
      List (Destination Address × Message Any) → Server Any Address → Server Any Address
  waiting_with xs s = record s { in_flight = []; message_queue = record { messages_queue = xs } }

  pub complete_send_last :
      (now : ℤ) (s : Server Any Address) (c : Cache Any Address) (g : Datagram Address)
      (x : Destination Address × Message Any)
      → s.in_flight ≡ g ∷ []
      → s.message_queue.messages_queue ≡ x ∷ []
      → complete_send settings serialize_to_string false now (s, c) ≡ returns (waiting_with [] s, c)
  unfolding complete_send MessageQueue.pop MessageQueue.empty
  complete_send_last now s c g x f q = ground arith

  pub complete_send_next :
      (now : ℤ) (s : Server Any Address) (c : Cache Any Address) (g : Datagram Address)
      (x : Destination Address × Message Any) (d : Destination Address) (m : Message Any)
      (ys : List (Destination Address × Message Any))
      → s.in_flight ≡ g ∷ []
      → s.message_queue.messages_queue ≡ x ∷ (d, m) ∷ ys
      → IsValid c
      → length c.timers + 2 ≤ 2 ^ 32
      → (i : ℕ) × (c' : Cache Any Address) × (complete_send settings serialize_to_string false now
            (s, c)
          ≡ returns (sent settings serialize_to_string d m i (waiting_with ((d, m) ∷ ys) s), c'))
        × Registered settings serialize_to_string c c' i
            (resend_timer settings serialize_to_string now d m)
  unfolding complete_send MessageQueue.pop MessageQueue.empty
  complete_send_next now s c g x d m ys f q v room =
      let (i, c', e, r) =
        send_returns settings serialize_to_string now (waiting_with ((d, m) ∷ ys) s) c d m ys refl v
          room in
      (i, c', ground arith, r)

  -- An idle link with a log.
  abbrev pub drained :
      List (Datagram Address) → Link (Destination Address × Message Any) (Datagram Address)
  drained log = record { queue = []; in_flight = []; handed_over = log }

  -- `n` completions in a row, all without error.
  unfoldable pub completions : ℕ → ℤ → State Any Address → Outcome (State Any Address)
  completions zero now x = returns x
  completions (suc n) now x = do
    y ← complete_send settings serialize_to_string false now x
    completions n now y

  -- With the head of the queue in flight, and room in the cache for a timer for each message behind
  -- it, as many completions as there are messages empty the queue: each message behind the head has
  -- been handed over once, in the order of the queue, and nothing is in flight.
  pub completions_drain :
      (xs : List (Destination Address × Message Any)) (now : ℤ) (s : Server Any Address)
      (c : Cache Any Address) (g : Datagram Address) (x : Destination Address × Message Any)
      → s.in_flight ≡ g ∷ []
      → s.message_queue.messages_queue ≡ x ∷ xs
      → IsValid c
      → length c.timers + length xs + 1 ≤ 2 ^ 32
      → (s' : Server Any Address) × (c' : Cache Any Address) × (completions
            (suc (length xs))
            now
            (s, c)
          ≡ returns (s', c'))
        × (link s' ≡ drained (s.handed_over ++ map item_datagram xs))
        × IsValid c'
  unfolding completions
  completions_drain [] now s c g x f q v room =
      (waiting_with [] s, c, rw (complete_send_last now s c g x f q), rw append-nil, v)
  completions_drain ((d, m) ∷ ys) now s c g x f q v room =
      let (i, c₁, e, r) = complete_send_next now s c g x d m ys f q v (omega arith) in
      let s₁ = sent settings serialize_to_string d m i (waiting_with ((d, m) ∷ ys) s) in
      let (s', c', e', l', v') =
        completions_drain ys now s₁ c₁ (item_datagram (d, m)) (d, m) refl refl r.valid
          (omega (arith, r.count)) in
      (
        s',
        c',
        rw e e',
        l'
            ∙ ap drained
                (append_assoc s.handed_over (item_datagram (d, m) ∷ []) (map item_datagram ys)),
        v',
      )
