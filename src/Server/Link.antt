-- ===== src/Server/Link.antt =====
-- The abstract view of the sending half of the server: the queue, the datagrams in flight and the
-- log of those handed over, with the moves that they can make.
use Prim.Native.Nat.{min}
use process_manager_module.Base.{
  ◌≤◌, ◌≡◌, refl, sym, ap, List, [], ◌∷◌, ◌++◌, map, length, length-append, arith, ◌≢◌, ◌⊎◌, inl,
  inr,
}
use mathlib.Core.List.{append-nil, append_assoc, map-append}

pub record Link (X D : Type 0) : Type 0 where
  pub queue : List X
  pub in_flight : List D
  pub handed_over : List D

module _ {X : Type 0} where
  abbrev pub tail_of : List X → List X
  tail_of [] = []
  tail_of (x ∷ xs) = xs

  tail_of-append :
      (l : List X) (x : X) (xs ms : List X) → l ≡ x ∷ xs → tail_of (l ++ ms) ≡ tail_of l ++ ms
  tail_of-append [] x xs ms h = absurd (ground arith)
  tail_of-append (y ∷ l) x xs ms h = refl

module _ {X D : Type 0} where
  -- The message at the head of the queue is the one in flight; a failed datagram leaves it there.
  pub data Move (datagram : X → D) (v w : Link X D) : Type 0 where
    stay : w ≡ v → Move datagram v w
    wait :
        (x : X) (xs : List X) (m : X)
        → v.queue ≡ x ∷ xs
        → w ≡ record v { queue = v.queue ++ m ∷ [] }
        → Move datagram v w
    start :
        (m : X)
        → v.queue ≡ []
        → w ≡ record {
          queue = m ∷ [];
          in_flight = v.in_flight ++ datagram m ∷ [];
          handed_over = v.handed_over ++ datagram m ∷ [];
        }
        → Move datagram v w
    finish :
        (g : D) (rest : List D) (x : X)
        → v.in_flight ≡ g ∷ rest
        → v.queue ≡ x ∷ []
        → w ≡ record v { queue = []; in_flight = rest }
        → Move datagram v w
    advance :
        (g : D) (rest : List D) (x y : X) (ys : List X)
        → v.in_flight ≡ g ∷ rest
        → v.queue ≡ x ∷ y ∷ ys
        → w ≡ record {
          queue = y ∷ ys;
          in_flight = rest ++ datagram y ∷ [];
          handed_over = v.handed_over ++ datagram y ∷ [];
        }
        → Move datagram v w
    fail :
        (g : D) (rest : List D)
        → v.in_flight ≡ g ∷ rest
        → w ≡ record v { in_flight = rest }
        → Move datagram v w

  -- Nothing is in flight, or one datagram, that of the head of the queue.
  abbrev pub HeadInFlight : (X → D) → Link X D → Type 0
  HeadInFlight datagram v =
      (v.in_flight ≡ [])
      ⊎ ((x : X) × (xs : List X) × (v.queue ≡ x ∷ xs) × (v.in_flight ≡ datagram x ∷ []))

  -- No more than one datagram is in flight, and none while the queue is empty.
  abbrev pub AtMostOne : Link X D → Type 0
  AtMostOne v = length v.in_flight ≤ min 1 (length v.queue)

  -- The queue waits, and nothing is in flight that could bring it on.
  pub record IsStalled (v : Link X D) : Type 0 where
    pub nothing_in_flight : v.in_flight ≡ []
    pub something_queued : v.queue ≢ []

  module _ {datagram : X → D} where
    -- The message that a move accepts, if any.
    abbrev pub accepted : {v w : Link X D} → Move datagram v w → List X
    accepted (stay e) = []
    accepted (wait x xs m q e) = m ∷ []
    accepted (start m q e) = m ∷ []
    accepted (finish g rest x f q e) = []
    accepted (advance g rest x y ys f q e) = []
    accepted (fail g rest f e) = []

    pub Move-HeadInFlight :
        {v w : Link X D} → Move datagram v w → HeadInFlight datagram v → HeadInFlight datagram w
    Move-HeadInFlight (stay e) h = rw e h
    Move-HeadInFlight (wait x xs m q e) (inl calm) = rw e (inl calm)
    Move-HeadInFlight (wait x xs m q e) (inr (y, ys, q', f)) =
        rw e (inr (y, ys ++ m ∷ [], ap (λ l. l ++ m ∷ []) q', f))
    Move-HeadInFlight (start m q e) (inl calm) =
        rw e (inr (m, [], refl, ap (λ l. l ++ datagram m ∷ []) calm))
    Move-HeadInFlight (start m q e) (inr (y, ys, q', f)) = absurd (ground (arith, q, q'))
    Move-HeadInFlight (finish g rest x f q e) (inl calm) = absurd (ground (arith, f, calm))
    Move-HeadInFlight (finish g rest x f q e) (inr (y, ys, q', f')) =
        let none_left : rest ≡ [] = ground (arith, f, f') in rw e (inl none_left)
    Move-HeadInFlight (advance g rest x y ys f q e) (inl calm) = absurd (ground (arith, f, calm))
    Move-HeadInFlight (advance g rest x y ys f q e) (inr (z, zs, q', f')) =
        let none_left : rest ≡ [] = ground (arith, f, f') in
        rw e (inr (y, ys, refl, ap (λ l. l ++ datagram y ∷ []) none_left))
    Move-HeadInFlight (fail g rest f e) (inl calm) = absurd (ground (arith, f, calm))
    Move-HeadInFlight (fail g rest f e) (inr (y, ys, q', f')) =
        let none_left : rest ≡ [] = ground (arith, f, f') in rw e (inl none_left)

    pub Move-IsStalled :
        {v w : Link X D}
        → Move datagram v w
        → IsStalled v
        → IsStalled w × (w.handed_over ≡ v.handed_over)
    Move-IsStalled (stay e) h = (rw e h, rw e)
    Move-IsStalled {v} {w} (wait x xs m q e) h = (
      record {
        nothing_in_flight = rw e h.nothing_in_flight;
        something_queued = rw e (λ z. omega (arith, ap length z, length-append v.queue (m ∷ [])));
      },
      rw e,
    )
    Move-IsStalled (start m q e) h = absurd (h.something_queued q)
    Move-IsStalled (finish g rest x f q e) h = absurd (ground (arith, h.nothing_in_flight))
    Move-IsStalled (advance g rest x y ys f q e) h = absurd (ground (arith, h.nothing_in_flight))
    Move-IsStalled (fail g rest f e) h = absurd (ground (arith, h.nothing_in_flight))

  -- What goes out in order: the log and the messages that wait behind the head.
  abbrev pub outgoing : (X → D) → Link X D → List D
  outgoing datagram v = v.handed_over ++ map datagram (tail_of v.queue)

  -- A move adds to it what it accepts, at the end, and changes nothing else of it.
  pub outgoing-Move :
      (datagram : X → D) {v w : Link X D} (mv : Move datagram v w)
      → outgoing datagram w ≡ outgoing datagram v ++ map datagram (accepted mv)
  outgoing-Move d (stay e) = rw e (sym (append-nil _))
  outgoing-Move d {v} {w} (wait x xs m q e) =
      rw e (simp (tail_of-append v.queue x xs (m ∷ []) q, map-append, append_assoc))
  outgoing-Move d (start m q e) = rw e (simp (ap tail_of q, append-nil))
  outgoing-Move d (finish g rest x f q e) = rw e (simp (ap tail_of q, append-nil))
  outgoing-Move d (advance g rest x y ys f q e) =
      rw e (simp (ap tail_of q, append-nil, append_assoc))
  outgoing-Move d (fail g rest f e) = rw e (simp append-nil)
