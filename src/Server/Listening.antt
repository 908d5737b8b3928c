-- ===== src/Server/Listening.antt =====
-- The receiving half of the server: what an error of the socket leaves behind, and how long the
-- server goes on reading.
use Prim.Native.String.{String}
use process_manager_module.Base.{
  ℕ, ◌≡◌, ◌∙◌, ap, Bool, true, false, not, List, Option, Outcome, returns, arith, Outcome-cases,
  Option-cases, inl, inr,
}
use process_manager_module.Messages.{Message}
use process_manager_module.EventsCache.{EventsCache}
use process_manager_module.Services.{Instance}
use process_manager_module.Server.State.{Settings, Server, Cache, State}
use process_manager_module.Server.Receiving.{
  handle_request, handle_response, dispatch, handle_receive, start_reading,
}
use process_manager_module.Server.Traffic.{link, aside}
use process_manager_module.Server.Steps.{Reach, Reach-aside, handle_response_keeps}

module _ {Cb Any Address W : Type 0} (validate : Cb → Any → Bool) (run : Cb → Any → W → Outcome W)
    (parse_from_string : List ℕ → Option (Message Any)) (events : EventsCache Cb) where
  dispatch_keeps :
      (m : Message Any) (s s' : Server Any Address) (c c' : Cache Any Address) (w w' : W)
      → dispatch validate run parse_from_string events m ((s, c), w) ≡ returns ((s', c'), w')
      → (link s' ≡ link s) × (aside s' ≡ aside s)
  unfolding dispatch
  dispatch_keeps m s s' c c' w w' h = elim (Option-cases m.header) [
    | inl f ↦ (ground arith, ground arith)
    | inr (header, f) ↦ elim (Option-cases m.request) [
      | inr (any, g) ↦ elim (Outcome-cases (handle_request validate run events m any w)) [
        | inl (v, k) ↦ (ground arith, ground arith)
        | inr (inl (x, k)) ↦ absurd (ground arith)
        | inr (inr k) ↦ absurd (ground arith)
      ]
      | inl g ↦ elim (Option-cases m.response) [
        | inl k ↦ (ground arith, ground arith)
        | inr (code, k) ↦ elim (Outcome-cases (handle_response m (s, c))) [
          | inl ((s₁, c₁), l) ↦ handle_response_keeps m s s' c c' (ground arith)
          | inr (inl (x, l)) ↦ absurd (ground arith)
          | inr (inr l) ↦ absurd (ground arith)
        ]
      ]
    ]
  ]

  -- A completion of a read that returns leaves the queue and the socket of the sending half alone,
  -- and the next read is pending exactly if there was no error, whatever the datagram was.
  pub handle_receive_keeps :
      (error : Bool) (bytes : List ℕ) (s s' : Server Any Address) (c c' : Cache Any Address)
      (w w' : W)
      → handle_receive validate run parse_from_string events error bytes ((s, c), w)
        ≡ returns ((s', c'), w')
      → (s'.reading ≡ not error) × (link s' ≡ link s)
  unfolding handle_receive start_reading
  handle_receive_keeps true bytes s s' c c' w w' h = (ground arith, ground arith)
  handle_receive_keeps false bytes s s' c c' w w' h =
      elim (Option-cases (parse_from_string bytes)) [
        | inl f ↦ (ground arith, ground arith)
        | inr (m, f) ↦
            let (l, a) = dispatch_keeps m (record s { reading = true }) s' c c' w w' (rw f at h) in
            (ap (λ x. x.is_reading) a, l)
      ]

  -- After an error of the socket no read is pending, and none ever is again, whatever the module
  -- sends and the timers thread and the completions do: only `startReading` itself would start one,
  -- and nothing calls it after an error.
  pub receive_error_deafens :
      (settings : Settings) (database : Instance) (from_string : String → Option Address)
      (serialize_to_string : Message Any → List ℕ) (bytes : List ℕ) (s : Server Any Address)
      (c : Cache Any Address) (x y : State Any Address) (w w' : W)
      → handle_receive validate run parse_from_string events true bytes ((s, c), w)
        ≡ returns (x, w')
      → Reach settings database from_string serialize_to_string x y
      → y.0.reading ≡ false
  receive_error_deafens settings database from_string serialize_to_string bytes s c x y w w' h r =
      ap (λ a. a.is_reading) (Reach-aside settings database from_string serialize_to_string r)
      ∙ (handle_receive_keeps true bytes s x.0 c x.1 w w' h).0
