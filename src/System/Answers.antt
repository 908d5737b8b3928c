-- ===== src/System/Answers.antt =====
-- What the server receives, and what the user does with timers of their own, keeps the transactions
-- and the timers linked.
use process_manager_module.Base.{
  ℕ, ◌≡◌, ◌≢◌, refl, ◌∙◌, true, false, Bool, List, Option, some, Outcome, returns, arith, ◌==◌,
  Bool-cases, Option-cases, Outcome-cases, inl, inr,
}
use process_manager_module.Base.Int.{ℤ}
use process_manager_module.Containers.Map
use process_manager_module.Timer.{Timer, set_timer_id, restart}
use process_manager_module.TimersCache.{register_timer, remove_timer, restart_timer}
use process_manager_module.TimersCache.Views.{find_timer-free}
use process_manager_module.TimersCache.Refinement.{
  registry, register_timer_lem, remove_timer_lem, restart_timer_lem,
}
use process_manager_module.Messages.{Message, success, other_response_code, transaction_code_of}
use process_manager_module.EventsCache.{EventsCache}
use process_manager_module.Server.State.{Callback, Server, Cache, State}
use process_manager_module.Server.Receiving.{
  handle_request, handle_response, dispatch, handle_receive, start_reading,
}
use process_manager_module.System.{IsSound}
use process_manager_module.System.Links.{Linked-drop, Linked-view, Linked-kept}
use process_manager_module.System.Sends.{HasRoom, IsSound-frame, IsSound-same}

module _ {Any Address : Type 0} where
  handle_response-IsSound :
      (m : Message Any) (s : Server Any Address) (c : Cache Any Address) (y : State Any Address)
      → handle_response m (s, c) ≡ returns y
      → IsSound (s, c)
      → IsSound y
  unfolding handle_response
  handle_response-IsSound m s c y e h = elim (Option-cases m.response) [
    | inl f ↦ IsSound-same s s c y refl (ground arith) h
    | inr (other_response_code n, f) ↦ IsSound-same s s c y refl (ground arith) h
    | inr (success, f) ↦
        let code = transaction_code_of m in
        elim (Option-cases (Map.find code s.transaction_and_timer_id)) [
          | inl g ↦ IsSound-same s s c y refl (ground arith) h
          | inr (i, g) ↦
              let (c', k, v, r) = remove_timer_lem c h.valid i in
              let s' = record s {
                transaction_and_timer_id = Map.erase code s.transaction_and_timer_id;
              } in
              let ended : IsSound (s', c') = record {
                valid = v;
                linked =
                    Linked-view _ _ (registry c') r
                      (Linked-drop s.transaction_and_timer_id (registry c) code i g h.linked);
              } in
              IsSound-same s' s' c' y refl (ground arith) ended
        ]
  ]

module _ {Cb Any Address W : Type 0} (validate : Cb → Any → Bool) (run : Cb → Any → W → Outcome W)
    (parse_from_string : List ℕ → Option (Message Any)) (events : EventsCache Cb) where
  dispatch-IsSound :
      (m : Message Any) (s : Server Any Address) (c : Cache Any Address) (y : State Any Address)
      (w w' : W)
      → dispatch validate run parse_from_string events m ((s, c), w) ≡ returns (y, w')
      → IsSound (s, c)
      → IsSound y
  unfolding dispatch
  dispatch-IsSound m s c y w w' e h = elim (Option-cases m.header) [
    | inl f ↦ IsSound-same s s c y refl (ground arith) h
    | inr (header, f) ↦ elim (Option-cases m.request) [
      | inr (any, g) ↦ elim (Outcome-cases (handle_request validate run events m any w)) [
        | inl (v, k) ↦ IsSound-same s s c y refl (ground arith) h
        | inr (inl (x, k)) ↦ absurd (ground arith)
        | inr (inr k) ↦ absurd (ground arith)
      ]
      | inl g ↦ elim (Option-cases m.response) [
        | inl k ↦ IsSound-same s s c y refl (ground arith) h
        | inr (code, k) ↦ elim (Outcome-cases (handle_response m (s, c))) [
          | inl (z, l) ↦ handle_response-IsSound m s c y (ground arith) h
          | inr (inl (x, l)) ↦ absurd (ground arith)
          | inr (inr l) ↦ absurd (ground arith)
        ]
      ]
    ]
  ]

  pub handle_receive-IsSound :
      (error : Bool) (bytes : List ℕ) (s : Server Any Address) (c : Cache Any Address)
      (y : State Any Address) (w w' : W)
      → handle_receive validate run parse_from_string events error bytes ((s, c), w)
        ≡ returns (y, w')
      → IsSound (s, c)
      → IsSound y
  unfolding handle_receive start_reading
  handle_receive-IsSound true bytes s c y w w' e h =
      IsSound-same s (record s { reading = false }) c y refl (ground arith) h
  handle_receive-IsSound false bytes s c y w w' e h =
      let s' = record s { reading = true } in
      let h' = IsSound-frame s s' c refl h in
      elim (Option-cases (parse_from_string bytes)) [
        | inl f ↦ IsSound-same s s' c y refl (ground arith) h
        | inr (m, f) ↦ dispatch-IsSound m s' c y w w' (rw f at e) h'
      ]

module _ {Any Address : Type 0} (s : Server Any Address) (c c' : Cache Any Address)
    (h : IsSound (s, c)) where
  pub register_timer-IsSound :
      (t : Timer (Callback Any Address)) (i : ℕ)
      → HasRoom (s, c)
      → register_timer (some t) c ≡ returns (c', i)
      → IsSound (s, c')
  register_timer-IsSound t i room e =
      let (c₁, j, f, v, first, view, invoked, n) = register_timer_lem c h.valid t room in
      let same : c₁ ≡ c' = cc (e, f) in
      rw (← same) (record {
        valid = v;
        linked = λ k l found.
            let (u, g, p) =
              Linked-kept s.transaction_and_timer_id (registry c) k l j (set_timer_id j t)
                (find_timer-free j c.timers first.free) h.linked found in
            (u, view l ∙ g, p);
      })

  pub remove_timer-IsSound :
      (i : ℕ)
      → ((code : ℕ) → Map.find code s.transaction_and_timer_id ≢ some i)
      → remove_timer i c ≡ returns c'
      → IsSound (s, c')
  remove_timer-IsSound i own e =
      let (c₁, f, v, view) = remove_timer_lem c h.valid i in
      let same : c₁ ≡ c' = cc (e, f) in
      rw (← same) (record {
        valid = v;
        linked = λ k l found.
            let (u, g, p) = h.linked k l found in
            elim (Bool-cases (i == l)) [
              | inl hit ↦ let here : i ≡ l = ground arith in absurd (own k (rw here found))
              | inr miss ↦ (u, view l ∙ ground arith, p)
            ];
      })

  pub restart_timer-IsSound :
      (now : ℤ) (i : ℕ) (b : Bool) → restart_timer now i c ≡ returns (c', b) → IsSound (s, c')
  unfolding restart
  restart_timer-IsSound now i b e =
      let (c₁, f, v, view) = restart_timer_lem c h.valid now i in
      let same : c₁ ≡ c' = cc (e, f) in
      rw (← same) (record {
        valid = v;
        linked = λ k l found.
            let (u, g, p) = h.linked k l found in
            elim (Bool-cases (i == l)) [
              | inl hit ↦
                  let here : i ≡ l = ground arith in
                  (
                    restart now u,
                    view l ∙ rw hit (rw (here, g)),
                    record {
                      message = p.message;
                      callback = p.callback;
                      same = p.same;
                      coded = p.coded;
                      waits = p.waits;
                      once = p.once;
                    },
                  )
              | inr miss ↦ (u, view l ∙ rw miss g, p)
            ];
      })
