-- ===== src/Server/Codes.antt =====
-- The transaction codes that the server gives out.
use Prim.Native.String.{String}
use process_manager_module.Base.{
  ℕ, ◌+◌, ◌%◌, ◌≡◌, refl, ap, ◌⊎◌, false, List, [], ◌∷◌, Option, returns,
}
use process_manager_module.Messages.{Message}
use process_manager_module.Services.{Instance}
use process_manager_module.Server.State.{
  Endpoint, ParkedMessage, Server, Settings, Cache, State, new_server, code_parked, draw_again,
  generate_transaction_code,
}
use process_manager_module.Server.Steps.{Reach, Reach-aside}

module _ {Any Address : Type 0} (settings : Settings) (database : Instance)
    (from_string : String → Option Address) (serialize_to_string : Message Any → List ℕ) where
  draw_again_free :
      (code : ℕ) (vs : List ℕ)
      → draw_again {Any = Any} {Address = Address} [] code vs ≡ returns (code, vs)
  unfolding draw_again code_parked
  draw_again_free code [] = refl
  draw_again_free code (v ∷ vs) = refl

  -- In every state of a server that was started, the next code is the next random value modulo 1000,
  -- plus 1, whichever transactions are running: the test for codes in use never finds one.
  pub generate_transaction_code_lem :
      (map : List (ℕ × Endpoint Address)) (random : List ℕ) (c : Cache Any Address)
      (y : State Any Address) (v : ℕ) (vs : List ℕ)
      → Reach settings database from_string serialize_to_string (new_server map random, c) y
      → y.0.random_values ≡ v ∷ vs
      → generate_transaction_code y.0 ≡ returns (v % 1000 + 1, vs)
  unfolding generate_transaction_code draw_again code_parked new_server
  generate_transaction_code_lem map random c y v vs r e =
      let none_parked =
        ap (λ a. a.parked) (Reach-aside settings database from_string serialize_to_string r) in
      rw (e, none_parked) (draw_again_free (v % 1000 + 1) vs)

module _ {Any Address : Type 0} where
  -- Some later value gives a code that no parked message has.
  abbrev pub HasFreeCode : List (ParkedMessage Any Address) → List ℕ → Type 0
  HasFreeCode parked [] = ⊥
  HasFreeCode parked (v ∷ vs) =
      (code_parked (v % 10000000 + 1) parked ≡ false) ⊎ HasFreeCode parked vs
