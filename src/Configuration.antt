-- ===== src/Configuration.antt =====
-- Source/src/ModuleConfiguration.cpp and Source/src/ModuleConfigurationReader.cpp: reading the
-- configuration. The JSON library is a parameter: `get_number` gives the unsigned number under two
-- keys, cut to so many bits, `get_text` the text, and `returns none` if the library throws its
-- exception. A key that the document does not have is undefined behaviour there (the document is
-- const), which is the fault `undefined`.
use Prim.Native.String.{String}
use process_manager_module.Base.{
  ℕ, ◌≡◌, refl, Bool, true, false, Option, none, some, arith, Outcome, returns, ◌>>=◌, subst, sym,
}

pub record ServerConfiguration : Type 0 where
  pub max_message_resends : ℕ  -- uint32_t
  pub time_between_message_resends_in_seconds : ℕ  -- uint32_t
  pub message_buffer_size : ℕ  -- uint32_t
  pub listening_port : ℕ  -- uint16_t

-- The level is empty at first, and nothing reads one from the file.
pub record Configuration : Type 0 where
  pub server_configuration : ServerConfiguration
  pub logging_level : String

module _ {Json : Type 0} (get_number : Json → String → String → ℕ → Outcome (Option ℕ)) where
  -- The fields are set one after the other; those before the first that throws stay set.
  unfoldable pub read_from_json : Json → ServerConfiguration → Outcome (ServerConfiguration × Bool)
  read_from_json json s = do
    resends ← get_number json "ServerConfiguration" "MaxMessageResends" 32
    elim resends [
      | none ↦ returns (s, false)
      | some r ↦ do
        let s₁ : ServerConfiguration = record s { max_message_resends = r }
        seconds ← get_number json "ServerConfiguration" "TimeBetweenMessageResendsInSeconds" 32
        elim seconds [
          | none ↦ returns (s₁, false)
          | some t ↦ do
            let s₂ : ServerConfiguration = record s₁ { time_between_message_resends_in_seconds = t }
            size ← get_number json "ServerConfiguration" "MessageBufferSize" 32
            elim size [
              | none ↦ returns (s₂, false)
              | some b ↦ do
                let s₃ : ServerConfiguration = record s₂ { message_buffer_size = b }
                port ← get_number json "ServerConfiguration" "ListeningPort" 16
                elim port [
                  | none ↦ returns (s₃, false)
                  | some p ↦ returns (record s₃ { listening_port = p }, true)
                ]
            ]
        ]
    ]

  -- `file` is none if the file cannot be opened, and `some none` if it is not JSON.
  unfoldable pub read_configuration :
      Option (Option Json) → Configuration → Outcome (Configuration × Bool)
  unfolding read_from_json
  read_configuration none c = returns (c, false)
  read_configuration (some none) c = returns (c, false)
  read_configuration (some (some json)) c = do
    (s, read) ← read_from_json json c.server_configuration
    returns (record c { server_configuration = s }, read)

  -- The configuration holds the four values of the document.
  pub record HasValues (json : Json) (s : ServerConfiguration) : Type 0 where
    pub resends :
        get_number json "ServerConfiguration" "MaxMessageResends" 32
        ≡ returns (some s.max_message_resends)
    pub seconds :
        get_number json "ServerConfiguration" "TimeBetweenMessageResendsInSeconds" 32
        ≡ returns (some s.time_between_message_resends_in_seconds)
    pub size :
        get_number json "ServerConfiguration" "MessageBufferSize" 32
        ≡ returns (some s.message_buffer_size)
    pub port :
        get_number json "ServerConfiguration" "ListeningPort" 16 ≡ returns (some s.listening_port)

  -- What reading the configuration comes to: it returns the configuration `c'` and `read`.
  abbrev pub Reads : Option (Option Json) → Configuration → Configuration → Bool → Type 0
  Reads file c c' read = read_configuration file c ≡ returns (c', read)

  -- The document has the key, whatever stands there.
  abbrev pub HasKey : Json → String → ℕ → Type 0
  HasKey json key bits =
      (o : Option ℕ) × (get_number json "ServerConfiguration" key bits ≡ returns o)

  read_json_returns :
      (json : Json) (c : Configuration)
      → HasKey json "MaxMessageResends" 32
      → HasKey json "TimeBetweenMessageResendsInSeconds" 32
      → HasKey json "MessageBufferSize" 32
      → HasKey json "ListeningPort" 16
      → (c' : Configuration) × (read : Bool) × Reads (some (some json)) c c' read
  unfolding read_configuration read_from_json
  read_json_returns json c (none, e) _ _ _ = (c, false, rw e)
  read_json_returns json c (some r, e) (none, f) _ _ = (
    record c { server_configuration = record c.server_configuration { max_message_resends = r } },
    false,
    rw (e, f),
  )
  read_json_returns json c (some r, e) (some t, f) (none, g) _ = (
    record c {
      server_configuration = record c.server_configuration {
        max_message_resends = r;
        time_between_message_resends_in_seconds = t;
      };
    },
    false,
    rw (e, f, g),
  )
  read_json_returns json c (some r, e) (some t, f) (some b, g) (none, h) = (
    record c {
      server_configuration = record c.server_configuration {
        max_message_resends = r;
        time_between_message_resends_in_seconds = t;
        message_buffer_size = b;
      };
    },
    false,
    rw (e, f, g, h),
  )
  read_json_returns json c (some r, e) (some t, f) (some b, g) (some p, h) = (
    record c {
      server_configuration = record c.server_configuration {
        max_message_resends = r;
        time_between_message_resends_in_seconds = t;
        message_buffer_size = b;
        listening_port = p;
      };
    },
    true,
    rw (e, f, g, h),
  )

  read_json_values :
      (json : Json) (c c' : Configuration) (read : Bool)
      → Reads (some (some json)) c c' read
      → (c'.logging_level ≡ c.logging_level)
        × (read ≡ true → HasValues json c'.server_configuration)
  unfolding read_configuration read_from_json
  read_json_values json c c' read h = (
    ground arith,
    λ e. record {
      resends = ground arith;
      seconds = ground arith;
      size = ground arith;
      port = ground arith;
    },
  )

  read_json_known :
      (json : Json) (c : Configuration) (s : ServerConfiguration)
      → HasValues json s
      → Reads (some (some json)) c (record c { server_configuration = s }) true
  unfolding read_configuration read_from_json
  read_json_known json c s v = rw (v.resends, v.seconds, v.size, v.port)

  -- Reading a document that has the four keys returns, and so does reading a file that is not there
  -- or is not JSON. When it returns, the level of the logging is what it was, and if the answer is
  -- true, the file is there and is JSON with the four values that the configuration of the server has
  -- now. A file that is JSON with four values is read with the answer true, and the configuration of
  -- the server is these values.
  pub read_configuration_lem :
      (file : Option (Option Json)) (c : Configuration)
      → (((json : Json)
            → file ≡ some (some json)
            → HasKey json "MaxMessageResends" 32
              × HasKey json "TimeBetweenMessageResendsInSeconds" 32
              × HasKey json "MessageBufferSize" 32
              × HasKey json "ListeningPort" 16)
          → (c' : Configuration) × (read : Bool) × Reads file c c' read)
        × ((c' : Configuration) (read : Bool)
            → Reads file c c' read
            → (c'.logging_level ≡ c.logging_level)
              × (read ≡ true
                  → (json : Json) × (file ≡ some (some json))
                    × HasValues json c'.server_configuration))
        × ((json : Json) (s : ServerConfiguration)
            → file ≡ some (some json)
            → HasValues json s
            → Reads file c (record c { server_configuration = s }) true)
  unfolding read_configuration read_from_json
  read_configuration_lem none c = (
    (λ keys. (c, false, refl)),
    (λ c' read h. (ground arith, λ e. absurd (ground arith))),
    λ json s e v. absurd (ground arith),
  )
  read_configuration_lem (some none) c = (
    (λ keys. (c, false, refl)),
    (λ c' read h. (ground arith, λ e. absurd (ground arith))),
    λ json s e v. absurd (ground arith),
  )
  read_configuration_lem (some (some json)) c = (
    (λ keys. let (r, t, b, p) = keys json refl in read_json_returns json c r t b p),
    (λ c' read h.
        let (kept, values) = read_json_values json c c' read h in
        (kept, λ e. (json, refl, values e))),
    λ json' s e v.
        let same : json ≡ json' = ground arith in
        read_json_known json c s (subst (λ j. HasValues j s) (sym same) v),
  )

-- `LoggingConfiguration::readFromJson`, which nothing calls.
unfoldable pub read_logging_from_json :
    {Json : Type 0}
    → (Json → String → String → Outcome (Option String))
    → Json
    → Configuration
    → Outcome (Configuration × Bool)
read_logging_from_json get_text json c = do
  text ← get_text json "LoggingConfiguration" "Level"
  elim text [
    | none ↦ returns (c, false)
    | some level ↦ returns (record c { logging_level = level }, true)
  ]
