-- ===== src/Auth/Exchange.antt =====
-- The messages of `authenticate` (client/auth.go).
use thesis_agent.Base.{
  ◌≡◌, refl, Bool, true, false, not, ◌||◌, Option, none, some, List, [], ◌∷◌, arith, last, any,
  Text, codes, bytes_eq, bytes_eq_sound, Bool-cases, inl, inr, ◌≢◌, ◌⊎◌, length,
}
use thesis_agent.Auth.{
  Bytes, Base64, version, canonical_id, transcript, read_message, Challenge, Ok, Loaded, key,
  migration_required, unavailable, AuthError, Server, Act, hello, load_key, clear_key, proof, prove,
  answer, challenged, greet, configured, authenticate,
}

abbrev pub is_load : Act → Bool
is_load load_key = true
is_load _ = false

module _ (k : Base64) (sign : Bytes → Bytes → Bytes) (s : Server) where
  -- The server was shown a signature, with the loaded key, of the transcript that binds the agent's
  -- canonical id, the challenge and both nonces; nothing else was sent, and the key was cleared.
  pub record IsProven (acts : List Act) : Type 0 where
    pub id : Text
    pub nonce : Text
    pub challenge : Challenge
    pub text : Bytes
    pub bytes : Bytes
    pub canonical : canonical_id s.agent_id ≡ some id
    pub fresh : s.nonce ≡ some nonce
    pub received : read_message s.challenge ≡ some challenge
    pub challenge_version : challenge.version_read ≡ version
    pub signed_text :
        transcript k id challenge.challenge_id nonce challenge.server_nonce ≡ some text
    pub with_key : s.loaded ≡ key bytes
    pub key_length : length bytes ≡ 64
    pub sent :
        acts
        ≡ hello id nonce
          ∷ load_key
          ∷ clear_key
          ∷ proof challenge.challenge_id (sign bytes text)
          ∷ clear_key
          ∷ []
    pub accepted : (m : Ok) × (read_message s.ok ≡ some m) × (m.version_read ≡ version)

  prove_clears :
      (c : Challenge) (text : Bytes) (l : Loaded)
      → (last (load_key ∷ (prove k sign s c text l).0) ≡ some clear_key)
  unfolding prove
  prove_clears c text migration_required = refl
  prove_clears c text unavailable = refl
  prove_clears c text (key bytes) = ground arith

  -- What a run up to the signature shows.
  record IsChallenged (id nonce : Text) (acts : List Act) (result : Option AuthError) : Type 0 where
    c : Challenge
    text : Bytes
    received : read_message s.challenge ≡ some c
    c_version : c.version_read ≡ version
    made : transcript k id c.challenge_id nonce c.server_nonce ≡ some text
    acts_are : acts ≡ load_key ∷ (prove k sign s c text s.loaded).0
    result_is : result ≡ (prove k sign s c text s.loaded).1

  answer-IsChallenged :
      (id nonce : Text) (c : Challenge) (o : Option Bytes)
      → read_message s.challenge ≡ some c
      → c.version_read ≡ version
      → transcript k id c.challenge_id nonce c.server_nonce ≡ o
      → ((answer k sign s c o).0 ≡ []) × ((answer k sign s c o).1 ≢ none)
        ⊎ IsChallenged id nonce (answer k sign s c o).0 (answer k sign s c o).1
  unfolding answer
  answer-IsChallenged id nonce c none r v e = inl (refl, λ h. cc)
  answer-IsChallenged id nonce c (some text) r v e = inr (record {
    c = c;
    text = text;
    received = r;
    c_version = v;
    made = e;
    acts_are = refl;
    result_is = refl;
  })

  challenged-IsChallenged :
      (id nonce : Text) (o : Option Challenge)
      → read_message s.challenge ≡ o
      → ((challenged k sign s id nonce o).0 ≡ []) × ((challenged k sign s id nonce o).1 ≢ none)
        ⊎ IsChallenged id nonce
            (challenged k sign s id nonce o).0
            (challenged k sign s id nonce o).1
  unfolding challenged
  challenged-IsChallenged id nonce none r = inl (refl, λ h. cc)
  challenged-IsChallenged id nonce (some c) r =
      elim (Bool-cases
        (not (bytes_eq c.kind (codes "auth_challenge")) || not (bytes_eq c.version_read version))) [
          | inl refused ↦ rw refused (inl (refl, λ h. cc))
          | inr fine ↦
              let same : c.version_read ≡ version =
                ground (arith, bytes_eq_sound c.version_read version) in
              rw fine (answer-IsChallenged id nonce c _ r same refl)
        ]

  -- A run of the part behind the configuration: it stops before the challenge is answered, with an
  -- error and without the key, or it goes on up to the signature.
  abbrev Stops : List Act → Option AuthError → Type 0
  Stops acts result = (any is_load acts ≡ false) × (result ≢ none)

  abbrev Continues : Text → List Act → Option AuthError → Type 0
  Continues id acts result =
      (nonce : Text) × (rest : List Act) × (s.nonce ≡ some nonce)
      × (acts ≡ hello id nonce ∷ rest)
      × IsChallenged id nonce rest result

  stopped :
      (acts : List Act) (result : Option AuthError)
      → acts ≡ []
      → result ≢ none
      → (id nonce : Text) → Stops (hello id nonce ∷ acts) result
  stopped acts result e h id nonce = (rw e refl, h)

  greet-cases :
      (id : Text) (o : Option Text)
      → s.nonce ≡ o
      → Stops (greet k sign s id o).0 (greet k sign s id o).1
        ⊎ Continues id (greet k sign s id o).0 (greet k sign s id o).1
  unfolding greet
  greet-cases id none e = inl (refl, λ h. cc)
  greet-cases id (some nonce) e = elim (Bool-cases s.hello_written) [
    | inr unsent ↦ simp unsent (inl (refl, λ h. cc))
    | inl sent ↦
        simp sent (elim (challenged-IsChallenged id nonce (read_message s.challenge) refl) [
          | inl (no_acts, error) ↦ inl (stopped _ _ no_acts error id nonce)
          | inr v ↦ inr (nonce, _, e, refl, v)
        ])
  ]

  configured_cases :
      (o : Option Text)
      → canonical_id s.agent_id ≡ o
      → Stops (configured k sign s o).0 (configured k sign s o).1
        ⊎ ((id : Text) × (canonical_id s.agent_id ≡ some id)
            × Continues id (configured k sign s o).0 (configured k sign s o).1)
  unfolding configured
  configured_cases none e = inl (refl, λ h. cc)
  configured_cases (some id) e = elim (Bool-cases s.has_loader) [
    | inr missing ↦ simp missing (inl (refl, λ h. cc))
    | inl there ↦ simp there (elim (greet-cases id s.nonce refl) [
      | inl stops ↦ inl stops
      | inr goes ↦ inr (id, e, goes)
    ])
  ]

  authenticate_cases :
      Stops (authenticate k sign s).0 (authenticate k sign s).1
      ⊎ ((id : Text) × (canonical_id s.agent_id ≡ some id)
          × Continues id (authenticate k sign s).0 (authenticate k sign s).1)
  unfolding authenticate
  authenticate_cases = configured_cases (canonical_id s.agent_id) refl

  last_clear :
      (id nonce : Text) (c : Challenge) (text : Bytes) (rest acts : List Act)
      → rest ≡ load_key ∷ (prove k sign s c text s.loaded).0
      → acts ≡ hello id nonce ∷ rest
      → last acts ≡ some clear_key
  last_clear id nonce c text rest acts e h = rw (h, e) (prove_clears c text s.loaded)

  -- Where the private key is loaded, a challenge of the right version was received and the
  -- transcript was made, with the canonical id of the agent and its own nonce; and the last thing
  -- that is done is to clear the key.
  pub authenticate-load :
      any is_load (authenticate k sign s).0 ≡ true
      → (id nonce : Text) × (c : Challenge) × (text : Bytes) × (canonical_id s.agent_id ≡ some id)
        × (s.nonce ≡ some nonce)
        × (read_message s.challenge ≡ some c)
        × (c.version_read ≡ version)
        × (transcript k id c.challenge_id nonce c.server_nonce ≡ some text)
        × (last (authenticate k sign s).0 ≡ some clear_key)
  authenticate-load h = elim authenticate_cases [
    | inl (no_load, error) ↦ cc
    | inr (id, good, (nonce, rest, fresh, acts, v)) ↦ (
      id,
      nonce,
      v.c,
      v.text,
      good,
      fresh,
      v.received,
      v.c_version,
      v.made,
      last_clear id nonce v.c v.text rest _ v.acts_are acts,
    )
  ]
