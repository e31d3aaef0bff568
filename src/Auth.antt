-- ===== src/Auth.antt =====
-- The agent's authentication to the server (internal/agentauth/protocol.go, and `authenticate` of
-- client/auth.go). Texts and byte strings are lists of bytes; base64 and Ed25519 are parameters.
pub mod Framing
pub mod Canonical
pub mod Exchange
use thesis_agent.Base.{
  ℕ, zero, suc, ◌+◌, ◌/◌, ◌%◌, ◌^◌, ◌*◌, Bool, true, false, not, ◌&&◌, ◌||◌, Option, none, some,
  List, [], ◌∷◌, ◌++◌, map, if◌then◌else◌, ltb, leb, ◌==◌, length, all, Text, codes, bytes_eq,
  is_some,
}

abbrev pub Bytes : Type 0
Bytes = List ℕ

abbrev pub nonce_size : ℕ
nonce_size = 32

abbrev pub message_limit : ℕ
message_limit = 4096

abbrev pub version : Text
version = codes "THESIS-RAT-AGENT-AUTH-V1"

-- `s[i] == c`; past the end it is false, which the length test before excludes.
abbrev pub byte_is : ℕ → ℕ → Text → Bool
byte_is i c [] = false
byte_is zero c (b ∷ s) = b == c
byte_is (suc i) c (b ∷ s) = byte_is i c s

-- strings.ReplaceAll(s, "-", "").
abbrev pub strip : Text → Text
strip [] = []
strip (c ∷ s) = if c == b'-' then strip s else c ∷ strip s

abbrev pub is_hex : ℕ → Bool
is_hex c = (leb b'0' c && leb c b'9') || (leb b'a' c && leb c b'f') || (leb b'A' c && leb c b'F')

-- strings.ToLower on ASCII, which is all that reaches it.
abbrev pub lower : ℕ → ℕ
lower c = if leb b'A' c && leb c b'Z' then c + 32 else c

-- `CanonicalID`; hex.DecodeString takes texts of an even length that are all hexadecimal digits.
unfoldable pub canonical_id : Text → Option Text
canonical_id id =
    if not (length id == 36)
      || not (byte_is 8 b'-' id)
      || not (byte_is 13 b'-' id)
      || not (byte_is 18 b'-' id)
      || not (byte_is 23 b'-' id)
    then none
    else if not (length (strip id) == 32)
    then none
    else if not (all is_hex (strip id))
    then none
    else some (map lower id)

-- base64.StdEncoding: the strict decoder, and the encoder.
pub record Base64 : Type 0 where
  pub decode : Text → Option Bytes
  pub encode : Bytes → Text

-- base64.StdEncoding.EncodedLen.
abbrev pub encoded_len : ℕ → ℕ
encoded_len n = (n + 2) / 3 * 4

-- Four bytes, the highest first: binary.Write of a uint32.
unfoldable pub be32 : ℕ → Bytes
be32 n = n / 2 ^ 24 % 256 ∷ n / 2 ^ 16 % 256 ∷ n / 2 ^ 8 % 256 ∷ n % 256 ∷ []

-- The loop at the end of `Transcript`.
unfoldable pub frame : List Bytes → Bytes
frame [] = []
frame (field ∷ fields) = be32 (length field % 2 ^ 32) ++ (field ++ frame fields)

module _ (k : Base64) where
  -- `Decode`.
  unfoldable pub decode_sized : Text → ℕ → Option Bytes
  decode_sized value size =
      if not (length value == encoded_len size) then none else elim (k.decode value) [
        | none ↦ none
        | some bytes ↦
            if not (length bytes == size) || not (bytes_eq (k.encode bytes) value)
            then none
            else some bytes
      ]

  -- `PublicKey`, behind strings.TrimSpace; `size` is the length of the untrimmed text.
  unfoldable pub public_key : ℕ → Text → Option Bytes
  public_key size trimmed = if ltb 256 size then none else decode_sized trimmed 32

  -- What the decoded nonces lead to in `Transcript`.
  unfoldable pub assemble : Text → Option Bytes → Option Bytes → Option Bytes → Option Bytes
  assemble id (some c) (some cn) (some sn) = some (frame (version ∷ id ∷ c ∷ cn ∷ sn ∷ []))
  assemble id none _ _ = none
  assemble id (some c) none _ = none
  assemble id (some c) (some cn) none = none

  -- `Transcript`.
  unfoldable pub transcript : Text → Text → Text → Text → Option Bytes
  transcript id challenge client server = elim (canonical_id id) [
    | none ↦ none
    | some canonical ↦
        if not (bytes_eq canonical id)
        then none
        else assemble id (decode_sized challenge nonce_size) (decode_sized client nonce_size)
            (decode_sized server nonce_size)
  ]

-- A frame from the socket, with the results of the two calls of the strict JSON decoder: the value
-- at the type expected, and whether nothing follows it.
pub record Message (A : Type 0) : Type 0 where
  pub is_text : Bool
  pub size : ℕ
  pub value : Option A
  pub at_end : Bool

-- `Read`; `none` is the error of conn.Read.
unfoldable pub read_message : {A : Type 0} → Option (Message A) → Option A
read_message none = none
read_message (some m) =
    if not m.is_text || ltb message_limit m.size
    then none
    else if is_some m.value && m.at_end
    then m.value
    else none

pub record Challenge : Type 0 where
  pub kind : Text
  pub version_read : Text
  pub challenge_id : Text
  pub server_nonce : Text

pub record Ok : Type 0 where
  pub kind : Text
  pub version_read : Text

-- `PrivateKeyLoader`.
pub data Loaded : Type 0 where
  key : Bytes → Loaded
  migration_required unavailable : Loaded

pub data AuthError : Type 0 where
  failed not_configured needs_migration key_unavailable : AuthError

-- What the connection, the loader, the clock and the random source answer, in the order of the calls.
pub record Server : Type 0 where
  pub agent_id : Text
  pub has_loader : Bool
  pub nonce : Option Text
  pub hello_written : Bool
  pub challenge : Option (Message Challenge)
  pub loaded : Loaded
  pub expired_before_signing : Bool
  pub proof_written : Bool
  pub ok : Option (Message Ok)
  pub expired_at_end : Bool

-- What `authenticate` does, in order: the messages sent, the private key's load and its clearing.
pub data Act : Type 0 where
  hello : (id nonce : Text) → Act
  load_key clear_key : Act
  proof : (challenge_id : Text) (signature : Bytes) → Act

module _ (k : Base64) (sign : Bytes → Bytes → Bytes) (s : Server) where
  -- Behind the proof: the server's answer.
  unfoldable pub confirm : Option Ok → Option AuthError
  confirm none = some failed
  confirm (some m) =
      if not (bytes_eq m.kind (codes "auth_ok"))
        || not (bytes_eq m.version_read version)
        || s.expired_at_end
      then some failed
      else none

  -- What the loaded key leads to. The deferred clearing comes last.
  unfoldable pub prove : Challenge → Bytes → Loaded → List Act × Option AuthError
  prove c text migration_required = (clear_key ∷ [], some needs_migration)
  prove c text unavailable = (clear_key ∷ [], some key_unavailable)
  prove c text (key bytes) =
      if not (length bytes == 64) || s.expired_before_signing
      then (clear_key ∷ [], some key_unavailable)
      else (
        clear_key ∷ proof c.challenge_id (sign bytes text) ∷ clear_key ∷ [],
        if not s.proof_written then some failed else confirm (read_message s.ok),
      )

  -- What the transcript leads to.
  unfoldable pub answer : Challenge → Option Bytes → List Act × Option AuthError
  answer c none = ([], some failed)
  answer c (some text) = let (acts, result) = prove c text s.loaded in (load_key ∷ acts, result)

  -- What the challenge leads to.
  unfoldable pub challenged : Text → Text → Option Challenge → List Act × Option AuthError
  challenged id nonce none = ([], some failed)
  challenged id nonce (some c) =
      if not (bytes_eq c.kind (codes "auth_challenge")) || not (bytes_eq c.version_read version)
      then ([], some failed)
      else answer c (transcript k id c.challenge_id nonce c.server_nonce)

  -- Behind the checks of the configuration.
  unfoldable pub greet : Text → Option Text → List Act × Option AuthError
  greet id none = ([], some failed)
  greet id (some nonce) =
      if not s.hello_written
      then (hello id nonce ∷ [], some failed)
      else (let (acts, result) = challenged id nonce (read_message s.challenge) in
          (hello id nonce ∷ acts, result))

  -- What the canonical id leads to.
  unfoldable pub configured : Option Text → List Act × Option AuthError
  configured none = ([], some not_configured)
  configured (some id) = if not s.has_loader then ([], some not_configured) else greet id s.nonce

  -- `authenticate`: the acts, and the error if there is one.
  unfoldable pub authenticate : List Act × Option AuthError
  authenticate = configured (canonical_id s.agent_id)
