-- ===== src/Identity.antt =====
-- The agent's identity and its private key (service/agent_id.go, service/private_key.go). JSON,
-- base64, Ed25519, SHA-256 and DPAPI are outside the model and are parameters.
pub mod Store
pub mod Migration
use Prim.Native.String.{len}
use thesis_agent.Base.{
  ℕ, zero, suc, Bool, true, false, not, ◌&&◌, ◌||◌, Option, none, some, List, [], ◌∷◌, String,
  if◌then◌else◌, ltb, ◌==◌, str_eq, length, take, Text, bytes_eq,
}

abbrev pub Bytes : Type 0
Bytes = List ℕ

pub record AgentConfig : Type 0 where
  pub agent_id : String
  pub algorithm : String
  pub public_key : String
  pub encrypted_private_key : String
  pub private_key_protection : String

pub record EnrollmentState : Type 0 where
  pub agent_id : String
  pub public_key_sha256 : String
  pub api : String
  pub verified : Bool

pub record Crypto : Type 0 where
  -- json.Unmarshal at AgentConfig and at enrollmentState.
  pub parse_identity : Bytes → Option AgentConfig
  pub parse_enrollment : Bytes → Option EnrollmentState
  -- The identity's JSON with `encrypted_private_key` and `private_key_protection` replaced and all
  -- other fields kept, as the migration prepares it.
  pub replace_fields : Bytes → String → String → Option Bytes
  pub is_uuid : String → Bool
  pub base64_decode : String → Option Bytes
  pub base64_encode : Bytes → String
  -- ed25519.NewKeyFromSeed.
  pub key_from_seed : Bytes → Bytes
  -- hex.EncodeToString(sha256.Sum256(…)).
  pub sha256_hex : Bytes → String
  pub protect : Bytes → Option Bytes
  pub unprotect : Bytes → Option Bytes

abbrev pub key_algorithm : String
key_algorithm = "Ed25519"

abbrev pub machine_protection : String
machine_protection = "dpapi-machine-v1"

abbrev pub size_limit : ℕ
size_limit = 1048576

pub data Error : Type 0 where
  invalid_json invalid_agent_id unsupported_algorithm unsupported_protection : Error
  malformed_public_key malformed_private_key legacy_protection not_decryptable : Error
  wrong_length inconsistent_key key_mismatch : Error

pub data Result (A : Type 0) : Type 0 where
  ok : A → Result A
  err : Error → Result A

infixl 5 ◌>>=◌ ◌>>◌
abbrev pub ◌>>=◌ : {A B : Type 0} → Result A → (A → Result B) → Result B
ok a >>= f = f a
err e >>= f = err e

abbrev pub ◌>>◌ : {B : Type 0} → Result (Unit {0}) → Result B → Result B
m >> k = m >>= λ _. k

abbrev pub require : Bool → Error → Result (Unit {0})
require true e = ok tt
require false e = err e

abbrev pub from_option : {A : Type 0} → Option A → Error → Result A
from_option none e = err e
from_option (some a) e = ok a

abbrev pub drop : ℕ → Bytes → Bytes
drop zero s = s
drop (suc n) [] = []
drop (suc n) (c ∷ s) = drop n s

module _ (k : Crypto) where
  -- `DecodeIdentity`. The decoded lengths are checked; the ciphertext stays opaque.
  unfoldable pub decode_identity : Bytes → Result AgentConfig
  decode_identity text = do
    cfg ← from_option (k.parse_identity text) invalid_json
    require (len cfg.agent_id == 36 && k.is_uuid cfg.agent_id) invalid_agent_id
    require (str_eq cfg.algorithm key_algorithm) unsupported_algorithm
    require
        (str_eq cfg.private_key_protection ""
          || str_eq cfg.private_key_protection machine_protection)
        unsupported_protection
    public ← from_option (k.base64_decode cfg.public_key) malformed_public_key
    require (length public == 32) malformed_public_key
    private ← from_option (k.base64_decode cfg.encrypted_private_key) malformed_private_key
    require (not (length private == 0)) malformed_private_key
    ok cfg

  -- `validatePrivateKey`.
  unfoldable pub validate_private_key : Bytes → String → Result (Unit {0})
  validate_private_key key public_key = do
    require (length key == 64) wrong_length
    let derived = k.key_from_seed (take 32 key)
    require (bytes_eq key derived) inconsistent_key
    public ← from_option (k.base64_decode public_key) key_mismatch
    require (length public == 32 && bytes_eq (drop 32 derived) public) key_mismatch

  -- `privateKeyFromIdentity`; `decrypt` is its argument.
  unfoldable pub private_key_from_identity : Bytes → Bool → (Bytes → Option Bytes) → Result Bytes
  private_key_from_identity text require_machine decrypt = do
    cfg ← decode_identity text
    require (not (require_machine && not (str_eq cfg.private_key_protection machine_protection)))
        legacy_protection
    ciphertext ← from_option (k.base64_decode cfg.encrypted_private_key) malformed_private_key
    key ← from_option (decrypt ciphertext) not_decryptable
    validate_private_key key cfg.public_key
    ok key
