-- ===== src/Scenarios/Authentication.antt =====
-- A run of the authentication with a toy encoding that pads 32 bytes to 44 characters.
use thesis_agent.Auth.{answer}
use thesis_agent.Auth.{challenged}
use thesis_agent.Auth.{greet}
use thesis_agent.Auth.{configured}
use thesis_agent.Auth.{decode_sized}
use thesis_agent.Auth.{assemble}
use thesis_agent.Base.{
  ◌≡◌, refl, true, false, Option, some, List, [], ◌∷◌, ◌++◌, ℕ, Text, codes, take, arith, any, last,
}
use thesis_agent.Auth.{
  Bytes, Base64, Message, Challenge, key, Server, version, frame, clear_key, canonical_id,
  transcript, read_message, authenticate,
}
use thesis_agent.Auth.Framing.{read_fields, read_fields-frame, transcript_injective}
use thesis_agent.Auth.Exchange.{is_load, authenticate-load}

abbrev fields : List Bytes
fields = version ∷ [] ∷ codes "agent" ∷ []

read_fields-frame_example : read_fields 3 (frame fields ++ 7 ∷ []) ≡ some (fields, 7 ∷ [])
read_fields-frame_example =
    read_fields-frame fields (7 ∷ []) (omega arith, (omega arith, (omega arith, tt)))

abbrev eight : ℕ → Bytes
eight n = n ∷ n ∷ n ∷ n ∷ n ∷ n ∷ n ∷ n ∷ []

abbrev nonce_bytes : ℕ → Bytes
nonce_bytes n = eight n ++ (eight n ++ (eight n ++ eight n))

abbrev padding : Text
padding = codes "============"

abbrev toy : Base64
toy = record { decode = λ s. some (take 32 s); encode = λ bytes. bytes ++ padding }

abbrev id : Text
id = codes "0123abcd-0123-0123-0123-0123456789ab"

abbrev nonce_text : ℕ → Text
nonce_text n = nonce_bytes n ++ padding

abbrev signed : Bytes
signed = frame (version ∷ id ∷ nonce_bytes 1 ∷ nonce_bytes 2 ∷ nonce_bytes 3 ∷ [])

signed_made : transcript toy id (nonce_text 1) (nonce_text 2) (nonce_text 3) ≡ some signed
unfolding transcript canonical_id assemble decode_sized
signed_made = refl

transcript_injective_example :
    (id ≡ id)
    × (nonce_text 1 ≡ nonce_text 1)
    × (nonce_text 2 ≡ nonce_text 2)
    × (nonce_text 3 ≡ nonce_text 3)
transcript_injective_example =
    transcript_injective toy id (nonce_text 1) (nonce_text 2) (nonce_text 3) id (nonce_text 1)
      (nonce_text 2) (nonce_text 3) signed signed_made signed_made

abbrev challenge : Challenge
challenge = record {
  kind = codes "auth_challenge";
  version_read = version;
  challenge_id = nonce_text 1;
  server_nonce = nonce_text 3;
}

abbrev message : {A : Type 0} → A → Option (Message A)
message a = some (record { is_text = true; size = 200; value = some a; at_end = true })

abbrev server : Server
server = record {
  agent_id = id;
  has_loader = true;
  nonce = some (nonce_text 2);
  hello_written = true;
  challenge = message challenge;
  loaded = key (nonce_bytes 4 ++ nonce_bytes 5);
  expired_before_signing = false;
  proof_written = true;
  ok = message (record { kind = codes "auth_ok"; version_read = version });
  expired_at_end = false;
}

abbrev sign : Bytes → Bytes → Bytes
sign private text = take 64 private

loads : any is_load (authenticate toy sign server).0 ≡ true
unfolding authenticate configured canonical_id greet challenged read_message answer transcript
    assemble decode_sized
loads = refl

authenticate-load_example :
    (id nonce : Text) × (c : Challenge) × (text : Bytes) × (canonical_id server.agent_id ≡ some id)
    × (server.nonce ≡ some nonce)
    × (read_message server.challenge ≡ some c)
    × (c.version_read ≡ version)
    × (transcript toy id c.challenge_id nonce c.server_nonce ≡ some text)
    × (last (authenticate toy sign server).0 ≡ some clear_key)
authenticate-load_example = authenticate-load toy sign server loads
