-- ===== src/Auth/Framing.antt =====
-- The transcript that is signed determines what it was made of (`Transcript` of
-- internal/agentauth/protocol.go).
use mathlib.Core.List.{append-nil}
use thesis_agent.Base.{
  ℕ, zero, suc, ◌+◌, ◌*◌, ◌/◌, ◌%◌, ◌^◌, ◌<◌, ◌≡◌, refl, ap, ◌∙◌, sym, Option, none, some, List, [],
  ◌∷◌, ◌++◌, arith, length, Text, bytes_eq_sound, Option-cases, inl, inr,
}
use thesis_agent.Auth.Canonical.{canonical_id_idem}
use thesis_agent.Auth.{
  Bytes, Base64, be32, frame, version, canonical_id, decode_sized, assemble, transcript, nonce_size,
}

-- A reader of the format, as the server would write it: a length, as many bytes, and so on.
abbrev add_first : ℕ → Option (Bytes × Bytes) → Option (Bytes × Bytes)
add_first b none = none
add_first b (some (field, rest)) = some (b ∷ field, rest)

split : ℕ → Bytes → Option (Bytes × Bytes)
split zero bytes = some ([], bytes)
split (suc n) [] = none
split (suc n) (b ∷ bytes) = add_first b (split n bytes)

pub read_field : Bytes → Option (Bytes × Bytes)
read_field (a ∷ b ∷ c ∷ d ∷ bytes) = split (a * 2 ^ 24 + b * 2 ^ 16 + c * 2 ^ 8 + d) bytes
read_field _ = none

abbrev add_field : Bytes → Option (List Bytes × Bytes) → Option (List Bytes × Bytes)
add_field field none = none
add_field field (some (fields, rest)) = some (field ∷ fields, rest)

pub read_fields : ℕ → Bytes → Option (List Bytes × Bytes)
read_fields zero bytes = some ([], bytes)
read_fields (suc n) bytes = elim (read_field bytes) [
  | none ↦ none
  | some (field, rest) ↦ add_field field (read_fields n rest)
]

abbrev pub AllShort : List Bytes → Type 0
AllShort [] = Unit
AllShort (field ∷ fields) = (length field < 2 ^ 32) × AllShort fields

split-append : (field rest : Bytes) → split (length field) (field ++ rest) ≡ some (field, rest)
unfolding split
split-append [] rest = refl
split-append (b ∷ field) rest = ap (add_first b) (split-append field rest)

be32_value :
    (n : ℕ)
    → n < 2 ^ 32
    → n / 2 ^ 24 % 256 * 2 ^ 24 + n / 2 ^ 16 % 256 * 2 ^ 16 + n / 2 ^ 8 % 256 * 2 ^ 8 + n % 256 ≡ n
be32_value n h = omega arith

read_field-be32 :
    (field rest : Bytes)
    → length field < 2 ^ 32
    → read_field (be32 (length field % 2 ^ 32) ++ (field ++ rest)) ≡ some (field, rest)
unfolding read_field be32
read_field-be32 field rest h =
    let small : length field % 2 ^ 32 ≡ length field = omega arith in
    rw (small, be32_value (length field) h) (split-append field rest)

append_frame : (field fields more : Bytes) → (field ++ fields) ++ more ≡ field ++ (fields ++ more)
append_frame [] fields more = refl
append_frame (b ∷ field) fields more = ap (λ l. b ∷ l) (append_frame field fields more)

-- Reading as many fields as were framed gives them back, with what follows left over, if each is
-- shorter than 2^32 bytes.
pub read_fields-frame :
    (fields : List Bytes) (rest : Bytes)
    → AllShort fields
    → read_fields (length fields) (frame fields ++ rest) ≡ some (fields, rest)
unfolding read_fields frame
read_fields-frame [] rest h = refl
read_fields-frame (field ∷ fields) rest h =
    let first = read_field-be32 field (frame fields ++ rest) h.0 in
    let regrouped = append_frame (be32 (length field % 2 ^ 32)) (field ++ frame fields) rest in
    let inner = append_frame field (frame fields) rest in
    let later = read_fields-frame fields rest h.1 in ground (arith, regrouped, inner, first, later)

-- What an accepted base64 text stands for encodes back to it, and has the size asked for.
decode_sized_lem :
    (k : Base64) (value : Text) (size : ℕ) (bytes : Bytes)
    → decode_sized k value size ≡ some bytes
    → (k.encode bytes ≡ value) × (length bytes ≡ size)
unfolding decode_sized
decode_sized_lem k value size bytes e = elim (Option-cases (k.decode value)) [
  | inl bad ↦ ground arith
  | inr (found, good) ↦
      let same : found ≡ bytes = ground arith in
      (ground (arith, bytes_eq_sound (k.encode found) value, ap k.encode same), ground arith)
]

-- The parts of a transcript that was made.
record IsMade (k : Base64) (id challenge client server : Text) (text : Bytes) : Type 0 where
  c : Bytes
  cn : Bytes
  sn : Bytes
  challenge_is : decode_sized k challenge nonce_size ≡ some c
  client_is : decode_sized k client nonce_size ≡ some cn
  server_is : decode_sized k server nonce_size ≡ some sn
  id_short : length id ≡ 36
  text_is : frame (version ∷ id ∷ c ∷ cn ∷ sn ∷ []) ≡ text

assemble-IsMade :
    (k : Base64) (id challenge client server : Text) (text : Bytes) (c cn sn : Option Bytes)
    → length id ≡ 36
    → decode_sized k challenge nonce_size ≡ c
    → decode_sized k client nonce_size ≡ cn
    → decode_sized k server nonce_size ≡ sn
    → assemble k id c cn sn ≡ some text
    → IsMade k id challenge client server text
unfolding assemble
assemble-IsMade k id challenge client server text (some c) (some cn) (some sn) short ec en es e =
    record {
      c = c;
      cn = cn;
      sn = sn;
      challenge_is = ec;
      client_is = en;
      server_is = es;
      id_short = short;
      text_is = cc;
    }
assemble-IsMade k id challenge client server text none cn sn short ec en es e = cc
assemble-IsMade k id challenge client server text (some c) none sn short ec en es e = cc
assemble-IsMade k id challenge client server text (some c) (some cn) none short ec en es e = cc

transcript-IsMade :
    (k : Base64) (id challenge client server : Text) (text : Bytes)
    → transcript k id challenge client server ≡ some text
    → IsMade k id challenge client server text
unfolding transcript
transcript-IsMade k id challenge client server text e = elim (Option-cases (canonical_id id)) [
  | inl bad ↦ cc
  | inr (canonical, good) ↦
      let same : canonical ≡ id = ground (arith, bytes_eq_sound canonical id) in
      let short : length id ≡ 36 = ap length (sym same) ∙ (canonical_id_idem id canonical good).1 in
      assemble-IsMade k id challenge client server text _ _ _ short refl refl refl
        (ground (arith, bytes_eq_sound canonical id))
]

abbrev five : Text → Bytes → Bytes → Bytes → List Bytes
five id c cn sn = version ∷ id ∷ c ∷ cn ∷ sn ∷ []

-- A transcript reads back as its five fields and nothing else: the version, the agent's id, and the
-- bytes of which the challenge id, the client's nonce and the server's nonce are the base64 texts.
pub read_fields-transcript :
    (k : Base64) (id challenge client server : Text) (text : Bytes)
    → transcript k id challenge client server ≡ some text
    → (c cn sn : Bytes) × (read_fields 5 text ≡ some (version ∷ id ∷ c ∷ cn ∷ sn ∷ [], []))
      × (k.encode c ≡ challenge)
      × (k.encode cn ≡ client)
      × (k.encode sn ≡ server)
read_fields-transcript k id challenge client server text e =
    let made = transcript-IsMade k id challenge client server text e in
    let c_is = decode_sized_lem k challenge nonce_size made.c made.challenge_is in
    let cn_is = decode_sized_lem k client nonce_size made.cn made.client_is in
    let sn_is = decode_sized_lem k server nonce_size made.sn made.server_is in
    let fields = five id made.c made.cn made.sn in
    let short : AllShort fields = omega (arith, made.id_short, c_is.1, cn_is.1, sn_is.1) in
    let whole : frame fields ++ [] ≡ text = append-nil (frame fields) ∙ made.text_is in
    (
      made.c,
      made.cn,
      made.sn,
      ap (read_fields 5) (sym whole) ∙ read_fields-frame fields [] short,
      c_is.0,
      cn_is.0,
      sn_is.0,
    )

-- Two transcripts that are equal were made of the same id, challenge id and nonces.
pub transcript_injective :
    (k : Base64) (id challenge client server id' challenge' client' server' : Text) (text : Bytes)
    → transcript k id challenge client server ≡ some text
    → transcript k id' challenge' client' server' ≡ some text
    → (id ≡ id') × (challenge ≡ challenge') × (client ≡ client') × (server ≡ server')
transcript_injective k id challenge client server id' challenge' client' server' text e e' =
    let (c, cn, sn, here, a, b, d) = read_fields-transcript k id challenge client server text e in
    let (c', cn', sn', there, a', b', d') =
      read_fields-transcript k id' challenge' client' server' text e' in
    let same = sym here ∙ there in
    let sc : c ≡ c' = cc in let scn : cn ≡ cn' = cc in let ssn : sn ≡ sn' = cc in (cc, cc, cc, cc)
