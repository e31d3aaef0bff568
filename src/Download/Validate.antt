-- ===== src/Download/Validate.antt =====
-- The checks on a download command before it is queued (`validate` of download/manager.go).
use Prim.Native.String.{len}
use thesis_agent.Base.{
  ℕ, ◌≤◌, ◌<◌, ◌≡◌, ◌⊎◌, refl, Bool, true, false, not, ◌&&◌, ◌||◌, Option, none, some, List, String,
  arith, if◌then◌else◌, ltb, ◌==◌, str_eq, eq_iff, ℤ, pos, negsuc, is_negative, is_none, Text,
  Option-cases, inl, inr,
}
use thesis_agent.Transport.{Net, Url, loopback}
use thesis_agent.Download.{Command, JobError, job_error, invalid_command, url_expired}
use thesis_agent.Download.Destination.{
  Paths, Config, valid_filename, destination_directory, invalid_destination,
}

-- What `validate` takes from other packages: strings.TrimSpace, uuid.Parse of google/uuid and
-- hex.DecodeString; and from fmt and encoding/hex the texts of `run`.
pub record Parsers : Type 0 where
  pub trim : String → String
  pub is_uuid : String → Bool
  pub hex_decode : String → Option (List ℕ)
  pub hex_encode : List ℕ → String
  -- fmt.Sprintf("unexpected HTTP status %d", status).
  pub status_message : ℕ → String

abbrev exceeds : ℤ → ℕ → Bool
exceeds (pos n) limit = ltb limit n
exceeds (negsuc n) limit = false

abbrev pub has_expired : Option ℕ → ℕ → Bool
has_expired none now = true
has_expired (some t) now = not (ltb now t)

module _ (x : Parsers) (n : Net) (p : Paths) (cfg : Config) where
  -- The last check: the URL of the file.
  unfoldable pub check_url : String → Option JobError
  check_url value = elim (n.parse_url value) [
    | none ↦ some (job_error invalid_command "download_url is invalid")
    | some u ↦
        if str_eq u.host "" || u.has_user || not (str_eq u.fragment "")
        then some (job_error invalid_command "download_url is invalid")
        else if not (str_eq u.scheme "https")
            && not (str_eq u.scheme "http" && cfg.allow_http && loopback n u.hostname)
        then some (
            job_error invalid_command
              "download_url must use HTTPS (local loopback HTTP can be enabled by configuration)")
        else none
  ]

  -- `validate` at the time `now`; `none` is no error.
  unfoldable pub validate : ℕ → Command → Option JobError
  validate now c =
      if not (n.equal_fold (x.trim c.kind) "DOWNLOAD_FILE")
      then some (job_error invalid_command "unsupported command type")
      else if not (x.is_uuid c.job_id)
      then some (job_error invalid_command "job_id must be a valid UUID")
      else if not (x.is_uuid c.file_id)
      then some (job_error invalid_command "file_id must be a valid UUID")
      else if is_negative c.size || exceeds c.size cfg.max_file_size
      then some (job_error invalid_command "invalid job_id, file_id, or file size")
      else if has_expired c.expires_at now
      then some (job_error url_expired "temporary download URL has expired")
      else if not (len c.sha256 == 64)
      then some (job_error invalid_command "sha256 must contain 64 hexadecimal characters")
      else if is_none (x.hex_decode c.sha256)
      then some (job_error invalid_command "sha256 is not hexadecimal")
      else if not (valid_filename p c.filename)
      then some (job_error invalid_command "filename must be a plain file name")
      else elim (destination_directory p cfg c.destination_path) [
        | none ↦ some invalid_destination
        | some directory ↦ check_url c.download_url
      ]

  -- What holds of a command that passes.
  pub record IsAcceptable (now : ℕ) (c : Command) : Type 0 where
    pub size_bounded : (k : ℕ) × (c.size ≡ pos k) × (k ≤ cfg.max_file_size)
    pub not_expired : (t : ℕ) × (c.expires_at ≡ some t) × (now < t)
    pub digest : (d : List ℕ) × (x.hex_decode c.sha256 ≡ some d)
    pub plain_name : valid_filename p c.filename ≡ true
    pub has_directory : (d : Text) × (destination_directory p cfg c.destination_path ≡ some d)
    pub encrypted :
        (u : Url) × (n.parse_url c.download_url ≡ some u)
        × (u.has_user ≡ false)
        × ((u.scheme ≡ "https")
            ⊎ ((u.scheme ≡ "http") × (cfg.allow_http ≡ true) × (loopback n u.hostname ≡ true)))

  size-cases :
      (s : ℤ) (limit : ℕ)
      → is_negative s || exceeds s limit ≡ false
      → (k : ℕ) × (s ≡ pos k) × (k ≤ limit)
  size-cases (pos k) limit h = (k, refl, ground arith)
  size-cases (negsuc k) limit h = cc

  expiry-cases :
      (t : Option ℕ) (now : ℕ) → has_expired t now ≡ false → (e : ℕ) × (t ≡ some e) × (now < e)
  expiry-cases none now h = cc
  expiry-cases (some e) now h = (e, refl, ground arith)

  some-cases : {A : Type 0} (o : Option A) → is_none o ≡ false → (a : A) × (o ≡ some a)
  some-cases none h = cc
  some-cases (some a) h = (a, refl)

  check_url_encrypted :
      (value : String)
      → check_url value ≡ none
      → (u : Url) × (n.parse_url value ≡ some u)
        × (u.has_user ≡ false)
        × ((u.scheme ≡ "https")
            ⊎ ((u.scheme ≡ "http") × (cfg.allow_http ≡ true) × (loopback n u.hostname ≡ true)))
  unfolding check_url
  check_url_encrypted value e = elim (Option-cases (n.parse_url value)) [
    | inl bad ↦ absurd (ground arith)
    | inr (u, found) ↦
        (u, found, ground arith, ground (arith, eq_iff u.scheme "https", eq_iff u.scheme "http"))
  ]

  -- A command that passes has a size within the limit, an expiry ahead, a hexadecimal checksum, a
  -- plain file name, an allowed destination, and a URL without credentials that is HTTPS, or HTTP
  -- to a loopback host where the configuration allows it.
  pub validate-IsAcceptable : (now : ℕ) (c : Command) → validate now c ≡ none → IsAcceptable now c
  unfolding validate
  validate-IsAcceptable now c e = record {
    size_bounded = size-cases c.size cfg.max_file_size (ground arith);
    not_expired = expiry-cases c.expires_at now (ground arith);
    digest = some-cases (x.hex_decode c.sha256) (ground arith);
    plain_name = ground arith;
    has_directory = elim (Option-cases (destination_directory p cfg c.destination_path)) [
      | inl refused ↦ absurd (ground arith)
      | inr found ↦ found
    ];
    encrypted = check_url_encrypted c.download_url (ground arith);
  }
