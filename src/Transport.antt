-- ===== src/Transport.antt =====
-- Endpoint and redirect policy (internal/transportpolicy/policy.go). url.Parse, the parser of IP
-- literals and Unicode case folding belong to the Go distribution and are parameters.
pub mod Endpoint
pub mod Redirect
use thesis_agent.Base.{
  ℕ, ◌≤◌, ◌≡◌, Bool, true, false, not, ◌&&◌, ◌||◌, Option, none, some, List, [], ◌∷◌, String,
  str_eq, leb, ◌==◌, if◌then◌else◌, length, last, Text, codes, Unicode, trim_space, bytes_eq,
}

-- The parts of *url.URL that the policy reads.
pub record Url : Type 0 where
  pub scheme : String
  pub opaque_part : String
  pub has_user : Bool
  pub host : String
  pub hostname : String
  pub port : String
  pub raw_query : String
  pub force_query : Bool
  pub fragment : String

pub record Net : Type 0 where
  -- url.Parse; `none` is its error.
  pub parse_url : String → Option Url
  -- strings.EqualFold.
  pub equal_fold : String → String → Bool
  -- net.ParseIP(host) is not nil and IsLoopback.
  pub loopback_ip : String → Bool

-- Case folding is an equivalence.
pub record FoldLaws (n : Net) : Type 0 where
  pub fold_refl : (a : String) → n.equal_fold a a ≡ true
  pub fold_trans :
      (a b c : String) → n.equal_fold a b ≡ true → n.equal_fold b c ≡ true → n.equal_fold a c ≡ true

pub data Mode : Type 0 where
  production development : Mode

-- `Mode`; `none` is its error.
unfoldable pub mode : Unicode → Text → Bool → Option Mode
mode u value service =
    let trimmed = trim_space u value in
    if bytes_eq trimmed []
    then some (if service then production else development)
    else if bytes_eq trimmed (codes "production")
    then some production
    else if bytes_eq trimmed (codes "development")
    then some development
    else none

pub data EndpointError : Type 0 where
  not_absolute production_plaintext development_plaintext : EndpointError

pub data Verdict (E : Type 0) : Type 0 where
  accept : Verdict E
  refuse : E → Verdict E

abbrev pub plain_scheme : Bool → String
plain_scheme socket = if socket then "ws" else "http"

abbrev pub secure_scheme : Bool → String
secure_scheme socket = if socket then "wss" else "https"

module _ (n : Net) where
  -- `Loopback`, and isLoopbackHost of download/manager.go.
  unfoldable pub loopback : String → Bool
  loopback host = n.equal_fold host "localhost" || n.loopback_ip host

  unfoldable pub malformed : Url → Bool
  malformed u =
      str_eq u.hostname ""
      || u.has_user
      || not (str_eq u.raw_query "")
      || u.force_query
      || not (str_eq u.fragment "")
      || not (str_eq u.opaque_part "")

  -- The checks of `ValidateEndpoint` behind url.Parse.
  unfoldable pub check_endpoint : Url → Bool → Bool → Verdict EndpointError
  check_endpoint u socket is_production =
      if malformed u
      then refuse not_absolute
      else if str_eq u.scheme (secure_scheme socket)
      then accept
      else if is_production
      then refuse production_plaintext
      else if not (str_eq u.scheme (plain_scheme socket)) || not (loopback u.hostname)
      then refuse development_plaintext
      else accept

  unfoldable pub validate_endpoint : String → Bool → Bool → Verdict EndpointError
  validate_endpoint value socket is_production = elim (n.parse_url value) [
    | none ↦ refuse not_absolute
    | some u ↦ check_endpoint u socket is_production
  ]

  unfoldable pub port : Url → String
  port u =
      if not (str_eq u.port "") then u.port else if str_eq u.scheme "https" then "443" else "80"

  -- The tests of `CheckRedirect` on the last request and the next one; `true` is no error.
  unfoldable pub redirect_pair : Url → Url → Bool
  redirect_pair previous target =
      if target.has_user
        || str_eq target.hostname ""
        || (not (str_eq target.scheme "http") && not (str_eq target.scheme "https"))
      then false
      else if str_eq previous.scheme "https" && not (str_eq target.scheme "https")
      then false
      else if not (n.equal_fold previous.hostname target.hostname)
      then false
      else if not (str_eq (port previous) (port target))
          && not (
              str_eq previous.scheme "http"
              && str_eq target.scheme "https"
              && str_eq (port previous) "80"
              && str_eq (port target) "443")
      then false
      else true

  -- `CheckRedirect(req, via)`; `via` holds the requests made, the oldest first.
  unfoldable pub check_redirect : Url → List Url → Bool
  check_redirect target via =
      if leb 10 (length via) || length via == 0
      then false
      else elim (last via) [ none ↦ false | some previous ↦ redirect_pair previous target ]

-- What errors.As and errors.Is find in the chain of an error.
pub record FailureChain : Type 0 where
  pub hostname_error : Bool
  pub unknown_authority : Bool
  -- The reason of a CertificateInvalidError: is it x509.Expired?
  pub certificate_invalid : Option Bool
  pub verification_error : Bool
  pub redirect_error : Bool

unfoldable pub failure_kind : FailureChain → String
failure_kind e =
    if e.hostname_error
    then "TLS certificate hostname mismatch"
    else if e.unknown_authority
    then "TLS certificate authority untrusted"
    else elim e.certificate_invalid [
      | some expired ↦
          if expired then "TLS certificate expired or not yet valid" else "TLS certificate invalid"
      | none ↦
          if e.verification_error
          then "TLS certificate verification failed"
          else if e.redirect_error
          then "unsafe redirect blocked"
          else "connection unavailable or closed"
    ]
