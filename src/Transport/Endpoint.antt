-- ===== src/Transport/Endpoint.antt =====
-- Which endpoints internal/transportpolicy/policy.go accepts.
use thesis_agent.Base.{
  ◌≡◌, ◌≢◌, ◌⊎◌, ◌↔◌, Bool, true, false, some, String, arith, eq_iff, inl, inr, str_eq, Bool-cases,
}
use thesis_agent.Transport.{
  Net, Url, accept, validate_endpoint, check_endpoint, loopback, malformed, plain_scheme,
  secure_scheme,
}

-- A URL with a host, and without user information, a query, a fragment or an opaque part.
pub record IsWellFormed (u : Url) : Type 0 where
  pub some_host : u.hostname ≢ ""
  pub no_user : u.has_user ≡ false
  pub no_query : u.raw_query ≡ ""
  pub no_empty_query : u.force_query ≡ false
  pub no_fragment : u.fragment ≡ ""
  pub not_opaque : u.opaque_part ≡ ""

malformed_sound : (n : Net) (u : Url) → malformed n u ≡ false → IsWellFormed u
unfolding malformed
malformed_sound n u h = record {
  some_host = λ e. ground (arith, eq_iff u.hostname "");
  no_user = ground arith;
  no_query = ground (arith, eq_iff u.raw_query "");
  no_empty_query = ground arith;
  no_fragment = ground (arith, eq_iff u.fragment "");
  not_opaque = ground (arith, eq_iff u.opaque_part "");
}

malformed_complete : (n : Net) (u : Url) → IsWellFormed u → malformed n u ≡ false
unfolding malformed
malformed_complete n u w =
    let host : str_eq u.hostname "" ≡ false = ground (arith, eq_iff u.hostname "", w.some_host) in
    let query : str_eq u.raw_query "" ≡ true = ground (arith, eq_iff u.raw_query "", w.no_query) in
    let fragment : str_eq u.fragment "" ≡ true =
      ground (arith, eq_iff u.fragment "", w.no_fragment) in
    let opaque : str_eq u.opaque_part "" ≡ true =
      ground (arith, eq_iff u.opaque_part "", w.not_opaque) in
    ground (arith, host, query, fragment, opaque, w.no_user, w.no_empty_query)

module _ (n : Net) where
  -- The host folds to "localhost", or is the address of a loopback interface.
  abbrev pub IsLoopback : String → Type 0
  IsLoopback host = (n.equal_fold host "localhost" ≡ true) ⊎ (n.loopback_ip host ≡ true)

  abbrev pub IsCleartext : Bool → Url → Type 0
  IsCleartext socket u = (u.scheme ≡ plain_scheme socket) × IsLoopback u.hostname

  loopback_iff : (host : String) → (loopback n host ≡ true) ↔ IsLoopback host
  unfolding loopback
  loopback_iff host = (
    λ h. elim (Bool-cases (n.equal_fold host "localhost")) [
      | inl same ↦ inl same
      | inr other ↦ inr (ground arith)
    ],
    λ h. elim h [ inl same ↦ ground arith | inr address ↦ ground arith ],
  )

  check_endpoint_sound :
      (u : Url) (socket is_production : Bool)
      → check_endpoint n u socket is_production ≡ accept
      → (malformed n u ≡ false)
        × ((u.scheme ≡ secure_scheme socket)
            ⊎ ((is_production ≡ false)
                × (u.scheme ≡ plain_scheme socket)
                × (loopback n u.hostname ≡ true)))
  unfolding check_endpoint
  check_endpoint_sound u socket is_production h =
      ground (arith, eq_iff u.scheme (secure_scheme socket), eq_iff u.scheme (plain_scheme socket))

  check_endpoint_complete :
      (u : Url) (socket is_production : Bool)
      → malformed n u ≡ false
      → (u.scheme ≡ secure_scheme socket)
        ⊎ ((is_production ≡ false)
            × (u.scheme ≡ plain_scheme socket)
            × (loopback n u.hostname ≡ true))
      → check_endpoint n u socket is_production ≡ accept
  unfolding check_endpoint
  check_endpoint_complete u socket is_production m h =
      ground (arith, eq_iff u.scheme (secure_scheme socket), eq_iff u.scheme (plain_scheme socket))

  -- Encrypted, or in development cleartext to a loopback host.
  abbrev pub IsPermitted : Url → Bool → Bool → Type 0
  IsPermitted u socket is_production =
      (u.scheme ≡ secure_scheme socket) ⊎ ((is_production ≡ false) × IsCleartext socket u)

  -- An endpoint that parses to a URL is accepted exactly when the URL has a host, no user
  -- information, no query (not even an empty one), no fragment and no opaque part, and is encrypted
  -- or, in development only, plaintext to a loopback host.
  pub validate_endpoint_iff :
      (value : String) (socket is_production : Bool) (u : Url)
      → n.parse_url value ≡ some u
      → (validate_endpoint n value socket is_production ≡ accept)
        ↔ (IsWellFormed u × IsPermitted u socket is_production)
  unfolding validate_endpoint
  validate_endpoint_iff value socket is_production u e =
      rw (e, validate_endpoint)
        (
          λ h.
              let (formed, schemes) = check_endpoint_sound u socket is_production h in
              (
                malformed_sound n u formed,
                elim schemes [
                  | inl secure ↦ inl secure
                  | inr (development, plain, host) ↦
                      inr (development, (plain, (loopback_iff u.hostname).0 host))
                ],
              ),
          λ h.
              check_endpoint_complete u socket is_production (malformed_complete n u h.0)
                (elim h.1 [
                  | inl secure ↦ inl secure
                  | inr (development, (plain, host)) ↦
                      inr (development, plain, (loopback_iff u.hostname).1 host)
                ]),
        )
