-- ===== src/Transport/Redirect.antt =====
-- What a chain of redirects that internal/transportpolicy/policy.go lets through can reach.
use thesis_agent.Base.{
  ◌≤◌, ◌≡◌, ◌≢◌, String, refl, subst, ◌⊎◌, inl, inr, true, Option, none, some, List, [], ◌∷◌, ◌++◌,
  All, All-append, All-last, arith, eq_iff, if◌then◌else◌, length, length-append, last,
  Option-cases, Bool-cases,
}
use thesis_agent.Transport.{Net, FoldLaws, Url, port, redirect_pair, check_redirect}

module _ (n : Net) where
  -- The requests that an HTTP client makes: each redirect is followed if the policy lets it, with
  -- the requests made so far, the oldest first.
  unfoldable pub follow : List Url → List Url → Option (List Url)
  follow via [] = some via
  follow via (target ∷ targets) =
      let rest = follow (via ++ target ∷ []) targets in
      if check_redirect n target via then rest else none

  -- The port that a URL leads to: its own, or the standard one of its scheme.
  pub record HasPort (u : Url) (number : String) : Type 0 where
    pub own : u.port ≢ "" → number ≡ u.port
    pub tls : u.port ≡ "" → u.scheme ≡ "https" → number ≡ "443"
    pub plaintext : u.port ≡ "" → u.scheme ≢ "https" → number ≡ "80"

  port-HasPort : (u : Url) → HasPort u (port n u)
  unfolding port
  port-HasPort u = record {
    own = λ given. ground (arith, eq_iff u.port "");
    tls = λ none_given e. ground (arith, eq_iff u.port "", eq_iff u.scheme "https");
    plaintext = λ none_given e. ground (arith, eq_iff u.port "", eq_iff u.scheme "https");
  }

  -- The authority of `u` is that of `first`, or its HTTPS upgrade on the standard ports.
  pub record SameAuthority (first u : Url) : Type 0 where
    pub same_host : n.equal_fold first.hostname u.hostname ≡ true
    pub ports : HasPort first (port n first) × HasPort u (port n u)
    pub same_port :
        (port n u ≡ port n first)
        ⊎ ((first.scheme ≡ "http")
            × (u.scheme ≡ "https")
            × (port n first ≡ "80")
            × (port n u ≡ "443"))
    pub keeps_tls : first.scheme ≡ "https" → u.scheme ≡ "https"

  abbrev pub IsHttp : Url → Type 0
  IsHttp u = (u.scheme ≡ "http") ⊎ (u.scheme ≡ "https")

  module _ (laws : FoldLaws n) where
    SameAuthority-refl : (u : Url) → SameAuthority u u
    SameAuthority-refl u = record {
      same_host = laws.fold_refl u.hostname;
      ports = (port-HasPort u, port-HasPort u);
      same_port = inl refl;
      keeps_tls = λ h. h;
    }

    redirect_pair_step :
        (first previous target : Url)
        → IsHttp first
        → SameAuthority first previous
        → redirect_pair n previous target ≡ true
        → SameAuthority first target
    unfolding redirect_pair
    redirect_pair_step first previous target s a h = record {
      same_host =
          laws.fold_trans first.hostname previous.hostname target.hostname a.same_host
            (ground arith);
      ports = (port-HasPort first, port-HasPort target);
      same_port = ground (
        arith,
        eq_iff previous.scheme "https",
        eq_iff target.scheme "https",
        eq_iff previous.scheme "http",
        eq_iff (port n previous) (port n target),
        eq_iff (port n previous) "80",
        eq_iff (port n target) "443",
        a.same_port,
        a.keeps_tls,
        s,
      );
      keeps_tls = λ e.
          ground
            (arith, a.keeps_tls e, eq_iff previous.scheme "https", eq_iff target.scheme "https");
    }

    check_redirect_inv :
        (via : List Url) (target : Url)
        → check_redirect n target via ≡ true
        → (previous : Url) × (last via ≡ some previous)
          × (redirect_pair n previous target ≡ true)
          × (length via ≤ 9)
    unfolding check_redirect
    check_redirect_inv via target e = elim (Option-cases (last via)) [
      | inl missing ↦ absurd (ground arith)
      | inr (previous, found) ↦ (previous, found, ground arith, ground arith)
    ]

    check_redirect_step :
        (first : Url) (via : List Url) (target : Url)
        → IsHttp first
        → All (SameAuthority first) via
        → check_redirect n target via ≡ true
        → SameAuthority first target × (length via ≤ 9)
    check_redirect_step first via target s h e =
        let (previous, found, pair, few) = check_redirect_inv via target e in
        (
          redirect_pair_step first previous target s
              (All-last (SameAuthority first) via previous found h) pair,
          few,
        )

    follow_inv :
        (first : Url) (via targets : List Url) (made : List Url)
        → IsHttp first
        → length via ≤ 10
        → All (SameAuthority first) via
        → follow via targets ≡ some made
        → All (SameAuthority first) made × (length made ≤ 10)
    unfolding follow
    follow_inv first via [] made s few h e =
        let same : via ≡ made = cc in
        (subst (All (SameAuthority first)) same h, subst (λ l. length l ≤ 10) same few)
    follow_inv first via (target ∷ targets) made s few h e =
        elim (Bool-cases (check_redirect n target via)) [
          | inl passed ↦
              let (same, short) = check_redirect_step first via target s h passed in
              follow_inv first (via ++ target ∷ []) targets made s
                (omega (arith, length-append via (target ∷ [])))
                (All-append (SameAuthority first) via (target ∷ []) h (same, tt)) (rw passed at e)
          | inr stopped ↦ absurd (ground arith)
        ]

    -- However many redirects a server sends to an HTTP or HTTPS request, the requests that the
    -- policy lets through are at most ten, the first included; each goes to the host of the first,
    -- on its port or by the upgrade from HTTP on port 80 to HTTPS on port 443, and none leaves
    -- HTTPS if the first used it. Case folding is an equivalence.
    pub follow-SameAuthority :
        (first : Url) (targets made : List Url)
        → IsHttp first
        → follow (first ∷ []) targets ≡ some made
        → All (SameAuthority first) made × (length made ≤ 10)
    follow-SameAuthority first targets made s e =
        follow_inv first (first ∷ []) targets made s (omega arith) (SameAuthority-refl first, tt) e
