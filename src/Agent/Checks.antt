-- ===== src/Agent/Checks.antt =====
-- What the checks of a run permit (internal/agent/runtime.go): its endpoints, the path of its log and
-- its download roots.
use thesis_agent.Base.{
  ◌≡◌, ◌≢◌, Bool, true, false, not, ◌&&◌, ◌||◌, Option, none, some, List, [], ◌∷◌, String, Text,
  codes, Unicode, any, All, arith, ◌⊎◌, inl, inr, refl, Option-cases, bytes_eq, bytes_eq_refl, ap,
}
use thesis_agent.Transport.{Net, EndpointError, Verdict, accept, refuse, validate_endpoint}
use thesis_agent.Transport.Endpoint.{IsWellFormed, IsPermitted, validate_endpoint_iff}
use thesis_agent.Transport.{Url}
use thesis_agent.Download.Destination.{Paths, starts_with, clean_destination}
use thesis_agent.Download.Destination.Roots.{
  Checked, ok, err, validate_roots, InsideOne, IsAllowed, validate_roots-IsAllowed,
}
use thesis_agent.Agent.{
  Options, Places, Settings, StartError, Calls, machine, within, resolve, unless, endpoint_error,
  first_error, root_error, no_roots, log_path, is_critical, validate_endpoints, check_downloads,
  check_log,
}

-- An endpoint that parses to a well-formed URL, encrypted or, in development, cleartext to a loopback
-- host.
pub record IsEndpoint (n : Net) (value : String) (socket is_prod : Bool) : Type 0 where
  pub url : Url
  pub parsed : n.parse_url value ≡ some url
  pub well_formed : IsWellFormed url
  pub permitted : IsPermitted n url socket is_prod

-- filepath.Rel leads from the root to the path without leaving the root, by the separator of Windows.
pub record IsWithin (p : Paths) (root path : Text) : Type 0 where
  pub rel : Text
  pub related : p.rel root path ≡ some rel
  pub not_parent : rel ≢ codes ".."
  pub not_above : starts_with (codes "..\\") rel ≡ false
  pub not_absolute : p.is_abs rel ≡ false

validate_endpoint-IsEndpoint :
    (n : Net) (value : String) (socket is_prod : Bool)
    → validate_endpoint n value socket is_prod ≡ accept
    → IsEndpoint n value socket is_prod
validate_endpoint-IsEndpoint n value socket is_prod h = elim (Option-cases (n.parse_url value)) [
  | inl failed ↦ absurd (unfold validate_endpoint in ground arith)
  | inr (u, found) ↦
      let (formed, permitted) = (validate_endpoint_iff n value socket is_prod u found).0 h in
      record { url = u; parsed = found; well_formed = formed; permitted = permitted }
]

within-IsWithin : (p : Paths) (root path : Text) → within p root path ≡ true → IsWithin p root path
unfolding within
within-IsWithin p root path h = elim (Option-cases (p.rel root path)) [
  | inl failed ↦ absurd (ground arith)
  | inr (rel, found) ↦ record {
    rel = rel;
    related = found;
    not_parent =
        λ e. ground (arith, ap (λ r. bytes_eq r (codes "..")) e, bytes_eq_refl (codes ".."));
    not_above = ground arith;
    not_absolute = ground arith;
  }
]

module _ (p : Paths) (n : Net) (u : Unicode) (fold : Text → Text → Bool) (o : Options) (at : Places)
    (c : Calls) where
  pub unless-none : (b : Bool) (e : StartError) → unless p n u fold o at c b e ≡ none → b ≡ true
  unless-none true e h = refl
  unless-none false e h = cc

  endpoint_error-accept :
      (tag : EndpointError → StartError) (v : Verdict EndpointError)
      → endpoint_error p n u fold o at c tag v ≡ none
      → v ≡ accept
  endpoint_error-accept tag accept h = refl
  endpoint_error-accept tag (refuse e) h = cc

  first_error-none :
      (a b : Option StartError) → first_error p n u fold o at c a b ≡ none → (a ≡ none) × (b ≡ none)
  first_error-none none b h = (refl, h)
  first_error-none (some e) b h = cc

  -- The endpoints of a run, and no plaintext downloads in production.
  pub record HasEndpoints (s : Settings) (is_prod : Bool) : Type 0 where
    pub no_plaintext : is_prod ≡ true → s.allow_local_http ≡ false
    pub api : IsEndpoint n s.api_url false is_prod
    pub socket : IsEndpoint n s.socket_url true is_prod

  pub validate_endpoints-HasEndpoints :
      (s : Settings) (is_prod : Bool)
      → validate_endpoints p n u fold o at c s is_prod ≡ none
      → HasEndpoints s is_prod
  unfolding validate_endpoints
  validate_endpoints-HasEndpoints s is_prod h =
      let (plain, rest) = first_error-none _ _ h in
      let (api, socket) = first_error-none _ _ rest in
      let fine : not (is_prod && s.allow_local_http) ≡ true = unless-none _ _ plain in
      record {
        no_plaintext = λ prod. ground arith;
        api =
            validate_endpoint-IsEndpoint n s.api_url false is_prod (endpoint_error-accept _ _ api);
        socket =
            validate_endpoint-IsEndpoint n s.socket_url true is_prod
              (endpoint_error-accept _ _ socket);
      }

  not-true : (b : Bool) → not b ≡ true → b ≡ false
  not-true true h = ground arith
  not-true false h = refl

  or-right : (a b : Bool) → a ≡ true → not a || b ≡ true → b ≡ true
  or-right a b h k = ground arith

  any-none : (f : Text → Bool) (xs : List Text) → any f xs ≡ false → All (λ x. f x ≡ false) xs
  any-none f [] h = tt
  any-none f (x ∷ xs) h = (ground arith, any-none f xs (ground arith))

  -- The log of a machine's run lies in the directory of the logs, and no log is one of the agent's
  -- own files.
  pub record HasLogPath : Type 0 where
    pub in_logs :
        machine o ≡ true → IsWithin p (p.join at.root (codes "logs")) (log_path p n u fold o at c)
    pub apart :
        All
          (λ own. fold (p.clean (log_path p n u fold o at c)) (p.clean own) ≡ false)
          (at.identity ∷ at.enrollment ∷ at.config ∷ at.lock ∷ [])

  pub check_log-HasLogPath : check_log p n u fold o at c ≡ none → HasLogPath
  unfolding check_log
  check_log-HasLogPath h =
      let (inside, apart) = first_error-none _ _ h in
      let in_logs : not (machine o)
            || within p (p.join at.root (codes "logs")) (log_path p n u fold o at c)
          ≡ true =
        unless-none _ _ inside in
      let other : not (is_critical p n u fold o at c (log_path p n u fold o at c)) ≡ true =
        unless-none _ _ apart in
      let none_of : any (λ own. fold (p.clean (log_path p n u fold o at c)) (p.clean own))
            (at.identity ∷ at.enrollment ∷ at.config ∷ at.lock ∷ [])
          ≡ false =
        not-true _ other in
      record {
        in_logs = λ m. within-IsWithin p _ _ (or-right _ _ m in_logs);
        apart =
            any-none (λ own. fold (p.clean (log_path p n u fold o at c)) (p.clean own))
              (at.identity ∷ at.enrollment ∷ at.config ∷ at.lock ∷ []) none_of;
      }

  -- The download roots that the run has read, each of them allowed, and the default download
  -- directory in one of them.
  pub record HasRoots (s : Settings) : Type 0 where
    pub cleaned : List Text
    pub read :
        validate_roots p
          (resolve p at.root c.downloads_variable at.downloads)
          s.download_roots
          at.root
          at.install
        ≡ ok cleaned
    pub allowed : All (IsAllowed p at.root at.install) cleaned
    pub default :
        (path : Text) × (clean_destination p (resolve p at.root c.downloads_variable at.downloads)
          ≡ some path)
        × InsideOne p path cleaned

  root_error-HasRoots :
      (s : Settings) (r : Checked (List Text))
      → validate_roots p
          (resolve p at.root c.downloads_variable at.downloads)
          s.download_roots
          at.root
          at.install
        ≡ r
      → root_error p n u fold o at c r ≡ none
      → HasRoots s
  root_error-HasRoots s (err e) h k = cc
  root_error-HasRoots s (ok cleaned) h k =
      let (allowed, default) =
        validate_roots-IsAllowed p (resolve p at.root c.downloads_variable at.downloads)
          s.download_roots at.root at.install cleaned h in
      record { cleaned = cleaned; read = h; allowed = allowed; default = default }

  no_roots-some : (roots : List Text) → roots ≢ [] → no_roots p n u fold o at c roots ≡ false
  no_roots-some [] h = absurd (h refl)
  no_roots-some (x ∷ xs) h = refl

  pub check_downloads-HasRoots :
      (s : Settings)
      → check_downloads p n u fold o at c s ≡ none
      → (machine o ≡ true) ⊎ (s.download_roots ≢ [])
      → HasRoots s
  unfolding check_downloads
  check_downloads-HasRoots s h (inl m) = root_error-HasRoots s _ refl (ground arith)
  check_downloads-HasRoots s h (inr given) =
      let some_root = no_roots-some s.download_roots given in
      root_error-HasRoots s _ refl (ground arith)
