-- ===== src/Identity/Store/Enrolling.antt =====
-- What the enrollment loop promises (`EnsureEnrollment` of service/registration.go).
use thesis_agent.Base.{
  ℕ, zero, suc, ◌+◌, ◌≤◌, ◌<◌, ◌≡◌, ◌≢◌, refl, Bool, true, false, some, arith, ap,
}
use thesis_agent.Identity.Store.{
  temporary, Round, verified_enrollment, not_enrolled, out_of_rounds, Marker, confirm, enroll,
  ensure_enrollment,
}

-- However the rounds go, the marker says "verified" after a success and "not verified" after a
-- refusal for want of enrollment; an unattended run never registers, and no run registers twice.
pub ensure_enrollment_sound :
    (fuel : ℕ) (interactive : Bool) (env : ℕ → Round) (n : ℕ) (m : Marker)
    → ((ensure_enrollment fuel interactive env n m).0 ≡ verified_enrollment
        → (ensure_enrollment fuel interactive env n m).1.marker ≡ some true)
      × (interactive ≡ false
          → (ensure_enrollment fuel interactive env n m).1.registrations ≡ m.registrations)
      × ((ensure_enrollment fuel interactive env n m).1.registrations ≤ m.registrations + 1)
      × ((ensure_enrollment fuel interactive env n m).0 ≡ not_enrolled
          → (ensure_enrollment fuel interactive env n m).1.marker ≡ some false)
unfolding ensure_enrollment
ensure_enrollment_sound zero interactive env n m = (λ h. cc, λ h. refl, omega arith, λ h. cc)
ensure_enrollment_sound (suc fuel) interactive env n m =
    let rest =
      ensure_enrollment_sound fuel interactive env (n + 1) (record m { waits = m.waits + 1 }) in
    (ground (arith, rest.0), ground (arith, rest.1), ground (arith, rest.2), ground (arith, rest.3))

-- The loop ends by the first round that is no temporary failure of the server: any fuel beyond it
-- gives a result.
pub ensure_enrollment-ends :
    (k fuel : ℕ) (interactive : Bool) (env : ℕ → Round) (n i : ℕ) (m : Marker)
    → (env i).exists ≢ temporary
    → i ≡ n + k
    → k < fuel
    → (ensure_enrollment fuel interactive env n m).0 ≢ out_of_rounds
unfolding ensure_enrollment enroll confirm
ensure_enrollment-ends k zero interactive env n i m h same less = absurd (omega arith)
ensure_enrollment-ends zero (suc fuel) interactive env n i m h same less =
    let here : i ≡ n = omega arith in ground (arith, ap env here)
ensure_enrollment-ends (suc k) (suc fuel) interactive env n i m h same less =
    let rest =
      ensure_enrollment-ends k fuel interactive env (n + 1) i (record m { waits = m.waits + 1 }) h
        (omega arith) (omega arith) in
    ground (arith, rest)
