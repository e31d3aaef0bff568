-- ===== src/Scenarios/Policies.antt =====
-- Runs of the backoff and of the transport policy.
use thesis_agent.Base.{
  ◌*◌, ◌^◌, ◌≡◌, ◌≤◌, ◌↔◌, refl, inl, true, false, [], ◌∷◌, some, arith, min, eq_iff,
}
use thesis_agent.Base.Lists.{All}
use thesis_agent.Retry.{new}
use thesis_agent.Retry.Window.{IsValid, advances, advances-min}
use thesis_agent.Transport.{
  FoldLaws, Url, accept, validate_endpoint, check_redirect, redirect_pair, port,
}
use thesis_agent.Transport.Endpoint.{IsWellFormed, IsPermitted, validate_endpoint_iff}
use thesis_agent.Transport.Redirect.{follow, SameAuthority, follow-SameAuthority}
use thesis_agent.Scenarios.{net, url}

new-IsValid : IsValid new
new-IsValid = record {
  base_pos = omega arith;
  base_le = omega arith;
  next_le = omega arith;
  cap_small = omega arith;
}

advances-min_example : (advances 4 new).next ≡ min (1000000000 * 2 ^ 4) 30000000000
advances-min_example = advances-min 4 new 15000000000 refl new-IsValid

validate_endpoint_iff_example :
    (validate_endpoint net "ws://127.0.0.1/ws" true false ≡ accept)
    ↔ (IsWellFormed (url "ws" "127.0.0.1") × IsPermitted net (url "ws" "127.0.0.1") true false)
validate_endpoint_iff_example =
    validate_endpoint_iff net "ws://127.0.0.1/ws" true false (url "ws" "127.0.0.1") refl

net_laws : FoldLaws net
net_laws = record {
  fold_refl = λ a. ground (arith, eq_iff a a);
  fold_trans = λ a b c h k. ground (arith, eq_iff a b, eq_iff b c, eq_iff a c);
}

abbrev plain : Url
plain = url "http" "files.example"

abbrev secure : Url
secure = url "https" "files.example"

follow_upgrade :
    follow net (plain ∷ []) (secure ∷ secure ∷ []) ≡ some (plain ∷ secure ∷ secure ∷ [])
unfolding check_redirect redirect_pair port follow
follow_upgrade = refl

follow-SameAuthority_example :
    All (SameAuthority net plain) (plain ∷ secure ∷ secure ∷ []) × (3 ≤ 10)
follow-SameAuthority_example =
    follow-SameAuthority net net_laws plain (secure ∷ secure ∷ []) (plain ∷ secure ∷ secure ∷ [])
      (inl refl) follow_upgrade
