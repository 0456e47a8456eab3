-- ===== src/Services/Targets.antt =====
-- The port at the endpoints that belongs to a port of a Service, from `ServiceProcessor.finalize`.
use emissary.Prelude.{
  ℕ, zero, suc, String, Bool, true, false, not, List, [], ◌∷◌, Option, none, some, Dict, lookup,
  insert, ◌==◌, ◌&&◌, if◌then◌else◌, string_eq, nat_eq, nat_eqb,
}
use emissary.Services.{PortValue, number, text, ServicePort}

-- `bool(port_key)`
abbrev pub is_given : Option PortValue → Bool
is_given none = false
is_given (some (number n)) = not (nat_eqb n 0)
is_given (some (text t)) = not (t == "")

-- The values of `["targetPort", "name", "port"]`
abbrev pub attrs : ServicePort → List (Option PortValue)
attrs p =
    p.target_port
    ∷ elim p.name [ none ↦ none | some t ↦ some (text t) ]
    ∷ elim p.port [ none ↦ none | some n ↦ some (number n) ]
    ∷ []

-- `found_key`, `fallback` and `k8s_target`
pub record Search : Type 0 where
  pub found_key : Bool
  pub fallback : Option PortValue
  pub k8s_target : Option ℕ

-- `bool(k8s_target)`, of a port that was looked up
abbrev pub usable : Option ℕ → Option ℕ
usable none = none
usable (some zero) = none
usable (some (suc n)) = some (suc n)

-- `if not k8s_target: k8s_target = fallback or src_port`
abbrev pub or_fallback : Option ℕ → Option PortValue → ℕ → PortValue
or_fallback (some n) fallback src_port = number n
or_fallback none none src_port = number src_port
or_fallback none (some v) src_port = if is_given (some v) then v else number src_port

abbrev pub not_searched : Search
not_searched = record { found_key = false; fallback = none; k8s_target = none }

module _ (str : ℕ → String) (is_digits : String → Bool) where
  abbrev pub str_of : PortValue → String
  str_of (number n) = str n
  str_of (text t) = t

  -- `port_key != "name" and str(port_key).isdigit()`
  abbrev pub can_fall_back : PortValue → Bool
  can_fall_back (number n) = is_digits (str n)
  can_fall_back (text t) = not (t == "name") && is_digits t

  abbrev pub keep_fallback : PortValue → Option PortValue → Option PortValue
  keep_fallback v fallback = if not (is_given fallback) && can_fall_back v then some v else fallback

  -- `for attr in ["targetPort", "name", "port"]:`, which ends at a hit
  unfoldable pub search : List (Option PortValue) → Dict String ℕ → Search → Search
  search [] ports s = s
  search (none ∷ rest) ports s = search rest ports s
  search (some v ∷ rest) ports s =
      let fallback = keep_fallback v s.fallback in
      let missed =
        search rest ports (record { found_key = true; fallback = fallback; k8s_target = none }) in
      let passed = search rest ports s in
      if not (is_given (some v)) then passed else elim (usable (lookup (str_of v) ports)) [
        | some n ↦ record { found_key = true; fallback = fallback; k8s_target = some n }
        | none ↦ missed
      ]

  -- With more than one port at the endpoints, or none
  unfoldable pub mapped_target : ServicePort → ℕ → Dict String ℕ → Option PortValue
  mapped_target p src_port ports =
      let s = search (attrs p) ports not_searched in
      if not s.found_key then none else some (or_fallback s.k8s_target s.fallback src_port)

  unfoldable pub target_of : ServicePort → ℕ → Dict String ℕ → Option PortValue
  target_of p src_port [] = mapped_target p src_port []
  target_of p src_port ((name, n) ∷ []) = some (number n)
  target_of p src_port (first ∷ second ∷ ports) = mapped_target p src_port (first ∷ second ∷ ports)

  -- `for port in k8s_svc.spec.get("ports", []):`
  unfoldable pub target_ports :
      List ServicePort → Dict String ℕ → Dict ℕ PortValue → Dict ℕ PortValue
  target_ports [] ports targets = targets
  target_ports (p ∷ rest) ports targets = target_ports rest ports (elim (usable p.port) [
    | none ↦ targets
    | some src_port ↦ elim (target_of p src_port ports) [
      | none ↦ targets
      | some v ↦ insert src_port v targets
    ]
  ])
