-- ===== src/Services/Numbered.antt =====
-- The port of the endpoints that stands at each number, against the ports of the Service.
use emissary.Prelude.{
  ℕ, zero, suc, String, Bool, true, false, List, [], ◌∷◌, Option, none, some, Dict, lookup, insert,
  lookup-insert, arith, nat_eqb_iff, ◌==◌, if◌then◌else◌, string_eq, nat_eq, ◌≡◌, refl, ◌∙◌, ap,
  Bool-cases, inl, inr,
}
use emissary.Processor.{key_eq}
use emissary.Services.{PortValue, number, ServicePort}
use emissary.Services.Targets.{usable, target_of, target_ports}
use emissary.Services.Chosen.{only_port, chosen_target, target_of-port}

abbrev pub if_number : ℕ → ServicePort → Option ℕ → Option ServicePort
if_number n p none = none
if_number n p (some m) = if m == n then some p else none

-- The last port of a Service that has a number
abbrev pub last_port : ℕ → List ServicePort → Option ServicePort
last_port n [] = none
last_port n (p ∷ rest) = elim (last_port n rest) [
  | some later ↦ some later
  | none ↦ if_number n p p.port
]

0_other : (n : ℕ) → (0 == suc n) ≡ false
0_other n = ground (arith, nat_eqb_iff 0 (suc n))

other_0 : (n : ℕ) → (suc n == 0) ≡ false
other_0 n = ground (arith, nat_eqb_iff (suc n) 0)

same_number : (k n : ℕ) → (k == n) ≡ true → k ≡ n
same_number k n h = (nat_eqb_iff k n).0 h

module _ (str : ℕ → String) (is_digits : String → Bool) where
  abbrev pub port_at : Dict String ℕ → ServicePort → ℕ → PortValue
  port_at ports p n = elim (only_port ports) [
    | some m ↦ number m
    | none ↦ chosen_target str is_digits ports p n
  ]

  abbrev with_port : Dict String ℕ → ServicePort → Option ℕ → Dict ℕ PortValue → Dict ℕ PortValue
  with_port ports p o targets = elim (usable o) [
    | none ↦ targets
    | some src_port ↦ elim (target_of str is_digits p src_port ports) [
      | none ↦ targets
      | some v ↦ insert src_port v targets
    ]
  ]

  abbrev pub target_at :
      ℕ → Option ServicePort → Dict String ℕ → Option PortValue → Option PortValue
  target_at n none ports before = before
  target_at n (some p) ports before = some (port_at ports p n)

  lookup-with_port :
      (n : ℕ) (p : ServicePort) (ports : Dict String ℕ) (targets : Dict ℕ PortValue) (o : Option ℕ)
      → p.port ≡ o
      → lookup (suc n) (with_port ports p o targets)
        ≡ target_at (suc n) (if_number (suc n) p o) ports (lookup (suc n) targets)
  lookup-with_port n p ports targets none at = refl
  lookup-with_port n p ports targets (some zero) at = rw (0_other n) refl
  lookup-with_port n p ports targets (some (suc k)) at =
      rw (target_of-port str is_digits ports p k at, with_port)
        (lookup-insert (suc k) (suc n) (port_at ports p (suc k)) targets
          ∙ elim (Bool-cases (suc k == suc n)) [
            | inl same ↦
                rw same (ap (λ m. some (port_at ports p m)) (same_number (suc k) (suc n) same))
            | inr other ↦ rw other refl
          ])

  pub lookup-target_ports :
      (n : ℕ) (ps : List ServicePort) (ports : Dict String ℕ) (targets : Dict ℕ PortValue)
      → lookup (suc n) (target_ports str is_digits ps ports targets)
        ≡ target_at (suc n) (last_port (suc n) ps) ports (lookup (suc n) targets)
  unfolding target_ports
  lookup-target_ports n [] ports targets = refl
  lookup-target_ports n (p ∷ rest) ports targets =
      lookup-target_ports n rest ports (with_port ports p p.port targets)
      ∙ by_later (last_port (suc n) rest)
    where
      by_later :
          (later : Option ServicePort)
          → target_at (suc n) later ports (lookup (suc n) (with_port ports p p.port targets))
            ≡ target_at
                (suc n)
                (elim later [ some q ↦ some q | none ↦ if_number (suc n) p p.port ])
                ports
                (lookup (suc n) targets)
      by_later none = lookup-with_port n p ports targets p.port refl
      by_later (some q) = refl

  lookup_0-with_port :
      (p : ServicePort) (ports : Dict String ℕ) (targets : Dict ℕ PortValue) (o : Option ℕ)
      → lookup 0 targets ≡ none
      → lookup 0 (with_port ports p o targets) ≡ none
  lookup_0-with_port p ports targets none none_yet = none_yet
  lookup_0-with_port p ports targets (some zero) none_yet = none_yet
  lookup_0-with_port p ports targets (some (suc k)) none_yet =
      by_target (target_of str is_digits p (suc k) ports)
    where
      by_target :
          (o : Option PortValue)
          → lookup 0 (elim o [ none ↦ targets | some v ↦ insert (suc k) v targets ]) ≡ none
      by_target none = none_yet
      by_target (some v) = lookup-insert (suc k) 0 v targets ∙ rw (other_0 k) none_yet

  pub lookup_0-target_ports :
      (ps : List ServicePort) (ports : Dict String ℕ) (targets : Dict ℕ PortValue)
      → lookup 0 targets ≡ none
      → lookup 0 (target_ports str is_digits ps ports targets) ≡ none
  unfolding target_ports
  lookup_0-target_ports [] ports targets none_yet = none_yet
  lookup_0-target_ports (p ∷ rest) ports targets none_yet =
      lookup_0-target_ports rest ports (with_port ports p p.port targets)
        (lookup_0-with_port p ports targets p.port none_yet)
