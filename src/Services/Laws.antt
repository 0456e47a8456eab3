-- ===== src/Services/Laws.antt =====
-- What is kept of the Endpoints, and which of it is emitted.
use emissary.Prelude.{
  ℕ, String, Bool, true, false, List, [], ◌∷◌, Option, none, some, Dict, lookup, insert,
  lookup-insert, arith, ◌==◌, if◌then◌else◌, string_eq, nat_eq, ◌≡◌, ◌≢◌, refl, sym, ◌∙◌, ap,
  Bool-cases, Option-cases, inl, inr,
}
use emissary.Processor.{KubernetesObjectKey, key_eq}
use emissary.Services.{
  Subset, EndpointAddress, Endpoints, EndpointsObject, ServiceState, addresses_of, ports_of,
  endpoints_of, save_subsets, process_endpoints,
}

-- The last subset with an address and a port
abbrev pub last_usable :
    (ℕ → String)
    → (String → String)
    → (String → String)
    → Dict String String
    → List Subset
    → Option Endpoints
    → Option Endpoints
last_usable str upper lower labels [] before = before
last_usable str upper lower labels (s ∷ rest) before =
    last_usable str upper lower labels rest (elim (endpoints_of str upper lower labels s) [
      | none ↦ before
      | some endpoints ↦ some endpoints
    ])

twice {ℓ} :
    {A : Type ℓ} (f : A → A) (b : Bool) (x y : A)
    → (if b then f (if b then x else y) else (if b then x else y)) ≡ (if b then f x else y)
twice f true x y = refl
twice f false x y = refl

module _ (str : ℕ → String) (upper lower : String → String) where
  save_subsets-last :
      (key other : KubernetesObjectKey) (labels : Dict String String) (subsets : List Subset)
      (saved : Dict KubernetesObjectKey Endpoints)
      → lookup other (save_subsets str upper lower key labels subsets saved) ≡ (
          if key == other
          then last_usable str upper lower labels subsets (lookup other saved)
          else lookup other saved)
  unfolding save_subsets
  save_subsets-last key other labels [] saved = ground arith
  save_subsets-last key other labels (s ∷ rest) saved =
      elim (Option-cases (endpoints_of str upper lower labels s)) [
        | inl unusable ↦ rw unusable (save_subsets-last key other labels rest saved)
        | inr (endpoints, found) ↦ rw found (
            save_subsets-last key other labels rest (insert key endpoints saved)
            ∙ rw (lookup-insert key other endpoints saved) (
                twice (last_usable str upper lower labels rest) (key == other) (some endpoints)
                  (lookup other saved)))
      ]

  -- Of the subsets of an Endpoints object the last one with an address and a port is kept under the key
  -- of the object, or else what stood there, and nothing changes under another key.
  pub process_endpoints-last :
      (obj : EndpointsObject) (s : ServiceState) (other : KubernetesObjectKey)
      → lookup other (process_endpoints str upper lower obj s).discovered_endpoints ≡ (
          if obj.key == other
          then last_usable str upper lower obj.labels obj.subsets
              (lookup other s.discovered_endpoints)
          else lookup other s.discovered_endpoints)
  unfolding process_endpoints
  process_endpoints-last obj s other =
      save_subsets-last obj.key other obj.labels obj.subsets s.discovered_endpoints

abbrev kept_addresses : Option Endpoints → List EndpointAddress
kept_addresses none = []
kept_addresses (some ep) = ep.addresses

-- Endpoints that were kept have an address.
unfoldable pub IsStocked : ServiceState → Type 0
IsStocked s =
    (key : KubernetesObjectKey) (endpoints : Endpoints)
    → lookup key s.discovered_endpoints ≡ some endpoints
    → endpoints.addresses ≢ []

module _ (str : ℕ → String) (upper lower : String → String) where
  endpoints_of-stocked :
      (labels : Dict String String) (s : Subset) (endpoints : Endpoints)
      → endpoints_of str upper lower labels s ≡ some endpoints
      → endpoints.addresses ≢ []
  unfolding endpoints_of
  endpoints_of-stocked labels s endpoints h =
      go (addresses_of s.addresses) (ports_of str upper lower s.ports []) h
    where
      go :
          (addresses : List EndpointAddress) (ps : Dict String ℕ)
          → ◌≡◌ {A = Option Endpoints}
              (elim addresses [
                | [] ↦ none
                | a ∷ addresses ↦ elim ps [
                  | [] ↦ none
                  | p ∷ ports ↦
                      some
                        (record { addresses = a ∷ addresses; ports = p ∷ ports; labels = labels })
                ]
              ])
              (some endpoints)
          → endpoints.addresses ≢ []
      go [] ps h none_left = absurd cc
      go (a ∷ others) [] h none_left = absurd cc
      go (a ∷ others) (p ∷ ps) h none_left =
          let both : a ∷ others ≡ [] = ap kept_addresses h ∙ none_left in cc

  last_usable-stocked :
      (labels : Dict String String) (subsets : List Subset) (before : Option Endpoints)
      (endpoints : Endpoints)
      → ((ep : Endpoints) → before ≡ some ep → ep.addresses ≢ [])
      → last_usable str upper lower labels subsets before ≡ some endpoints
      → endpoints.addresses ≢ []
  last_usable-stocked labels [] before endpoints h at = h endpoints at
  last_usable-stocked labels (s ∷ rest) before endpoints h at =
      elim (Option-cases (endpoints_of str upper lower labels s)) [
        | inl unusable ↦ last_usable-stocked labels rest before endpoints h (rw unusable at at)
        | inr (ep, found) ↦
            last_usable-stocked labels rest (some ep) endpoints
              (λ ep' same. endpoints_of-stocked labels s ep' (found ∙ same)) (rw found at at)
      ]

  -- Processing an Endpoints object keeps this.
  pub process_endpoints-IsStocked :
      (obj : EndpointsObject) (s : ServiceState)
      → IsStocked s
      → IsStocked (process_endpoints str upper lower obj s)
  unfolding IsStocked
  process_endpoints-IsStocked obj s h key endpoints at = elim (Bool-cases (obj.key == key)) [
    | inl same ↦
        last_usable-stocked obj.labels obj.subsets (lookup key s.discovered_endpoints) endpoints
          (h key) (sym (process_endpoints-last str upper lower obj s key ∙ rw same refl) ∙ at)
    | inr other ↦
        h key endpoints
          (sym (process_endpoints-last str upper lower obj s key ∙ rw other refl) ∙ at)
  ]
