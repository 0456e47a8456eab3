-- ===== src/Listener/Laws.antt =====
-- What a Listener is after `setup`.
use emissary.Prelude.{
  String, Bool, true, false, List, [], ◌∷◌, ◌++◌, Option, none, some, Dict, lookup, contains, ◌==◌,
  ◌||◌, all, string_eq, ◌≡◌, ◌≢◌, refl, sym, ◌∙◌, Bool-cases, inl, inr, arith,
}
use mathlib.Core.Path.{subst}
use emissary.Listener.{
  ListenerError, Listener, given, last_of, protocol_stacks, ◌>=>◌, post_error, ignore_protocol,
  use_stack, from_protocol, set_stack, by_socket, set_socket,
}

some-injective {ℓ} : {A : Type ℓ} {x y : A} → some x ≡ some y → x ≡ y
some-injective h = cc

append-nonempty {ℓ} : {A : Type ℓ} (xs : List A) (x : A) → xs ++ x ∷ [] ≢ []
append-nonempty [] x h = cc
append-nonempty (y ∷ xs) x h = cc

lookup-all {ℓ} :
    {A : Type ℓ} (p : A → Bool) (k : String) (v : A) (m : Dict String A)
    → all (λ entry. p entry.1) m ≡ true
    → lookup k m ≡ some v
    → p v ≡ true
unfolding lookup
lookup-all p k v [] h at = absurd cc
lookup-all p k v ((j, w) ∷ m) h at = elim (Bool-cases (j == k)) [
  | inl same ↦
      let w≡v : w ≡ v = some-injective (rw same at at) in
      subst (λ x. p x ≡ true) w≡v (ground (arith, h))
  | inr other ↦ lookup-all p k v m (ground (arith, h)) (rw other at at)
]

abbrev is_cons : List String → Bool
is_cons [] = false
is_cons (_ ∷ _) = true

is_cons-nonempty : (xs : List String) → is_cons xs ≡ true → xs ≢ []
is_cons-nonempty [] h = absurd cc
is_cons-nonempty (x ∷ xs) h = λ e. cc

module _ {ℓ} {L : Type ℓ} where
  -- A part of the method either goes on with a Listener as it should be, or refuses it with an error.
  pub record Outcome {κ} (P : Listener L → Type κ) (s : Listener L × Bool) : Type (ℓ ⊔ κ) where
    pub accepted : s.1 ≡ true → P s.0
    pub refused : s.1 ≡ false → s.0.errors ≢ []

  pub goes_on {κ} : {P : Listener L → Type κ} (l : Listener L) → P l → Outcome P (l, true)
  goes_on l p = record { accepted = λ _. p; refused = λ h. absurd cc }

  pub refuses {κ} :
      {P : Listener L → Type κ} (error : ListenerError) (l : Listener L)
      → Outcome P (post_error error l, false)
  refuses error l = record {
    accepted = λ h. absurd cc;
    refused = λ _. append-nonempty l.errors error;
  }

  pub then-Outcome {κ μ} :
      {P : Listener L → Type κ} {Q : Listener L → Type μ} (s : Listener L × Bool)
      (part : Listener L → Listener L × Bool)
      → Outcome P s
      → ((l : Listener L) → P l → Outcome Q (part l))
      → Outcome Q (s >=> part)
  then-Outcome (l, true) part h next = next l (h.accepted refl)
  then-Outcome (l, false) part h next = record {
    accepted = λ e. absurd cc;
    refused = λ _. h.refused refl;
  }

  -- The socket protocol is the last of the stack, TCP or UDP, and UDP comes with HTTP, which makes HTTP/3.
  pub record HasSocket (l : Listener L) : Type ℓ where
    pub first : String
    pub rest : List String
    pub stack : l.protocol_stack ≡ first ∷ rest
    pub socket : l.socket_protocol ≡ some (last_of first rest)
    pub known : (last_of first rest == "TCP" || last_of first rest == "UDP") ≡ true
    pub http3 : l.http3_enabled ≡ (last_of first rest == "UDP")
    pub udp_http : l.http3_enabled ≡ true → contains l.protocol_stack "HTTP" ≡ true

  ignore_protocol-Outcome :
      (o : Option String) (l : Listener L)
      → l.protocol_stack ≢ []
      → Outcome (λ l. l.protocol_stack ≢ []) (ignore_protocol o l)
  unfolding ignore_protocol
  ignore_protocol-Outcome none l h = goes_on l h
  ignore_protocol-Outcome (some _) l h = goes_on _ h

  use_stack-Outcome :
      (o : Option (List String)) (l : Listener L)
      → ((stack : List String) → o ≡ some stack → stack ≢ [])
      → Outcome (λ l. l.protocol_stack ≢ []) (use_stack o l)
  unfolding use_stack
  use_stack-Outcome none l h = refuses _ l
  use_stack-Outcome (some stack) l h = goes_on _ (h stack refl)

  from_protocol-Outcome :
      (o : Option String) (l : Listener L)
      → Outcome (λ l. l.protocol_stack ≢ []) (from_protocol o l)
  unfolding from_protocol
  from_protocol-Outcome none l = refuses _ l
  from_protocol-Outcome (some protocol) l =
      use_stack-Outcome (lookup protocol protocol_stacks) l (λ stack at.
        is_cons-nonempty stack (lookup-all is_cons protocol stack protocol_stacks refl at))

  pub set_stack-Outcome : (l : Listener L) → Outcome (λ l. l.protocol_stack ≢ []) (set_stack l)
  unfolding set_stack
  set_stack-Outcome l = by_stack l.protocol_stack refl
    where
      by_stack :
          (stack : List String)
          → l.protocol_stack ≡ stack
          → Outcome
              (λ l. l.protocol_stack ≢ [])
              (elim stack [
                | _ ∷ _ ↦ ignore_protocol (given l.protocol) l
                | [] ↦ from_protocol (given l.protocol) l
              ])
      by_stack [] at = from_protocol-Outcome (given l.protocol) l
      by_stack (p ∷ stack) at =
          ignore_protocol-Outcome (given l.protocol) l
            (λ none_left. let wrong = sym at ∙ none_left in cc)

  by_socket-Outcome :
      (first : String) (rest : List String) (l : Listener L)
      → l.protocol_stack ≡ first ∷ rest
      → Outcome HasSocket (by_socket (last_of first rest) l)
  by_socket-Outcome first rest l stack =
      elim (Bool-cases (last_of first rest == "TCP" || last_of first rest == "UDP")) [
        | inr unknown ↦ rw unknown (refuses _ _)
        | inl known ↦ rw known (elim (Bool-cases (last_of first rest == "UDP")) [
          | inr tcp ↦ rw tcp (
              goes_on _ (record {
                first = first;
                rest = rest;
                stack = stack;
                socket = refl;
                known = known;
                http3 = sym tcp;
                udp_http = λ h. absurd cc;
              }))
          | inl udp ↦ rw udp (elim (Bool-cases (contains l.protocol_stack "HTTP")) [
            | inr missing ↦ rw missing (refuses _ _)
            | inl http ↦ rw http (
                goes_on _ (record {
                  first = first;
                  rest = rest;
                  stack = stack;
                  socket = refl;
                  known = known;
                  http3 = sym udp;
                  udp_http = λ _. http;
                }))
          ])
        ])
      ]

  pub set_socket-Outcome :
      (l : Listener L) → l.protocol_stack ≢ [] → Outcome HasSocket (set_socket l)
  unfolding set_socket
  set_socket-Outcome l h = by_stack l.protocol_stack refl
    where
      by_stack :
          (stack : List String)
          → l.protocol_stack ≡ stack
          → Outcome HasSocket
              (elim stack [ [] ↦ (l, false) | first ∷ rest ↦ by_socket (last_of first rest) l ])
      by_stack [] at = absurd (h at)
      by_stack (first ∷ rest) at = by_socket-Outcome first rest l at
