-- ===== src/Listener/Ready.antt =====
-- What `setup` as a whole makes of a Listener.
use emissary.Prelude.{
  ℕ, String, true, false, List, Option, none, some, contains, ◌==◌, if◌then◌else◌, string_eq, ◌≡◌,
  ◌≢◌, refl, sym, ◌∙◌, ap, Bool-cases, inl, inr,
}
use emissary.Listener.{
  ListenerError, NamespaceBinding, HostSelector, HostBinding, Listener, given, given_namespace,
  given_selector, post_error, set_socket, check_security, default_prefix, set_prefix, by_from,
  bind_namespace, bind_selector, bind_parts, is_binding, bind_hosts, setup,
}
use emissary.Listener.Laws.{
  Outcome, goes_on, refuses, then-Outcome, HasSocket, set_stack-Outcome, set_socket-Outcome,
}

module _ {ℓ} {L : Type ℓ} where
  pub record IsSecured (l : Listener L) : Type ℓ where
    pub socket : HasSocket l
    pub secured : given l.security_model ≢ none

  pub record IsNamed (l : Listener L) : Type ℓ where
    pub secured : IsSecured l
    pub prefix : l.stats_prefix ≢ none

  -- A Listener with a socket protocol, a security model, a prefix for its statistics, and the host binding
  -- taken out of it.
  pub record IsReady (l : Listener L) : Type ℓ where
    pub named : IsNamed l
    pub unbound : l.host_binding ≡ none

  -- What a Listener is does not depend on its errors, namespace and selector.
  moved :
      (l l' : Listener L)
      → l'.protocol_stack ≡ l.protocol_stack
      → l'.socket_protocol ≡ l.socket_protocol
      → l'.http3_enabled ≡ l.http3_enabled
      → HasSocket l
      → HasSocket l'
  moved l l' stack socket http3 h = record {
    first = h.first;
    rest = h.rest;
    stack = stack ∙ h.stack;
    socket = socket ∙ h.socket;
    known = h.known;
    http3 = http3 ∙ h.http3;
    udp_http = λ on. ap (λ s. contains s "HTTP") stack ∙ h.udp_http (sym http3 ∙ on);
  }

  IsReady-moved :
      (l : Listener L) (literal : String) (selector : Option (HostSelector L))
      (errors : List ListenerError)
      → IsReady l
      → IsReady
          (record l { namespace_literal = literal; host_selector = selector; errors = errors })
  IsReady-moved l literal selector errors h = record {
    named = record {
      secured = record {
        socket = moved l _ refl refl refl h.named.secured.socket;
        secured = h.named.secured.secured;
      };
      prefix = h.named.prefix;
    };
    unbound = h.unbound;
  }

  check_security-Outcome : (l : Listener L) → HasSocket l → Outcome IsSecured (check_security l)
  unfolding check_security
  check_security-Outcome l h = by_model (given l.security_model) refl
    where
      by_model :
          (o : Option String)
          → given l.security_model ≡ o
          → Outcome IsSecured (elim o [
            | none ↦ (post_error ListenerError.no_security_model l, false)
            | some _ ↦ (l, true)
          ])
      by_model none at = refuses _ l
      by_model (some model) at =
          goes_on l (record { socket = h; secured = λ missing. let wrong = sym at ∙ missing in cc })

  module _ (str : ℕ → String) (lower : String → String) where
    set_prefix-Outcome : (l : Listener L) → IsSecured l → Outcome IsNamed (set_prefix str lower l)
    unfolding set_prefix
    set_prefix-Outcome l h = by_prefix (given l.stats_prefix) refl
      where
        unset : l.stats_prefix ≡ none → given l.stats_prefix ≡ none
        unset e = ap given e

        by_prefix :
            (o : Option String)
            → given l.stats_prefix ≡ o
            → Outcome IsNamed (elim o [
              | none ↦ (record l { stats_prefix = some (default_prefix str lower l) }, true)
              | some _ ↦ (l, true)
            ])
        by_prefix none at = goes_on _ (record {
          secured = record { socket = moved l _ refl refl refl h.socket; secured = h.secured };
          prefix = λ missing. cc;
        })
        by_prefix (some prefix) at =
            goes_on l
              (record { secured = h; prefix = λ missing. let wrong = sym at ∙ unset missing in cc })

    by_from-IsReady :
        (from : String) (l : Listener L) → IsReady l → IsReady (by_from str lower from l)
    by_from-IsReady from l h = elim (Bool-cases (lower from == "all")) [
      | inl all_hosts ↦ rw all_hosts (IsReady-moved l _ _ _ h)
      | inr other ↦ rw other (elim (Bool-cases (lower from == "self")) [
        | inl own ↦ rw own (IsReady-moved l _ _ _ h)
        | inr other' ↦ rw other' (elim (Bool-cases (lower from == "selector")) [
          | inl selector ↦ rw selector (IsReady-moved l _ _ _ h)
          | inr unknown ↦ rw unknown h
        ])
      ])
    ]

    bind_namespace-Outcome :
        (o : Option NamespaceBinding) (l : Listener L)
        → IsReady l
        → Outcome IsReady (bind_namespace str lower o l)
    unfolding bind_namespace
    bind_namespace-Outcome none l h = goes_on l h
    bind_namespace-Outcome (some b) l h = by_given (given b.from)
      where
        by_given :
            (o : Option String)
            → Outcome IsReady (elim o [
              | none ↦ (post_error ListenerError.no_namespace_from l, false)
              | some from ↦ (by_from str lower from l, true)
            ])
        by_given none = refuses _ l
        by_given (some from) = goes_on _ (by_from-IsReady from l h)

    bind_selector-Outcome :
        (o : Option (HostSelector L)) (l : Listener L)
        → IsReady l
        → Outcome IsReady (bind_selector str lower o l)
    unfolding bind_selector
    bind_selector-Outcome none l h = goes_on l h
    bind_selector-Outcome (some s) l h = by_labels s.match_labels
      where
        by_labels :
            (o : Option L)
            → Outcome IsReady (elim o [
              | none ↦ (post_error ListenerError.only_match_labels l, false)
              | some _ ↦ (record l { host_selector = some s }, true)
            ])
        by_labels none = refuses _ l
        by_labels (some labels) = goes_on _ (IsReady-moved l _ _ _ h)

    bind_parts-Outcome :
        (n : Option NamespaceBinding) (s : Option (HostSelector L)) (l : Listener L)
        → IsReady l
        → Outcome IsReady (bind_parts str lower n s l)
    bind_parts-Outcome none none l h = refuses _ l
    bind_parts-Outcome none (some s) l h = bind_selector-Outcome (some s) l h
    bind_parts-Outcome (some b) s l h =
        then-Outcome (bind_namespace str lower (some b) l) (bind_selector str lower s)
          (bind_namespace-Outcome (some b) l h) (bind_selector-Outcome s)

    bind_hosts-Outcome : (l : Listener L) → IsNamed l → Outcome IsReady (bind_hosts str lower l)
    unfolding bind_hosts
    bind_hosts-Outcome l h = by_binding l.host_binding
      where
        l' : Listener L
        l' = record l { host_binding = none }

        ready : IsReady l'
        ready = record {
          named = record {
            secured = record {
              socket = moved l l' refl refl refl h.secured.socket;
              secured = h.secured.secured;
            };
            prefix = h.prefix;
          };
          unbound = refl;
        }

        by_binding :
            (o : Option (HostBinding L))
            → Outcome IsReady (elim o [
              | none ↦ (post_error ListenerError.no_host_binding l, false)
              | some b ↦
                  if is_binding str lower b
                  then bind_parts str lower
                      (given_namespace b.namespace)
                      (given_selector b.selector)
                      l'
                  else (post_error ListenerError.no_host_binding l, false)
            ])
        by_binding none = refuses _ l
        by_binding (some b) = elim (Bool-cases (is_binding str lower b)) [
          | inl bound ↦ rw bound (bind_parts-Outcome _ _ l' ready)
          | inr empty ↦ rw empty (refuses _ l)
        ]

    -- For every Listener, setup either accepts it, and then its stack is not empty and its socket
    -- protocol is the last of the stack, TCP, or UDP with HTTP in the stack and HTTP/3 enabled, its
    -- security model and a prefix for statistics are set and the host binding is taken out; or
    -- refuses it, and then an error was posted.
    pub setup-Outcome :
        (default_address : String) (l : Listener L)
        → Outcome IsReady (setup str lower default_address l)
    unfolding setup
    setup-Outcome default_address l =
        then-Outcome _ (bind_hosts str lower)
          (then-Outcome _ (set_prefix str lower)
            (then-Outcome _ check_security
              (then-Outcome _ set_socket (set_stack-Outcome _) set_socket-Outcome)
              check_security-Outcome)
            set_prefix-Outcome)
          bind_hosts-Outcome
