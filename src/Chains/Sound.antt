-- ===== src/Chains/Sound.antt =====
-- The invariant of the chains of a listener: who owns them.
use emissary.Prelude.{
  Bool, true, List, [], ◌∷◌, Option, none, Dict, insert, contains, keys, contains-keys-insert,
  Holds, Holds-insert, Holds-imp, All, ◌==◌, string_eq, ◌≡◌, refl, ◌⊎◌, inl, inr, ◌∙◌, arith,
  Bool-cases, eq_self,
}
use emissary.Results.{ok}
use emissary.Resolver.{text_eq}
use emissary.Chains.{
  Text, TlsContext, Host, TcpGroup, Owner, tcp, http, Chain, Chains, empty_chain, tcp_owner, enter,
  add_tcphost, add_httphost, host_or_star, Settings, compute_tcpchains, compute_httpchains,
}
use emissary.Chains.Built.{
  Agrees, add_tcphost-cases, add_httphost-cases, compute_tcpchains-AllChains,
  compute_httpchains-AllChains,
}

-- A Host stands under its host name, which has routes.
abbrev pub OwnerOk : Option TlsContext → List Text → Text → Owner → Type 0
OwnerOk context routed k (tcp g) = Unit
OwnerOk context routed k (http h) =
    (k ≡ h.ir.hostname) × (contains routed k ≡ true) × Agrees context h

pub record IsSound {ℓ} {V : Type ℓ} (c : Chain V) : Type ℓ where
  -- A TCP group has its chain for itself.
  pub alone :
      (tcp_owner c.hosts ≡ none) ⊎ ((k : Text) × (g : TcpGroup) × (c.hosts ≡ (k, tcp g) ∷ []))
  pub owners : Holds (OwnerOk c.context (keys c.routes)) c.hosts

tcp_owner-insert :
    (k : Text) (h : Host) (m : Dict Text Owner)
    → tcp_owner m ≡ none
    → tcp_owner (insert k (http h) m) ≡ none
unfolding tcp_owner insert
tcp_owner-insert k h [] e = refl
tcp_owner-insert k h ((j, tcp g) ∷ m) e = absurd cc
tcp_owner-insert k h ((j, http i) ∷ m) e = elim (Bool-cases (j == k)) [
  | inl same ↦ rw same e
  | inr other ↦ rw other (tcp_owner-insert k h m e)
]

pub any_hosts : (hosts : List Host) → All (λ _. Unit {0}) hosts
any_hosts [] = tt
any_hosts (h ∷ hs) = (tt, any_hosts hs)

module _ {ℓ} {V : Type ℓ} where
  empty-IsSound : (context : Option TlsContext) → IsSound (empty_chain {V = V} context)
  unfolding tcp_owner
  empty-IsSound context = record { alone = inl refl; owners = tt }

  add_tcphost-IsSound : (g : TcpGroup) (c : Chain V) → IsSound c → IsSound (add_tcphost g c).0
  unfolding insert
  add_tcphost-IsSound g c h =
      add_tcphost-cases IsSound g c h
        (λ names. record { alone = inr (host_or_star g.host, g, refl); owners = (tt, tt) })

  -- A Host enters a chain with no TCP group.
  enter-IsSound :
      (h : Host) (c : Chain V)
      → tcp_owner c.hosts ≡ none
      → Agrees c.context h
      → IsSound c
      → IsSound (enter h c)
  enter-IsSound h c no_tcp agrees s = record {
    alone = inl (tcp_owner-insert h.ir.hostname h c.hosts no_tcp);
    owners =
        Holds-insert (OwnerOk c.context (keys (insert h.ir.hostname [] c.routes))) h.ir.hostname
          (http h) c.hosts
          (
            refl,
            contains-keys-insert h.ir.hostname h.ir.hostname [] c.routes
                ∙ rw (eq_self h.ir.hostname),
            agrees,
          )
          (Holds-imp (OwnerOk c.context (keys c.routes)) _ c.hosts still s.owners);
  }
    where
      still :
          (k : Text) (o : Owner)
          → OwnerOk c.context (keys c.routes) k o
          → OwnerOk c.context (keys (insert h.ir.hostname [] c.routes)) k o
      still k (tcp g) o = tt
      still k (http i) o =
          (o.0, contains-keys-insert h.ir.hostname k [] c.routes ∙ ground (arith, o.1), o.2)

  add_httphost-IsSound : (h : Host) (c : Chain V) → IsSound c → IsSound (add_httphost h c).0
  add_httphost-IsSound h c s = add_httphost-cases IsSound h c s (λ names no_tcp agrees.
      enter-IsSound h (record c { server_names = names }) no_tcp agrees
        (record { alone = s.alone; owners = s.owners }))

  -- After the chains for TCP groups and for Hosts are computed, in a listener that begins with no chains,
  -- every chain has either Hosts only or one TCP group only; each of its Hosts stands under its own host
  -- name, which is a key of the chain's routes; and where the chain has a usable TLS context, each of its Hosts has a
  -- usable one of the same name and namespace.
  pub compute-IsSound :
      (l : Settings) (loose : Bool) (hosts : List Host) (contexts : List TlsContext)
      (groups : List TcpGroup) (s s' : Chains V)
      → compute_tcpchains l hosts contexts groups (record { chains = []; posted = [] }) ≡ ok s
      → compute_httpchains l loose hosts s ≡ ok s'
      → Holds (λ _ c. IsSound c) s.chains × Holds (λ _ c. IsSound c) s'.chains
  compute-IsSound l loose hosts contexts groups s s' tcp_ran http_ran = (first, second)
    where
      first : Holds (λ _ c. IsSound c) s.chains
      first =
          compute_tcpchains-AllChains IsSound (λ _. Unit {0}) empty-IsSound add_tcphost-IsSound
            (λ h c _ sound. add_httphost-IsSound h c sound) l hosts contexts groups
            (record { chains = []; posted = [] }) s tt tcp_ran

      second : Holds (λ _ c. IsSound c) s'.chains
      second =
          compute_httpchains-AllChains IsSound (λ _. Unit {0}) empty-IsSound add_tcphost-IsSound
            (λ h c _ sound. add_httphost-IsSound h c sound) l loose hosts s s' (any_hosts hosts)
            first http_ran
