-- ===== src/Chains/Total.antt =====
-- Where no Host has an empty host name or an action that is not known, no listener raises.
use emissary.Prelude.{
  ℕ, Bool, true, not, List, [], ◌∷◌, Option, none, some, All, ◌==◌, ◌||◌, string_eq, ◌≡◌, ◌≢◌, refl,
  inl, inr, arith, Bool-cases,
}
use emissary.Results.{Result, ok, ◌>>=◌, Returns, >>=-Returns, if-Returns}
use emissary.HostGlob.Laws.{hostglob_matches_total}
use emissary.Resolver.{text_eq}
use emissary.RouteVariants.{codes, lower, variant_key_eq}
use emissary.Chains.{
  Text, TlsContext, Host, TcpGroup, Chain, Chains, ChainType, Posted, Settings, is_usable,
  chain_type_ok, on_chain, add_tcphost, add_httphost, context_of_hosts, context_by_name,
  tlscontext_for_tcpmapping, add_tls_tcp, consider_tcp, compute_tcpchains, takes_secure,
  takes_insecure, takes_host, add_secure_chain, add_insecure_chain, consider_host, consider_hosts,
  compute_httpchains, sort_hosts,
}
use emissary.Chains.Built.{All-sort_hosts}

abbrev pub is_known : Text → Bool
is_known action =
    lower action == codes "route" || lower action == codes "redirect" || action == codes "Reject"

-- A Host with a name, whose insecure action is none or a known one.
pub record IsFine (h : Host) : Type 0 where
  pub named : h.ir.hostname ≢ []
  pub known : (action : Text) → h.insecure_action ≡ some action → is_known action ≡ true

abbrev pub Done {ℓ} : {A : Type ℓ} → Result A → Type ℓ
Done {A = A} r = Returns (λ (_ : A). Unit {0}) r

on_chain-Done {ℓ} :
    {V : Type ℓ} (type : ChainType) (context : Option TlsContext) (hostname sni : Text)
    (method : Chain V → Posted V) (s : Chains V)
    → chain_type_ok type (is_usable context) ≡ true
    → Done (on_chain type context hostname sni method s)
unfolding on_chain
on_chain-Done type context hostname sni method s fits = rw fits (_, refl, tt)

context_of_hosts-Done :
    (c : ℕ) (name : Text) (hs : List Host) → All IsFine hs → Done (context_of_hosts (c ∷ name) hs)
unfolding context_of_hosts
context_of_hosts-Done c name [] fine = (_, refl, tt)
context_of_hosts-Done c name (h ∷ hs) fine = elim (Bool-cases (is_usable h.context)) [
  | inr plain ↦ rw plain (context_of_hosts-Done c name hs fine.1)
  | inl tls ↦
      let (matched, ran) =
        hostglob_matches_total h.ir.hostname (c ∷ name) fine.0.named (λ e. absurd cc) in
      rw (tls, ran)
        (elim (Bool-cases matched) [
          | inl yes' ↦ rw yes' (_, refl, tt)
          | inr no' ↦ rw no' (context_of_hosts-Done c name hs fine.1)
        ])
]

tlscontext-Done :
    (hosts : List Host) (contexts : List TlsContext) (g : TcpGroup)
    → All IsFine hosts
    → Done (tlscontext_for_tcpmapping hosts contexts g)
unfolding tlscontext_for_tcpmapping
tlscontext-Done hosts contexts g fine = by_host g.host
  where
    by_host :
        (o : Option Text)
        → let found : Result (Option TlsContext) = elim o [
          | none ↦ ok none
          | some [] ↦ ok none
          | some (c ∷ s) ↦ do
            context ← context_of_hosts (c ∷ s) (sort_hosts hosts)
            elim context [
              | some context ↦ ok (some context)
              | none ↦ ok (context_by_name (c ∷ s) contexts)
            ]
        ] in
          Done found
    by_host none = (_, refl, tt)
    by_host (some []) = (_, refl, tt)
    by_host (some (c ∷ s)) =
        >>=-Returns _ _ _ _
          (context_of_hosts-Done c s (sort_hosts hosts) (All-sort_hosts IsFine hosts fine)) found
      where
        found :
            (o : Option TlsContext)
            → Unit {0}
            → Done (elim o [
              | some context ↦ ok (some context)
              | none ↦ ok (context_by_name (c ∷ s) contexts)
            ])
        found none _ = (_, refl, tt)
        found (some context) _ = (_, refl, tt)

module _ {ℓ} {V : Type ℓ} (l : Settings) where
  add_tls_tcp-Done :
      (host : Text) (context : Option TlsContext) (g : TcpGroup) (s : Chains V)
      → Done (add_tls_tcp l host context g s)
  unfolding add_tls_tcp
  add_tls_tcp-Done host context g s =
      if-Returns _ (is_usable context) _ _
        (λ _. on_chain-Done ChainType.tcp_chain context host host (add_tcphost g) s refl)
        (λ _. (_, refl, tt))

  consider_tcp-Done :
      (hosts : List Host) (contexts : List TlsContext) (g : TcpGroup) (s : Chains V)
      → All IsFine hosts
      → Done (consider_tcp l hosts contexts g s)
  unfolding consider_tcp
  consider_tcp-Done hosts contexts g s fine =
      if-Returns _ (not (g.bind_to == l.bind_to)) _ _ (λ _. (_, refl, tt)) (λ _. by_host g.host)
    where
      plain : Done (on_chain ChainType.tcp_chain none (codes "*") (codes "*") (add_tcphost g) s)
      plain = on_chain-Done ChainType.tcp_chain none (codes "*") (codes "*") (add_tcphost g) s refl

      by_host :
          (o : Option Text)
          → let added : Result (Chains V) = elim o [
            | none ↦ on_chain ChainType.tcp_chain none (codes "*") (codes "*") (add_tcphost g) s
            | some [] ↦ on_chain ChainType.tcp_chain none (codes "*") (codes "*") (add_tcphost g) s
            | some (c ∷ name) ↦ do
              context ← tlscontext_for_tcpmapping hosts contexts g
              add_tls_tcp l (c ∷ name) context g s
          ] in
            Done added
      by_host none = plain
      by_host (some []) = plain
      by_host (some (c ∷ name)) =
          >>=-Returns _ _ _ _ (tlscontext-Done hosts contexts g fine)
            (λ context _. add_tls_tcp-Done (c ∷ name) context g s)

  pub compute_tcpchains-Done :
      (hosts : List Host) (contexts : List TlsContext) (gs : List TcpGroup) (s : Chains V)
      → All IsFine hosts
      → Done (compute_tcpchains l hosts contexts gs s)
  unfolding compute_tcpchains
  compute_tcpchains-Done hosts contexts [] s fine = (_, refl, tt)
  compute_tcpchains-Done hosts contexts (g ∷ gs) s fine =
      >>=-Returns _ _ _ _ (consider_tcp-Done hosts contexts g s fine)
        (λ s' _. compute_tcpchains-Done hosts contexts gs s' fine)

  add_secure_chain-Done : (h : Host) (s : Chains V) → Done (add_secure_chain l h s)
  unfolding add_secure_chain
  add_secure_chain-Done h s =
      if-Returns _ (takes_secure l h) _ _
        (λ taken.
          on_chain-Done ChainType.https_chain h.context h.ir.hostname h.sni (add_httphost h) s
            (ground (arith, taken)))
        (λ _. (_, refl, tt))

  add_insecure_chain-Done : (h : Host) (s : Chains V) → Done (add_insecure_chain l h s)
  unfolding add_insecure_chain
  add_insecure_chain-Done h s =
      if-Returns _ (takes_insecure l h) _ _
        (λ _. on_chain-Done ChainType.http_chain none h.ir.hostname h.sni (add_httphost h) s refl)
        (λ _. (_, refl, tt))

  consider_hosts-Done :
      (loose : Bool) (hs : List Host) (s : Chains V) → Done (consider_hosts l loose hs s)
  unfolding consider_hosts consider_host
  consider_hosts-Done loose [] s = (_, refl, tt)
  consider_hosts-Done loose (h ∷ hs) s =
      >>=-Returns _ _ _ _
        (if-Returns (λ _. Unit {0}) (not (takes_host l loose h)) _ _ (λ _. (_, refl, tt))
          (λ _.
            >>=-Returns _ _ _ _ (add_secure_chain-Done h s) (λ s' _. add_insecure_chain-Done h s')))
        (λ s' _. consider_hosts-Done loose hs s')

  pub compute_httpchains-Done :
      (loose : Bool) (hs : List Host) (s : Chains V) → Done (compute_httpchains l loose hs s)
  unfolding compute_httpchains
  compute_httpchains-Done loose hs s = consider_hosts-Done loose (sort_hosts hs) s
