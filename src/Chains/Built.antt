-- ===== src/Chains/Built.antt =====
-- What holds of each chain that a listener computes, by induction on the calls that make it.
use emissary.Prelude.{
  Bool, true, false, not, List, [], ◌∷◌, Option, none, some, Dict, lookup, insert, ◌++◌, Holds,
  Holds-insert, Holds-lookup, All, ◌==◌, if◌then◌else◌, string_eq, ◌≡◌, refl, Bool-cases,
  Option-cases, inl, inr, then_taken, else_taken, sym, ap,
}
use mathlib.Core.Path.{subst}
use emissary.Results.{ok, assertion_error, raised, ◌>>=◌, >>=-eq-ok}
use emissary.Resolver.{text_eq}
use emissary.RouteVariants.{codes}
use emissary.Chains.{
  Text, TlsContext, Host, TcpGroup, Owner, tcp, Chain, Posted, tcp_owner, same_context, enter,
  add_secure, add_name, host_or_star, ChainType, Chains, empty_chain, add_tcphost, add_httphost,
  chain_at, chain_key, chain_type_ok, on_chain, is_usable, Settings, add_tls_tcp, consider_tcp,
  compute_tcpchains, takes_secure, takes_insecure, takes_host, add_secure_chain, add_insecure_chain,
  consider_host, consider_hosts, compute_httpchains, sort_hosts, insert_host, text_leb,
  tlscontext_for_tcpmapping,
}

-- Sorting keeps what holds of each Host.
All-insert_host {ℓ} :
    (Q : Host → Type ℓ) (h : Host) (hs : List Host) → Q h → All Q hs → All Q (insert_host h hs)
unfolding insert_host
All-insert_host Q h [] q qs = (q, tt)
All-insert_host Q h (k ∷ hs) q qs = elim (Bool-cases (text_leb h.ir.hostname k.ir.hostname)) [
  | inl before ↦ rw before (q, qs)
  | inr after ↦ rw after (qs.0, All-insert_host Q h hs q qs.1)
]

pub All-sort_hosts {ℓ} : (Q : Host → Type ℓ) (hs : List Host) → All Q hs → All Q (sort_hosts hs)
unfolding sort_hosts
All-sort_hosts Q [] qs = tt
All-sort_hosts Q (h ∷ hs) qs = All-insert_host Q h (sort_hosts hs) qs.0 (All-sort_hosts Q hs qs.1)

-- A Host has the context of a chain that has a usable one.
abbrev pub Agrees : Option TlsContext → Host → Type 0
Agrees none h = Unit
Agrees (some mine) h =
    mine.usable ≡ true
    → (theirs : TlsContext) × (h.context ≡ some theirs)
      × (theirs.usable ≡ true)
      × (same_context mine theirs ≡ true)

-- What a call makes of a chain: it is as it was, or a TCP group or a Host enters it.
module _ {ℓ κ} {V : Type ℓ} (P : Chain V → Type κ) where
  pub add_tcphost-cases :
      (g : TcpGroup) (c : Chain V)
      → P c
      → ((names : List Text)
          → P (record c { server_names = names; hosts = insert (host_or_star g.host) (tcp g) [] }))
      → P (add_tcphost g c).0
  unfolding add_tcphost
  add_tcphost-cases g c same entered = by_hosts c.hosts refl
    where
      by_hosts : (m : Dict Text Owner) → c.hosts ≡ m → P (add_tcphost g c).0
      by_hosts (first ∷ rest) e = rw (add_tcphost, e) same
      by_hosts [] e =
          let names : List Text =
            if is_usable c.context
            then add_name (host_or_star g.host) c.server_names
            else c.server_names in
          rw (add_tcphost, e)
            (subst
              (λ m.
                P (record c {
                  server_names = names;
                  hosts = insert (host_or_star g.host) (tcp g) m;
                }))
              (sym e) (entered names))

  pub add_httphost-cases :
      (h : Host) (c : Chain V)
      → P c
      → ((names : List Text)
          → tcp_owner c.hosts ≡ none
          → Agrees c.context h
          → P (enter h (record c { server_names = names })))
      → P (add_httphost h c).0
  unfolding add_httphost
  add_httphost-cases h c same entered = elim (Option-cases (tcp_owner c.hosts)) [
    | inr (g, there) ↦ rw (add_httphost, there) same
    | inl no_tcp ↦ rw (add_httphost, no_tcp) (by_context c.context refl no_tcp)
  ]
    where
      by_theirs :
          (mine : TlsContext)
          → c.context ≡ some mine
          → tcp_owner c.hosts ≡ none
          → (o : Option TlsContext) → h.context ≡ o
          → P (add_secure mine o h c).0
      by_theirs mine at no_tcp none e = same
      by_theirs mine at no_tcp (some theirs) e = elim (Bool-cases theirs.usable) [
        | inr broken ↦ rw broken same
        | inl usable ↦ rw usable (elim (Bool-cases (same_context mine theirs)) [
          | inr differ ↦ rw differ same
          | inl agree ↦ rw agree (
              entered (add_name h.sni c.server_names) no_tcp
                (rw at (λ _. (theirs, e, usable, agree))))
        ])
      ]

      by_context :
          (o : Option TlsContext)
          → c.context ≡ o
          → tcp_owner c.hosts ≡ none
          → let posted : Posted V = elim o [
            | none ↦ (enter h c, [])
            | some mine ↦ if mine.usable then add_secure mine h.context h c else (enter h c, [])
          ] in
            P posted.0
      by_context none at no_tcp = entered c.server_names no_tcp (rw at tt)
      by_context (some mine) at no_tcp = elim (Bool-cases mine.usable) [
        | inl usable ↦ rw usable (by_theirs mine at no_tcp h.context refl)
        | inr broken ↦ rw broken (entered c.server_names no_tcp (rw at (λ usable. absurd cc)))
      ]

pub ok-eq {ℓ} : {A : Type ℓ} {x y : A} → ok x ≡ ok y → x ≡ y
ok-eq e = cc

guarded {ℓ} :
    {A : Type ℓ} (b : Bool) (x y : A) → (if b then ok x else raised assertion_error) ≡ ok y → x ≡ y
guarded true x y e = cc
guarded false x y e = absurd cc

module _ {ℓ κ μ} {V : Type ℓ} (P : Chain V → Type κ) (Q : Host → Type μ)
    (at_empty : (context : Option TlsContext) → P (empty_chain context))
    (at_tcp : (g : TcpGroup) (c : Chain V) → P c → P (add_tcphost g c).0)
    (at_http : (h : Host) (c : Chain V) → Q h → P c → P (add_httphost h c).0) where
  abbrev pub AllChains : Chains V → Type κ
  AllChains s = Holds (λ _ c. P c) s.chains

  at_chain :
      (key : Text) (context : Option TlsContext) (s : Chains V)
      → AllChains s
      → P (chain_at key context s.chains)
  at_chain key context s h = elim (Option-cases (lookup key s.chains)) [
    | inl missing ↦ rw (chain_at, missing) (at_empty context)
    | inr (c, found) ↦ rw (chain_at, found) (Holds-lookup (λ _ c. P c) key c s.chains h found)
  ]

  on_chain-AllChains :
      (type : ChainType) (context : Option TlsContext) (hostname sni : Text)
      (method : Chain V → Posted V) (s s' : Chains V)
      → ((c : Chain V) → P c → P (method c).0)
      → AllChains s
      → on_chain type context hostname sni method s ≡ ok s'
      → AllChains s'
  unfolding on_chain
  on_chain-AllChains type context hostname sni method s s' kept h ran =
      let key = chain_key type (is_usable context) hostname sni in
      let start = chain_at key context s.chains in
      let made : Chains V = record {
        chains = insert key (method start).0 s.chains;
        posted = s.posted ++ (method start).1;
      } in
      subst AllChains (guarded (chain_type_ok type (is_usable context)) made s' ran) (
        Holds-insert (λ _ c. P c) key (method start).0 s.chains
          (kept start (at_chain key context s h)) h)

  add_tls_tcp-AllChains :
      (l : Settings) (host : Text) (context : Option TlsContext) (g : TcpGroup) (s s' : Chains V)
      → AllChains s
      → add_tls_tcp l host context g s ≡ ok s'
      → AllChains s'
  unfolding add_tls_tcp
  add_tls_tcp-AllChains l host context g s s' h ran = elim (Bool-cases (is_usable context)) [
    | inl usable ↦
        on_chain-AllChains ChainType.tcp_chain context host host (add_tcphost g) s s' (at_tcp g) h
          (then_taken _ usable ran)
    | inr not_usable ↦ subst AllChains (ok-eq (else_taken _ not_usable ran)) h
  ]

  consider_tcp-AllChains :
      (l : Settings) (hosts : List Host) (contexts : List TlsContext) (g : TcpGroup)
      (s s' : Chains V)
      → AllChains s
      → consider_tcp l hosts contexts g s ≡ ok s'
      → AllChains s'
  unfolding consider_tcp
  consider_tcp-AllChains l hosts contexts g s s' h ran =
      elim (Bool-cases (g.bind_to == l.bind_to)) [
        | inr other ↦ subst AllChains (ok-eq (then_taken _ (ap not other) ran)) h
        | inl here ↦ by_host g.host (else_taken _ (ap not here) ran)
      ]
    where
      plain :
          on_chain ChainType.tcp_chain none (codes "*") (codes "*") (add_tcphost g) s ≡ ok s'
          → AllChains s'
      plain =
          on_chain-AllChains ChainType.tcp_chain none (codes "*") (codes "*") (add_tcphost g) s s'
            (at_tcp g) h

      by_host :
          (o : Option Text)
          → (elim o [
            | none ↦ on_chain ChainType.tcp_chain none (codes "*") (codes "*") (add_tcphost g) s
            | some [] ↦ on_chain ChainType.tcp_chain none (codes "*") (codes "*") (add_tcphost g) s
            | some (c ∷ name) ↦ do
              context ← tlscontext_for_tcpmapping hosts contexts g
              add_tls_tcp l (c ∷ name) context g s
          ])
            ≡ ok s'
          → AllChains s'
      by_host none e = plain e
      by_host (some []) e = plain e
      by_host (some (c ∷ name)) e =
          let (context, _, added) = >>=-eq-ok (tlscontext_for_tcpmapping hosts contexts g) _ e in
          add_tls_tcp-AllChains l (c ∷ name) context g s s' h added

  pub compute_tcpchains-AllChains :
      (l : Settings) (hosts : List Host) (contexts : List TlsContext) (gs : List TcpGroup)
      (s s' : Chains V)
      → AllChains s
      → compute_tcpchains l hosts contexts gs s ≡ ok s'
      → AllChains s'
  unfolding compute_tcpchains
  compute_tcpchains-AllChains l hosts contexts [] s s' h ran = subst AllChains (ok-eq ran) h
  compute_tcpchains-AllChains l hosts contexts (g ∷ gs) s s' h ran =
      let (mid, one, others) = >>=-eq-ok (consider_tcp l hosts contexts g s) _ ran in
      compute_tcpchains-AllChains l hosts contexts gs mid s'
        (consider_tcp-AllChains l hosts contexts g s mid h one) others

  add_secure_chain-AllChains :
      (l : Settings) (k : Host) (s s' : Chains V)
      → Q k
      → AllChains s
      → add_secure_chain l k s ≡ ok s'
      → AllChains s'
  unfolding add_secure_chain
  add_secure_chain-AllChains l k s s' q h ran = elim (Bool-cases (takes_secure l k)) [
    | inl taken ↦
        on_chain-AllChains ChainType.https_chain k.context k.ir.hostname k.sni (add_httphost k) s s'
          (λ c. at_http k c q) h (then_taken _ taken ran)
    | inr left ↦ subst AllChains (ok-eq (else_taken _ left ran)) h
  ]

  add_insecure_chain-AllChains :
      (l : Settings) (k : Host) (s s' : Chains V)
      → Q k
      → AllChains s
      → add_insecure_chain l k s ≡ ok s'
      → AllChains s'
  unfolding add_insecure_chain
  add_insecure_chain-AllChains l k s s' q h ran = elim (Bool-cases (takes_insecure l k)) [
    | inl taken ↦
        on_chain-AllChains ChainType.http_chain none k.ir.hostname k.sni (add_httphost k) s s'
          (λ c. at_http k c q) h (then_taken _ taken ran)
    | inr left ↦ subst AllChains (ok-eq (else_taken _ left ran)) h
  ]

  consider_host-AllChains :
      (l : Settings) (loose : Bool) (k : Host) (s s' : Chains V)
      → Q k
      → AllChains s
      → consider_host l loose k s ≡ ok s'
      → AllChains s'
  unfolding consider_host
  consider_host-AllChains l loose k s s' q h ran = elim (Bool-cases (takes_host l loose k)) [
    | inr left ↦ subst AllChains (ok-eq (then_taken _ (ap not left) ran)) h
    | inl taken ↦
        let (mid, one, two) =
          >>=-eq-ok (add_secure_chain l k s) _ (else_taken _ (ap not taken) ran) in
        add_insecure_chain-AllChains l k mid s' q (add_secure_chain-AllChains l k s mid q h one) two
  ]

  consider_hosts-AllChains :
      (l : Settings) (loose : Bool) (ks : List Host) (s s' : Chains V)
      → All Q ks
      → AllChains s
      → consider_hosts l loose ks s ≡ ok s'
      → AllChains s'
  unfolding consider_hosts
  consider_hosts-AllChains l loose [] s s' qs h ran = subst AllChains (ok-eq ran) h
  consider_hosts-AllChains l loose (k ∷ ks) s s' qs h ran =
      let (mid, one, others) = >>=-eq-ok (consider_host l loose k s) _ ran in
      consider_hosts-AllChains l loose ks mid s' qs.1
        (consider_host-AllChains l loose k s mid qs.0 h one) others

  pub compute_httpchains-AllChains :
      (l : Settings) (loose : Bool) (ks : List Host) (s s' : Chains V)
      → All Q ks
      → AllChains s
      → compute_httpchains l loose ks s ≡ ok s'
      → AllChains s'
  unfolding compute_httpchains
  compute_httpchains-AllChains l loose ks s s' qs =
      consider_hosts-AllChains l loose (sort_hosts ks) s s' (All-sort_hosts Q ks qs)
