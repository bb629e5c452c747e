-- ===== src/Dns/Resolver.antt =====
-- pkg/dns/doh.go: the resolvers. What an HTTP exchange with an upstream answers is a parameter.
use gecit_unofficial.Base.{
  Option, none, some, List, [], ◌∷◌, if◌then◌else◌, Bytes, Result, returns, fails, Text, codes,
  text_eq, trim_space, split, join,
}

pub record ResolveResult : Type 0 where
  pub payload : Bytes
  pub via : Text

pub record DohClient : Type 0 where
  pub upstream : Text
  pub name : Text

-- NewResolver gives the client itself where there is one, else the fallback over all.
pub data Resolver : Type 0 where
  single : DohClient → Resolver
  fallback : List DohClient → Resolver

abbrev pub presets : List (Text × Text)
presets =
    (codes "cloudflare", codes "https://1.1.1.1/dns-query")
    ∷ (codes "google", codes "https://8.8.8.8/dns-query")
    ∷ (codes "quad9", codes "https://9.9.9.9:5053/dns-query")
    ∷ (codes "nextdns", codes "https://dns.nextdns.io/dns-query")
    ∷ (codes "adguard", codes "https://dns.adguard-dns.com/dns-query")
    ∷ []

unfoldable pub preset : List (Text × Text) → Text → Option Text
preset [] u = none
preset ((name, url) ∷ ps) u = if text_eq name u then some url else preset ps u

-- NewDoHClient: the upstream that it dials, with the hostname resolved, is the parameter's.
unfoldable pub new_client : (Text → Text) → Text → DohClient
new_client dialled u = elim (preset presets u) [
  | some url ↦ record { upstream = dialled url; name = u }
  | none ↦ record { upstream = dialled u; name = u }
]

unfoldable pub clients_of : (Text → Text) → List Text → List DohClient
clients_of dialled [] = []
clients_of dialled (u ∷ us) = new_client dialled (trim_space u) ∷ clients_of dialled us

abbrev pub choose : List DohClient → Resolver
choose (c ∷ []) = single c
choose [] = fallback []
choose (c ∷ d ∷ cs) = fallback (c ∷ d ∷ cs)

unfoldable pub new_resolver : (Text → Text) → Text → Resolver
new_resolver dialled upstreams = choose (clients_of dialled (split 44 upstreams))

unfoldable pub names : List DohClient → List Text
names [] = []
names (c ∷ cs) = c.name ∷ names cs

unfoldable pub resolver_name : Resolver → Text
resolver_name (single c) = c.name
resolver_name (fallback cs) = join 44 (names cs)

-- DoHClient.Resolve: the exchange is a parameter; the answer is marked with the client's name.
abbrev pub Exchange : Type 0 → Type 0
Exchange E = Text → Bytes → Result E Bytes

unfoldable pub client_resolve :
    {E : Type 0} → Exchange E → DohClient → Bytes → Result E ResolveResult
client_resolve post c query = elim (post c.upstream query) [
  | fails e ↦ fails e
  | returns b ↦ returns (record { payload = b; via = c.name })
]

-- The loop, with lastErr; without clients it returns the zero result and a nil error.
unfoldable pub fallback_resolve :
    {E : Type 0} → Exchange E → List DohClient → Bytes → Option E → Result E ResolveResult
fallback_resolve post [] query none = returns (record { payload = []; via = [] })
fallback_resolve post [] query (some e) = fails e
fallback_resolve post (c ∷ cs) query last = elim (client_resolve post c query) [
  | returns r ↦ returns r
  | fails e ↦ fallback_resolve post cs query (some e)
]

unfoldable pub resolve : {E : Type 0} → Exchange E → Resolver → Bytes → Result E ResolveResult
resolve post (single c) query = client_resolve post c query
resolve post (fallback cs) query = fallback_resolve post cs query none
