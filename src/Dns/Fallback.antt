-- ===== src/Dns/Fallback.antt =====
-- What NewResolver makes of the configured upstreams, and which client answers.
use gecit_unofficial.Base.{
  ◌≡◌, refl, ap, ◌∙◌, Option, none, some, List, [], ◌∷◌, ◌++◌, arith, All, Bytes, returns, fails,
  Text, trim_space, split, join,
}
use gecit_unofficial.Dns.Resolver.{
  DohClient, fallback, new_client, clients_of, choose, new_resolver, names, resolver_name, Exchange,
  client_resolve, fallback_resolve, resolve,
}

-- The names that NewResolver takes from its argument.
abbrev pub trimmed : List Text → List Text
trimmed [] = []
trimmed (u ∷ us) = trim_space u ∷ trimmed us

client_name : (dialled : Text → Text) (u : Text) → (new_client dialled u).name ≡ u
unfolding new_client
client_name dialled u = ground arith

names_of : (dialled : Text → Text) (us : List Text) → names (clients_of dialled us) ≡ trimmed us
unfolding names clients_of
names_of dialled [] = refl
names_of dialled (u ∷ us) = rw (client_name dialled (trim_space u), names_of dialled us) refl

name_chosen : (cs : List DohClient) → resolver_name (choose cs) ≡ join 44 (names cs)
unfolding resolver_name names join
name_chosen [] = refl
name_chosen (c ∷ []) = refl
name_chosen (c ∷ d ∷ cs) = refl

-- The resolver of a comma-separated list is named by the list's entries, trimmed, in their order.
pub new_resolver-name :
    (dialled : Text → Text) (upstreams : Text)
    → resolver_name (new_resolver dialled upstreams) ≡ join 44 (trimmed (split 44 upstreams))
unfolding new_resolver
new_resolver-name dialled upstreams =
    name_chosen (clients_of dialled (split 44 upstreams))
    ∙ ap (join 44) (names_of dialled (split 44 upstreams))

module _ {E : Type 0} (post : Exchange E) (query : Bytes) where
  -- The error of a client.
  abbrev pub Fails : DohClient → Type 0
  Fails c = (e : E) × (post c.upstream query ≡ fails e)

  fallback-skips :
      (failing rest : List DohClient) (last : Option E)
      → All Fails failing
      → (last' : Option E) × (fallback_resolve post (failing ++ rest) query last
          ≡ fallback_resolve post rest query last')
  unfolding fallback_resolve client_resolve
  fallback-skips [] rest last f = (last, refl)
  fallback-skips (c ∷ cs) rest last ((e, failed), f) =
      let (last', rest_eq) = fallback-skips cs rest (some e) f in
      (last', ground (arith, failed, rest_eq))

  fallback-fails :
      (failing : List DohClient) (last : E)
      → All Fails failing
      → (e : E) × (fallback_resolve post failing query (some last) ≡ fails e)
  unfolding fallback_resolve client_resolve
  fallback-fails [] last f = (last, refl)
  fallback-fails (c ∷ cs) last ((e, failed), f) =
      let (e', rest_eq) = fallback-fails cs e f in (e', ground (arith, failed, rest_eq))

-- The fallback resolver answers with the first client that answers, under that client's name; and
-- where there is a client and all fail, it fails.
pub fallback_resolve-first :
    {E : Type 0} (post : Exchange E) (query answer : Bytes) (failing later : List DohClient)
    → (c : DohClient) → All (Fails post query) failing
    → (post c.upstream query ≡ returns answer
        → resolve post (fallback (failing ++ c ∷ later)) query
          ≡ returns (record { payload = answer; via = c.name }))
      × (Fails post query c
          → (e : E) × (resolve post (fallback (failing ++ c ∷ [])) query ≡ fails e))
unfolding resolve fallback_resolve client_resolve
fallback_resolve-first post query answer failing later c f = (
  (λ answered.
      let (last, skipped) = fallback-skips post query failing (c ∷ later) none f in
      ground (arith, skipped, answered)),
  (λ failed.
      let (last, skipped) = fallback-skips post query failing (c ∷ []) none f in
      (failed.0, ground (arith, skipped, failed.1))),
)
