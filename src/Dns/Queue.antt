-- ===== src/Dns/Queue.antt =====
-- The queue of each address is first in, first out.
use gecit_unofficial.Base.{
  ◌≡◌, refl, false, List, [], ◌∷◌, arith, Text, text_eq, text_eq_refl, text_eq_iff, ℕ, suc, sym,
  ◌⊎◌, inl, inr, true, ◌||◌, some, ◌++◌, ◌==◌, if◌then◌else◌, Bool-cases, replicate, Bytes, Result,
  returns, ◌+◌,
}
use gecit_unofficial.Dns.Server.{
  IpQueue, queue_of, remove_key, assign, pop_domain, pop_from, Rr, Question, Msg, Codec, write_msg,
  type_a, type_aaaa, addresses, trim_dot, remember, handle_query, push_domain, a_record,
  aaaa_record, other_record,
}
use gecit_unofficial.Dns.Resolver.{resolve}
use mathlib.Core.List.{append_assoc, append-nil}
use gecit_unofficial.Tun.Handler.{resolved}

removed_other :
    (q : IpQueue) (ip other : Text)
    → text_eq ip other ≡ false
    → queue_of (remove_key q ip) other ≡ queue_of q other
unfolding queue_of remove_key
removed_other [] ip other h = refl
removed_other ((k, ds) ∷ q) ip other h = ground (
  arith,
  h,
  removed_other q ip other h,
  text_eq_iff k ip,
  text_eq_iff k other,
  text_eq_iff ip other,
)

removed : (q : IpQueue) (ip : Text) → queue_of (remove_key q ip) ip ≡ []
unfolding queue_of remove_key
removed [] ip = refl
removed ((k, ds) ∷ q) ip = ground (arith, removed q ip)

assigned : (q : IpQueue) (ip : Text) (ds : List Text) → queue_of (assign q ip ds) ip ≡ ds
unfolding queue_of assign
assigned q ip ds = ground (arith, text_eq_refl ip)

assigned_other :
    (q : IpQueue) (ip other : Text) (ds : List Text)
    → text_eq ip other ≡ false
    → queue_of (assign q ip ds) other ≡ queue_of q other
unfolding queue_of assign
assigned_other q ip other ds h = ground (arith, h, removed_other q ip other h)

-- The front of a queue, "" where it is empty, and the rest of it.
abbrev pub front : List Text → Text
front [] = []
front (d ∷ ds) = d

abbrev pub behind : List Text → List Text
behind [] = []
behind (d ∷ ds) = ds

abbrev Pops : IpQueue → Text → List Text → Text × IpQueue → Type 0
Pops q ip ds r =
    (r.0 ≡ front ds)
    × (queue_of r.1 ip ≡ behind ds)
    × ((other : Text) → text_eq ip other ≡ false → queue_of r.1 other ≡ queue_of q other)

popped :
    (q : IpQueue) (ip : Text) (ds : List Text)
    → queue_of q ip ≡ ds
    → Pops q ip ds (pop_from q ip ds)
popped q ip [] e = (refl, e, λ other h. refl)
popped q ip (d ∷ []) e = (refl, removed q ip, λ other h. removed_other q ip other h)
popped q ip (d ∷ d' ∷ ds) e =
    (refl, assigned q ip (d' ∷ ds), λ other h. assigned_other q ip other (d' ∷ ds) h)

-- PopDomain answers with the front of the address's queue ("" where that is empty), takes it off,
-- and leaves the queue of every other address.
pub pop_domain-front :
    (q : IpQueue) (ip : Text)
    → ((pop_domain q ip).0 ≡ front (queue_of q ip))
      × (queue_of (pop_domain q ip).1 ip ≡ behind (queue_of q ip))
      × ((other : Text)
          → text_eq ip other ≡ false
          → queue_of (pop_domain q ip).1 other ≡ queue_of q other)
unfolding pop_domain
pop_domain-front q ip = popped q ip (queue_of q ip) refl

-- How often an address stands in a list.
unfoldable pub count : Text → List Text → ℕ
count ip [] = 0
count ip (x ∷ xs) = if text_eq x ip then suc (count ip xs) else count ip xs

replicate_shift :
    (ds : List Text) (d : Text) (n : ℕ)
    → (ds ++ d ∷ []) ++ replicate n d ≡ ds ++ replicate (suc n) d
replicate_shift ds d n = append_assoc ds (d ∷ []) (replicate n d)

push_domain-queue_of :
    (q : IpQueue) (ips : List Text) (domain ip : Text)
    → queue_of (push_domain q ips domain) ip ≡ queue_of q ip ++ replicate (count ip ips) domain
unfolding push_domain count
push_domain-queue_of q [] domain ip = sym (append-nil (queue_of q ip))
push_domain-queue_of q (x ∷ ips) domain ip =
    let next = assign q x (queue_of q x ++ domain ∷ []) in
    let rest = push_domain-queue_of next ips domain ip in
    elim (Bool-cases (text_eq x ip)) [
      | inl e ↦
          let same : x ≡ ip = (text_eq_iff x ip).0 e in
          let here : queue_of next ip ≡ queue_of q ip ++ domain ∷ [] =
            rw (← same) (assigned q x (queue_of q x ++ domain ∷ [])) in
          rw (rest, here, e) (replicate_shift (queue_of q ip) domain (count ip ips))
      | inr e ↦ rw (rest, assigned_other q x ip (queue_of q x ++ domain ∷ []) e, e) refl
    ]

remembered :
    (c : Codec) (q : IpQueue) (asked : Question) (qs : List Question) (answer : List Rr)
    → (ip : Text) → (asked.qtype ≡ type_a) ⊎ (asked.qtype ≡ type_aaaa)
    → queue_of (remember c q (asked ∷ qs) answer) ip
      ≡ queue_of q ip ++ replicate (count ip (addresses c answer)) (trim_dot asked.name)
unfolding remember count addresses
remembered c q asked qs [] ip kind = sym (append-nil (queue_of q ip))
remembered c q asked qs (x ∷ xs) ip kind =
    let on : (asked.qtype == type_a || asked.qtype == type_aaaa) ≡ true = ground (arith, kind) in
    rw on (push_domain-queue_of q (addresses c (x ∷ xs)) (trim_dot asked.name) ip)

-- How many records of a response answer with an address, of either kind.
unfoldable pub answers_with : Codec → Text → List Rr → ℕ
answers_with c ip [] = 0
answers_with c ip (other_record ∷ rs) = answers_with c ip rs
answers_with c ip (a_record bytes ∷ rs) =
    (if text_eq (c.address_text bytes) ip then 1 else 0) + answers_with c ip rs
answers_with c ip (aaaa_record bytes ∷ rs) =
    (if text_eq (c.address_text bytes) ip then 1 else 0) + answers_with c ip rs

count-addresses :
    (c : Codec) (ip : Text) (rs : List Rr) → count ip (addresses c rs) ≡ answers_with c ip rs
unfolding count addresses answers_with
count-addresses c ip [] = refl
count-addresses c ip (other_record ∷ rs) = count-addresses c ip rs
count-addresses c ip (a_record bytes ∷ rs) = ground (arith, count-addresses c ip rs)
count-addresses c ip (aaaa_record bytes ∷ rs) = ground (arith, count-addresses c ip rs)

-- Where the query packs, the resolver answers and its answer unpacks, for a first question of type
-- A or AAAA: handleQuery writes the response under the query's id, and appends the queried name,
-- less a final dot, to the queue of each address, once for each A or AAAA record of the response
-- that answers with it.
pub handle_query-queue_of :
    {E : Type 0} (c : Codec) (resolve : Bytes → Result E Bytes) (q : IpQueue) (r : Msg)
    → (query data_bytes : Bytes) (resp : Msg) (asked : Question) (qs : List Question) (ip : Text)
    → c.pack r ≡ some query
    → resolve query ≡ returns data_bytes
    → c.unpack data_bytes ≡ some resp
    → r.question ≡ asked ∷ qs
    → (asked.qtype ≡ type_a) ⊎ (asked.qtype ≡ type_aaaa)
    → ((handle_query c resolve q r).0 ≡ write_msg (record resp { id = r.id }))
      × (queue_of (handle_query c resolve q r).1 ip
          ≡ queue_of q ip ++ replicate (answers_with c ip resp.answer) (trim_dot asked.name))
unfolding handle_query
handle_query-queue_of c resolve q r query data_bytes resp asked qs ip packed resolved unpacked
      questions kind =
    let kept : queue_of (remember c q (asked ∷ qs) resp.answer) ip
        ≡ queue_of q ip ++ replicate (answers_with c ip resp.answer) (trim_dot asked.name) =
      rw (← count-addresses c ip resp.answer) (remembered c q asked qs resp.answer ip kind) in
    ground (arith, packed, resolved, unpacked, questions, kept)
