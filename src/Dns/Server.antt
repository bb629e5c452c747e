-- ===== src/Dns/Server.antt =====
-- pkg/dns/server.go: the queue of domains of each address, and the handler of a query. The map is a
-- list of addresses with their domains; the library's messages are records of what the handler
-- reads.
use gecit_unofficial.Base.{
  ℕ, ◌||◌, Option, none, some, List, [], ◌∷◌, ◌++◌, ◌==◌, if◌then◌else◌, Bytes, Result, returns,
  fails, Text, text_eq,
}
use gecit_unofficial.Dns.Resolver.{resolve}

abbrev pub IpQueue : Type 0
IpQueue = List (Text × List Text)

-- s.ipQueue[ip]; a missing key gives nil.
unfoldable pub queue_of : IpQueue → Text → List Text
queue_of [] ip = []
queue_of ((k, domains) ∷ q) ip = if text_eq k ip then domains else queue_of q ip

unfoldable pub remove_key : IpQueue → Text → IpQueue
remove_key [] ip = []
remove_key ((k, domains) ∷ q) ip =
    if text_eq k ip then remove_key q ip else (k, domains) ∷ remove_key q ip

-- s.ipQueue[ip] = domains
unfoldable pub assign : IpQueue → Text → List Text → IpQueue
assign q ip domains = (ip, domains) ∷ remove_key q ip

abbrev pub pop_from : IpQueue → Text → List Text → Text × IpQueue
pop_from q ip [] = ([], q)
pop_from q ip (domain ∷ []) = (domain, remove_key q ip)
pop_from q ip (domain ∷ d ∷ ds) = (domain, assign q ip (d ∷ ds))

unfoldable pub pop_domain : IpQueue → Text → Text × IpQueue
pop_domain q ip = pop_from q ip (queue_of q ip)

-- The loop over the answered addresses.
unfoldable pub push_domain : IpQueue → List Text → Text → IpQueue
push_domain q [] domain = q
push_domain q (ip ∷ ips) domain =
    push_domain (assign q ip (queue_of q ip ++ domain ∷ [])) ips domain

pub data Rr : Type 0 where
  a_record aaaa_record : Bytes → Rr
  other_record : Rr

pub record Question : Type 0 where
  pub name : Text
  pub qtype : ℕ

pub record Msg : Type 0 where
  pub id : ℕ
  pub question : List Question
  pub answer : List Rr

-- What the handler takes from package dns, and the printed form of an address.
pub record Codec : Type 0 where
  pub pack : Msg → Option Bytes
  pub unpack : Bytes → Option Msg
  pub address_text : Bytes → Text

-- WriteMsg of the response, or sendError.
pub data Reply : Type 0 where
  write_msg : Msg → Reply
  server_failure : Msg → Reply

abbrev pub type_a : ℕ
type_a = 1

abbrev pub type_aaaa : ℕ
type_aaaa = 28

unfoldable pub addresses : Codec → List Rr → List Text
addresses c [] = []
addresses c (a_record ip ∷ rs) = c.address_text ip ∷ addresses c rs
addresses c (aaaa_record ip ∷ rs) = c.address_text ip ∷ addresses c rs
addresses c (other_record ∷ rs) = addresses c rs

-- strings.TrimSuffix(s, ".")
unfoldable pub trim_dot : Text → Text
trim_dot [] = []
trim_dot (x ∷ []) = if x == 46 then [] else x ∷ []
trim_dot (x ∷ y ∷ s) = x ∷ trim_dot (y ∷ s)

-- What follows the written response.
unfoldable pub remember : Codec → IpQueue → List Question → List Rr → IpQueue
remember c q [] answer = q
remember c q (question ∷ qs) [] = q
remember c q (question ∷ qs) (r ∷ rs) =
    if question.qtype == type_a || question.qtype == type_aaaa
    then push_domain q (addresses c (r ∷ rs)) (trim_dot question.name)
    else q

unfoldable pub handle_query :
    {E : Type 0} → Codec → (Bytes → Result E Bytes) → IpQueue → Msg → Reply × IpQueue
handle_query c resolve q r = elim (c.pack r) [
  | none ↦ (server_failure r, q)
  | some query ↦ elim (resolve query) [
    | fails e ↦ (server_failure r, q)
    | returns data_bytes ↦ elim (c.unpack data_bytes) [
      | none ↦ (server_failure r, q)
      | some resp ↦ (write_msg (record resp { id = r.id }), remember c q r.question resp.answer)
    ]
  ]
]
