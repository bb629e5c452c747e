-- ===== src/Dns/Tests.antt =====
-- The theorems at concrete queues, clients and files.
use gecit_unofficial.Base.{
  ◌≡◌, refl, inl, false, some, [], ◌∷◌, ◌++◌, if◌then◌else◌, replicate, Bytes, Result, returns,
  fails, Text, codes, text_eq, is_space, trim_left, trim_right, trim_space, has_prefix, split, join,
}
use gecit_unofficial.Dns.Restore.{kept_lines, other_lines}
use gecit_unofficial.Dns.Cycle.{restore_system_dns-set, restore_system_dns-set_twice}
use gecit_unofficial.Dns.Resolver.{DohClient, Exchange}
use gecit_unofficial.Dns.Fallback.{Fails}
use gecit_unofficial.Dns.System.{
  local_nameserver, file_of, set_system_dns, or_fallback, restore_system_dns,
}
use gecit_unofficial.Dns.Server.{
  IpQueue, queue_of, pop_domain, a_record, other_record, Question, Msg, Codec, write_msg, trim_dot,
  handle_query, aaaa_record,
}
use gecit_unofficial.Dns.Queue.{
  front, behind, pop_domain-front, handle_query-queue_of, answers_with,
}

abbrev ip : Text
ip = codes "1.2.3.4"

abbrev queue : IpQueue
queue = (ip, codes "a.org" ∷ codes "b.org" ∷ []) ∷ (codes "5.6.7.8", codes "c.org" ∷ []) ∷ []

pop_domain-front_example :
    ((pop_domain queue ip).0 ≡ front (queue_of queue ip))
    × (queue_of (pop_domain queue ip).1 ip ≡ behind (queue_of queue ip))
    × ((other : Text)
        → text_eq ip other ≡ false
        → queue_of (pop_domain queue ip).1 other ≡ queue_of queue other)
pop_domain-front_example = pop_domain-front queue ip

abbrev question : Question
question = record { name = codes "b.org."; qtype = 1 }

abbrev asked_msg : Msg
asked_msg = record { id = 7; question = question ∷ []; answer = [] }

abbrev answered : Msg
answered = record {
  id = 0;
  question = question ∷ [];
  answer = a_record (1 ∷ 2 ∷ 3 ∷ 4 ∷ []) ∷ other_record ∷ aaaa_record (1 ∷ 2 ∷ []) ∷ [];
}

abbrev codec : Codec
codec = record {
  pack = λ m. some (m.id ∷ []);
  unpack = λ b. some answered;
  address_text = λ b. codes "1.2.3.4";
}

abbrev upstream : Bytes → Result Text Bytes
upstream b = returns b

handle_query-queue_of_example :
    ((handle_query codec upstream queue asked_msg).0 ≡ write_msg (record answered { id = 7 }))
    × (queue_of (handle_query codec upstream queue asked_msg).1 ip
        ≡ queue_of queue ip
          ++ replicate (answers_with codec ip answered.answer) (trim_dot (codes "b.org.")))
handle_query-queue_of_example =
    handle_query-queue_of codec upstream queue asked_msg (7 ∷ []) (7 ∷ []) answered question [] ip
      refl refl refl refl (inl refl)

abbrev client : Text → DohClient
client u = record { upstream = u; name = u }

abbrev one_dead : Exchange Text
one_dead u query = if text_eq u (codes "x") then fails (codes "down") else returns query

dead : Fails one_dead (1 ∷ []) (client (codes "x"))
unfolding text_eq
dead = (codes "down", refl)

abbrev same_text : Text → Text
same_text u = u

abbrev resolv_conf : Text
resolv_conf = codes "nameserver 1.1.1.1\nsearch lan\n"

restore_system_dns-set_example :
    restore_system_dns (set_system_dns resolv_conf)
    ≡ file_of (or_fallback (kept_lines (split 10 resolv_conf)))
restore_system_dns-set_example = restore_system_dns-set resolv_conf

restore_system_dns-set_twice_example :
    restore_system_dns (set_system_dns (set_system_dns resolv_conf))
    ≡ file_of (local_nameserver ∷ other_lines (split 10 resolv_conf))
restore_system_dns-set_twice_example = restore_system_dns-set_twice resolv_conf

-- pkg/dns/system_linux_test.go: the restored file is the original.
restored_file : file_of (or_fallback (kept_lines (split 10 resolv_conf))) ≡ resolv_conf
unfolding kept_lines split join trim_space trim_left trim_right is_space has_prefix
restored_file = refl

-- After a second SetSystemDNS the original nameserver is gone.
lost_file :
    file_of (local_nameserver ∷ other_lines (split 10 resolv_conf))
    ≡ codes "nameserver 127.0.0.1\nsearch lan\n"
unfolding other_lines split join trim_space trim_left trim_right is_space has_prefix
lost_file = refl
