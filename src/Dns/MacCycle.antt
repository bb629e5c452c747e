-- ===== src/Dns/MacCycle.antt =====
-- SetSystemDNS and RestoreSystemDNS of macOS together, and after a crash.
use gecit_unofficial.Base.{
  ◌≡◌, refl, ap, ◌∙◌, List, [], ◌∷◌, ◌++◌, All, pieces, drop_empty, fields, IsWordText, fields_word,
  Text, is_space, inl, inr, true, false, Option, none, some, arith, Bool-cases, split, IsText,
  fields-trim_space, codes, text_eq, is_empty, trim_space, sym, length, length-append, text_eq_iff,
  fields-append,
}
use gecit_unofficial.Dns.Darwin.{
  set_servers, remove_breadcrumb, hup_responder, Saved, network_service_for_interface,
  route_interface, or_wi_fi, detect_active_service, service_or, none_set, recovery, breadcrumb,
  MacAnswers, service_of, set_mac_dns, restore_mac_dns,
}
use mathlib.Core.List.{append-nil}

-- The servers, one to a line, as networksetup prints them
abbrev pub server_lines : List Text → Text
server_lines [] = []
server_lines (s ∷ servers) = s ++ 10 ∷ server_lines servers

fields-server_lines :
    (servers : List Text) → All IsWordText servers → fields (server_lines servers) ≡ servers
unfolding fields pieces drop_empty is_space
fields-server_lines [] h = refl
fields-server_lines (s ∷ servers) h =
    fields_word s 10 (server_lines servers) h.0 refl ∙ ap (◌∷◌ s) (fields-server_lines servers h.1)

or_wi_fi-IsText : (svc : Text) → IsText (or_wi_fi svc)
or_wi_fi-IsText [] = refl
or_wi_fi-IsText (c ∷ svc) = refl

detect_active_service-IsText :
    (route ports : Option Text) → IsText (detect_active_service route ports)
unfolding detect_active_service
detect_active_service-IsText none ports = refl
detect_active_service-IsText (some route) ports =
    or_wi_fi-IsText (network_service_for_interface (route_interface (split 10 route)) ports)

service_of-IsText : (given : List Text) (ans : MacAnswers) → IsText (service_of given ans)
unfolding service_of service_or
service_of-IsText [] ans = detect_active_service-IsText ans.route ans.hardware_ports
service_of-IsText (s ∷ given) ans =
    ground (arith, detect_active_service-IsText ans.route ans.hardware_ports)

empty_words : (t : Text) → is_empty t ≡ true → fields t ≡ []
unfolding fields pieces drop_empty
empty_words [] h = refl
empty_words (c ∷ t) h = absurd (ground (arith, h))

filled : (t : Text) (w : Text) (ws : List Text) → fields t ≡ w ∷ ws → IsText t
filled t w ws h = elim (Bool-cases (is_empty t)) [
  | inr e ↦ e
  | inl e ↦ absurd (ground (arith, h, empty_words t e))
]

-- Where networksetup lists one or more servers, each without white space and a line to itself,
-- and does not say that there aren't any: RestoreSystemDNS after SetSystemDNS sets exactly these
-- again, in their order, for the service that SetSystemDNS changed; then the resolver is resumed
-- and the breadcrumb removed.
pub restore_mac_dns-set :
    (given : List Text) (ans : MacAnswers) (saved : Saved) (s : Text) (servers : List Text)
    → All IsWordText (s ∷ servers)
    → ans.servers ≡ some (server_lines (s ∷ servers))
    → none_set (trim_space (server_lines (s ∷ servers))) ≡ false
    → restore_mac_dns [] (set_mac_dns given ans saved).1
      ≡ set_servers (service_of given ans) (s ∷ servers) ∷ hup_responder ∷ remove_breadcrumb ∷ []
unfolding restore_mac_dns set_mac_dns service_or
restore_mac_dns-set given ans saved s servers h out some_set =
    let text = trim_space (server_lines (s ∷ servers)) in
    let words : fields text ≡ s ∷ servers =
      fields-trim_space (server_lines (s ∷ servers)) ∙ fields-server_lines (s ∷ servers) h in
    let full : is_empty text ≡ false = filled text s servers words in
    let named : is_empty (service_of given ans) ≡ false = service_of-IsText given ans in
    ground (arith, out, some_set, words, full, named)

-- Where it has none, RestoreSystemDNS after SetSystemDNS empties its list again.
pub restore_mac_dns-set_none :
    (given : List Text) (ans : MacAnswers) (saved : Saved) (out : Text)
    → ans.servers ≡ some out
    → none_set (trim_space out) ≡ true
    → restore_mac_dns [] (set_mac_dns given ans saved).1
      ≡ set_servers (service_of given ans) (codes "empty" ∷ [])
        ∷ hup_responder
        ∷ remove_breadcrumb
        ∷ []
unfolding restore_mac_dns set_mac_dns service_or
restore_mac_dns-set_none given ans saved out read nothing =
    let named : is_empty (service_of given ans) ≡ false = service_of-IsText given ans in
    ground (arith, read, nothing, named)

-- The words of a breadcrumb
crumb_words :
    (text old : Text)
    → none_set text ≡ false
    → fields (breadcrumb text old) ≡ fields text ++ fields old
unfolding fields pieces drop_empty is_space
crumb_words text old some_set = rw some_set (
    fields-append (text ++ 10 ∷ old) 10 [] refl
    ∙ append-nil (fields (text ++ 10 ∷ old))
    ∙ fields-append text 10 old refl)

local_words : fields (codes "127.0.0.1") ≡ codes "127.0.0.1" ∷ []
unfolding fields pieces drop_empty is_space
local_words = refl

-- Where the breadcrumb holds one or more servers, each without white space, and the name of a
-- service with at least one word: the recovery of the next SetSystemDNS hands the words of the
-- name to networksetup behind the servers, even if these are 127.0.0.1 alone. It never sets just
-- the servers.
pub recovery-breadcrumb :
    (svc old : Text) (s w : Text) (servers ws : List Text)
    → All IsWordText (s ∷ servers)
    → none_set (trim_space (server_lines (s ∷ servers))) ≡ false
    → fields old ≡ w ∷ ws
    → recovery svc (some (breadcrumb (trim_space (server_lines (s ∷ servers))) old))
      ≡ set_servers svc ((s ∷ servers) ++ w ∷ ws) ∷ []
unfolding recovery
recovery-breadcrumb svc old s w servers ws h some_set named =
    let text = trim_space (server_lines (s ∷ servers)) in
    let crumb = breadcrumb text old in
    let words : fields (trim_space crumb) ≡ (s ∷ servers) ++ w ∷ ws =
      fields-trim_space crumb
      ∙ crumb_words text old some_set
      ∙ ap (λ k. k ++ fields old)
          (fields-trim_space (server_lines (s ∷ servers)) ∙ fields-server_lines (s ∷ servers) h)
      ∙ ap (◌++◌ (s ∷ servers)) named in
    let full : is_empty (trim_space crumb) ≡ false =
      filled (trim_space crumb) s (servers ++ w ∷ ws) words in
    let other : text_eq (trim_space crumb) (codes "127.0.0.1") ≡ false =
      elim (Bool-cases (text_eq (trim_space crumb) (codes "127.0.0.1"))) [
        | inr e ↦ e
        | inl e ↦
            let same = ap fields ((text_eq_iff (trim_space crumb) (codes "127.0.0.1")).0 e) in
            let one = ap length (sym words ∙ same ∙ local_words) in
            absurd (omega (arith, one, length-append servers (w ∷ ws)))
      ] in
    ground (arith, words, full, other)
