-- ===== src/Dns/ToolTests.antt =====
-- The theorems on the system DNS of macOS and Windows at concrete outputs of the tools.
use gecit_unofficial.Base.{
  ◌≡◌, refl, true, false, none, some, List, [], ◌∷◌, ◌++◌, ltb, All, split, join, pieces,
  drop_empty, fields, contains, IsWordText, codes, is_space, trim_left, trim_right, trim_space,
  has_prefix,
}
use gecit_unofficial.Dns.MacCycle.{server_lines, restore_mac_dns-set, recovery-breadcrumb}
use gecit_unofficial.Dns.Darwin.{
  set_servers, remove_breadcrumb, hup_responder, Saved, none_set, recovery, breadcrumb, MacAnswers,
  service_of, set_mac_dns, restore_mac_dns,
}
use gecit_unofficial.Dns.Windows.{
  WinCall, set_static, flush_dns, write_file, IsServer, first_server, server_in, get_current_dns,
  interface_in, detect_windows_interface, recover, crumb, WinAnswers, set_windows_dns,
  restore_windows_dns,
}
use gecit_unofficial.Dns.WinCycle.{file_after, restore_windows_dns-set, PutsBack}

abbrev mac : MacAnswers
mac = record {
  route = none;
  hardware_ports = none;
  crumb = none;
  servers = some (server_lines (codes "1.1.1.1" ∷ codes "8.8.8.8" ∷ []));
}

abbrev nothing_saved : Saved
nothing_saved = record { dns = []; service = [] }

two_servers : All IsWordText (codes "1.1.1.1" ∷ codes "8.8.8.8" ∷ [])
unfolding is_space
two_servers = (
  (refl, (refl, (refl, (refl, (refl, (refl, (refl, (refl, tt)))))))),
  ((refl, (refl, (refl, (refl, (refl, (refl, (refl, (refl, tt)))))))), tt),
)

not_none : none_set (trim_space (server_lines (codes "1.1.1.1" ∷ codes "8.8.8.8" ∷ []))) ≡ false
unfolding trim_space trim_left trim_right is_space contains has_prefix
not_none = refl

restore_mac_dns-set_example :
    restore_mac_dns [] (set_mac_dns (codes "Ethernet" ∷ []) mac nothing_saved).1
    ≡ set_servers (service_of (codes "Ethernet" ∷ []) mac) (codes "1.1.1.1" ∷ codes "8.8.8.8" ∷ [])
      ∷ hup_responder
      ∷ remove_breadcrumb
      ∷ []
restore_mac_dns-set_example =
    restore_mac_dns-set (codes "Ethernet" ∷ []) mac nothing_saved (codes "1.1.1.1")
      (codes "8.8.8.8" ∷ []) two_servers refl not_none

wi_fi_words : fields (codes "Wi-Fi") ≡ codes "Wi-Fi" ∷ []
unfolding fields pieces drop_empty is_space
wi_fi_words = refl

recovery-breadcrumb_example :
    recovery (codes "Wi-Fi") (
      some (
        breadcrumb
          (trim_space (server_lines (codes "1.1.1.1" ∷ codes "8.8.8.8" ∷ [])))
          (codes "Wi-Fi")))
    ≡ set_servers (codes "Wi-Fi") (codes "1.1.1.1" ∷ codes "8.8.8.8" ∷ codes "Wi-Fi" ∷ []) ∷ []
recovery-breadcrumb_example =
    recovery-breadcrumb (codes "Wi-Fi") (codes "Wi-Fi") (codes "1.1.1.1") (codes "Wi-Fi")
      (codes "8.8.8.8" ∷ []) [] two_servers not_none wi_fi_words

abbrev win : WinAnswers
win = record {
  interfaces = some (codes "Enabled Connected Dedicated Ethernet 2\r\n");
  file = none;
  dns_shown = some (codes "DNS servers: 1.1.1.1\r\n 8.8.8.8\r\n");
  set_ok = true;
}

abbrev is_number : IsServer
is_number word = elim word [ [] ↦ false | c ∷ rest ↦ ltb c 58 ]

abbrev win_calls : List WinCall
win_calls =
    write_file (crumb (codes "1.1.1.1") (codes "Ethernet 2"))
    ∷ set_static (codes "Ethernet 2") (codes "127.0.0.1")
    ∷ flush_dns
    ∷ []

win_set : set_windows_dns is_number win ≡ some (win_calls, codes "Ethernet 2")
unfolding set_windows_dns detect_windows_interface interface_in split contains has_prefix trim_space
    trim_left trim_right is_space fields pieces drop_empty join recover get_current_dns server_in
    first_server
win_set = refl

win_trimmed : trim_space (codes "Ethernet 2" ++ 10 ∷ []) ≡ codes "Ethernet 2"
unfolding trim_space trim_left trim_right is_space
win_trimmed = refl

win_shown : get_current_dns is_number win.dns_shown ≡ codes "1.1.1.1"
unfolding get_current_dns server_in first_server split trim_space trim_left trim_right is_space
    fields pieces drop_empty
win_shown = refl

restore_windows_dns-set_example :
    PutsBack
      (codes "Ethernet 2")
      (get_current_dns is_number win.dns_shown)
      (restore_windows_dns (file_after none win_calls) [] none)
restore_windows_dns-set_example =
    restore_windows_dns-set is_number win (codes "Ethernet 2") [] none win_calls win_set refl
      win_trimmed
