-- ===== src/Dns/WinCycle.antt =====
-- SetSystemDNS and RestoreSystemDNS of Windows together.
use gecit_unofficial.Base.{
  ◌≡◌, refl, ap, ◌∙◌, false, Option, some, [], ◌∷◌, ◌++◌, arith, ◌==◌, All, split_once, IsText,
  Text, trim_space, subst, inl, inr, List, Bool-cases, Option-cases, fields, IsSolid, IsWordText,
  fields-IsWordText, is_space, sym, Bool, true, none, if◌then◌else◌, split, trim_space-IsSolid,
  codes, ◌≢◌, ◌⊎◌, text_eq, text_eq_iff,
}
use gecit_unofficial.Dns.Fallback.{trimmed}
use gecit_unofficial.Dns.Windows.{
  flush_dns, remove_file, put_dns, crumb, restore_parts, restore_windows_dns, IsServer,
  first_server, server_in, WinCall, set_dhcp, set_static, write_file, get_current_dns,
  detect_windows_interface, recover, WinAnswers, set_windows_dns,
}
use mathlib.Core.List.{append_assoc}

-- No line ends in a text
abbrev pub IsOneLine : Text → Type 0
IsOneLine = All (λ c. (c == 10) ≡ false)

pub split_once_at : (s t : Text) → IsOneLine s → split_once 10 (s ++ 10 ∷ t) ≡ (s, t ∷ [])
unfolding split_once
split_once_at [] t h = refl
split_once_at (c ∷ s) t h = ground (arith, h.0, split_once_at s t h.1)

restore_windows_dns-crumb :
    (current iface known : Text) (interfaces : Option Text)
    → IsOneLine current
    → trim_space current ≡ current
    → IsText current
    → IsText iface
    → trim_space (iface ++ 10 ∷ []) ≡ iface
    → restore_windows_dns (some (crumb current iface)) known interfaces
      ≡ put_dns iface current ∷ flush_dns ∷ remove_file ∷ []
unfolding restore_windows_dns restore_parts
restore_windows_dns-crumb current iface known interfaces line trimmed full named solid =
    let parts : split_once 10 (crumb current iface) ≡ (current, (iface ++ 10 ∷ []) ∷ []) =
      ap (split_once 10) (append_assoc current (10 ∷ iface) (10 ∷ []))
      ∙ split_once_at current (iface ++ 10 ∷ []) line in
    rw parts (rw (trimmed, solid) (rw (full, named) refl))

pub IsSolid-IsOneLine : (s : Text) → IsSolid s → IsOneLine s
unfolding is_space
IsSolid-IsOneLine [] h = tt
IsSolid-IsOneLine (c ∷ s) h = (ground (arith, h.0), IsSolid-IsOneLine s h.1)

first_server-IsWordText :
    (is_server : IsServer) (words : List Text) (w : Text)
    → All IsWordText words
    → first_server is_server words ≡ some w
    → IsWordText w
unfolding first_server
first_server-IsWordText is_server [] w h e = absurd (ground (arith, e))
first_server-IsWordText is_server (p ∷ words) w h e = elim (Bool-cases (is_server p)) [
  | inl found ↦ let same : p ≡ w = ground (arith, e, found) in subst IsWordText same h.0
  | inr other ↦ first_server-IsWordText is_server words w h.1 (ground (arith, e, other))
]

server_in-IsWordText :
    (is_server : IsServer) (lines : List Text) → IsWordText (server_in is_server lines)
unfolding server_in is_space
server_in-IsWordText is_server [] = (refl, (refl, (refl, (refl, (refl, tt)))))
server_in-IsWordText is_server (line ∷ lines) =
    elim (Option-cases (first_server is_server (fields (trim_space line)))) [
      | inl nothing ↦
          let same : server_in is_server (line ∷ lines) ≡ server_in is_server lines =
            ground (arith, nothing) in
          subst IsWordText (sym same) (server_in-IsWordText is_server lines)
      | inr (w, found) ↦
          let same : server_in is_server (line ∷ lines) ≡ w = ground (arith, found) in
          subst IsWordText (sym same) (
            first_server-IsWordText is_server (fields (trim_space line)) w
              (fields-IsWordText (trim_space line)) found)
    ]

get_current_dns-IsWordText :
    (is_server : IsServer) (out : Option Text) → IsWordText (get_current_dns is_server out)
unfolding get_current_dns is_space
get_current_dns-IsWordText is_server none = (refl, (refl, (refl, (refl, (refl, tt)))))
get_current_dns-IsWordText is_server (some out) = server_in-IsWordText is_server (split 10 out)

-- The breadcrumb file after some calls
abbrev pub file_after : Option Text → List WinCall → Option Text
file_after file [] = file
file_after file (write_file text ∷ calls) = file_after (some text) calls
file_after file (remove_file ∷ calls) = file_after none calls
file_after file (call ∷ calls) = file_after file calls

file_after-last :
    (file : Option Text) (calls : List WinCall) (text iface : Text) (flushed : Bool)
    → file_after file (
        calls
        ++ write_file text
          ∷ set_static iface (codes "127.0.0.1")
          ∷ (if flushed then flush_dns ∷ [] else []))
      ≡ some text
file_after-last file [] text iface true = refl
file_after-last file [] text iface false = refl
file_after-last file (write_file t ∷ calls) text iface flushed =
    file_after-last (some t) calls text iface flushed
file_after-last file (remove_file ∷ calls) text iface flushed =
    file_after-last none calls text iface flushed
file_after-last file (set_dhcp i ∷ calls) text iface flushed =
    file_after-last file calls text iface flushed
file_after-last file (set_static i t ∷ calls) text iface flushed =
    file_after-last file calls text iface flushed
file_after-last file (flush_dns ∷ calls) text iface flushed =
    file_after-last file calls text iface flushed

restored :
    (is_server : IsServer) (ans : WinAnswers) (iface known : Text) (later : Option Text)
    (calls : List WinCall)
    → set_windows_dns is_server ans ≡ some (calls, iface)
    → IsText iface
    → trim_space (iface ++ 10 ∷ []) ≡ iface
    → restore_windows_dns (file_after ans.file calls) known later
      ≡ put_dns iface (get_current_dns is_server ans.dns_shown) ∷ flush_dns ∷ remove_file ∷ []
unfolding set_windows_dns
restored is_server ans iface known later calls h named solid =
    let current = get_current_dns is_server ans.dns_shown in
    let word = get_current_dns-IsWordText is_server ans.dns_shown in
    elim (Option-cases (detect_windows_interface ans.interfaces)) [
      | inl failed ↦ absurd (ground (arith, h, failed))
      | inr (found, there) ↦
          let run : List WinCall × Text = (
            recover ans.file
                ++ write_file (crumb current found)
                  ∷ set_static found (codes "127.0.0.1")
                  ∷ (if ans.set_ok then flush_dns ∷ [] else []),
            found,
          ) in
          let made : run ≡ (calls, iface) = ground (arith, h, there) in
          let left : file_after ans.file calls ≡ some (crumb current iface) =
            ap (λ k. file_after ans.file k.0) (sym made)
            ∙ file_after-last ans.file (recover ans.file) (crumb current found) found ans.set_ok
            ∙ ap (λ k. some (crumb current k.1)) made in
          ap (λ k. restore_windows_dns k known later) left
          ∙ restore_windows_dns-crumb current iface known later (IsSolid-IsOneLine current word.1)
              (trim_space-IsSolid current word.1) word.0 named solid
    ]

-- The calls that put an interface back to what was found on it: DHCP, or one server.
abbrev pub PutsBack : Text → Text → List WinCall → Type 0
PutsBack iface found calls =
    ((found ≡ codes "dhcp") × (calls ≡ set_dhcp iface ∷ flush_dns ∷ remove_file ∷ []))
    ⊎ ((found ≢ codes "dhcp") × (calls ≡ set_static iface found ∷ flush_dns ∷ remove_file ∷ []))

put_dns-PutsBack :
    (iface found : Text) → PutsBack iface found (put_dns iface found ∷ flush_dns ∷ remove_file ∷ [])
put_dns-PutsBack iface found = elim (Bool-cases (text_eq found (codes "dhcp"))) [
  | inl same ↦ inl ((text_eq_iff found (codes "dhcp")).0 same, rw same refl)
  | inr other ↦
      inr (
        (λ e. absurd (ground (arith, other, (text_eq_iff found (codes "dhcp")).1 e))),
        rw other refl,
      )
]

-- RestoreSystemDNS after SetSystemDNS got to its calls, even in another run of the program: from
-- the file that SetSystemDNS leaves, and for the interface that was changed, it sets DHCP where
-- getCurrentDNS had found DHCP and the server that getCurrentDNS had found otherwise, and nothing
-- else; then it flushes and removes the file. The interface's name is not empty and has no white
-- space at its ends.
pub restore_windows_dns-set :
    (is_server : IsServer) (ans : WinAnswers) (iface known : Text) (later : Option Text)
    (calls : List WinCall)
    → set_windows_dns is_server ans ≡ some (calls, iface)
    → IsText iface
    → trim_space (iface ++ 10 ∷ []) ≡ iface
    → PutsBack iface
        (get_current_dns is_server ans.dns_shown)
        (restore_windows_dns (file_after ans.file calls) known later)
restore_windows_dns-set is_server ans iface known later calls h named solid =
    rw (restored is_server ans iface known later calls h named solid)
      (put_dns-PutsBack iface (get_current_dns is_server ans.dns_shown))
