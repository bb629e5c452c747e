-- ===== src/Dns/Restore.antt =====
-- SetSystemDNS and RestoreSystemDNS together.
use gecit_unofficial.Base.{
  ◌≡◌, refl, inl, inr, false, ◌||◌, List, [], ◌∷◌, ◌++◌, arith, if◌then◌else◌, Bool-cases, Text,
  codes, text_eq, text_eq_iff, is_empty, trim_space, has_prefix, trim_prefix, has_prefix-append,
  true, is_space, drop_prefix-append,
}
use gecit_unofficial.Dns.System.{marker, saved, local_nameserver, set_lines, restore_lines}
use gecit_unofficial.Dns.Lines.{trim_space_behind}

-- What is left of a configuration: lines that are blank or begin with the marker are gone, and a
-- nameserver's line is trimmed.
unfoldable pub kept_lines : List Text → List Text
kept_lines [] = []
kept_lines (line ∷ lines) =
    if is_empty (trim_space line) || has_prefix marker (trim_space line)
    then kept_lines lines
    else if has_prefix (codes "nameserver") (trim_space line)
    then trim_space line ∷ kept_lines lines
    else line ∷ kept_lines lines

-- What is left besides the nameservers.
unfoldable pub other_lines : List Text → List Text
other_lines [] = []
other_lines (line ∷ lines) =
    if is_empty (trim_space line) || has_prefix marker (trim_space line)
    then other_lines lines
    else if has_prefix (codes "nameserver") (trim_space line)
    then other_lines lines
    else line ∷ other_lines lines

has_prefix_shorter : (p q s : Text) → has_prefix p s ≡ false → has_prefix (p ++ q) s ≡ false
unfolding has_prefix
has_prefix_shorter [] q s h = cc
has_prefix_shorter (c ∷ p) q [] h = refl
has_prefix_shorter (c ∷ p) q (d ∷ s) h = ground (arith, h, has_prefix_shorter p q s)

not_saved : (t : Text) → has_prefix marker t ≡ false → has_prefix saved t ≡ false
not_saved t h = has_prefix_shorter marker (codes "-saved: ") t h

not_local :
    (t : Text) → has_prefix (codes "nameserver") t ≡ false → text_eq t local_nameserver ≡ false
not_local t h = elim (Bool-cases (text_eq t local_nameserver)) [
  | inr e ↦ e
  | inl e ↦
      let same : t ≡ local_nameserver = (text_eq_iff t local_nameserver).0 e in
      absurd
        (ground (arith, rw same at h, has_prefix-append (codes "nameserver") (codes " 127.0.0.1")))
]

-- A saved nameserver comes back.
pub saved_back :
    (line : Text)
    → is_empty (trim_space line) ≡ false
    → (trim_space (saved ++ trim_space line) ≡ saved ++ trim_space line)
      × (trim_prefix saved (trim_space (saved ++ trim_space line)) ≡ trim_space line)
unfolding trim_prefix is_space
saved_back line filled =
    let same : trim_space (saved ++ trim_space line) ≡ saved ++ trim_space line =
      trim_space_behind 35 (codes " gecit-saved: ") line refl filled in
    let found = has_prefix-append saved (trim_space line) in
    (same, rw (same, found) (drop_prefix-append saved (trim_space line)))

-- The two loops, one after the other.
pub restored : (lines : List Text) → restore_lines (set_lines lines) ≡ kept_lines lines
unfolding restore_lines set_lines kept_lines
restored [] = refl
restored (line ∷ lines) =
    elim (Bool-cases (is_empty (trim_space line) || has_prefix marker (trim_space line))) [
      | inl gone ↦ rw gone (restored lines)
      | inr stays ↦ elim (Bool-cases (has_prefix (codes "nameserver") (trim_space line))) [
        | inl named ↦
            let filled : is_empty (trim_space line) ≡ false = ground (arith, stays) in
            let (same, back) = saved_back line filled in
            let found : has_prefix saved (trim_space (saved ++ trim_space line)) ≡ true =
              rw same (has_prefix-append saved (trim_space line)) in
            rw (stays, named) (rw found (rw (back, restored lines) refl))
        | inr plain ↦
            let filled : is_empty (trim_space line) ≡ false = ground (arith, stays) in
            let unmarked : has_prefix marker (trim_space line) ≡ false = ground (arith, stays) in
            rw (stays, plain)
              (rw
                (
                  not_saved (trim_space line) unmarked,
                  unmarked,
                  not_local (trim_space line) plain,
                  filled,
                  restored lines,
                )
                refl)
      ]
    ]
