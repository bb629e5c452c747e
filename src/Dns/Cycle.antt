-- ===== src/Dns/Cycle.antt =====
-- The configuration after SetSystemDNS, after RestoreSystemDNS, and after two SetSystemDNS.
use gecit_unofficial.Base.{
  ◌≡◌, refl, ◌≢◌, inl, inr, Bool, true, not, ◌&&◌, ◌||◌, List, [], ◌∷◌, ◌++◌, arith, ◌==◌,
  Bool-cases, All, All-append, Text, codes, text_eq, is_empty, trim_left, trim_right, trim_space,
  has_prefix, ap, ◌∙◌, false, is_space, has_prefix-append, split,
}
use gecit_unofficial.Dns.Restore.{kept_lines, other_lines, saved_back, restored}
use gecit_unofficial.Dns.Lines.{IsLine, split-IsLine, split-file_of, trim_space-IsLine}
use gecit_unofficial.Dns.System.{
  marker, saved, local_nameserver, header_line, set_lines, file_of, set_system_dns, restore_lines,
  or_fallback, restore_system_dns, has_state_line, has_gecit_dns_state,
}

line_check : Text → Bool
line_check [] = true
line_check (c ∷ s) = not (c == 10) && line_check s

checked-IsLine : (s : Text) → line_check s ≡ true → IsLine s
unfolding line_check
checked-IsLine [] h = tt
checked-IsLine (c ∷ s) h =
    let rest : line_check s ≡ true = ground (arith, h) in
    ((λ e. ground (arith, h, e)), checked-IsLine s rest)

header-IsLine : IsLine header_line
unfolding line_check
header-IsLine = checked-IsLine header_line refl

local-IsLine : IsLine local_nameserver
unfolding line_check
local-IsLine = checked-IsLine local_nameserver refl

saved-IsLine : IsLine saved
unfolding line_check
saved-IsLine = checked-IsLine saved refl

set_lines-IsLine : (lines : List Text) → All IsLine lines → All IsLine (set_lines lines)
unfolding set_lines
set_lines-IsLine [] h = tt
set_lines-IsLine (line ∷ lines) h =
    let rest = set_lines-IsLine lines h.1 in
    let trimmed_line = trim_space-IsLine line h.0 in
    elim (Bool-cases (is_empty (trim_space line) || has_prefix marker (trim_space line))) [
      | inl gone ↦ rw gone rest
      | inr stays ↦ elim (Bool-cases (has_prefix (codes "nameserver") (trim_space line))) [
        | inl named ↦
            rw (stays, named)
              (All-append (λ c. c ≢ 10) saved (trim_space line) saved-IsLine trimmed_line, rest)
        | inr plain ↦ rw (stays, plain) (h.0, rest)
      ]
    ]

-- The lines of the file that SetSystemDNS writes.
set-split :
    (text : Text)
    → split 10 (set_system_dns text)
      ≡ (header_line ∷ local_nameserver ∷ set_lines (split 10 text)) ++ [] ∷ []
unfolding set_system_dns
set-split text =
    split-file_of header_line (local_nameserver ∷ set_lines (split 10 text)) header-IsLine
      (local-IsLine, set_lines-IsLine (split 10 text) (split-IsLine text))

blank_dropped : (restore_lines ([] ∷ []) ≡ []) × (kept_lines ([] ∷ []) ≡ [])
unfolding restore_lines kept_lines trim_space trim_left trim_right has_prefix text_eq
blank_dropped = (refl, refl)

restore_blank : (lines : List Text) → restore_lines (lines ++ [] ∷ []) ≡ restore_lines lines
unfolding restore_lines
restore_blank [] = blank_dropped.0
restore_blank (line ∷ lines) = ground (arith, restore_blank lines)

kept_blank : (lines : List Text) → kept_lines (lines ++ [] ∷ []) ≡ kept_lines lines
unfolding kept_lines
kept_blank [] = blank_dropped.1
kept_blank (line ∷ lines) = ground (arith, kept_blank lines)

-- The two lines that SetSystemDNS writes first.
restore_head :
    (lines : List Text)
    → restore_lines (header_line ∷ local_nameserver ∷ lines) ≡ restore_lines lines
unfolding restore_lines trim_space trim_left trim_right is_space has_prefix text_eq
restore_head lines = refl

kept_head :
    (lines : List Text)
    → kept_lines (header_line ∷ local_nameserver ∷ lines) ≡ local_nameserver ∷ kept_lines lines
unfolding kept_lines trim_space trim_left trim_right is_space has_prefix
kept_head lines = refl

state_head : (lines : List Text) → has_state_line (header_line ∷ lines) ≡ true
unfolding has_state_line trim_space trim_left trim_right is_space has_prefix
state_head lines = refl

-- After SetSystemDNS the file is known to be gecit's.
set-has_gecit_dns_state : (text : Text) → has_gecit_dns_state (set_system_dns text) ≡ true
unfolding has_gecit_dns_state
set-has_gecit_dns_state text =
    rw (set-split text) (state_head (local_nameserver ∷ set_lines (split 10 text) ++ [] ∷ []))

-- RestoreSystemDNS after SetSystemDNS gives the configuration back, less its blank lines and the
-- lines with the marker, with the nameservers' lines trimmed; where nothing is left it names
-- 8.8.8.8.
pub restore_system_dns-set :
    (text : Text)
    → restore_system_dns (set_system_dns text) ≡ file_of (or_fallback (kept_lines (split 10 text)))
unfolding restore_system_dns
restore_system_dns-set text = rw (set-has_gecit_dns_state text) (
    ap (λ ls. file_of (or_fallback ls))
      (ap restore_lines (set-split text)
        ∙ restore_head (set_lines (split 10 text) ++ [] ∷ [])
        ∙ restore_blank (set_lines (split 10 text))
        ∙ restored (split 10 text)))

marker-saved : (t : Text) → has_prefix marker (saved ++ t) ≡ true
marker-saved t = has_prefix-append marker (codes "-saved: " ++ t)

-- The saved nameservers are lost to a second SetSystemDNS.
kept_set : (lines : List Text) → kept_lines (set_lines lines) ≡ other_lines lines
unfolding kept_lines set_lines other_lines
kept_set [] = refl
kept_set (line ∷ lines) =
    elim (Bool-cases (is_empty (trim_space line) || has_prefix marker (trim_space line))) [
      | inl gone ↦ rw gone (kept_set lines)
      | inr stays ↦ elim (Bool-cases (has_prefix (codes "nameserver") (trim_space line))) [
        | inl named ↦
            let filled : is_empty (trim_space line) ≡ false = ground (arith, stays) in
            let (same, back) = saved_back line filled in
            let marked : has_prefix marker (trim_space (saved ++ trim_space line)) ≡ true =
              rw same (marker-saved (trim_space line)) in
            let dropped : (is_empty (trim_space (saved ++ trim_space line))
                  || has_prefix marker (trim_space (saved ++ trim_space line)))
                ≡ true =
              ground (arith, marked) in
            rw (stays, named) (rw dropped (kept_set lines))
        | inr plain ↦ rw (stays, plain) (rw (stays, plain, kept_set lines) refl)
      ]
    ]

-- SetSystemDNS twice (a start after a crash), then RestoreSystemDNS: none of the original
-- nameservers comes back; the file names 127.0.0.1 and keeps its other lines, less the blank and
-- the marked ones.
pub restore_system_dns-set_twice :
    (text : Text)
    → restore_system_dns (set_system_dns (set_system_dns text))
      ≡ file_of (local_nameserver ∷ other_lines (split 10 text))
restore_system_dns-set_twice text =
    restore_system_dns-set (set_system_dns text)
    ∙ ap (λ ls. file_of (or_fallback ls))
        (ap kept_lines (set-split text)
          ∙ kept_head (set_lines (split 10 text) ++ [] ∷ [])
          ∙ ap (◌∷◌ local_nameserver)
              (kept_blank (set_lines (split 10 text)) ∙ kept_set (split 10 text)))
