-- ===== src/App/CleanupCases.antt =====
-- What the cleanup command makes of the breadcrumb of a run that was killed.
use gecit_unofficial.Base.{
  ◌≡◌, refl, false, some, [], ◌∷◌, ◌++◌, split_once, contains, IsText, IsWordText, fields_last,
  trim_space-IsSolid, Text, codes, text_eq, trim_space, ap, ◌∙◌,
}
use gecit_unofficial.Dns.Darwin.{set_servers, remove_breadcrumb, breadcrumb}
use gecit_unofficial.Dns.Fallback.{trimmed}
use gecit_unofficial.Dns.WinCycle.{split_once_at, IsSolid-IsOneLine, IsOneLine}
use gecit_unofficial.App.Cleanup.{servers_of, mac_breadcrumb_calls, second_line}
use mathlib.Core.List.{append_assoc}

-- A breadcrumb of a single server: the cleanup sets that server again for the service that is named
-- more it.
pub mac_cleanup-breadcrumb :
    (s svc : Text)
    → IsWordText s
    → IsOneLine svc
    → IsText svc
    → trim_space svc ≡ svc
    → contains s (codes "aren't any") ≡ false
    → text_eq s (codes "empty") ≡ false
    → mac_breadcrumb_calls (some (breadcrumb s svc))
      ≡ set_servers svc (s ∷ []) ∷ remove_breadcrumb ∷ []
unfolding mac_breadcrumb_calls servers_of
mac_cleanup-breadcrumb s svc word line full trimmed some_set filled =
    let lines : split_once 10 (breadcrumb s svc) ≡ (s, (svc ++ 10 ∷ []) ∷ []) = rw some_set (
      ap (split_once 10) (append_assoc s (10 ∷ svc) (10 ∷ []))
      ∙ split_once_at s (svc ++ 10 ∷ []) (IsSolid-IsOneLine s word.1)) in
    let same_s = trim_space-IsSolid s word.1 in
    let second : split_once 10 (svc ++ 10 ∷ []) ≡ (svc, [] ∷ []) = split_once_at svc [] line in
    rw lines (
      rw (second_line, second, same_s)
        (rw (word.0, filled, some_set, fields_last s word) (rw trimmed (rw full refl))))

-- A breadcrumb of two servers or more, which stand on lines of their own: the cleanup takes the
-- second server for the service's name, and sets the first server alone for it.
pub mac_cleanup_two :
    (s t more : Text)
    → IsWordText s
    → IsWordText t
    → contains s (codes "aren't any") ≡ false
    → text_eq s (codes "empty") ≡ false
    → mac_breadcrumb_calls (some (s ++ 10 ∷ (t ++ 10 ∷ more)))
      ≡ set_servers t (s ∷ []) ∷ remove_breadcrumb ∷ []
unfolding mac_breadcrumb_calls servers_of
mac_cleanup_two s t more word other some_set filled =
    let first : split_once 10 (s ++ 10 ∷ (t ++ 10 ∷ more)) ≡ (s, (t ++ 10 ∷ more) ∷ []) =
      split_once_at s (t ++ 10 ∷ more) (IsSolid-IsOneLine s word.1) in
    let second : split_once 10 (t ++ 10 ∷ more) ≡ (t, more ∷ []) =
      split_once_at t more (IsSolid-IsOneLine t other.1) in
    let same_s = trim_space-IsSolid s word.1 in
    let same_t = trim_space-IsSolid t other.1 in
    rw first (
      rw (second_line, second, same_s)
        (rw (word.0, filled, some_set, fields_last s word) (rw same_t (rw other.0 refl))))
