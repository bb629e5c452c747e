-- ===== src/Router/Sane.antt =====
-- What Normalized and Validate promise.
use gecit_unofficial.Base.{
  ℕ, ◌≤◌, ◌<◌, ◌≡◌, refl, ◌⊎◌, inl, inr, true, false, List, [], ◌∷◌, Bool-cases, Text, is_empty,
  trim_space, trim_space_idem, length, All, ap, Bool, ◌||◌, Option, none, some, arith, ◌==◌,
  if◌then◌else◌, is_space, trim_left, trim_right,
}
use gecit_unofficial.Base.Int.{pos, ℤ, negsuc, is_zero, ltb_ℤ, gtb_ℤ}
use gecit_unofficial.Router.Config.{
  Config, queue_backend_nf_queue, queue_backend_dry_run, trim_strings, or_default, normalized,
  table_name_matches, default_config, ConfigError, validate_ports, first_error, check, is_letter,
  is_word, all_word,
}

-- No port of the list is 0.
abbrev pub NoZero : List ℕ → Type 0
NoZero = All (λ p. 0 < p)

abbrev pub IsLetter : ℕ → Type 0
IsLetter c = ((65 ≤ c) × (c ≤ 90)) ⊎ ((97 ≤ c) × (c ≤ 122))

abbrev pub IsWord : ℕ → Type 0
IsWord c = IsLetter c ⊎ ((48 ≤ c) × (c ≤ 57)) ⊎ (c ≡ 95)

-- A letter and then at most 31 letters, digits and underscores.
abbrev pub IsTableName : Text → Type 0
IsTableName [] = ⊥
IsTableName (c ∷ s) = IsLetter c × (length s ≤ 31) × All IsWord s

checked_words→All : (s : Text) → all_word s ≡ true → All IsWord s
unfolding all_word is_word is_letter
checked_words→All [] h = tt
checked_words→All (c ∷ s) h = (ground arith, checked_words→All s (ground arith))

All→all_word : (s : Text) → All IsWord s → all_word s ≡ true
unfolding all_word is_word is_letter
All→all_word [] h = refl
All→all_word (c ∷ s) h = ground (arith, All→all_word s h.1)

pub matches→IsTableName : (s : Text) → table_name_matches s ≡ true → IsTableName s
unfolding table_name_matches is_letter
matches→IsTableName [] h = cc
matches→IsTableName (c ∷ s) h = (ground arith, ground arith, checked_words→All s (ground arith))

pub IsTableName→matches : (s : Text) → IsTableName s → table_name_matches s ≡ true
unfolding table_name_matches is_letter
IsTableName→matches [] h = absurd h
IsTableName→matches (c ∷ s) h = ground (arith, All→all_word s h.2)

-- A configuration that the engine may run with.
pub record IsSane (c : Config) : Type 0 where
  pub backend_known : (c.backend ≡ queue_backend_nf_queue) ⊎ (c.backend ≡ queue_backend_dry_run)
  pub wan_named : is_empty c.wan_interface ≡ false
  pub table_safe : IsTableName c.table_name
  pub tcp_ports : NoZero c.tcp_ports
  pub tcp_some : 0 < length c.tcp_ports
  pub udp_ports : c.enable_quic ≡ true → NoZero c.udp_ports
  pub ttl : (n : ℕ) × (c.fake_ttl ≡ pos n) × (1 ≤ n) × (n ≤ 255)
  pub flows : (n : ℕ) × (c.max_flows ≡ pos n) × (1 ≤ n)

-- Normalizing twice is normalizing once.
trim_strings_idem : (vs : List Text) → trim_strings (trim_strings vs) ≡ trim_strings vs
unfolding trim_strings
trim_strings_idem [] = refl
trim_strings_idem (v ∷ vs) = elim (Bool-cases (is_empty (trim_space v))) [
  | inl e ↦ rw (e, trim_strings) (trim_strings_idem vs)
  | inr e ↦ rw (e, trim_strings) (rw (trim_space_idem v, e, trim_strings_idem vs) refl)
]

or_default_idem {ℓ} :
    {A : Type ℓ} (xs def : List A) → or_default (or_default xs def) def ≡ or_default xs def
or_default_idem [] [] = refl
or_default_idem [] (d ∷ def) = refl
or_default_idem (x ∷ xs) def = refl

or_default_nil {ℓ} : {A : Type ℓ} (xs : List A) → or_default xs [] ≡ xs
or_default_nil [] = refl
or_default_nil (x ∷ xs) = refl

wan_idem :
    (w : Text)
    → trim_space (or_default (trim_space (or_default w [])) []) ≡ trim_space (or_default w [])
wan_idem w = simp (or_default_nil, trim_space_idem)

targets_keep :
    (l : List Text)
    → trim_strings l ≡ l
    → or_default
        (trim_strings (or_default l default_config.probe_targets))
        default_config.probe_targets
      ≡ or_default l default_config.probe_targets
unfolding trim_strings trim_space trim_left trim_right is_space
targets_keep [] h = refl
targets_keep (t ∷ ts) h = ap (λ l. or_default l default_config.probe_targets) h

number_idem :
    (n d : ℕ)
    → (if (if n == 0 then d else n) == 0 then d else if n == 0 then d else n)
      ≡ (if n == 0 then d else n)
number_idem n d = ground arith

int_idem :
    (x d : ℤ)
    → (if is_zero (if is_zero x then d else x) then d else if is_zero x then d else x)
      ≡ (if is_zero x then d else x)
int_idem (pos n) (pos d) = ground arith
int_idem (pos n) (negsuc d) = ground arith
int_idem (negsuc n) d = refl

-- Normalizing a configuration twice is normalizing it once.
pub normalized_idem : (c : Config) → normalized (normalized c) ≡ normalized c
unfolding normalized
normalized_idem c = λ i. record {
  wan_interface = wan_idem c.wan_interface i;
  lan_interfaces = trim_strings_idem c.lan_interfaces i;
  table_name = or_default_idem c.table_name default_config.table_name i;
  backend = or_default_idem c.backend default_config.backend i;
  queue_num = number_idem c.queue_num default_config.queue_num i;
  packet_mark = number_idem c.packet_mark default_config.packet_mark i;
  tcp_ports = or_default_idem c.tcp_ports default_config.tcp_ports i;
  udp_ports = or_default_idem c.udp_ports default_config.udp_ports i;
  fake_ttl = int_idem c.fake_ttl default_config.fake_ttl i;
  max_flows = int_idem c.max_flows default_config.max_flows i;
  probe_targets = targets_keep (trim_strings c.probe_targets) (trim_strings_idem c.probe_targets) i;
  auto_hostlist_path = c.auto_hostlist_path;
  enable_quic = c.enable_quic;
  enable_post_nat = c.enable_post_nat;
}

-- The port check finds no error exactly where no port is 0.
pub validate_ports-none :
    (proto : Text) (ports : List ℕ) → validate_ports proto ports ≡ none → NoZero ports
unfolding validate_ports
validate_ports-none proto [] h = tt
validate_ports-none proto (p ∷ ps) h = ground (arith, validate_ports-none proto ps)

pub NoZero-validate_ports :
    (proto : Text) (ports : List ℕ) → NoZero ports → validate_ports proto ports ≡ none
unfolding validate_ports
NoZero-validate_ports proto [] h = refl
NoZero-validate_ports proto (p ∷ ps) h = ground (arith, NoZero-validate_ports proto ps h.1)

pub ttl_range :
    (x : ℤ) → (ltb_ℤ x 1 || gtb_ℤ x 255) ≡ false → (n : ℕ) × (x ≡ pos n) × (1 ≤ n) × (n ≤ 255)
ttl_range (pos n) h = (n, refl, ground arith, ground arith)
ttl_range (negsuc n) h = cc

pub flows_range : (x : ℤ) → ltb_ℤ x 1 ≡ false → (n : ℕ) × (x ≡ pos n) × (1 ≤ n)
flows_range (pos n) h = (n, refl, ground arith)
flows_range (negsuc n) h = cc

pub some_ports : (ports def : List ℕ) → 0 < length def → 0 < length (or_default ports def)
some_ports [] def h = h
some_ports (p ∷ ps) def h = omega arith

-- What each check of the chain says once the whole chain finds nothing.
pub split_error : (a b : Option ConfigError) → first_error a b ≡ none → (a ≡ none) × (b ≡ none)
split_error none b h = (refl, h)
split_error (some e) b h = cc

pub check-none : (failed : Bool) (e : ConfigError) → check failed e ≡ none → failed ≡ false
check-none failed e h = ground arith
