-- ===== src/Router/Once.antt =====
-- A flow is marked once in each stretch of the TTL, and the table keeps its limit.
use gecit_unofficial.Base.{
  ℕ, ◌+◌, ◌≤◌, ◌≡◌, refl, Bool, true, false, ◌&&◌, ◌||◌, List, [], ◌∷◌, arith, leb, length, Text,
  text_eq, ◌<◌, ◌∙◌, ◌↔◌, All, text_eq_refl, inl, inr, if◌then◌else◌, Bool-cases, text_eq_iff,
}
use gecit_unofficial.Router.Flows.{FlowTable, purge, exists_key, mark_once}

-- The table has at most `limit` entries.
abbrev pub IsBounded : FlowTable → Type 0
IsBounded t = length t.entries ≤ t.limit

purge-le : (ttl now : ℕ) (es : List (Text × ℕ)) → length (purge ttl now es) ≤ length es
unfolding purge
purge-le ttl now [] = omega arith
purge-le ttl now ((k, s) ∷ es) = ground (arith, purge-le ttl now es)

-- MarkOnce keeps the table within its limit.
pub mark_once-IsBounded :
    (t : FlowTable) (key : Text) (now : ℕ) → IsBounded t → IsBounded (mark_once t key now).0
unfolding mark_once
mark_once-IsBounded t key now b = ground (arith, purge-le t.ttl now t.entries)

-- Every key stands in the table once.
abbrev pub IsDistinct : List (Text × ℕ) → Type 0
IsDistinct [] = Unit
IsDistinct ((k, s) ∷ es) = (exists_key k es ≡ false) × IsDistinct es

exists-purge :
    (key : Text) (ttl now : ℕ) (es : List (Text × ℕ))
    → exists_key key es ≡ false
    → exists_key key (purge ttl now es) ≡ false
unfolding purge exists_key
exists-purge key ttl now [] h = refl
exists-purge key ttl now ((k, s) ∷ es) h = ground (arith, exists-purge key ttl now es)

purge-IsDistinct :
    (ttl now : ℕ) (es : List (Text × ℕ)) → IsDistinct es → IsDistinct (purge ttl now es)
unfolding purge
purge-IsDistinct ttl now [] d = tt
purge-IsDistinct ttl now ((k, s) ∷ es) d =
    ground (arith, exists-purge k ttl now es, purge-IsDistinct ttl now es d.1)

-- MarkOnce keeps the keys distinct, as a map does.
pub mark_once-IsDistinct :
    (t : FlowTable) (key : Text) (now : ℕ)
    → IsDistinct t.entries
    → IsDistinct (mark_once t key now).0.entries
unfolding mark_once
mark_once-IsDistinct t key now d = ground (arith, purge-IsDistinct t.ttl now t.entries d)

-- `key` was marked at `since` or later, by the table.
unfoldable pub holds_since : Text → ℕ → List (Text × ℕ) → Bool
holds_since key since [] = false
holds_since key since ((k, s) ∷ es) = (text_eq k key && leb since s) || holds_since key since es

purge-holds_since :
    (key : Text) (since ttl now : ℕ) (es : List (Text × ℕ))
    → now ≤ since + ttl
    → holds_since key since es ≡ true
    → holds_since key since (purge ttl now es) ≡ true
unfolding purge holds_since
purge-holds_since key since ttl now [] h e = cc
purge-holds_since key since ttl now ((k, s) ∷ es) h e =
    ground (arith, purge-holds_since key since ttl now es h)

holds_since-exists_key :
    (key : Text) (since : ℕ) (es : List (Text × ℕ))
    → holds_since key since es ≡ true
    → exists_key key es ≡ true
unfolding holds_since exists_key
holds_since-exists_key key since [] e = cc
holds_since-exists_key key since ((k, s) ∷ es) e =
    ground (arith, holds_since-exists_key key since es)

-- No call forgets a fresh mark.
pub mark_once-holds_since :
    (t : FlowTable) (key other : Text) (since now : ℕ)
    → now ≤ since + t.ttl
    → holds_since key since t.entries ≡ true
    → holds_since key since (mark_once t other now).0.entries ≡ true
unfolding mark_once holds_since
mark_once-holds_since t key other since now h e =
    ground (arith, purge-holds_since key since t.ttl now t.entries h e)

-- A call with the flow's own key is refused while its mark is fresh.
pub mark_once_refused :
    (t : FlowTable) (key : Text) (since now : ℕ)
    → now ≤ since + t.ttl
    → holds_since key since t.entries ≡ true
    → (mark_once t key now).1 ≡ false
unfolding mark_once
mark_once_refused t key since now h e = ground (
  arith,
  holds_since-exists_key key since (purge t.ttl now t.entries)
      (purge-holds_since key since t.ttl now t.entries h e),
)

pub mark_once-ttl : (t : FlowTable) (key : Text) (now : ℕ) → (mark_once t key now).0.ttl ≡ t.ttl
unfolding mark_once
mark_once-ttl t key now = ground arith

-- A true answer leaves a mark of that moment.
pub mark_once_marks :
    (t : FlowTable) (key : Text) (now : ℕ)
    → (mark_once t key now).1 ≡ true
    → holds_since key now (mark_once t key now).0.entries ≡ true
unfolding mark_once holds_since
mark_once_marks t key now h = ground (arith, text_eq_refl key)

-- The table after a sequence of calls, each a key with its time.
unfoldable pub run : FlowTable → List (Text × ℕ) → FlowTable
run t [] = t
run t ((key, now) ∷ calls) = run (mark_once t key now).0 calls

run-holds_since :
    (t : FlowTable) (key : Text) (since : ℕ) (calls : List (Text × ℕ))
    → All (λ c. c.1 ≤ since + t.ttl) calls
    → holds_since key since t.entries ≡ true
    → (holds_since key since (run t calls).entries ≡ true) × ((run t calls).ttl ≡ t.ttl)
unfolding run
run-holds_since t key since [] fresh e = (e, refl)
run-holds_since t key since ((other, now) ∷ calls) fresh e =
    let same = mark_once-ttl t other now in
    let (kept, ttl) =
      run-holds_since (mark_once t other now).0 key since calls (rw same fresh.1)
        (mark_once-holds_since t key other since now fresh.0 e) in
    (kept, ttl ∙ same)

-- Once a flow is marked, MarkOnce answers false for it up to a TTL later, whatever calls come in
-- between.
pub mark_once_then_refused :
    (t : FlowTable) (key : Text) (since now : ℕ) (calls : List (Text × ℕ))
    → (mark_once t key since).1 ≡ true
    → All (λ c. c.1 ≤ since + t.ttl) calls
    → now ≤ since + t.ttl
    → (mark_once (run (mark_once t key since).0 calls) key now).1 ≡ false
mark_once_then_refused t key since now calls marked fresh h =
    let same = mark_once-ttl t key since in
    let (kept, ttl) =
      run-holds_since (mark_once t key since).0 key since calls (rw same fresh)
        (mark_once_marks t key since marked) in
    mark_once_refused (run (mark_once t key since).0 calls) key since now (omega (arith, ttl, same))
      kept

-- A flow that is not in the table is marked exactly when the table has room after the purge.
pub mark_once_new :
    (t : FlowTable) (key : Text) (now : ℕ)
    → exists_key key (purge t.ttl now t.entries) ≡ false
    → ((mark_once t key now).1 ≡ true) ↔ (length (purge t.ttl now t.entries) < t.limit)
unfolding mark_once
mark_once_new t key now h = ground arith

-- No entry of the flow is younger than the TTL.
abbrev pub IsUnseen : FlowTable → Text → ℕ → Type 0
IsUnseen t key now = All (λ e. e.0 ≡ key → e.1 + t.ttl < now) t.entries

-- How many entries are not older than the TTL
unfoldable pub young : ℕ → ℕ → List (Text × ℕ) → ℕ
young ttl now [] = 0
young ttl now ((k, seen_at) ∷ es) = (if leb now (seen_at + ttl) then 1 else 0) + young ttl now es

length-purge : (ttl now : ℕ) (es : List (Text × ℕ)) → length (purge ttl now es) ≡ young ttl now es
unfolding purge young
length-purge ttl now [] = refl
length-purge ttl now ((k, s) ∷ es) = ground (arith, length-purge ttl now es)

unseen_absent :
    (ttl now : ℕ) (key : Text) (es : List (Text × ℕ))
    → All (λ e. e.0 ≡ key → e.1 + ttl < now) es
    → exists_key key (purge ttl now es) ≡ false
unfolding purge exists_key
unseen_absent ttl now key [] h = refl
unseen_absent ttl now key ((k, s) ∷ es) h = elim (Bool-cases (text_eq k key)) [
  | inl same ↦
      let old : s + ttl < now = h.0 ((text_eq_iff k key).0 same) in
      ground (arith, old, unseen_absent ttl now key es h.1)
  | inr other ↦ ground (arith, other, unseen_absent ttl now key es h.1)
]

absent_unseen :
    (ttl now : ℕ) (key : Text) (es : List (Text × ℕ))
    → exists_key key (purge ttl now es) ≡ false
    → All (λ e. e.0 ≡ key → e.1 + ttl < now) es
unfolding purge exists_key
absent_unseen ttl now key [] h = tt
absent_unseen ttl now key ((k, s) ∷ es) h = (
  λ same. ground (arith, (text_eq_iff k key).1 same, h),
  absent_unseen ttl now key es (ground (arith, h)),
)

-- MarkOnce takes a flow for new exactly where the table has no young entry of it and fewer young
-- entries than its limit.
pub mark_once_iff :
    (t : FlowTable) (key : Text) (now : ℕ)
    → ((mark_once t key now).1 ≡ true)
      ↔ (IsUnseen t key now × (young t.ttl now t.entries < t.limit))
unfolding mark_once
mark_once_iff t key now =
    let size = length-purge t.ttl now t.entries in
    (
      λ h. (absent_unseen t.ttl now key t.entries (ground (arith, h)), ground (arith, h, size)),
      λ u. ground (arith, size, u.1, unseen_absent t.ttl now key t.entries u.0),
    )
