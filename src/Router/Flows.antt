-- ===== src/Router/Flows.antt =====
-- pkg/router/processor.go: the flow table. The map is a list of keys with the time each was marked
-- at; a key stands in it once. Times are nanoseconds; Go's `now.Sub(seenAt) > ttl` is false where
-- `now` is before `seenAt`, and so is the test here, since `-` stops at 0.
use gecit_unofficial.Base.{
  ℕ, ◌-◌, Bool, true, false, ◌||◌, List, [], ◌∷◌, ltb, leb, if◌then◌else◌, length, Text, text_eq,
}

pub record FlowTable : Type 0 where
  pub ttl : ℕ
  pub limit : ℕ
  pub entries : List (Text × ℕ)

pub new_flow_table : ℕ → ℕ → FlowTable
new_flow_table ttl limit = record { ttl = ttl; limit = limit; entries = [] }

-- for flowKey, seenAt := range t.entries { if ... { delete(t.entries, flowKey) } }
unfoldable pub purge : ℕ → ℕ → List (Text × ℕ) → List (Text × ℕ)
purge ttl now [] = []
purge ttl now ((k, seen_at) ∷ es) =
    if ltb ttl (now - seen_at) then purge ttl now es else (k, seen_at) ∷ purge ttl now es

-- _, exists := t.entries[key]
unfoldable pub exists_key : Text → List (Text × ℕ) → Bool
exists_key key [] = false
exists_key key ((k, seen_at) ∷ es) = text_eq k key || exists_key key es

unfoldable pub mark_once : FlowTable → Text → ℕ → FlowTable × Bool
mark_once t key now =
    let live = purge t.ttl now t.entries in
    if exists_key key live
    then (record t { entries = live }, false)
    else if leb t.limit (length live)
    then (record t { entries = live }, false)
    else (record t { entries = (key, now) ∷ live }, true)
