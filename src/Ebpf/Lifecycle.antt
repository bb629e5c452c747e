-- ===== src/Ebpf/Lifecycle.antt =====
-- pkg/ebpf/manager.go: Start and Stop of the manager. Whether each step succeeds is an answer; the
-- state is what is open and what the manager holds.
use gecit_unofficial.Base.{
  ◌≡◌, Bool, true, false, not, ◌&&◌, Option, none, some, arith, if◌then◌else◌,
}

pub record Attached : Type 0 where
  pub objs : Bool
  pub link : Bool
  pub reader : Bool
  pub raw_socket : Bool
  -- the goroutine of readEvents
  pub reading : Bool

-- The fields that are not nil
pub record Holdings : Type 0 where
  pub has_objs : Bool
  pub has_link : Bool
  pub has_reader : Bool
  pub has_raw_sock : Bool
  pub has_cancel : Bool

pub record AttachAnswers : Type 0 where
  pub have_sock_ops : Bool
  pub have_setsockopt : Bool
  pub load_spec : Bool
  pub load_objs : Bool
  pub attach : Bool
  pub push_config_ok : Bool
  pub push_ports_ok : Bool
  pub push_ips_ok : Bool
  pub new_reader : Bool
  pub raw_socket : Bool

pub data AttachError : Type 0 where
  no_sock_ops : AttachError
  no_setsockopt : AttachError
  spec_error : AttachError
  objs_error : AttachError
  attach_error : AttachError
  push_error : AttachError
  reader_error : AttachError
  socket_error : AttachError

-- Stop; the fields of the reader and of the context stay.
unfoldable pub detach : Holdings → Attached → Holdings × Attached
detach m o = (
  record m { has_raw_sock = false; has_link = false; has_objs = false },
  record {
    reading = if m.has_reader then false else o.reading;
    reader = if m.has_reader then false else o.reader;
    raw_socket = if m.has_raw_sock then false else o.raw_socket;
    link = if m.has_link then false else o.link;
    objs = if m.has_objs then false else o.objs;
  },
)

abbrev pub AttachResult : Type 0
AttachResult = (Holdings × Attached) × Option AttachError

-- From the pushes on
unfoldable pub attach_rest : AttachAnswers → Holdings → Attached → AttachResult
attach_rest ans m o =
    let m1 = record m { has_reader = true } in
    let o1 = record o { reader = true } in
    let m2 = record m1 { has_raw_sock = true; has_cancel = true } in
    let o2 = record o1 { raw_socket = true; reading = true } in
    if not ((ans.push_config_ok && ans.push_ports_ok) && ans.push_ips_ok)
    then (detach m o, some push_error)
    else if not ans.new_reader
    then (detach m o, some reader_error)
    else if not ans.raw_socket
    then (detach m1 o1, some socket_error)
    else ((m2, o2), none)

unfoldable pub attach : AttachAnswers → Holdings → Attached → AttachResult
attach ans m o =
    let m1 = record m { has_objs = true } in
    let o1 = record o { objs = true } in
    if not ans.have_sock_ops
    then ((m, o), some no_sock_ops)
    else if not ans.have_setsockopt
    then ((m, o), some no_setsockopt)
    else if not ans.load_spec
    then ((m, o), some spec_error)
    else if not ans.load_objs
    then ((m, o), some objs_error)
    else if not ans.attach
    then ((record m1 { has_objs = false }, record o1 { objs = false }), some attach_error)
    else attach_rest ans (record m1 { has_link = true }) (record o1 { link = true })

-- Nothing is open
abbrev pub IsDetached : Attached → Type 0
IsDetached o =
    (o.objs ≡ false)
    × (o.link ≡ false)
    × (o.reader ≡ false)
    × (o.raw_socket ≡ false)
    × (o.reading ≡ false)

-- From a system where nothing is open: a Start that fails leaves nothing open, wherever it fails.
pub attach_failed-IsDetached :
    (ans : AttachAnswers) (m : Holdings) (o : Attached) (err : AttachError)
    → IsDetached o
    → (attach ans m o).1 ≡ some err
    → IsDetached (attach ans m o).0.1
unfolding attach attach_rest detach
attach_failed-IsDetached ans m o err idle h = ground (arith, idle, h)

-- Stop after a Start, whatever its outcome, leaves the program detached and nothing open.
pub detach-attach-IsDetached :
    (ans : AttachAnswers) (m : Holdings) (o : Attached)
    → IsDetached o
    → IsDetached (detach (attach ans m o).0.0 (attach ans m o).0.1).1
unfolding attach attach_rest detach
detach-attach-IsDetached ans m o idle = ground (arith, idle)
