-- ===== src/App/Lifecycle.antt =====
-- What a failed Start of the engines leaves behind, and what Stop leaves of a Start.
use gecit_unofficial.Base.{
  ◌≡◌, Bool, true, false, some, refl, subst, inl, inr, not, ◌&&◌, none, List, arith, Bool-cases,
  sym, ap, ◌↔◌, ◌||◌, if◌then◌else◌,
}
use gecit_unofficial.App.Engines.{
  Host, Answers, EngineError, tun_failed, EbpfEngine, ebpf_start, ebpf_start_manager, HaltAnswers,
  serve_failed, set_dns_failed, set_if, served, resolver_to, ebpf_started, TunEngine, tun_started,
  tun_start_manager, tun_start, ebpf_stop, tun_stop_error, tun_stop,
}
use gecit_unofficial.Ebpf.Lifecycle.{
  AttachAnswers, IsDetached, AttachError, AttachResult, attach, attach_failed-IsDetached,
  detach-attach-IsDetached,
}
use gecit_unofficial.Tun.Lifecycle.{
  IsClosed, is_late, is_of_stack, start_failed_leaves, manager_stop-start-IsClosed,
}
use gecit_unofficial.Tun.Manager.{
  Opened, TunAnswers, TunError, Attempt, manager_start, manager_stop,
}
use gecit_unofficial.Capture.Interfaces.{Interface}

-- No DNS server runs, and the system's DNS and resolver are as before gecit.
abbrev pub IsUntouched : Host → Type 0
IsUntouched h =
    (h.dns_server ≡ false) × (h.system_dns_set ≡ false) × (h.system_resolver_stopped ≡ false)

-- Every step that undoes something succeeds, and a failing SetSystemDNS has changed nothing.
abbrev pub Undoes : Answers → Type 0
Undoes ans = (ans.restore ≡ true) × (ans.end_server ≡ true) × (ans.half_set ≡ false)

-- What a failed Start of tunEngine leaves open: nothing before the manager's Start; behind it the
-- manager's context, from the monitors on both monitors, and the stack where it fails to start.
abbrev pub LeavesOpen : EngineError → Opened → Type 0
LeavesOpen (tun_failed err) o =
    (o.raw_socket ≡ false)
    × (o.tun_device ≡ false)
    × (o.context ≡ true)
    × (o.network_monitor ≡ is_late err)
    × (o.iface_monitor ≡ is_late err)
    × (o.stack ≡ is_of_stack err)
LeavesOpen err o = IsClosed o

ebpf_started_failed :
    (doh : Bool) (ans : Answers) (h : Host) (x : AttachResult) (r : EbpfEngine) (err : EngineError)
    → Undoes ans
    → h.system_resolver_stopped ≡ false
    → (doh ≡ false → IsUntouched h)
    → ((a : AttachError) → x.1 ≡ some a → IsDetached x.0.1)
    → ebpf_started doh ans h x ≡ (r, some err)
    → IsUntouched r.host × IsDetached r.attached
ebpf_started_failed doh ans h ((m, o), none) r err undo resolver quiet gone ran =
    absurd (ground (arith, ran))
ebpf_started_failed true ans h ((m, o), some a) r err undo resolver quiet gone ran =
    ground (arith, ran, undo, resolver, gone a refl)
ebpf_started_failed false ans h ((m, o), some a) r err undo resolver quiet gone ran =
    ground (arith, ran, quiet refl, gone a refl)

-- From a system in which gecit has nothing open and has changed nothing, where what Start undoes
-- succeeds and a SetSystemDNS that fails has changed nothing: a failed Start of ebpfEngine leaves
-- the system like that again, with the program detached and no reader, socket or goroutine.
pub ebpf_start_failed-IsUntouched :
    (doh : Bool) (ans : Answers) (steps : AttachAnswers) (e r : EbpfEngine) (err : EngineError)
    → Undoes ans
    → IsUntouched e.host
    → IsDetached e.attached
    → ebpf_start doh ans steps e ≡ (r, some err)
    → IsUntouched r.host × IsDetached r.attached
unfolding ebpf_start ebpf_start_manager
ebpf_start_failed-IsUntouched false ans steps e r err undo quiet idle ran =
    ebpf_started_failed false ans e.host (attach steps e.mgr e.attached) r err undo quiet.2
      (λ _. quiet) (λ a. attach_failed-IsDetached steps e.mgr e.attached a idle) ran
ebpf_start_failed-IsUntouched true ans steps e r err undo quiet idle ran =
    elim (Bool-cases ans.serve) [
      | inr mute ↦ ground (arith, ran, mute, quiet, idle)
      | inl serving ↦ elim (Bool-cases ans.set_dns) [
        | inr unset ↦ ground (arith, ran, serving, unset, undo, quiet, idle)
        | inl told ↦
            ebpf_started_failed true ans (set_if true (served e.host))
              (attach steps e.mgr e.attached) r err undo quiet.2 (λ f. absurd (ground (arith, f)))
              (λ a. attach_failed-IsDetached steps e.mgr e.attached a idle)
              (rw (serving, told) at ran)
      ]
    ]

tun_started_failed :
    (doh : Bool) (ans : Answers) (h : Host) (x : Attempt) (r : TunEngine) (err : EngineError)
    → Undoes ans
    → (doh ≡ false → IsUntouched h)
    → ((a : TunError) → x.2 ≡ some a → LeavesOpen (tun_failed a) x.1)
    → tun_started doh ans h x ≡ (r, some err)
    → IsUntouched r.host × LeavesOpen err r.opened
tun_started_failed doh ans h (m, o, none) r err undo quiet gone ran = absurd (ground (arith, ran))
tun_started_failed true ans h (m, o, some a) r err undo quiet gone ran =
    let same : tun_failed a ≡ err = ground (arith, ran) in
    subst (λ k. IsUntouched r.host × LeavesOpen k r.opened) same
      (ground (arith, ran, undo, gone a refl))
tun_started_failed false ans h (m, o, some a) r err undo quiet gone ran =
    let same : tun_failed a ≡ err = ground (arith, ran) in
    subst (λ k. IsUntouched r.host × LeavesOpen k r.opened) same
      (ground (arith, ran, quiet refl, gone a refl))

-- From a system in which gecit has nothing open but perhaps a capture, and has changed nothing,
-- where what Start undoes succeeds and a SetSystemDNS that fails has changed nothing: after a
-- failed Start of tunEngine no DNS server runs and the system's DNS and resolver are untouched.
-- Where the manager's Start has failed, its context is open, both monitors are if the error came
-- from behind initNetworking, and the stack is if the error is the stack's own, but not the raw
-- socket and not the TUN device; else nothing is open but what was.
pub tun_start_failed-LeavesOpen :
    (doh : Bool) (ans : Answers) (ifaces : List Interface) (steps : TunAnswers) (e r : TunEngine)
    (err : EngineError)
    → Undoes ans
    → IsUntouched e.host
    → IsClosed e.opened
    → tun_start doh ans ifaces steps e ≡ (r, some err)
    → IsUntouched r.host × LeavesOpen err r.opened
unfolding tun_start tun_start_manager
tun_start_failed-LeavesOpen false ans ifaces steps e r err undo quiet idle ran =
    tun_started_failed false ans e.host (manager_start ifaces steps e.mgr e.opened) r err undo
      (λ _. quiet) (λ a. start_failed_leaves ifaces steps e.mgr e.opened idle a) ran
tun_start_failed-LeavesOpen true ans ifaces steps e r err undo quiet idle ran =
    elim (Bool-cases ans.serve) [
      | inr mute ↦
          let same : serve_failed ≡ err = ground (arith, ran, mute) in
          subst (λ k. IsUntouched r.host × LeavesOpen k r.opened) same
            (ground (arith, ran, mute, quiet, idle))
      | inl serving ↦ elim (Bool-cases ans.set_dns) [
        | inr unset ↦
            let same : set_dns_failed ≡ err = ground (arith, ran, serving, unset) in
            subst (λ k. IsUntouched r.host × LeavesOpen k r.opened) same
              (ground (arith, ran, serving, unset, undo, quiet, idle))
        | inl told ↦
            tun_started_failed true ans (set_if true (served (resolver_to true e.host)))
              (manager_start ifaces steps e.mgr e.opened) r err undo
              (λ f. absurd (ground (arith, f)))
              (λ a. start_failed_leaves ifaces steps e.mgr e.opened idle a)
              (rw (serving, told) at ran)
      ]
    ]

-- What Stop leaves of what Start has set up: the DNS server where its Stop fails, and the system's
-- DNS where RestoreSystemDNS fails.
abbrev pub IsLeft : Bool → HaltAnswers → Host → Type 0
IsLeft doh end h =
    (h.dns_server ≡ doh && not end.server_ok)
    × (h.system_dns_set ≡ doh && not end.restore_ok)
    × (h.system_resolver_stopped ≡ false)

ebpf_started_at :
    (doh : Bool) (ans : Answers) (h : Host) (x : AttachResult) (r : EbpfEngine)
    → ebpf_started doh ans h x ≡ (r, none)
    → (r.host ≡ h) × (r.mgr ≡ x.0.0) × (r.attached ≡ x.0.1)
ebpf_started_at doh ans h ((m, o), none) r ran =
    let same : record { host = h; mgr = m; attached = o } ≡ r = ap (λ k. k.0) ran in
    (ap (λ k. k.host) (sym same), ap (λ k. k.mgr) (sym same), ap (λ k. k.attached) (sym same))
ebpf_started_at doh ans h ((m, o), some err) r ran = absurd (ground (arith, ran))

tun_started_at :
    (doh : Bool) (ans : Answers) (h : Host) (x : Attempt) (r : TunEngine)
    → tun_started doh ans h x ≡ (r, none)
    → (r.host ≡ h) × (r.mgr ≡ x.0) × (r.opened ≡ x.1)
tun_started_at doh ans h (m, o, none) r ran =
    let same : record { host = h; mgr = m; opened = o } ≡ r = ap (λ k. k.0) ran in
    (ap (λ k. k.host) (sym same), ap (λ k. k.mgr) (sym same), ap (λ k. k.opened) (sym same))
tun_started_at doh ans h (m, o, some err) r ran = absurd (ground (arith, ran))

-- The system with DoH on or off
abbrev with_doh : Bool → Host → Host
with_doh doh h = if doh then set_if true (served h) else h

ebpf_up :
    (doh : Bool) (ans : Answers) (steps : AttachAnswers) (e r : EbpfEngine)
    → ebpf_start doh ans steps e ≡ (r, none)
    → (r.host ≡ with_doh doh e.host)
      × (r.mgr ≡ (attach steps e.mgr e.attached).0.0)
      × (r.attached ≡ (attach steps e.mgr e.attached).0.1)
unfolding ebpf_start ebpf_start_manager
ebpf_up false ans steps e r ran =
    ebpf_started_at false ans e.host (attach steps e.mgr e.attached) r ran
ebpf_up true ans steps e r ran = elim (Bool-cases ans.serve) [
  | inr mute ↦ absurd (ground (arith, ran, mute))
  | inl serving ↦ elim (Bool-cases ans.set_dns) [
    | inr unset ↦ absurd (ground (arith, ran, serving, unset))
    | inl told ↦
        ebpf_started_at true ans (with_doh true e.host) (attach steps e.mgr e.attached) r
          (rw (serving, told) at ran)
  ]
]

tun_up :
    (doh : Bool) (ans : Answers) (ifaces : List Interface) (steps : TunAnswers) (e r : TunEngine)
    → tun_start doh ans ifaces steps e ≡ (r, none)
    → (r.host ≡ with_doh doh (if doh then resolver_to true e.host else e.host))
      × (r.mgr ≡ (manager_start ifaces steps e.mgr e.opened).0)
      × (r.opened ≡ (manager_start ifaces steps e.mgr e.opened).1)
unfolding tun_start tun_start_manager
tun_up false ans ifaces steps e r ran =
    tun_started_at false ans e.host (manager_start ifaces steps e.mgr e.opened) r ran
tun_up true ans ifaces steps e r ran = elim (Bool-cases ans.serve) [
  | inr mute ↦ absurd (ground (arith, ran, mute))
  | inl serving ↦ elim (Bool-cases ans.set_dns) [
    | inr unset ↦ absurd (ground (arith, ran, serving, unset))
    | inl told ↦
        tun_started_at true ans (with_doh true (resolver_to true e.host))
          (manager_start ifaces steps e.mgr e.opened) r (rw (serving, told) at ran)
  ]
]

-- After a Start of ebpfEngine that succeeds in an untouched system with nothing attached: Stop
-- leaves the program detached and no reader, socket or goroutine, the DNS server running exactly
-- where DoH is on and the server's Stop fails, and the system's DNS set exactly where DoH is on
-- and RestoreSystemDNS fails.
pub ebpf_stop-start :
    (doh : Bool) (ans : Answers) (end : HaltAnswers) (steps : AttachAnswers) (e r : EbpfEngine)
    → IsUntouched e.host
    → IsDetached e.attached
    → ebpf_start doh ans steps e ≡ (r, none)
    → IsLeft doh end (ebpf_stop doh end r).host × IsDetached (ebpf_stop doh end r).attached
unfolding ebpf_stop
ebpf_stop-start doh ans end steps e r quiet idle ran =
    let (at_host, at_mgr, at_attached) = ebpf_up doh ans steps e r ran in
    (
      ground (arith, at_host, quiet),
      rw (at_mgr, at_attached) (detach-attach-IsDetached steps e.mgr e.attached idle),
    )

-- After a Start of tunEngine that succeeds in an untouched system with nothing open but perhaps a
-- capture: Stop leaves nothing of the manager's open but the capture that Start has left, the
-- system's resolver running, the DNS server running exactly where DoH is on and the server's Stop
-- fails, and the system's DNS set exactly where DoH is on and RestoreSystemDNS fails; and it
-- returns no error exactly where DoH is off or both succeed.
pub tun_stop-start :
    (doh : Bool) (ans : Answers) (end : HaltAnswers) (ifaces : List Interface) (steps : TunAnswers)
    (e r : TunEngine)
    → IsUntouched e.host
    → IsClosed e.opened
    → tun_start doh ans ifaces steps e ≡ (r, none)
    → IsLeft doh end (tun_stop doh end r).0.host
      × IsClosed (tun_stop doh end r).0.opened
      × ((tun_stop doh end r).0.opened.capture ≡ r.opened.capture)
      × (((tun_stop doh end r).1 ≡ none) ↔ ((not doh || (end.restore_ok && end.server_ok)) ≡ true))
unfolding tun_stop tun_stop_error manager_stop
tun_stop-start doh ans end ifaces steps e r quiet idle ran =
    let (at_host, at_mgr, at_opened) = tun_up doh ans ifaces steps e r ran in
    (
      ground (arith, at_host, quiet),
      rw (at_mgr, at_opened) (manager_stop-start-IsClosed ifaces steps e.mgr e.opened idle),
      ground arith,
      ground arith,
    )
