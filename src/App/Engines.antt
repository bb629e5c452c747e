-- ===== src/App/Engines.antt =====
-- cmd/gecit/app/run_linux.go and run_tun.go: Start and Stop of ebpfEngine and tunEngine, with the
-- managers of Ebpf.Lifecycle and Tun.Manager. The system's state that the two engines share is a
-- Host; whether each step of package dns succeeds is an answer, given as a value. A Stop of the DNS
-- server that fails leaves the server running. mgr.Stop of both managers returns nil always.
use gecit_unofficial.Base.{Bool, true, false, not, Option, none, some, if◌then◌else◌, List}
use gecit_unofficial.Capture.Interfaces.{Interface}
use gecit_unofficial.Ebpf.Lifecycle.{
  Attached, Holdings, AttachAnswers, AttachError, AttachResult, attach, detach,
}
use gecit_unofficial.Tun.Manager.{
  Opened, Manager, TunAnswers, TunError, Attempt, manager_start, manager_stop,
}

pub record Host : Type 0 where
  pub dns_server : Bool
  pub system_dns_set : Bool
  pub system_resolver_stopped : Bool

-- Whether dns.Start, SetSystemDNS, RestoreSystemDNS and dns.Stop succeed in Start, and whether a
-- SetSystemDNS that fails has changed the system's DNS before
pub record Answers : Type 0 where
  pub serve : Bool
  pub set_dns : Bool
  pub half_set : Bool
  pub restore : Bool
  pub end_server : Bool

-- Whether RestoreSystemDNS and dns.Stop succeed in Stop
pub record HaltAnswers : Type 0 where
  pub restore_ok : Bool
  pub server_ok : Bool

-- The error that Start returns; `none` is nil.
pub data EngineError : Type 0 where
  serve_failed set_dns_failed : EngineError
  attach_failed : AttachError → EngineError
  tun_failed : TunError → EngineError

pub data StopError : Type 0 where
  restore_failed server_stop_failed : StopError

abbrev pub set_if : Bool → Host → Host
set_if b h = record h { system_dns_set = if b then true else h.system_dns_set }

abbrev pub restored_if : Bool → Host → Host
restored_if b h = record h { system_dns_set = if b then false else h.system_dns_set }

-- dns.Start, and dns.Stop of which it is told whether it succeeds
abbrev pub served : Host → Host
served h = record h { dns_server = true }

abbrev pub server_ended_if : Bool → Host → Host
server_ended_if b h = record h { dns_server = if b then false else h.dns_server }

-- stopSystemDNS and resumeSystemDNS
abbrev pub resolver_to : Bool → Host → Host
resolver_to b h = record h { system_resolver_stopped = b }

pub record EbpfEngine : Type 0 where
  pub host : Host
  pub mgr : Holdings
  pub attached : Attached

abbrev pub ebpf_started : Bool → Answers → Host → AttachResult → EbpfEngine × Option EngineError
ebpf_started doh ans h ((m, o), none) = (record { host = h; mgr = m; attached = o }, none)
ebpf_started doh ans h ((m, o), some err) = (
  record {
    host = if doh then server_ended_if ans.end_server (restored_if ans.restore h) else h;
    mgr = m;
    attached = o;
  },
  some (attach_failed err),
)

-- mgr.Start of ebpfEngine, with what its failure undoes
unfoldable pub ebpf_start_manager :
    Bool → Answers → AttachAnswers → Host → EbpfEngine → EbpfEngine × Option EngineError
ebpf_start_manager doh ans steps h e = ebpf_started doh ans h (attach steps e.mgr e.attached)

unfoldable pub ebpf_start :
    Bool → Answers → AttachAnswers → EbpfEngine → EbpfEngine × Option EngineError
ebpf_start doh ans steps e =
    if not doh
    then ebpf_start_manager doh ans steps e.host e
    else if not ans.serve
    then (e, some serve_failed)
    else if not ans.set_dns
    then (
      record e { host = server_ended_if ans.end_server (set_if ans.half_set (served e.host)) },
      some set_dns_failed,
    )
    else ebpf_start_manager doh ans steps (set_if true (served e.host)) e

-- The errors of the first two steps are only logged, so Stop returns nil.
unfoldable pub ebpf_stop : Bool → HaltAnswers → EbpfEngine → EbpfEngine
ebpf_stop doh ans e = record {
  host = if doh then server_ended_if ans.server_ok (restored_if ans.restore_ok e.host) else e.host;
  mgr = (detach e.mgr e.attached).0;
  attached = (detach e.mgr e.attached).1;
}

pub record TunEngine : Type 0 where
  pub host : Host
  pub mgr : Manager
  pub opened : Opened

abbrev pub tun_started : Bool → Answers → Host → Attempt → TunEngine × Option EngineError
tun_started doh ans h (m, o, none) = (record { host = h; mgr = m; opened = o }, none)
tun_started doh ans h (m, o, some err) = (
  record {
    host =
        if doh
        then resolver_to false (server_ended_if ans.end_server (restored_if ans.restore h))
        else h;
    mgr = m;
    opened = o;
  },
  some (tun_failed err),
)

-- mgr.Start of tunEngine, with what its failure undoes; the manager is not stopped.
unfoldable pub tun_start_manager :
    Bool → Answers → List Interface → TunAnswers → Host → TunEngine → TunEngine × Option EngineError
tun_start_manager doh ans ifaces steps h e =
    tun_started doh ans h (manager_start ifaces steps e.mgr e.opened)

unfoldable pub tun_start :
    Bool → Answers → List Interface → TunAnswers → TunEngine → TunEngine × Option EngineError
tun_start doh ans ifaces steps e =
    let held = resolver_to true e.host in
    if not doh
    then tun_start_manager doh ans ifaces steps e.host e
    else if not ans.serve
    then (record e { host = resolver_to false held }, some serve_failed)
    else if not ans.set_dns
    then (
      record e {
        host =
            resolver_to false (server_ended_if ans.end_server (set_if ans.half_set (served held)));
      },
      some set_dns_failed,
    )
    else tun_start_manager doh ans ifaces steps (set_if true (served held)) e

-- The first of the errors that Stop collects
unfoldable pub tun_stop_error : Bool → HaltAnswers → Option StopError
tun_stop_error doh ans =
    if not doh
    then none
    else if not ans.restore_ok
    then some restore_failed
    else if not ans.server_ok
    then some server_stop_failed
    else none

unfoldable pub tun_stop : Bool → HaltAnswers → TunEngine → TunEngine × Option StopError
tun_stop doh ans e = (
  record e {
    opened = manager_stop e.mgr e.opened;
    host =
        if doh
        then resolver_to false (server_ended_if ans.server_ok (restored_if ans.restore_ok e.host))
        else e.host;
  },
  tun_stop_error doh ans,
)
