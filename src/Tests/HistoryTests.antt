-- ===== src/Tests/HistoryTests.antt =====
-- src/lib.rs: the theorems on whole histories of system calls and on single answers, at concrete kernels.
use Prim.Native.Nat.{ℕ, ◌^◌, ◌<◌}
use mathlib.Core.Path.{◌≡◌, refl, ap, subst, sym}
use mathlib.Core.Logic.{◌↔◌, inl}
use mathlib.Core.Bool.{true}
use mathlib.Core.Option.{some}
use mathlib.Core.List.{List, [], ◌∷◌}
use native.Mathlib.Omega.{arith}
use alani_kernel.Error.{KernelStatus}
use alani_kernel.Outcome.{ok}
use alani_kernel.Capability.{Capability, CapabilitySet, contains, empty}
use alani_kernel.Abi.{empty_trace}
use alani_kernel.Abi.Numbers.{raw_number}
use alani_kernel.Memory.{MemoryRegion, MemoryRegionKind, SharedRegion, read_permission}
use alani_kernel.Memory.Map
use alani_kernel.Memory.Map.{MemoryMap, regions, total_by_kind}
use alani_kernel.Memory.Map.Disjoint.{push_all, push_all-new-IsMap}
use alani_kernel.Memory.Map.Totals.{lengths, lengths_of, total_by_kind_exact}
use alani_kernel.Memory.Manager.{shared_region}
use alani_kernel.Memory.Manager.Settings.{IsConfigured, new-IsConfigured}
use alani_kernel.Memory.Manager.Ranges.{IsUserRange}
use alani_kernel.Memory.Manager.Sharing
use alani_kernel.Memory.Manager.Sharing.Sealing.{IsSealedAs}
use alani_kernel.Device
use alani_kernel.Device.{
  DeviceClass, DeviceLifecycle, DmaPolicy, DeviceDescriptor, DeviceRegistry, register,
}
use alani_kernel.Scheduler.{TaskState}
use alani_kernel.Scheduler.Policy.Cancelled.{state_of}
use alani_kernel.Syscall.{SyscallFrame, DispatchContext, ExecutionContext, Args, task_context}
use alani_kernel.Kernel.{Kernel, new, initialize_host}
use alani_kernel.Kernel.Boot.{unbooted, booted, initialize_host_lem}
use alani_kernel.Kernel.Handlers.{handle_of}
use alani_kernel.Kernel.Entry.{handle_syscall}
use alani_kernel.Kernel.Entry.History.{IsNew, run}
use alani_kernel.Kernel.Entry.Testimony.{history, run-Testifies}
use alani_kernel.Kernel.Entry.Dues.{Testifies}
use alani_kernel.Kernel.Entry.Shares.{IsSharedBy, share_call_lem}
use alani_kernel.Kernel.Entry.Turns.{turns_of}
use alani_kernel.Kernel.Entry.Exits.{exit_forever}
use alani_kernel.Kernel.Entry.Seals.{seal_call_forever}
use alani_kernel.Kernel.Entry.Replies.{IsDeviceCall, device_call_ok_iff, mem_map_ok_iff}

abbrev frame_of : ℕ → ℕ → ℕ → ℕ → SyscallFrame
frame_of number arg0 arg1 arg2 = record {
  number = number;
  args = record { arg0 = arg0; arg1 = arg1; arg2 = arg2; arg3 = 8; arg4 = 0; arg5 = 16 };
  trace = empty_trace;
}

-- The first task, with every capability from `TaskSpawn` to `DeviceCall`.
abbrev caller : DispatchContext
caller = task_context 1 (record { bits = 127 })

abbrev yield_once : SyscallFrame × DispatchContext
yield_once = (frame_of 1 0 0 0, caller)

new-IsNew : IsNew new
unfolding alani_kernel.Audit.Log.appended alani_kernel.Fault.Reporter.reported
new-IsNew = record { table = Sharing.new-IsTable; log = ([], refl); reporter = ([], refl) }

abbrev start_kernel : Kernel
start_kernel = run (initialize_host (unbooted new)).1 []

start_kernel-booted : start_kernel ≡ booted new
unfolding run
start_kernel-booted = ap (λ out. out.1) (initialize_host_lem new)

exit_ok : (handle_syscall (frame_of 2 0 0 0) caller (booted new)).0.status ≡ KernelStatus.ok
unfolding handle_syscall alani_kernel.Syscall.validate alani_kernel.Syscall.lookup
    mathlib.Core.Option.bind alani_kernel.Abi.Numbers.from_raw
    alani_kernel.Syscall.Table.syscall_descriptors alani_kernel.Abi.Numbers.number_eq
    alani_kernel.Syscall.allows_context alani_kernel.Kernel.Handlers.dispatch_validated
    alani_kernel.Kernel.Handlers.sys_exit alani_kernel.Scheduler.Policy.cancel
    alani_kernel.Scheduler.Queue.get alani_kernel.Scheduler.Policy.is_terminal
exit_ok = refl

exit_forever_example :
    let l = (handle_syscall (frame_of 2 0 0 0) caller start_kernel).1 in
    (state_of (run l (yield_once ∷ yield_once ∷ [])).scheduler 1 ≡ some TaskState.zombie)
    × (turns_of 1 l (yield_once ∷ yield_once ∷ []) ≡ 0)
unfolding raw_number
exit_forever_example =
    exit_forever new [] (yield_once ∷ yield_once ∷ []) 1 (frame_of 2 0 0 0) caller new-IsNew
      (inl (refl, refl))
      (subst (λ k. (handle_syscall (frame_of 2 0 0 0) caller k).0.status ≡ KernelStatus.ok)
        (sym start_kernel-booted) exit_ok)

-- A share of 64 bytes to read and write, and its seal.
abbrev share_once : SyscallFrame × DispatchContext
share_once = (frame_of 0x0203 0x4000 64 11, caller)

abbrev sharing_kernel : Kernel
sharing_kernel = run (initialize_host (unbooted new)).1 (share_once ∷ [])

sharing_kernel-eq : sharing_kernel ≡ run (booted new) (share_once ∷ [])
sharing_kernel-eq = ap (λ out. run out.1 (share_once ∷ [])) (initialize_host_lem new)

seal_ok :
    (handle_syscall (frame_of 0x0204 1 0 0) caller (run (booted new) (share_once ∷ []))).0.status
    ≡ KernelStatus.ok
unfolding handle_syscall alani_kernel.Syscall.validate alani_kernel.Syscall.lookup
    mathlib.Core.Option.bind alani_kernel.Abi.Numbers.from_raw
    alani_kernel.Syscall.Table.syscall_descriptors alani_kernel.Abi.Numbers.number_eq
    alani_kernel.Syscall.allows_context alani_kernel.Capability.require contains
    alani_kernel.Kernel.Handlers.dispatch_validated alani_kernel.Kernel.Handlers.sys_mem_seal
    alani_kernel.Memory.Manager.seal_shared_region run alani_kernel.Kernel.Entry.record_outcome
    alani_kernel.Kernel.Handlers.sys_mem_share alani_kernel.Memory.permissions_from_bits
    alani_kernel.Memory.Manager.share_region alani_kernel.Memory.Manager.validate_user_range
    alani_kernel.Memory.permits
seal_ok = refl

share_ok : (handle_syscall share_once.0 share_once.1 (booted new)).0.status ≡ KernelStatus.ok
unfolding handle_syscall alani_kernel.Syscall.validate alani_kernel.Syscall.lookup
    mathlib.Core.Option.bind alani_kernel.Abi.Numbers.from_raw
    alani_kernel.Syscall.Table.syscall_descriptors alani_kernel.Abi.Numbers.number_eq
    alani_kernel.Syscall.allows_context alani_kernel.Capability.require contains
    alani_kernel.Kernel.Handlers.dispatch_validated alani_kernel.Kernel.Handlers.sys_mem_share
    alani_kernel.Memory.permissions_from_bits alani_kernel.Memory.Manager.share_region
    alani_kernel.Memory.Manager.validate_user_range alani_kernel.Memory.permits
share_ok = refl

share_call_lem_example :
    let r = handle_syscall share_once.0 share_once.1 start_kernel in
    (ExecutionContext.task ≡ ExecutionContext.task)
    × (contains (record { bits = 127 }) Capability.memory_share ≡ true)
    × IsSharedBy share_once.0 share_once.1 start_kernel.memory r.0 r.1.memory
unfolding raw_number
share_call_lem_example = share_call_lem new [] share_once.0 share_once.1 new-IsNew refl (
    subst (λ k. (handle_syscall share_once.0 share_once.1 k).0.status ≡ KernelStatus.ok)
      (sym start_kernel-booted) share_ok)

seal_call_forever_example :
    let m =
      run (handle_syscall (frame_of 0x0204 1 0 0) caller sharing_kernel).1 (share_once ∷ []) in
    let h = handle_of (frame_of 0x0204 1 0 0) 1 in
    (r : SharedRegion) × (s : SharedRegion) × (shared_region sharing_kernel.memory h ≡ ok r)
    × (shared_region m.memory h ≡ ok s)
    × IsSealedAs r s
unfolding raw_number
seal_call_forever_example =
    seal_call_forever new (share_once ∷ []) (share_once ∷ []) (frame_of 0x0204 1 0 0) caller
      new-IsNew refl
      (subst (λ k. (handle_syscall (frame_of 0x0204 1 0 0) caller k).0.status ≡ KernelStatus.ok)
        (sym sharing_kernel-eq) seal_ok)

-- A kernel with a timer that answers queries and reads.
abbrev clock : DeviceDescriptor
clock = record {
  id = 5;
  class = DeviceClass.timer;
  lifecycle = DeviceLifecycle.registered;
  required_capabilities = record { bits = 16 };
  supported_operations = 3;
  max_input_len = 8;
  max_output_len = 16;
  dma_policy = DmaPolicy.no_dma;
}

abbrev clocked : Kernel
clocked = record (booted new) { devices = (register clock Device.new).1 }

device_call_ok : (handle_syscall (frame_of 0x0302 5 1 0) caller clocked).0.status ≡ KernelStatus.ok
unfolding handle_syscall alani_kernel.Syscall.validate alani_kernel.Syscall.lookup
    mathlib.Core.Option.bind alani_kernel.Abi.Numbers.from_raw
    alani_kernel.Syscall.Table.syscall_descriptors alani_kernel.Abi.Numbers.number_eq
    alani_kernel.Syscall.allows_context alani_kernel.Capability.require contains
    alani_kernel.Kernel.Handlers.dispatch_validated alani_kernel.Kernel.Handlers.sys_device_call
    Device.operation_from_raw Device.authorize_call Device.get register Device.is_available
    Device.supports alani_kernel.Capability.contains_all
device_call_ok = refl

device_call_ok_iff_example :
    ((handle_syscall (frame_of 0x0302 5 1 0) caller clocked).0.status ≡ KernelStatus.ok) ↔ (
      (ExecutionContext.task ≡ ExecutionContext.task)
      × (contains (record { bits = 127 }) Capability.device_call ≡ true)
      × IsDeviceCall clocked.devices (frame_of 0x0302 5 1 0) (record { bits = 127 }))
unfolding raw_number
device_call_ok_iff_example = device_call_ok_iff (frame_of 0x0302 5 1 0) caller clocked refl

booted-IsConfigured : IsConfigured (booted new).memory
booted-IsConfigured = record {
  lower_pos = new-IsConfigured.lower_pos;
  ordered = new-IsConfigured.ordered;
  max_pos = new-IsConfigured.max_pos;
  alignment = new-IsConfigured.alignment;
}

mem_map_ok_iff_example :
    ((handle_syscall (frame_of 0x0200 0x4000 64 0) caller (booted new)).0.status ≡ KernelStatus.ok)
    ↔ ((ExecutionContext.task ≡ ExecutionContext.task)
        × (contains (record { bits = 127 }) Capability.memory_map ≡ true)
        × IsUserRange (booted new).memory 0x4000 64)
unfolding raw_number
mem_map_ok_iff_example =
    mem_map_ok_iff (frame_of 0x0200 0x4000 64 0) caller (booted new) refl booted-IsConfigured

-- Two regions side by side.
abbrev two_regions : List MemoryRegion
two_regions =
    record {
      start = 0x1000;
      len = 0x1000;
      kind = MemoryRegionKind.usable;
      permissions = read_permission;
    }
    ∷ record {
      start = 0x2000;
      len = 0x3000;
      kind = MemoryRegionKind.usable;
      permissions = read_permission;
    }
    ∷ []

abbrev two_region_map : MemoryMap
two_region_map = push_all Map.new two_regions

total_by_kind_exact_example :
    (lengths (regions two_region_map) < 2 ^ 64)
    × (total_by_kind two_region_map MemoryRegionKind.usable
        ≡ lengths_of MemoryRegionKind.usable (regions two_region_map))
total_by_kind_exact_example =
    total_by_kind_exact two_region_map MemoryRegionKind.usable (
      push_all-new-IsMap two_regions ((omega arith, omega arith), ((omega arith, omega arith), tt)))

-- A share that is audited, a yield that is not, and a call that the table lacks.
abbrev audited_calls : List (SyscallFrame × DispatchContext)
audited_calls = share_once ∷ yield_once ∷ (frame_of 0x0999 0 0 0, caller) ∷ []

run-Testifies_example :
    Testifies
      (history (booted new) audited_calls)
      (booted new).audit
      (run (booted new) audited_calls).audit
run-Testifies_example = run-Testifies (booted new) audited_calls
