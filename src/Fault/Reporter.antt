-- ===== src/Fault/Reporter.antt =====
-- src/fault.rs, `FaultReporter`: the buffer against the faults recorded.
use Prim.Native.Nat.{ℕ, suc, ◌+◌, ◌%◌, ◌^◌, min}
use mathlib.Core.Path.{◌≡◌, refl, ◌∙◌, sym, ap, subst}
use mathlib.Core.Option.{none, some}
use mathlib.Core.List.{List, [], ◌∷◌}
use native.Mathlib.Omega.{arith}
use alani_kernel.Common.Tests.{ltb, ◌==◌, if◌then◌else◌}
use alani_kernel.Common.Lists.{length, get_or, set}
use alani_kernel.Common.Ring.{IsRing, push-IsRing, newest}
use alani_kernel.Fault.{
  FaultRecord, empty_fault, FaultReporter, max_fault_records, new, len, report, last,
}

-- The faults that were recorded, newest first, as the reporter numbers them: the first is 1.
abbrev pub numbered : List FaultRecord → List FaultRecord
numbered [] = []
numbered (f ∷ fs) = record f { sequence = (1 + length fs) % 2 ^ 64 } ∷ numbered fs

length-numbered : (fs : List FaultRecord) → length (numbered fs) ≡ length fs
length-numbered [] = refl
length-numbered (f ∷ fs) = ap suc (length-numbered fs)

-- The reporter after the faults, the newest of which stands first.
unfoldable pub reported : List FaultRecord → FaultReporter
reported [] = new
reported (f ∷ fs) = report f (reported fs)

-- The reporter against the faults recorded, newest first.
record Keeps (r : FaultReporter) (fs : List FaultRecord) : Type 0 where
  ring : IsRing max_fault_records empty_fault r.records r.cursor r.count (numbered fs)
  next : r.next_sequence ≡ (1 + length fs) % 2 ^ 64

report-Keeps :
    (f : FaultRecord) (r : FaultReporter) (fs : List FaultRecord)
    → Keeps r fs
    → Keeps (report f r) (f ∷ fs)
unfolding report
report-Keeps f r fs k = record {
  ring =
      subst
        (λ n.
          IsRing max_fault_records empty_fault (set r.records r.cursor (record f { sequence = n }))
            ((r.cursor + 1) % max_fault_records)
            (if ltb r.count max_fault_records then r.count + 1 else r.count)
            (record f { sequence = (1 + length fs) % 2 ^ 64 } ∷ numbered fs))
        (sym k.next)
        (push-IsRing max_fault_records empty_fault r.records r.cursor r.count (numbered fs) _
          k.ring);
  next = ground (arith, k.next);
}

reported-Keeps : (fs : List FaultRecord) → Keeps (reported fs) fs
unfolding reported
reported-Keeps [] = record {
  ring = record {
    size = refl;
    some_room = omega arith;
    at = refl;
    kept = refl;
    holds = λ i h. elim h [ ];
  };
  next = refl;
}
reported-Keeps (f ∷ fs) = report-Keeps f (reported fs) fs (reported-Keeps fs)

-- After any faults were recorded the reporter holds 64 of them at most, `last` gives the newest under
-- the number that counts the faults from 1, and the next number follows, modulo 2 ^ 64.
pub reported_contents :
    (fs : List FaultRecord)
    → let r = reported fs in
      (len r ≡ min (length fs) 64)
      × (last r ≡ (if length fs == 0 then none else some (get_or (numbered fs) 0 empty_fault)))
      × (r.next_sequence ≡ (1 + length fs) % 2 ^ 64)
unfolding last
reported_contents fs = (
  count,
  ground (arith, count, newest 64 empty_fault records cursor r.count (numbered fs) ring),
  (reported-Keeps fs).next,
)
  where
    r : FaultReporter
    r = reported fs

    open r use {records, cursor}

    ring : IsRing 64 empty_fault records cursor r.count (numbered fs)
    ring = (reported-Keeps fs).ring

    count : r.count ≡ min (length fs) 64
    count = ring.kept ∙ ap (λ (n : ℕ). min n 64) (length-numbered fs)
