-- ===== src/Audit/Log.antt =====
-- src/audit.rs, `AuditLog`: the buffer against the events appended.
use Prim.Native.Nat.{ℕ, suc, ◌+◌, ◌-◌, ◌%◌, ◌^◌, min}
use mathlib.Core.Path.{◌≡◌, refl, ◌∙◌, sym, ap, subst}
use mathlib.Core.Option.{none, some}
use mathlib.Core.List.{List, [], ◌∷◌}
use native.Mathlib.Omega.{arith}
use alani_kernel.Common.Tests.{ltb, ◌==◌, if◌then◌else◌}
use alani_kernel.Common.Lists.{length, get_or, set}
use alani_kernel.Common.Ring.{IsRing, push-IsRing, newest, oldest}
use alani_kernel.Audit.{
  AuditEvent, empty_event, AuditLog, max_audit_events, new, len, append, last, get,
}

-- The events that were appended, newest first, as the log numbers them: the first is 1.
abbrev pub numbered : List AuditEvent → List AuditEvent
numbered [] = []
numbered (e ∷ es) = record e { sequence = (1 + length es) % 2 ^ 64 } ∷ numbered es

length-numbered : (es : List AuditEvent) → length (numbered es) ≡ length es
length-numbered [] = refl
length-numbered (e ∷ es) = ap suc (length-numbered es)

-- The log after the events, the newest of which stands first, were appended to an empty one.
unfoldable pub appended : List AuditEvent → AuditLog
appended [] = new
appended (e ∷ es) = append e (appended es)

-- The log against the events appended, newest first.
record Keeps (l : AuditLog) (es : List AuditEvent) : Type 0 where
  ring : IsRing max_audit_events empty_event l.events l.cursor l.count (numbered es)
  next : l.next_sequence ≡ (1 + length es) % 2 ^ 64

append-Keeps :
    (e : AuditEvent) (l : AuditLog) (es : List AuditEvent)
    → Keeps l es
    → Keeps (append e l) (e ∷ es)
unfolding append
append-Keeps e l es k = record {
  ring =
      subst
        (λ n.
          IsRing max_audit_events empty_event (set l.events l.cursor (record e { sequence = n }))
            ((l.cursor + 1) % max_audit_events)
            (if ltb l.count max_audit_events then l.count + 1 else l.count)
            (record e { sequence = (1 + length es) % 2 ^ 64 } ∷ numbered es))
        (sym k.next)
        (push-IsRing max_audit_events empty_event l.events l.cursor l.count (numbered es) _ k.ring);
  next = ground (arith, k.next);
}

appended-Keeps : (es : List AuditEvent) → Keeps (appended es) es
unfolding appended
appended-Keeps [] = record {
  ring = record {
    size = refl;
    some_room = omega arith;
    at = refl;
    kept = refl;
    holds = λ i h. elim h [ ];
  };
  next = refl;
}
appended-Keeps (e ∷ es) = append-Keeps e (appended es) es (appended-Keeps es)

-- After any events were appended, the log holds the last 128 of them at most; `get` gives them from
-- the oldest kept on, as they were appended but for the number, which counts up from 1, and gives
-- nothing beyond; `last` gives the newest; the next number follows, modulo 2 ^ 64.
pub appended_contents :
    (es : List AuditEvent) (i : ℕ)
    → let l = appended es in
      let kept = min (length es) 128 in
      (len l ≡ kept)
      × (get l i
          ≡ (if ltb i kept then some (get_or (numbered es) (kept - suc i) empty_event) else none))
      × (last l ≡ (if length es == 0 then none else some (get_or (numbered es) 0 empty_event)))
      × (l.next_sequence ≡ (1 + length es) % 2 ^ 64)
unfolding get last
appended_contents es i = (
  count,
  ground (arith, count, oldest 128 empty_event events cursor l.count (numbered es) i ring),
  ground (arith, count, newest 128 empty_event events cursor l.count (numbered es) ring),
  (appended-Keeps es).next,
)
  where
    l : AuditLog
    l = appended es

    open l use {events, cursor}

    ring : IsRing 128 empty_event events cursor l.count (numbered es)
    ring = (appended-Keeps es).ring

    count : l.count ≡ min (length es) 128
    count = ring.kept ∙ ap (λ (n : ℕ). min n 128) (length-numbered es)
