-- ===== src/Capability/Registry/Invariant.antt =====
-- src/capability.rs, `CapabilityRegistry`: what holds of the table between two calls.
use Prim.Native.Nat.{ℕ, ◌+◌, ◌≤◌, ◌<◌, ◌^◌}
use mathlib.Core.Path.{◌≡◌, refl, ◌∙◌}
use mathlib.Core.Logic.{inl, inr}
use mathlib.Core.Bool.{Bool, true, false, not, ◌&&◌}
use mathlib.Core.Option.{none, some}
use mathlib.Core.List.{List, [], ◌∷◌}
use native.Mathlib.Omega.{arith}
use alani_kernel.Common.Tests.{◌==◌, Option-cases, Bool-cases, ltb, ltb→lt}
use alani_kernel.Common.Lists.{find, find_sound, update_first, count, length, length-update_first}
use alani_kernel.Common.Search.{tally, count-update_first, count-replicate}
use alani_kernel.Error.{KernelError}
use alani_kernel.Outcome.{KernelResult, ok, err, KernelResult-cases}
use alani_kernel.Capability.{TaskId, CapabilitySet, attenuate}
use alani_kernel.Capability.Registry.{
  CapabilityHandle, CapabilityRecord, CapabilityRegistry, max_capability_records, empty_record, new,
  is_free, is_live, next_after, issue, resolve, derive, revoke,
}

-- The record is live under identifier `i`, whatever its generation.
abbrev pub is_live_id : ℕ → CapabilityRecord → Bool
is_live_id i e = not e.revoked && e.handle.id == i

-- The table has its 64 records, and no identifier is live twice, nor from `next_id` on, nor at 0.
pub record IsValid (r : CapabilityRegistry) : Type 0 where
  pub size : length r.records ≡ max_capability_records
  pub id_pos : 0 < r.next_id
  pub id_word : r.next_id < 2 ^ 64
  pub unique : (i : ℕ) → count (is_live_id i) r.records ≤ 1
  pub fresh : (i : ℕ) → r.next_id ≤ i → count (is_live_id i) r.records ≡ 0
  pub no_zero : count (is_live_id 0) r.records ≡ 0

new-IsValid : IsValid new
new-IsValid = record {
  size = refl;
  id_pos = omega arith;
  id_word = omega arith;
  unique = λ i. omega (arith, count-replicate (is_live_id i) 64 empty_record refl);
  fresh = λ i _. count-replicate (is_live_id i) 64 empty_record refl;
  no_zero = refl;
}

-- The handle that `issue` makes, and the table that it leaves.
abbrev pub issued : CapabilityRegistry → TaskId → CapabilitySet → CapabilityHandle
issued r owner_task rights = record {
  id = r.next_id;
  rights = rights.bits;
  owner_task = owner_task;
  generation = r.next_generation;
}

abbrev pub after_issue : CapabilityRegistry → TaskId → CapabilitySet → CapabilityRegistry
after_issue r owner_task rights = record {
  records =
      update_first is_free (λ _. record { handle = issued r owner_task rights; revoked = false })
        r.records;
  next_id = r.next_id + 1;
  next_generation = next_after r.next_generation;
}

-- Either `issue` fails and changes nothing, or a slot was free and it wrote the new handle there.
pub issue_cases {ℓ} :
    (P : KernelResult CapabilityHandle × CapabilityRegistry → Type ℓ) (r : CapabilityRegistry)
    (owner_task : TaskId) (rights : CapabilitySet)
    → ((e : KernelError) → P (err e, r))
    → ((slot : CapabilityRecord)
        → find is_free r.records ≡ some slot
        → r.next_id + 1 < 2 ^ 64
        → P (ok (issued r owner_task rights), after_issue r owner_task rights))
    → P (issue owner_task rights r)
unfolding issue
issue_cases P r owner_task rights failed done = elim (Option-cases (find is_free r.records)) [
  | inl full ↦ rw (full, issue) (failed KernelError.capacity_exceeded)
  | inr (slot, e) ↦ elim (Bool-cases (ltb (r.next_id + 1) (2 ^ 64))) [
    | inl room ↦ rw (e, issue) (rw (room, issue) (done slot e (ltb→lt _ _ room)))
    | inr last ↦ rw (e, issue) (rw (last, issue) (failed KernelError.internal))
  ]
]

after_issue-IsValid :
    (r : CapabilityRegistry) (owner_task : TaskId) (rights : CapabilitySet)
    (slot : CapabilityRecord)
    → IsValid r
    → find is_free r.records ≡ some slot
    → r.next_id + 1 < 2 ^ 64
    → IsValid (after_issue r owner_task rights)
after_issue-IsValid r owner_task rights slot v e room = record {
  size = length-update_first is_free _ r.records ∙ v.size;
  id_pos = omega arith;
  id_word = room;
  unique = λ i. ground (arith, v.unique i, v.fresh i, traded i);
  fresh = λ i h. ground (arith, v.fresh i, traded i);
  no_zero = ground (arith, v.no_zero, v.id_pos, traded 0);
}
  where
    entry : CapabilityRecord
    entry = record { handle = issued r owner_task rights; revoked = false }

    traded :
        (i : ℕ)
        → count (is_live_id i) (update_first is_free (λ _. entry) r.records)
            + tally (is_live_id i slot)
          ≡ count (is_live_id i) r.records + tally (is_live_id i entry)
    traded i = count-update_first is_free (is_live_id i) (λ _. entry) r.records e

issue-IsValid :
    (r : CapabilityRegistry) (owner_task : TaskId) (rights : CapabilitySet)
    → IsValid r
    → IsValid (issue owner_task rights r).1
issue-IsValid r owner_task rights v =
    issue_cases (λ out. IsValid out.1) r owner_task rights (λ _. v)
      λ slot e room. after_issue-IsValid r owner_task rights slot v e room

-- Either `derive` fails and changes nothing, or it issues a set that the parent's rights allow.
pub derive_cases {ℓ} :
    (P : KernelResult CapabilityHandle × CapabilityRegistry → Type ℓ) (r : CapabilityRegistry)
    (parent : CapabilityHandle) (owner_task : TaskId) (requested : CapabilitySet)
    → ((e : KernelError) → P (err e, r))
    → ((held child : CapabilitySet)
        → resolve r parent ≡ ok held
        → attenuate held requested ≡ ok child
        → P (issue owner_task child r))
    → P (derive parent owner_task requested r)
unfolding derive
derive_cases P r parent owner_task requested failed done =
    elim (KernelResult-cases (resolve r parent)) [
      | inr (e, unknown) ↦ rw (unknown, derive) (failed e)
      | inl (held, known) ↦ elim (KernelResult-cases (attenuate held requested)) [
        | inr (e, beyond) ↦ rw (known, derive) (rw (beyond, derive) (failed e))
        | inl (child, inside) ↦
            rw (known, derive) (rw (inside, derive) (done held child known inside))
      ]
    ]

derive-IsValid :
    (r : CapabilityRegistry) (parent : CapabilityHandle) (owner_task : TaskId)
    (requested : CapabilitySet)
    → IsValid r
    → IsValid (derive parent owner_task requested r).1
derive-IsValid r parent owner_task requested v =
    derive_cases (λ out. IsValid out.1) r parent owner_task requested (λ _. v)
      λ held child _ _. issue-IsValid r owner_task child v

-- The table after a revocation.
abbrev pub after_revoke : CapabilityRegistry → CapabilityHandle → CapabilityRegistry
after_revoke r handle = record r {
  records = update_first (is_live handle) (λ e. record e { revoked = true }) r.records;
}

-- Either no live record has the handle and nothing changes, or the record found is marked.
pub revoke_cases {ℓ} :
    (P : KernelResult (Unit {0}) × CapabilityRegistry → Type ℓ) (r : CapabilityRegistry)
    (handle : CapabilityHandle)
    → (find (is_live handle) r.records ≡ none → P (err KernelError.not_found, r))
    → ((found : CapabilityRecord)
        → find (is_live handle) r.records ≡ some found
        → P (ok tt, after_revoke r handle))
    → P (revoke handle r)
unfolding revoke
revoke_cases P r handle missing done = elim (Option-cases (find (is_live handle) r.records)) [
  | inl gone ↦ rw (gone, revoke) (missing gone)
  | inr (found, e) ↦ rw (e, revoke) (done found e)
]

-- One record less is live under the identifier that is revoked, and as many under the others.
pub count-after_revoke :
    (r : CapabilityRegistry) (handle : CapabilityHandle) (i : ℕ) {found : CapabilityRecord}
    → find (is_live handle) r.records ≡ some found
    → count (is_live_id i) (after_revoke r handle).records + tally (handle.id == i)
      ≡ count (is_live_id i) r.records
count-after_revoke r handle i {found} e = ground (
  arith,
  find_sound (is_live handle) r.records e,
  count-update_first (is_live handle) (is_live_id i) (λ x. record x { revoked = true }) r.records e,
)

revoke-IsValid :
    (r : CapabilityRegistry) (handle : CapabilityHandle) → IsValid r → IsValid (revoke handle r).1
revoke-IsValid r handle v =
    revoke_cases (λ out. IsValid out.1) r handle (λ _. v)
      λ found e. record {
        size = length-update_first (is_live handle) _ r.records ∙ v.size;
        id_pos = v.id_pos;
        id_word = v.id_word;
        unique = λ i. omega (arith, v.unique i, count-after_revoke r handle i e);
        fresh = λ i h. omega (arith, v.fresh i h, count-after_revoke r handle i e);
        no_zero = omega (arith, v.no_zero, count-after_revoke r handle 0 e);
      }

-- A call of one of the methods that change the table.
pub data Call : Type 0 where
  issues : TaskId → CapabilitySet → Call
  derives : CapabilityHandle → TaskId → CapabilitySet → Call
  revokes : CapabilityHandle → Call

abbrev pub step : CapabilityRegistry → Call → CapabilityRegistry
step r (issues owner_task rights) = (issue owner_task rights r).1
step r (derives parent owner_task requested) = (derive parent owner_task requested r).1
step r (revokes handle) = (revoke handle r).1

unfoldable pub run : CapabilityRegistry → List Call → CapabilityRegistry
run r [] = r
run r (c ∷ cs) = run (step r c) cs

pub step-IsValid : (r : CapabilityRegistry) (c : Call) → IsValid r → IsValid (step r c)
step-IsValid r (issues owner_task rights) v = issue-IsValid r owner_task rights v
step-IsValid r (derives parent owner_task requested) v =
    derive-IsValid r parent owner_task requested v
step-IsValid r (revokes handle) v = revoke-IsValid r handle v

run-IsValid : (r : CapabilityRegistry) (cs : List Call) → IsValid r → IsValid (run r cs)
unfolding run
run-IsValid r [] v = v
run-IsValid r (c ∷ cs) v = run-IsValid (step r c) cs (step-IsValid r c v)

-- Whatever calls follow, a new registry keeps its 64 records, and no identifier is ever live twice,
-- at zero, or before it was handed out.
pub run-new-IsValid : (cs : List Call) → IsValid (run new cs)
run-new-IsValid cs = run-IsValid new cs new-IsValid
