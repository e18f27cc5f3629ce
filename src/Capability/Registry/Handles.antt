-- ===== src/Capability/Registry/Handles.antt =====
-- src/capability.rs, `CapabilityRegistry`: what a handle is good for, from the call that issues it to
-- the call that revokes it, and after.
use Prim.Native.Nat.{ℕ, ◌<◌, ◌^◌}
use mathlib.Core.Path.{◌≡◌, refl, ◌∙◌, sym, ap, subst, subst₂}
use mathlib.Core.Logic.{◌≢◌}
use mathlib.Core.Bool.{true, false}
use mathlib.Core.Option.{none, some}
use mathlib.Core.List.{List, [], ◌∷◌}
use native.Mathlib.Decide.{dec_lt}
use native.Mathlib.Omega.{arith}
use alani_kernel.Common.Tests.{==_refl}
use alani_kernel.Common.Lists.{find, count}
use alani_kernel.Common.Search.{
  count-update_first, count_mono, find-none, find-update_first_hit, find-update_first_miss,
}
use alani_kernel.Error.{KernelError}
use alani_kernel.Outcome.{ok, err, ok-pair}
use alani_kernel.Capability.{TaskId, CapabilitySet, from_bits}
use alani_kernel.Capability.Sets.{IsWithin, contains_all_iff, from_bits_lem, attenuate-ok}
use alani_kernel.Capability.Registry.{
  CapabilityHandle, CapabilityRecord, CapabilityRegistry, is_free, is_live, issue, resolve, derive,
  revoke,
}
use alani_kernel.Capability.Registry.Invariant.{
  IsValid, is_live_id, issued, after_issue, after_revoke, issue_cases, derive_cases, revoke_cases,
  count-after_revoke, Call, issues, derives, revokes, step, run,
}

-- Only bits of known capabilities.
abbrev pub IsKnown : CapabilitySet → Type 0
IsKnown s = s.bits < 2 ^ 15

-- What a table says of a handle is looked up by identifier and generation alone.
resolve-found :
    (r : CapabilityRegistry) (h : CapabilityHandle) {e : CapabilityRecord}
    → h.id ≢ 0
    → find (is_live h) r.records ≡ some e
    → resolve r h ≡ from_bits e.handle.rights
unfolding resolve
resolve-found r h p e = ground arith

resolve-missing :
    (r : CapabilityRegistry) (h : CapabilityHandle)
    → find (is_live h) r.records ≡ none
    → resolve r h ≡ err KernelError.not_found
unfolding resolve
resolve-missing r h e = ground arith

is_live→is_live_id :
    (h : CapabilityHandle) (e : CapabilityRecord) → is_live h e ≡ true → is_live_id h.id e ≡ true
is_live→is_live_id h e p = ground arith

-- No live record bears the identifier, and it will not be given out again.
abbrev pub IsDead : ℕ → CapabilityRegistry → Type 0
IsDead i r = (count (is_live_id i) r.records ≡ 0) × (i < r.next_id)

IsDead-resolve :
    (r : CapabilityRegistry) (h : CapabilityHandle)
    → count (is_live_id h.id) r.records ≡ 0
    → resolve r h ≡ err KernelError.not_found
IsDead-resolve r h dead = resolve-missing r h (
    find-none (is_live h) r.records
      (omega (arith, count_mono (is_live h) (is_live_id h.id) r.records (is_live→is_live_id h))))

resolve-after_issue :
    (r : CapabilityRegistry) (owner_task : TaskId) (rights : CapabilitySet)
    (slot : CapabilityRecord)
    → IsValid r
    → IsKnown rights
    → find is_free r.records ≡ some slot
    → resolve (after_issue r owner_task rights) (issued r owner_task rights) ≡ ok rights
resolve-after_issue r owner_task rights slot v known e =
    resolve-found (after_issue r owner_task rights) h (omega (arith, v.id_pos)) found
    ∙ ground (arith, from_bits_lem rights.bits)
  where
    h : CapabilityHandle
    h = issued r owner_task rights

    found :
        find (is_live h) (after_issue r owner_task rights).records
        ≡ some (record { handle = h; revoked = false })
    found =
        find-update_first_hit is_free (is_live h) _ r.records e
          (ground (arith, ==_refl r.next_id, ==_refl r.next_generation))
          (omega (
            arith,
            v.fresh r.next_id,
            count_mono (is_live h) (is_live_id h.id) r.records (is_live→is_live_id h),
          ))

-- A lookup that finds the same record gives the same rights.
resolve_congr :
    (r s : CapabilityRegistry) (h : CapabilityHandle)
    → (h.id ≢ 0 → find (is_live h) r.records ≡ find (is_live h) s.records)
    → resolve r h ≡ resolve s h
unfolding resolve
resolve_congr r s h e = ground (arith, e)

-- In a well-formed registry, a handle that `issue` returns for a set of known capabilities
-- resolves to that set.
pub resolve-issue :
    (r s : CapabilityRegistry) (owner_task : TaskId) (rights : CapabilitySet) (h : CapabilityHandle)
    → IsValid r
    → IsKnown rights
    → issue owner_task rights r ≡ (ok h, s)
    → resolve s h ≡ ok rights
resolve-issue r s owner_task rights h v known =
    issue_cases (λ out. out ≡ (ok h, s) → resolve s h ≡ ok rights) r owner_task rights
      (λ e p. absurd (ground arith))
      λ slot e room p.
        let (same, left) = ok-pair p in
        subst₂ (λ t k. resolve t k ≡ ok rights) left same
          (resolve-after_issue r owner_task rights slot v known e)

-- Issuing, whether it succeeds or not, does not change what a handle resolves to whose
-- identifier was given out before.
pub resolve-issue_other :
    (r : CapabilityRegistry) (owner_task : TaskId) (rights : CapabilitySet) (h : CapabilityHandle)
    → h.id < r.next_id
    → resolve (issue owner_task rights r).1 h ≡ resolve r h
resolve-issue_other r owner_task rights h old =
    issue_cases (λ out. resolve out.1 h ≡ resolve r h) r owner_task rights (λ e. refl)
      λ slot e room. resolve_congr (after_issue r owner_task rights) r h λ p.
        find-update_first_miss is_free (is_live h) _ r.records
          λ x free. (ground arith, ground arith)

issue-IsDead :
    (i : ℕ) (r : CapabilityRegistry) (owner_task : TaskId) (rights : CapabilitySet)
    → IsDead i r
    → IsDead i (issue owner_task rights r).1
issue-IsDead i r owner_task rights dead =
    issue_cases (λ out. IsDead i out.1) r owner_task rights (λ _. dead)
      λ slot e room. (
        ground (arith, count-update_first is_free (is_live_id i) (λ _. entry) r.records e),
        omega arith,
      )
  where
    entry : CapabilityRecord
    entry = record { handle = issued r owner_task rights; revoked = false }

step-IsDead : (i : ℕ) (r : CapabilityRegistry) (c : Call) → IsDead i r → IsDead i (step r c)
step-IsDead i r (issues owner_task rights) dead = issue-IsDead i r owner_task rights dead
step-IsDead i r (derives parent owner_task requested) dead =
    derive_cases (λ out. IsDead i out.1) r parent owner_task requested (λ _. dead)
      λ held child _ _. issue-IsDead i r owner_task child dead
step-IsDead i r (revokes handle) dead =
    revoke_cases (λ out. IsDead i out.1) r handle (λ _. dead)
      λ found e. (omega (arith, count-after_revoke r handle i e), dead.1)

run-IsDead : (i : ℕ) (r : CapabilityRegistry) (cs : List Call) → IsDead i r → IsDead i (run r cs)
unfolding run
run-IsDead i r [] dead = dead
run-IsDead i r (c ∷ cs) dead = run-IsDead i (step r c) cs (step-IsDead i r c dead)

after_revoke-IsDead :
    (r : CapabilityRegistry) (h : CapabilityHandle) (found : CapabilityRecord)
    → IsValid r
    → find (is_live h) r.records ≡ some found
    → IsDead h.id (after_revoke r h)
after_revoke-IsDead r h found v e = (
  ground (arith, v.unique h.id, count-after_revoke r h h.id e),
  elim (dec_lt h.id r.next_id) [
    | yes old ↦ old
    | no new ↦ absurd (ground (arith, v.fresh h.id, count-after_revoke r h h.id e))
  ],
)

-- A handle that was revoked with success in a well-formed registry never resolves again,
-- whatever is issued, derived and revoked afterwards.
pub revoke_forever :
    (r s : CapabilityRegistry) (h : CapabilityHandle) (cs : List Call)
    → IsValid r
    → revoke h r ≡ (ok tt, s)
    → resolve (run s cs) h ≡ err KernelError.not_found
revoke_forever r s h cs v =
    revoke_cases (λ out. out ≡ (ok tt, s) → resolve (run s cs) h ≡ err KernelError.not_found) r h
      (λ e p. absurd (ground arith))
      λ found e p.
        IsDead-resolve (run s cs) h
          (run-IsDead h.id s cs
            (subst (IsDead h.id) (ap (λ q. q.1) p) (after_revoke-IsDead r h found v e))).0

-- Revoking, whether it succeeds or not, does not change what a handle with another identifier
-- resolves to, a handle that was derived from the revoked one included.
resolve-revoke_other :
    (r : CapabilityRegistry) (h k : CapabilityHandle)
    → k.id ≢ h.id
    → resolve (revoke h r).1 k ≡ resolve r k
resolve-revoke_other r h k ne =
    revoke_cases (λ out. resolve out.1 k ≡ resolve r k) r h (λ _. refl)
      λ found e. resolve_congr (after_revoke r h) r k λ p.
        find-update_first_miss (is_live h) (is_live k) _ r.records
          λ x hit. (ground arith, ground arith)

-- In a well-formed registry, a successful `derive` of a set of known capabilities gives a handle
-- that resolves to exactly the set requested, and the parent handle resolved to a set with every
-- bit of it.
pub resolve-derive :
    (r s : CapabilityRegistry) (parent child : CapabilityHandle) (owner_task : TaskId)
    (requested : CapabilitySet)
    → IsValid r
    → IsKnown requested
    → derive parent owner_task requested r ≡ (ok child, s)
    → (resolve s child ≡ ok requested)
      × (held : CapabilitySet) × (resolve r parent ≡ ok held)
      × IsWithin requested held
resolve-derive r s parent child owner_task requested v known =
    derive_cases
      (λ out.
        out ≡ (ok child, s)
        → (resolve s child ≡ ok requested)
          × (held : CapabilitySet) × (resolve r parent ≡ ok held)
          × IsWithin requested held)
      r parent owner_task requested (λ e p. absurd (ground arith))
      λ held granted holds inside p.
        let (all, same) = attenuate-ok held requested inside in
        (
          resolve-issue r s owner_task requested child v known
              (subst (λ g. issue owner_task g r ≡ (ok child, s)) (sym same) p),
          held,
          holds,
          (contains_all_iff held requested (omega arith)).0 all,
        )
