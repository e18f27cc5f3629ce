-- ===== src/Common/Ring.antt =====
-- A fixed array written round and round, against the history of what was written, newest first. The
-- audit log and the fault reporter are both such arrays.
use Prim.Native.Nat.{ℕ, zero, suc, ◌+◌, ◌-◌, ◌%◌, ◌≤◌, ◌<◌, min}
use mathlib.Core.Path.{◌≡◌, ◌∙◌, sym, ap}
use mathlib.Core.Logic.{◌≢◌}
use mathlib.Core.List.{List, ◌∷◌}
use native.Mathlib.Nat.{mod-add-mod, mod-eq_of_lt, mod-eq-sub-mod, mod-lt}
use native.Mathlib.Decide.{dec_lt}
use native.Mathlib.Omega.{arith}
use alani_kernel.Common.Tests.{ltb, ◌==◌, if◌then◌else◌}
use alani_kernel.Common.Lists.{length, get_or, set, length-set, get_or-set_self, get_or-set_ne}

-- Fewer than `cap` steps round the array do not come back to the start.
add-mod-ne : (cap h k : ℕ) → h < cap → 0 < k → k < cap → (h + k) % cap ≢ h
add-mod-ne cap h k hh pos hk = elim (dec_lt (h + k) cap) [
  | yes p ↦ omega (arith, mod-eq_of_lt p)
  | no p ↦ omega (
    arith,
    mod-eq-sub-mod {n = h + k} {m = cap} (omega arith),
    mod-eq_of_lt {n = h + k - cap} {m = cap} (omega arith),
  )
]

sub-mod-ne : (cap n k : ℕ) → 0 < k → k < cap → k ≤ n → (n - k) % cap ≢ n % cap
sub-mod-ne cap n k pos small le e =
    add-mod-ne cap ((n - k) % cap) k (mod-lt (n - k) (omega arith)) pos small
      (mod-add-mod (n - k) cap k ∙ ap (λ (t : ℕ). t % cap) (omega arith) ∙ sym e)

-- The index before the one that `m + 1` writes come to.
index_before :
    (cap m : ℕ) → 0 < cap → (if (m + 1) % cap == 0 then cap - 1 else (m + 1) % cap - 1) ≡ m % cap
index_before cap m pos = elim (dec_lt (m % cap + 1) cap) [
  | yes p ↦ ground (arith, mod-add-mod m cap 1, mod-eq_of_lt p)
  | no p ↦ ground (
    arith,
    mod-add-mod m cap 1,
    mod-lt m pos,
    mod-eq-sub-mod {n = m % cap + 1} {m = cap} (omega arith),
    mod-eq_of_lt {n = m % cap + 1 - cap} {m = cap} (omega (arith, mod-lt m pos)),
  )
]

-- The index of entry `i`, counted from the oldest of the `min n cap` that are kept.
index_from_oldest :
    (cap n i : ℕ)
    → 0 < cap
    → i < min n cap
    → ((if min n cap == cap then n % cap else 0) + i) % cap ≡ (n - suc (min n cap - suc i)) % cap
index_from_oldest cap n i pos h = elim (dec_lt n cap) [
  | yes p ↦ ground (arith, ap (λ (t : ℕ). t % cap) (pick-short p))
  | no p ↦ ground (
    arith,
    mod-add-mod n cap i,
    mod-eq-sub-mod {n = n + i} {m = cap} (omega arith),
    ap (λ (t : ℕ). t % cap) (pick-long p),
  )
]
  where
    pick-short : n < cap → n - suc (min n cap - suc i) ≡ i
    pick-short p = omega arith

    pick-long : ¬ (n < cap) → n - suc (min n cap - suc i) ≡ n + i - cap
    pick-long p = omega arith

module _ {ℓ} {A : Type ℓ} (cap : ℕ) (d : A) where
  -- The array, its next index and its count after the writes of `history`.
  pub record IsRing (buf : List A) (cursor count : ℕ) (history : List A) : Type ℓ where
    pub size : length buf ≡ cap
    pub some_room : 0 < cap
    pub at : cursor ≡ length history % cap
    pub kept : count ≡ min (length history) cap
    pub holds :
        (i : ℕ) → i < count → get_or buf ((length history - suc i) % cap) d ≡ get_or history i d

  push-holds :
      (buf : List A) (cursor count : ℕ) (history : List A) (e : A)
      → IsRing buf cursor count history
      → (i : ℕ) → i < (if ltb count cap then count + 1 else count)
      → get_or (set buf cursor e) ((suc (length history) - suc i) % cap) d
        ≡ get_or (e ∷ history) i d
  push-holds buf cursor count history e r zero h =
      rw (newly)
        (get_or-set_self buf cursor e d (rw (r.size, r.at) (mod-lt (length history) r.some_room)))
    where
      newly : (suc (length history) - suc zero) % cap ≡ cursor
      newly = ap (λ (t : ℕ). t % cap) (omega arith) ∙ sym r.at
  push-holds buf cursor count history e r (suc i) h = rw (shift) (
      get_or-set_ne buf cursor ((length history - suc i) % cap) e d apart
      ∙ r.holds i (ground (arith, r.kept)))
    where
      shift : (suc (length history) - suc (suc i)) % cap ≡ (length history - suc i) % cap
      shift = ap (λ (t : ℕ). t % cap) (omega arith)

      apart : cursor ≢ (length history - suc i) % cap
      apart p =
          sub-mod-ne cap (length history) (suc i) (omega arith) (ground (arith, r.kept))
            (ground (arith, r.kept)) (sym p ∙ r.at)

  pub push-IsRing :
      (buf : List A) (cursor count : ℕ) (history : List A) (e : A)
      → IsRing buf cursor count history
      → IsRing
          (set buf cursor e)
          ((cursor + 1) % cap)
          (if ltb count cap then count + 1 else count)
          (e ∷ history)
  push-IsRing buf cursor count history e r = record {
    size = length-set buf cursor e ∙ r.size;
    some_room = r.some_room;
    at = rw r.at (mod-add-mod (length history) cap 1 ∙ ap (λ (t : ℕ). t % cap) (omega arith));
    kept = ground (arith, r.kept);
    holds = push-holds buf cursor count history e r;
  }

  -- The entry before the cursor is the newest.
  pub newest :
      (buf : List A) (cursor count : ℕ) (history : List A)
      → IsRing buf cursor count history
      → 0 < count
      → get_or buf (if cursor == 0 then cap - 1 else cursor - 1) d ≡ get_or history 0 d
  newest buf cursor count history r h = rw (before) (r.holds 0 h)
    where
      some_history : length history - suc zero + 1 ≡ length history
      some_history = omega (arith, r.kept)

      before : (if cursor == 0 then cap - 1 else cursor - 1) ≡ (length history - suc zero) % cap
      before =
          rw r.at (rw some_history at (index_before cap (length history - suc zero) r.some_room))

  -- Counted from the oldest entry that is kept.
  pub oldest :
      (buf : List A) (cursor count : ℕ) (history : List A) (i : ℕ)
      → IsRing buf cursor count history
      → i < count
      → get_or buf (((if count == cap then cursor else 0) + i) % cap) d
        ≡ get_or history (count - suc i) d
  oldest buf cursor count history i r h = rw (index) (r.holds (count - suc i) (omega arith))
    where
      index :
          ((if count == cap then cursor else 0) + i) % cap
          ≡ (length history - suc (count - suc i)) % cap
      index =
          rw (r.at, r.kept) (index_from_oldest cap (length history) i r.some_room (rw (← r.kept) h))
