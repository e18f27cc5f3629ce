-- ===== src/Common/Search.antt =====
-- What an update of the first match does to the searches and the counts of a table.
use Prim.Native.Nat.{ℕ, zero, suc, ◌+◌, ◌≤◌}
use mathlib.Core.Path.{◌≡◌, refl, subst}
use mathlib.Core.Logic.{◌⊎◌, inl, inr}
use mathlib.Core.Bool.{Bool, true, false, not}
use mathlib.Core.Option.{none, some}
use mathlib.Core.List.{List, [], ◌∷◌}
use native.Mathlib.Omega.{arith}
use alani_kernel.Common.Tests.{if◌then◌else◌, Option-cases, Bool-cases}
use alani_kernel.Common.Lists.{find, update_first, count, length, replicate, get_or}

-- One for a test that holds.
abbrev pub tally : Bool → ℕ
tally b = if b then 1 else 0

module _ {ℓ} {A : Type ℓ} where
  -- A search fails exactly where nothing is counted.
  pub find-none : (p : A → Bool) (xs : List A) → count p xs ≡ 0 → find p xs ≡ none
  find-none p [] h = refl
  find-none p (x ∷ xs) h = ground (arith, find-none p xs)

  pub count-find-none : (p : A → Bool) (xs : List A) → find p xs ≡ none → count p xs ≡ 0
  count-find-none p [] h = refl
  count-find-none p (x ∷ xs) h = ground (arith, count-find-none p xs)

  pub count-find-some : (p : A → Bool) (xs : List A) {x : A} → find p xs ≡ some x → 1 ≤ count p xs
  count-find-some p [] h = absurd (ground arith)
  count-find-some p (y ∷ xs) {x} h = ground (arith, count-find-some p xs {x = x})

  -- The write trades the count of the old entry for that of the new one.
  pub count-update_first :
      (p q : A → Bool) (f : A → A) (xs : List A) {x : A}
      → find p xs ≡ some x
      → count q (update_first p f xs) + tally (q x) ≡ count q xs + tally (q (f x))
  count-update_first p q f [] h = absurd (ground arith)
  count-update_first p q f (y ∷ xs) {x} h = ground (arith, count-update_first p q f xs {x = x})

  -- A write between entries that a search passes over does not change what it finds.
  pub find-update_first_miss :
      (p q : A → Bool) (f : A → A) (xs : List A)
      → ((x : A) → p x ≡ true → (q x ≡ false) × (q (f x) ≡ false))
      → find q (update_first p f xs) ≡ find q xs
  find-update_first_miss p q f [] h = refl
  find-update_first_miss p q f (x ∷ xs) h = ground (arith, h x, find-update_first_miss p q f xs h)

  -- Where nothing matched before, a search finds the entry written.
  pub find-update_first_hit :
      (p q : A → Bool) (f : A → A) (xs : List A) {x : A}
      → find p xs ≡ some x
      → q (f x) ≡ true
      → count q xs ≡ 0
      → find q (update_first p f xs) ≡ some (f x)
  find-update_first_hit p q f [] e h c = absurd (ground arith)
  find-update_first_hit p q f (y ∷ xs) {x} e h c =
      ground (arith, find-update_first_hit p q f xs {x = x})

  -- A write at the place that the search itself finds.
  pub find-update_first_self :
      (p : A → Bool) (f : A → A) (xs : List A) {x : A}
      → find p xs ≡ some x
      → p (f x) ≡ true
      → find p (update_first p f xs) ≡ some (f x)
  find-update_first_self p f [] e h = absurd (ground arith)
  find-update_first_self p f (y ∷ xs) {x} e h =
      ground (arith, find-update_first_self p f xs {x = x})

  pub count-le-length : (p : A → Bool) (xs : List A) → count p xs ≤ length xs
  count-le-length p [] = omega arith
  count-le-length p (x ∷ xs) = ground (arith, count-le-length p xs)

  pub count_mono :
      (p q : A → Bool) (xs : List A) → ((x : A) → p x ≡ true → q x ≡ true) → count p xs ≤ count q xs
  count_mono p q [] h = omega arith
  count_mono p q (x ∷ xs) h = ground (arith, h x, count_mono p q xs h)

  pub count-replicate : (p : A → Bool) (n : ℕ) (a : A) → p a ≡ false → count p (replicate n a) ≡ 0
  count-replicate p zero a h = refl
  count-replicate p (suc n) a h = ground (arith, count-replicate p n a h)

  -- A write that does not change what a test says keeps its count.
  pub count-update_first_keep :
      (p q : A → Bool) (f : A → A) (xs : List A)
      → ((x : A) → q (f x) ≡ q x)
      → count q (update_first p f xs) ≡ count q xs
  count-update_first_keep p q f [] h = refl
  count-update_first_keep p q f (x ∷ xs) h = ground (arith, h x, count-update_first_keep p q f xs h)

  -- An entry that passes is counted, where the default outside the table does not pass.
  pub count-get_or :
      (p : A → Bool) (xs : List A) (i : ℕ) (d : A)
      → p d ≡ false
      → p (get_or xs i d) ≡ true
      → 1 ≤ count p xs
  count-get_or p [] i d out h = absurd (ground arith)
  count-get_or p (x ∷ xs) zero d out h = ground arith
  count-get_or p (x ∷ xs) (suc i) d out h = ground (arith, count-get_or p xs i d out h)

  -- A test that is met is passed by what the search finds.
  pub find-count : (p : A → Bool) (xs : List A) → 1 ≤ count p xs → (x : A) × (find p xs ≡ some x)
  find-count p xs h = elim (Option-cases (find p xs)) [
    | inl nothing ↦ absurd (omega (arith, count-find-none p xs nothing))
    | inr found ↦ found
  ]

  pub count-complement :
      (p : A → Bool) (xs : List A) → count p xs + count (λ x. not (p x)) xs ≡ length xs
  count-complement p [] = refl
  count-complement p (x ∷ xs) = ground (arith, count-complement p xs)

  -- The only entry that passes is what the search finds.
  pub find-get_or :
      (p : A → Bool) (xs : List A) (i : ℕ) (d : A)
      → count p xs ≤ 1
      → p d ≡ false
      → p (get_or xs i d) ≡ true
      → find p xs ≡ some (get_or xs i d)
  find-get_or p [] i d one out h = absurd (ground arith)
  find-get_or p (x ∷ xs) zero d one out h = ground arith
  find-get_or p (x ∷ xs) (suc i) d one out h =
      ground (arith, find-get_or p xs i d, count-get_or p xs i d out h)

  -- A write after which no more entries pass a test than before.
  pub count-update_first_le :
      (p q : A → Bool) (f : A → A) (xs : List A)
      → ((x : A) → q (f x) ≡ true → q x ≡ true)
      → count q (update_first p f xs) ≤ count q xs
  count-update_first_le p q f [] h = omega arith
  count-update_first_le p q f (x ∷ xs) h = ground (arith, h x, count-update_first_le p q f xs h)

  -- Where nothing passes a test, what a search finds does not.
  pub find-fails :
      (p q : A → Bool) (xs : List A) {x : A} → count q xs ≡ 0 → find p xs ≡ some x → q x ≡ false
  find-fails p q [] none_pass e = absurd (ground arith)
  find-fails p q (y ∷ xs) {x} none_pass e = elim (Bool-cases (p y)) [
    | inl here ↦ subst (λ z. q z ≡ false) {x = y} (ground (arith, here)) (ground arith)
    | inr past ↦ find-fails p q xs (ground arith) (ground (arith, past))
  ]

  -- What a search finds after a write that its test does not see: an entry from before, or the new one.
  pub find-update_first_keep :
      (p q : A → Bool) (f : A → A) (xs : List A) {y : A}
      → ((x : A) → q (f x) ≡ q x)
      → find q (update_first p f xs) ≡ some y
      → (x : A) × (find q xs ≡ some x) × ((y ≡ x) ⊎ ((p x ≡ true) × (y ≡ f x)))
  find-update_first_keep p q f [] keeps e = absurd (ground arith)
  find-update_first_keep p q f (x ∷ xs) {y} keeps e = elim (Bool-cases (q x)) [
    | inr miss ↦ elim (Bool-cases (p x)) [
      | inl here ↦ (y, ground (arith, miss, here, keeps x), inl refl)
      | inr past ↦
          let (z, found, same) =
            find-update_first_keep p q f xs {y = y} keeps (ground (arith, miss, past)) in
          (z, ground (arith, miss, found), same)
    ]
    | inl hit ↦ elim (Bool-cases (p x)) [
      | inl here ↦ (x, rw hit refl, inr (here, ground (arith, hit, here, keeps x)))
      | inr past ↦ (x, rw hit refl, inl (ground (arith, hit, past)))
    ]
  ]
