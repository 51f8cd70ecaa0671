-- ===== src/Store/Rows.antt =====
-- Tables as lists of rows: what UPDATE and COUNT do to the row that a key finds.
use groot_share.Prelude.{
  ℕ, ◌+◌, ◌≤◌, ◌≡◌, refl, Bool, true, ◌&&◌, List, [], ◌∷◌, Option, none, some, if◌then◌else◌, find,
  update_if, count_if, keep_if, not, ◌++◌, arith,
}

abbrev pub one_if : Bool → ℕ
one_if b = if b then 1 else 0

module _ {ℓ} {A : Type ℓ} where
  -- At most one row has the key.
  abbrev pub IsUnique : (A → Bool) → List A → Type 0
  IsUnique k xs = count_if k xs ≤ 1

  -- The row that has the key, if there is one, satisfies `P`.
  abbrev pub updated : (A → Bool) → (A → A) → Option A → Option A
  updated p f none = none
  updated p f (some r) = some (if p r then f r else r)

  -- UPDATE … WHERE key AND p, where the update leaves the key alone.
  pub find-update_if :
      (k p : A → Bool) (f : A → A)
      → ((x : A) → k (f x) ≡ k x)
      → (xs : List A) → find k (update_if (λ x. k x && p x) f xs) ≡ updated p f (find k xs)
  find-update_if k p f keeps [] = refl
  find-update_if k p f keeps (x ∷ xs) = ground (arith, find-update_if k p f keeps xs, keeps x)

  pub count-none :
      (k p : A → Bool) (xs : List A) → count_if k xs ≡ 0 → count_if (λ x. k x && p x) xs ≡ 0
  count-none k p [] h = refl
  count-none k p (x ∷ xs) h = ground (arith, count-none k p xs)

  -- The rows that UPDATE … WHERE key AND p affects: one, if the keyed row passes `p`.
  pub count-keyed :
      (k p : A → Bool) (xs : List A) (r : A)
      → IsUnique k xs
      → find k xs ≡ some r
      → count_if (λ x. k x && p x) xs ≡ (if p r then 1 else 0)
  count-keyed k p [] r u e = cc
  count-keyed k p (x ∷ xs) r u e = ground (arith, count-keyed k p xs r, count-none k p xs)

  pub count-missing :
      (k p : A → Bool) (xs : List A) → find k xs ≡ none → count_if (λ x. k x && p x) xs ≡ 0
  count-missing k p [] e = refl
  count-missing k p (x ∷ xs) e = ground (arith, count-missing k p xs)

  -- An update that leaves `k` alone leaves its count alone.
  pub count-update_if :
      (k q : A → Bool) (f : A → A)
      → ((x : A) → k (f x) ≡ k x)
      → (xs : List A) → count_if k (update_if q f xs) ≡ count_if k xs
  count-update_if k q f keeps [] = refl
  count-update_if k q f keeps (x ∷ xs) = ground (arith, count-update_if k q f keeps xs, keeps x)

  pub update-missing :
      (k : A → Bool) (f : A → A) (xs : List A) → count_if k xs ≡ 0 → update_if k f xs ≡ xs
  update-missing k f [] h = refl
  update-missing k f (x ∷ xs) h = ground (arith, update-missing k f xs)

  pub keep-missing :
      (k : A → Bool) (xs : List A) → count_if k xs ≡ 0 → keep_if (λ x. not (k x)) xs ≡ xs
  keep-missing k [] h = refl
  keep-missing k (x ∷ xs) h = ground (arith, keep-missing k xs)

  pub missing_iff : (k : A → Bool) (xs : List A) → find k xs ≡ none → count_if k xs ≡ 0
  missing_iff k [] e = refl
  missing_iff k (x ∷ xs) e = ground (arith, missing_iff k xs)

  -- How an update of the keyed row changes the count of another test.
  pub count-update :
      (k q : A → Bool) (f : A → A) (xs : List A) (r : A)
      → IsUnique k xs
      → find k xs ≡ some r
      → count_if q (update_if k f xs) + one_if (q r) ≡ count_if q xs + one_if (q (f r))
  count-update k q f [] r u e = cc
  count-update k q f (x ∷ xs) r u e = ground (arith, count-update k q f xs r, update-missing k f xs)

  -- How the deletion of the keyed row changes it.
  pub count-delete :
      (k q : A → Bool) (xs : List A) (r : A)
      → IsUnique k xs
      → find k xs ≡ some r
      → count_if q (keep_if (λ x. not (k x)) xs) + one_if (q r) ≡ count_if q xs
  count-delete k q [] r u e = cc
  count-delete k q (x ∷ xs) r u e = ground (arith, count-delete k q xs r, keep-missing k xs)

  pub count-keep_if-le : (q p : A → Bool) (xs : List A) → count_if q (keep_if p xs) ≤ count_if q xs
  count-keep_if-le q p [] = omega arith
  count-keep_if-le q p (x ∷ xs) = ground (arith, count-keep_if-le q p xs)

  pub count-append :
      (q : A → Bool) (xs ys : List A) → count_if q (xs ++ ys) ≡ count_if q xs + count_if q ys
  count-append q [] ys = omega arith
  count-append q (x ∷ xs) ys = omega (arith, count-append q xs ys)

-- A row that a DELETE does not select is found as before.
pub find-keep_if :
    {A : Type 0} (p q : A → Bool)
    → ((a : A) → p a ≡ true → q a ≡ true)
    → (xs : List A) → find p (keep_if q xs) ≡ find p xs
find-keep_if p q h [] = refl
find-keep_if p q h (x ∷ xs) = ground (arith, h x, find-keep_if p q h xs)

-- What a lookup finds passes its test, and is not among the rows that were deleted.
pub find-passes :
    {A : Type 0} (p : A → Bool) (xs : List A) (a : A) → find p xs ≡ some a → p a ≡ true
find-passes p [] a e = cc
find-passes p (x ∷ xs) a e = ground (arith, find-passes p xs a)

pub find-kept :
    {A : Type 0} (p q : A → Bool) (xs : List A) (a : A)
    → find p (keep_if q xs) ≡ some a
    → q a ≡ true
find-kept p q [] a e = cc
find-kept p q (x ∷ xs) a e = ground (arith, find-kept p q xs a)

pub find-erased :
    {A : Type 0} (p : A → Bool) (xs : List A) → find p (keep_if (λ x. not (p x)) xs) ≡ none
find-erased p [] = refl
find-erased p (x ∷ xs) = ground (arith, find-erased p xs)

count-found :
    {A : Type 0} (p q : A → Bool) (xs : List A) (a : A)
    → find p xs ≡ some a
    → q a ≡ true
    → 1 ≤ count_if q xs
count-found p q [] a e h = cc
count-found p q (x ∷ xs) a e h = ground (arith, count-found p q xs a)

-- The row found under one key is the one found under a unique key that it has.
pub find_unique :
    {A : Type 0} (p q : A → Bool) (xs : List A) (a : A)
    → IsUnique q xs
    → find p xs ≡ some a
    → q a ≡ true
    → find q xs ≡ some a
find_unique p q [] a u e h = cc
find_unique p q (x ∷ xs) a u e h = ground (arith, find_unique p q xs a, count-found p q xs a)

pub find-keep_found :
    {A : Type 0} (p q : A → Bool) (xs : List A) (a : A)
    → find p xs ≡ some a
    → q a ≡ true
    → find p (keep_if q xs) ≡ some a
find-keep_found p q [] a e h = cc
find-keep_found p q (x ∷ xs) a e h = ground (arith, find-keep_found p q xs a)

-- A DELETE of rows that a selection leaves out.
pub keep_if-keep_if :
    {A : Type 0} (p q : A → Bool)
    → ((a : A) → q a ≡ true → p a ≡ true)
    → (xs : List A) → keep_if q (keep_if p xs) ≡ keep_if q xs
keep_if-keep_if p q h [] = refl
keep_if-keep_if p q h (x ∷ xs) = ground (arith, h x, keep_if-keep_if p q h xs)
