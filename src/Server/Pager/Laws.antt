-- ===== src/Server/Pager/Laws.antt =====
-- The pages of a list.
use groot_share.Prelude.{
  ℕ, zero, suc, ◌+◌, ◌-◌, ◌*◌, ◌/◌, ◌≤◌, ◌<◌, ◌≡◌, refl, sym, ap, ◌∙◌, ◌↔◌, Bool, true, false, List,
  [], ◌∷◌, ◌++◌, ltb, leb, length, take, drop, arith, Bool-cases, inl, inr, length-drop,
  take-append-drop, if◌then◌else◌, ◌==◌,
}
use native.Mathlib.Nat.{lt-div-mul-add}
use groot_share.Server.Pager.{html_page_size, slice_at, pages_of, page_view_for, paginate_slice}

pages-pos : (total size : ℕ) → 1 ≤ pages_of total size
pages-pos total size = go ((total + size - 1) / size)
  where
    go : (q : ℕ) → 1 ≤ (if ltb q 1 then 1 else q)
    go q = ground arith

enough_pages : (total size : ℕ) → 0 < size → total ≤ pages_of total size * size
enough_pages total size h = go ((total + size - 1) / size) (lt-div-mul-add h)
  where
    go : (q : ℕ) → total + size - 1 < q * size + size → total ≤ (if ltb q 1 then 1 else q) * size
    go zero l = omega (arith, l, h)
    go (suc q) l = ground (arith, l, h)

current-bounds :
    (t asked : ℕ)
    → 1 ≤ t
    → let c =
        if ltb t (if ltb asked 1 then 1 else asked)
        then t
        else (if ltb asked 1 then 1 else asked) in
      (1 ≤ c) × (c ≤ t) × ((ltb 1 c ≡ true) ↔ (1 ≤ c - 1)) × ((ltb c t ≡ true) ↔ (c + 1 ≤ t))
current-bounds t asked h = ground arith

-- The page shown is one of the pages, the links to its neighbours are there exactly when those
-- are pages too, and the pages have room for the list.
pub page_view_for-bounds :
    (total asked size : ℕ)
    → let pv = page_view_for total asked size in
      (1 ≤ pv.current)
      × (pv.current ≤ pv.total_pages)
      × ((pv.has_prev ≡ true) ↔ (1 ≤ pv.prev_page))
      × ((pv.has_next ≡ true) ↔ (pv.next_page ≤ pv.last_page))
      × (total ≤ pv.total_pages * pv.page_size)
unfolding page_view_for
page_view_for-bounds total asked size =
    let s = if size == 0 then html_page_size else size in
    let (a, b, c, d) = current-bounds (pages_of total s) asked (pages-pos total s) in
    (a, b, c, d, enough_pages total s (ground arith))

drop-all : {A : Type 0} (n : ℕ) (xs : List A) → length xs ≤ n → drop n xs ≡ []
drop-all zero [] h = refl
drop-all (suc n) [] h = refl
drop-all zero (x ∷ xs) h = ground arith
drop-all (suc n) (x ∷ xs) h = drop-all n xs (omega (arith, h))

drop-nil : {A : Type 0} (n : ℕ) → drop {A = A} n [] ≡ []
drop-nil zero = refl
drop-nil (suc n) = refl

drop-drop : {A : Type 0} (n k m : ℕ) (xs : List A) → m ≡ n + k → drop k (drop n xs) ≡ drop m xs
drop-drop zero k m xs e = let f : m ≡ k = omega (arith, e) in ap (λ j. drop j xs) (sym f)
drop-drop (suc n) k m [] e = drop-nil k ∙ sym (drop-nil m)
drop-drop (suc n) k zero (x ∷ xs) e = ground arith
drop-drop (suc n) k (suc m) (x ∷ xs) e = drop-drop n k m xs (omega (arith, e))

take-clamped :
    {A : Type 0} (n k : ℕ) (xs : List A) → length xs ≤ n → length xs ≤ k → take n xs ≡ take k xs
take-clamped zero zero xs h l = refl
take-clamped (suc n) (suc k) [] h l = refl
take-clamped zero (suc k) [] h l = refl
take-clamped (suc n) zero [] h l = refl
take-clamped zero (suc k) (x ∷ xs) h l = ground arith
take-clamped (suc n) zero (x ∷ xs) h l = ground arith
take-clamped (suc n) (suc k) (x ∷ xs) h l =
    rw (take-clamped n k xs (omega (arith, h)) (omega (arith, l)))

take-nil : {A : Type 0} (n : ℕ) → take {A = A} n [] ≡ []
take-nil zero = refl
take-nil (suc n) = refl

slice :
    {A : Type 0} (items : List A) (start size : ℕ)
    → (b : Bool) → leb (length items) start ≡ b
    → (if b
        then []
        else take
            ((if ltb (length items) (start + size) then length items else start + size) - start)
            (drop start items))
      ≡ take size (drop start items)
slice items start size true e =
    sym (ap (take size) (drop-all start items (ground arith)) ∙ take-nil size)
slice items start size false e = elim (Bool-cases (ltb (length items) (start + size))) [
  | inl f ↦ rw f (
      take-clamped (length items - start) size (drop start items)
        (omega (arith, length-drop start items)) (ground (arith, length-drop start items)))
  | inr f ↦
      rw f
        (let g : start + size - start ≡ size = omega arith in ap (λ n. take n (drop start items)) g)
]

slice_at-take :
    {A : Type 0} (items : List A) (start size : ℕ)
    → slice_at items start size ≡ take size (drop start items)
slice_at-take [] start size = sym (ap (take size) (drop-nil start) ∙ take-nil size)
slice_at-take (x ∷ items) start size =
    rw zero-ne (slice (x ∷ items) start size (leb (length (x ∷ items)) start) refl)
  where
    zero-ne : (length (x ∷ items) == 0) ≡ false
    zero-ne = ground arith

-- What a page of the list shows.
page-content :
    {A : Type 0} (items : List A) (p size : ℕ)
    → 0 < size
    → p < pages_of (length items) size
    → (paginate_slice items (suc p) size).0 ≡ take size (drop (p * size) items)
unfolding paginate_slice page_view_for
page-content {A} items p size h k =
    ap (λ c. slice_at items ((c - 1) * size) size) current
    ∙ ap (λ n. slice_at items (n * size) size) pred
    ∙ slice_at-take items (p * size) size
  where
    current : (page_view_for (length items) (suc p) size).current ≡ suc p
    current = ground arith

    pred : suc p - 1 ≡ p
    pred = omega arith

-- The pages from number `p + 1` on, `n` of them, one after the other.
abbrev pub pages_from : {A : Type 0} → List A → ℕ → ℕ → ℕ → List A
pages_from items size p zero = []
pages_from items size p (suc n) =
    (paginate_slice items (suc p) size).0 ++ pages_from items size (suc p) n

from-offset :
    {A : Type 0} (items : List A) (size p n : ℕ)
    → 0 < size
    → p + n ≡ pages_of (length items) size
    → pages_from items size p n ≡ drop (p * size) items
from-offset items size p zero h e = sym (drop-all (p * size) items (omega (arith, enough)))
  where
    p-all : p ≡ pages_of (length items) size
    p-all = omega (arith, e)

    enough : length items ≤ p * size
    enough = rw p-all (enough_pages (length items) size h)
from-offset items size p (suc n) h e =
    rw
      (
        page-content items p size h (omega (arith, e)),
        from-offset items size (suc p) n h (omega (arith, e)),
      )
      (ap (λ rest. take size (drop (p * size) items) ++ rest)
          (sym (drop-drop (p * size) size (suc p * size) items distrib))
        ∙ take-append-drop size (drop (p * size) items))
  where
    distrib : suc p * size ≡ p * size + size
    distrib = omega arith

-- The pages of a list, from the first to the last, are the list: every item is on exactly one
-- page, in order, for every page size but 0.
pub paginate_slice-cover :
    {A : Type 0} (items : List A) (size : ℕ)
    → 0 < size
    → pages_from items size 0 (page_view_for (length items) 1 size).total_pages ≡ items
unfolding page_view_for
paginate_slice-cover items size h = rw positive (
    from-offset items size 0 (pages_of (length items) size) h (omega arith)
    ∙ ap (λ n. drop n items) none_before)
  where
    positive : (size == 0) ≡ false
    positive = ground (arith, h)

    none_before : 0 * size ≡ 0
    none_before = omega arith
