-- ===== src/Store/Archives/Key/Laws.antt =====
-- What a sanitized key is made of.
use groot_share.Prelude.{
  ℕ, zero, suc, ◌≤◌, ◌<◌, ◌≡◌, refl, Text, codes, text_eq, Bool, true, false, ◌&&◌, ◌||◌, [], ◌∷◌,
  length, take, All, arith, ltb, ◌⊎◌, Bool-cases, inl, inr, if◌then◌else◌,
}
use groot_share.Store.Names.{trim_left, trim_right, trim_space, is_space}
use groot_share.Store.Archives.Key.{
  key_char, safe_chars, trim_edges, edge_char, dash, has_double, halve, collapse_rounds,
  collapse_dashes, cut_key, or_default_key, default_key, sanitize_key, base, slashes,
}

abbrev IsKeyChar : ℕ → Type 0
IsKeyChar c = key_char c ≡ true

abbrev Clean : Text → Type 0
Clean = All IsKeyChar

safe_chars-Clean : (s : Text) → Clean (safe_chars s)
unfolding safe_chars
safe_chars-Clean [] = tt
safe_chars-Clean (c ∷ s) = elim (Bool-cases (key_char c)) [
  | inl e ↦ rw e (e, safe_chars-Clean s)
  | inr e ↦ rw e (elim (Bool-cases (is_space c)) [
    | inl f ↦ rw f (refl, safe_chars-Clean s)
    | inr f ↦ rw f (safe_chars-Clean s)
  ])
]

-- What a trim leaves is a part of the text.
trim_left-part :
    (cut : ℕ → Bool) (s : Text)
    → Clean s
    → Clean (trim_left cut s) × (length (trim_left cut s) ≤ length s)
unfolding trim_left
trim_left-part cut [] h = (tt, omega arith)
trim_left-part cut (c ∷ s) (hc, h) = elim (Bool-cases (cut c)) [
  | inl e ↦ rw e ((trim_left-part cut s h).0, omega (arith, (trim_left-part cut s h).1))
  | inr e ↦ rw e ((hc, h), omega arith)
]

trim_right-part :
    (cut : ℕ → Bool) (s : Text)
    → Clean s
    → Clean (trim_right cut s) × (length (trim_right cut s) ≤ length s)
unfolding trim_right
trim_right-part cut [] h = (tt, omega arith)
trim_right-part cut (c ∷ s) (hc, h) =
    go (trim_right cut s) (trim_right-part cut s h) (Bool-cases (cut c))
  where
    go :
        (rest : Text)
        → Clean rest × (length rest ≤ length s)
        → (cut c ≡ true) ⊎ (cut c ≡ false)
        → let r = elim rest as (λ _. Text) [
          | [] ↦ if cut c then [] else c ∷ []
          | d ∷ ds ↦ c ∷ d ∷ ds
        ] in
          Clean r × (length r ≤ suc (length s))
    go (d ∷ ds) (k, l) _ = ((hc, k), omega (arith, l))
    go [] (k, l) (inl e) = rw e (tt, omega arith)
    go [] (k, l) (inr e) = rw e ((hc, tt), omega arith)

trim_edges-part : (s : Text) → Clean s → Clean (trim_edges s) × (length (trim_edges s) ≤ length s)
unfolding trim_edges
trim_edges-part s h =
    let (k, l) = trim_left-part edge_char s h in
    let (k', l') = trim_right-part edge_char (trim_left edge_char s) k in (k', omega (arith, l, l'))

take-part : (n : ℕ) (s : Text) → Clean s → Clean (take n s) × (length (take n s) ≤ n)
take-part zero s h = (tt, omega arith)
take-part (suc n) [] h = (tt, omega arith)
take-part (suc n) (c ∷ s) (hc, h) = ((hc, (take-part n s h).0), omega (arith, (take-part n s h).1))

halve-Clean : (s : Text) → Clean s → Clean (halve s)
unfolding halve
halve-Clean [] h = tt
halve-Clean (c ∷ []) h = h
halve-Clean (c ∷ d ∷ s) (hc, (hd, h)) = elim (Bool-cases (dash c && dash d)) [
  | inl e ↦ rw e (refl, halve-Clean s h)
  | inr e ↦ rw e (hc, halve-Clean (d ∷ s) (hd, h))
]

-- A round makes the text no longer, and shorter where there is a double dash.
length-halve :
    (s : Text) → (length (halve s) ≤ length s) × (has_double s ≡ true → length (halve s) < length s)
unfolding halve has_double
length-halve [] = ground arith
length-halve (c ∷ []) = ground arith
length-halve (c ∷ d ∷ s) = ground (arith, length-halve s, length-halve (d ∷ s))

collapse-Clean : (fuel : ℕ) (s : Text) → Clean s → Clean (collapse_rounds fuel s)
unfolding collapse_rounds
collapse-Clean zero s h = h
collapse-Clean (suc fuel) s h = elim (Bool-cases (has_double s)) [
  | inl e ↦ rw e (collapse-Clean fuel (halve s) (halve-Clean s h))
  | inr e ↦ rw e h
]

-- Enough fuel: no double dash is left.
collapse-done :
    (fuel : ℕ) (s : Text) → length s ≤ fuel → has_double (collapse_rounds fuel s) ≡ false
unfolding collapse_rounds has_double
collapse-done zero [] h = refl
collapse-done zero (c ∷ s) h = ground arith
collapse-done (suc fuel) s h = elim (Bool-cases (has_double s)) [
  | inl e ↦ rw e (collapse-done fuel (halve s) (omega (arith, (length-halve s).1 e)))
  | inr e ↦ rw e e
]

-- Collapsing dashes ends within as many rounds as the text has bytes, and no two dashes stand
-- side by side in what it leaves.
pub collapse_dashes-done : (s : Text) → has_double (collapse_dashes s) ≡ false
unfolding collapse_dashes
collapse_dashes-done s = collapse-done (length s) s (omega arith)

-- Between 1 and 200 characters, each a letter, a digit, a dot, a dash or an underscore.
abbrev pub IsSafeKey : Text → Type 0
IsSafeKey s = (1 ≤ length s) × (length s ≤ 200) × All IsKeyChar s

default_key-IsSafeKey : IsSafeKey default_key
default_key-IsSafeKey = (ground arith, ground arith, ground arith)

or_default-IsSafeKey : (s : Text) → Clean s → length s ≤ 200 → IsSafeKey (or_default_key s)
unfolding text_eq
or_default-IsSafeKey [] h l = default_key-IsSafeKey
or_default-IsSafeKey (c ∷ s) h l = (omega arith, l, h)

cut_key-part : (s : Text) → Clean s → Clean (cut_key s) × (length (cut_key s) ≤ 200)
cut_key-part s h = elim (Bool-cases (ltb 200 (length s))) [
  | inl e ↦ rw e (
      let (k, l) = take-part 200 s h in
      let (k', l') = trim_edges-part (take 200 s) k in (k', omega (arith, l, l')))
  | inr e ↦ rw e (h, ground arith)
]

abbrev collapsed : Text → Text
collapsed k = collapse_dashes (trim_edges (safe_chars k))

collapsed-Clean : (k : Text) → Clean (collapsed k)
unfolding collapse_dashes
collapsed-Clean k =
    collapse-Clean (length (trim_edges (safe_chars k))) (trim_edges (safe_chars k))
      (trim_edges-part (safe_chars k) (safe_chars-Clean k)).0

-- The key that an upload is stored under always has between 1 and 200 characters, each a letter,
-- a digit, a dot, a dash or an underscore, whatever name the client sent.
pub sanitize_key-IsSafeKey : (key : Text) → IsSafeKey (sanitize_key key)
unfolding sanitize_key
sanitize_key-IsSafeKey key = go (trim_space (base (slashes key)))
  where
    second :
        (c : Text)
        → Clean c
        → (b : Bool) → IsSafeKey (if b then default_key else or_default_key (cut_key c))
    second c h true = default_key-IsSafeKey
    second c h false = or_default-IsSafeKey (cut_key c) (cut_key-part c h).0 (cut_key-part c h).1

    first :
        (k : Text) (b : Bool)
        → IsSafeKey (
            if b
            then default_key
            else if text_eq (collapsed k) []
            then default_key
            else or_default_key (cut_key (collapsed k)))
    first k true = default_key-IsSafeKey
    first k false = second (collapsed k) (collapsed-Clean k) (text_eq (collapsed k) [])

    go :
        (k : Text)
        → IsSafeKey (
            if text_eq k [] || text_eq k (codes ".") || text_eq k (codes "/")
            then default_key
            else if text_eq (collapsed k) []
            then default_key
            else or_default_key (cut_key (collapsed k)))
    go k = first k (text_eq k [] || text_eq k (codes ".") || text_eq k (codes "/"))
