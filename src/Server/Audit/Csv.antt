-- ===== src/Server/Audit/Csv.antt =====
-- The fields of the export and a reader of them.
use groot_share.Prelude.{
  ℕ, ◌==◌, ◌≡◌, refl, arith, ap, ◌∙◌, Text, Bool, true, false, ◌||◌, [], ◌∷◌, ◌++◌, any,
  if◌then◌else◌, Bool-cases, inl, inr,
}
use groot_share.Server.Audit.{is_quote, needs_quotes, double_quotes, csv_field}

-- A reader of CSV by RFC 4180: a field and what follows it. In quotes, a quote ends the field
-- unless another one follows; the flag tells that a quote has just been read.
read_quoted : Bool → Text → Text × Text
read_quoted after_quote [] = ([], [])
read_quoted true (c ∷ s) =
    let (field, rest) = read_quoted false s in if is_quote c then (c ∷ field, rest) else ([], c ∷ s)
read_quoted false (c ∷ s) =
    let (field, rest) = read_quoted false s in
    let closed = read_quoted true s in if is_quote c then closed else (c ∷ field, rest)

abbrev is_end : ℕ → Bool
is_end c = c == b',' || c == 10 || c == 13

read_plain : Text → Text × Text
read_plain [] = ([], [])
read_plain (c ∷ s) =
    let (field, rest) = read_plain s in if is_end c then ([], c ∷ s) else (c ∷ field, rest)

unfoldable pub read_field : Text → Text × Text
unfolding read_quoted read_plain
read_field [] = ([], [])
read_field (c ∷ s) =
    let quoted = read_quoted false s in if is_quote c then quoted else read_plain (c ∷ s)

read_quoted-double :
    (s : Text) (c : ℕ) (rest : Text)
    → is_quote c ≡ false
    → read_quoted false (double_quotes s ++ b'"' ∷ c ∷ rest) ≡ (s, c ∷ rest)
unfolding double_quotes read_quoted
read_quoted-double [] c rest h = rw h refl
read_quoted-double (d ∷ s) c rest h = ground (arith, h, read_quoted-double s c rest h)

read_plain-end :
    (s : Text) (c : ℕ) (rest : Text)
    → any needs_quotes s ≡ false
    → is_end c ≡ true
    → read_plain (s ++ c ∷ rest) ≡ (s, c ∷ rest)
unfolding read_plain
read_plain-end [] c rest h e = rw e refl
read_plain-end (d ∷ s) c rest h e = ground (arith, h, e, read_plain-end s c rest)

append_quote :
    (s : Text) (c : ℕ) (rest : Text) → (s ++ b'"' ∷ []) ++ c ∷ rest ≡ s ++ b'"' ∷ c ∷ rest
append_quote [] c rest = refl
append_quote (d ∷ s) c rest = ap (◌∷◌ d) (append_quote s c rest)

end-plain : (c : ℕ) → (c == b',' || c == 10) ≡ true → is_end c ≡ true
end-plain c h = ground (arith, h)

end-unquoted : (c : ℕ) → (c == b',' || c == 10) ≡ true → is_quote c ≡ false
end-unquoted c h = ground (arith, h)

head-unquoted : (d : ℕ) (s : Text) → any needs_quotes (d ∷ s) ≡ false → is_quote d ≡ false
head-unquoted d s e = ground (arith, e)

read_field-plain :
    (s : Text) (c : ℕ) (rest : Text)
    → any needs_quotes s ≡ false
    → (c == b',' || c == 10) ≡ true
    → read_field (s ++ c ∷ rest) ≡ (s, c ∷ rest)
unfolding read_field
read_field-plain [] c rest e h = rw (end-unquoted c h) (read_plain-end [] c rest e (end-plain c h))
read_field-plain (d ∷ s) c rest e h =
    rw (head-unquoted d s e) (read_plain-end (d ∷ s) c rest e (end-plain c h))

read_field-quoted :
    (s : Text) (c : ℕ) (rest : Text)
    → (c == b',' || c == 10) ≡ true
    → read_field ((b'"' ∷ (double_quotes s ++ b'"' ∷ [])) ++ c ∷ rest) ≡ (s, c ∷ rest)
unfolding read_field
read_field-quoted s c rest h =
    ap (read_quoted false) (append_quote (double_quotes s) c rest)
    ∙ read_quoted-double s c rest (end-unquoted c h)

-- Whatever its text, a field of the CSV export that is followed by a comma or the end of the line
-- is read back by a reader of RFC 4180 as the same text, and no further than its end.
pub csv_field-read_field :
    (s : Text) (c : ℕ) (rest : Text)
    → (c == b',' || c == 10) ≡ true
    → read_field (csv_field s ++ c ∷ rest) ≡ (s, c ∷ rest)
unfolding csv_field
csv_field-read_field s c rest h = elim (Bool-cases (any needs_quotes s)) [
  | inl e ↦ rw e (read_field-quoted s c rest h)
  | inr e ↦ rw e (read_field-plain s c rest e h)
]
