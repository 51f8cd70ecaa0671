-- ===== src/Store/Names.antt =====
-- internal/store/name.go: the rules for login ids and display names, over code points.
pub mod Laws
use groot_share.Prelude.{
  ℕ, ◌-◌, Text, codes, text_eq, Bool, true, false, not, ◌&&◌, ◌||◌, List, [], ◌∷◌, ◌++◌, ltb, leb,
  ◌==◌, if◌then◌else◌, length, take, drop,
}
use mathlib.Core.List.{reverse}
use groot_share.Store.World.{
  Result, ok, err, name_required, name_too_long, username_required, username_too_long,
}

-- unicode.IsSpace
abbrev pub is_space : ℕ → Bool
is_space c =
    (leb 9 c && leb c 13)
    || c == 32
    || c == 0x85
    || c == 0xa0
    || c == 0x1680
    || (leb 0x2000 c && leb c 0x200a)
    || c == 0x2028
    || c == 0x2029
    || c == 0x202f
    || c == 0x205f
    || c == 0x3000

unfoldable pub trim_left : (ℕ → Bool) → Text → Text
trim_left cut [] = []
trim_left cut (c ∷ s) = let rest = trim_left cut s in if cut c then rest else c ∷ s

-- The text without the code points at its end that are cut.
unfoldable pub trim_right : (ℕ → Bool) → Text → Text
trim_right cut [] = []
trim_right cut (c ∷ s) = elim (trim_right cut s) [
  | [] ↦ if cut c then [] else c ∷ []
  | d ∷ rest ↦ c ∷ d ∷ rest
]

-- strings.TrimSpace
unfoldable pub trim_space : Text → Text
unfolding trim_left trim_right
trim_space s = trim_right is_space (trim_left is_space s)

-- strings.Fields, with the word that is being read.
abbrev close_word : Text → List Text → List Text
close_word [] words = words
close_word (c ∷ w) words = (c ∷ w) ∷ words

unfoldable pub fields_from : Text → Text → List Text
fields_from word [] = close_word word []
fields_from word (c ∷ s) =
    let closed = close_word word (fields_from [] s) in
    let longer = fields_from (word ++ c ∷ []) s in if is_space c then closed else longer

-- strings.Join
unfoldable pub join : Text → List Text → Text
join sep [] = []
join sep (w ∷ []) = w
join sep (w ∷ v ∷ words) = w ++ sep ++ join sep (v ∷ words)

abbrev pub max_name_runes : ℕ
max_name_runes = 80

abbrev pub max_username_runes : ℕ
max_username_runes = 64

unfoldable pub normalize_username : Text → Result Text
normalize_username s =
    let t = trim_space s in
    if text_eq t []
    then err username_required
    else if ltb max_username_runes (length t)
    then err username_too_long
    else ok t

unfoldable pub normalize_name : Text → Result Text
unfolding fields_from join
normalize_name s =
    let t = join (codes " ") (fields_from [] s) in
    if text_eq t []
    then err name_required
    else if ltb max_name_runes (length t)
    then err name_too_long
    else ok t

abbrev pub display_name_max : ℕ
display_name_max = 30

abbrev pub display_name_tail : ℕ
display_name_tail = 4

-- The middle of a shortened name: a space and an ellipsis of three dots.
abbrev pub display_name_mid : Text
display_name_mid = codes " ..."

-- TruncateName
unfoldable pub truncate_name : Text → Text
truncate_name s =
    if leb (length s) display_name_max
    then s
    else let prefix = display_name_max - display_name_tail - length display_name_mid in
      if ltb prefix 1
      then take display_name_max s
      else take prefix s ++ display_name_mid ++ drop (length s - display_name_tail) s
