-- ===== src/Store/Names/Laws.antt =====
-- The shortening of names.
use groot_share.Prelude.{
  ◌-◌, ◌≤◌, ◌≡◌, Text, ◌++◌, length, length-append, length-take, length-drop, take, drop, arith,
}
use groot_share.Store.Names.{truncate_name, display_name_mid}

-- The shortened name never has more than 30 code points, and a name of up to 30 is not changed.
length-truncate_name :
    (s : Text) → (length (truncate_name s) ≤ 30) × (length s ≤ 30 → truncate_name s ≡ s)
unfolding truncate_name
length-truncate_name s = (
  ground (
    arith,
    length-append (take 22 s) (display_name_mid ++ drop (length s - 4) s),
    length-append display_name_mid (drop (length s - 4) s),
    length-take 22 s,
    length-drop (length s - 4) s,
  ),
  λ h. ground arith,
)
