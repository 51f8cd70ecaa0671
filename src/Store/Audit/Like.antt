-- ===== src/Store/Audit/Like.antt =====
-- The filter on actors and the wildcards of LIKE.
use groot_share.Prelude.{
  ℕ, ◌≡◌, refl, arith, Text, codes, Bool, true, false, ◌&&◌, ◌||◌, [], ◌∷◌, ◌++◌, map, ◌==◌, ap,
  ◌∙◌, sym, not, text_eq,
}
use groot_share.Time.{is_zero, rfc3339, stamp_lt}
use groot_share.Store.Types.{AuditRow}
use groot_share.Blob.Keys.{contains-nothing, has_prefix, contains}
use groot_share.Store.Audit.{
  escape_like, like, fold_case, any_suffix, after_same, AuditFilter, audit_where,
}

abbrev folded : Text → Text
folded = map fold_case

any_suffix-empty : (t : Text) → any_suffix (like false []) t ≡ true
unfolding like
any_suffix-empty [] = refl
any_suffix-empty (c ∷ t) = ground (arith, any_suffix-empty t)

-- What one character of the filter matches, escaped or not.
like-escaped :
    (c : ℕ) (s t : Text)
    → like false (escape_like (c ∷ s) ++ codes "%") t
      ≡ after_same c (like false (escape_like s ++ codes "%")) t
unfolding like escape_like
like-escaped c s t = ground arith

like-prefix :
    (s t : Text) → like false (escape_like s ++ codes "%") t ≡ has_prefix (folded t) (folded s)
unfolding like escape_like has_prefix
like-prefix [] t = any_suffix-empty t
like-prefix (c ∷ s) [] = like-escaped c s []
like-prefix (c ∷ s) (d ∷ t) =
    like-escaped c s (d ∷ t) ∙ ap (λ b. fold_case d == fold_case c && b) (like-prefix s t)

like-contains :
    (s t : Text)
    → any_suffix (like false (escape_like s ++ codes "%")) t ≡ contains (folded t) (folded s)
unfolding contains
like-contains s [] = like-prefix s []
like-contains s (d ∷ t) =
    ap (λ b. b || any_suffix (like false (escape_like s ++ codes "%")) t) (like-prefix s (d ∷ t))
    ∙ ap (λ b. has_prefix (folded (d ∷ t)) (folded s) || b) (like-contains s t)

-- The filter on actors selects the events whose actor contains its text, letter for letter but for
-- the case of ASCII letters: a per cent sign, an underscore or a backslash of the text stands for
-- itself. The other two clauses are an exact action and a time that is not earlier.
pub audit_where-literal :
    (f : AuditFilter) (r : AuditRow)
    → audit_where f r ≡ (
        contains (map fold_case r.actor) (map fold_case f.actor)
        && ((text_eq f.action [] || text_eq r.action f.action)
            && (is_zero f.since || not (stamp_lt r.created_at (rfc3339 f.since)))))
unfolding audit_where like text_eq
audit_where-literal f r = ap (λ b. b && others) (literal f.actor r.actor)
  where
    others : Bool
    others =
        (text_eq f.action [] || text_eq r.action f.action)
        && (is_zero f.since || not (stamp_lt r.created_at (rfc3339 f.since)))

    literal :
        (s t : Text)
        → (text_eq s [] || like false (codes "%" ++ escape_like s ++ codes "%") t)
          ≡ contains (folded t) (folded s)
    literal [] t = sym (contains-nothing (folded t))
    literal (c ∷ s) t = like-contains (c ∷ s) t
