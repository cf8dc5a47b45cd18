-- ===== src/Redis/Pages/Cursors.antt =====
-- redis/directory.go: cursors.
use stable_placement.Base.{
  ◌≡◌, refl, ap, ◌∙◌, ◌≢◌, inr, ℕ, ◌≤◌, ℤ, Option, [], ◌∷◌, Text, itoa, atoi-itoa, arith,
}
use stable_placement.Model.{ok}
use stable_placement.Redis.Ids.{cut-plain, itoa-plain}
use stable_placement.Redis.Pages.{
  max_placement_index_score, format_cursor, checked_score, cursor_parts, parse_cursor,
}

-- A cursor is read back as the place it was made of, if the key is not empty and the score in range.
pub parse_cursor-format_cursor :
    (score : ℕ) (key : Text)
    → score ≤ max_placement_index_score
    → key ≢ []
    → parse_cursor (format_cursor score key) ≡ ok (score, key)
unfolding parse_cursor format_cursor
parse_cursor-format_cursor score [] le named = absurd (named refl)
parse_cursor-format_cursor score (b ∷ bs) le named =
    ap cursor_parts
      (cut-plain 0x3a (itoa score) (b ∷ bs) (itoa-plain 0x3a score (inr (omega arith))))
    ∙ (ap (λ (o : Option ℤ). checked_score o (b ∷ bs)) (atoi-itoa score (omega arith))
        ∙ ground arith)
