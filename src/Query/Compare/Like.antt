-- ===== src/Query/Compare/Like.antt =====
-- pkg/query/compare.go: LIKE, by a loop that goes back to the last '%'.
pub mod Reference
pub mod Ends
pub mod Decided
use test_db.Prelude.{
  ℕ, zero, suc, ◌+◌, ◌*◌, Bool, true, false, ◌||◌, Option, none, some, [], ◌∷◌, Str, length, ◌==◌,
  if◌then◌else◌,
}
use test_db.Common.Types.{Value, string, type_eq}
use test_db.Common.Printing.{Runtime, value_string}

-- `starJ` and `matchI`: the pattern after the last '%', and the text where it was met.
abbrev pub Star : Type 0
Star = Option (Str × Str)

-- What stands in the loop: the rest of the text and of the pattern.
abbrev pub Round : Type 0
Round = Str → Str → Star → Option Bool

-- for j < len(pr) && pr[j] == '%'; then j == len(pr)
unfoldable pub only_percents : Str → Bool
only_percents [] = true
only_percents (p ∷ ps) = let rest = only_percents ps in if p == b'%' then rest else false

-- The last two cases of the loop's switch.
unfoldable pub step_back : Star → Round → Option Bool
step_back none next = some false
step_back (some (ps, [])) next = none
step_back (some (ps, x ∷ xs)) next = next xs ps (some (ps, xs))

-- `none` where the fuel ran out.
unfoldable pub like_loop : ℕ → Round
unfolding only_percents step_back
like_loop zero s ps star = none
like_loop (suc f) [] ps star = some (only_percents ps)
like_loop (suc f) (x ∷ xs) [] star = step_back star (like_loop f)
like_loop (suc f) (x ∷ xs) (p ∷ ps) star =
    let onward = like_loop f xs ps star in
    let starred = like_loop f (x ∷ xs) ps (some (ps, x ∷ xs)) in
    let back = step_back star (like_loop f) in
    if p == b'_' || p == x then onward else if p == b'%' then starred else back

-- On the runes of the text and of the pattern.
unfoldable pub like_match : Str → Str → Option Bool
unfolding like_loop
like_match s ps = like_loop (suc ((length s + 1) * (length ps + 1) + length s)) s ps none

unfoldable pub value_to_like_string : Runtime → Value → Str
unfolding value_string type_eq
value_to_like_string rt v = if type_eq v.typ string then v.str else value_string rt v

unfoldable pub match_like : Runtime → Value → Value → Bool
unfolding like_match value_to_like_string
match_like rt l r =
    elim (like_match (rt.runes (value_to_like_string rt l))
      (rt.runes (value_to_like_string rt r))) [ none ↦ false | some b ↦ b ]
