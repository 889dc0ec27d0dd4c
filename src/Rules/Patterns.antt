-- ===== src/Rules/Patterns.antt =====
-- services/pattern_validation.py: the check of a regular expression before a rule stores it.
--
-- `compiles` says whether `re.compile` takes the pattern. The two patterns of the module search for a
-- group without inner groups that is itself repeated, and that has a certain character inside; the
-- optional "?:" makes no difference to what a search finds.
pub mod Shapes
use django_waf.Base.{
  ℕ, Bool, true, false, not, ◌&&◌, ◌||◌, Option, none, some, List, [], ◌∷◌, Text, ltb, ◌==◌,
  if◌then◌else◌, is_empty, any, length,
}

pub data PatternError : Type 0 where
  empty_pattern too_long invalid_regex nested_quantifier quantified_alternation : PatternError

abbrev pub is_quantifier : ℕ → Bool
is_quantifier ch = ch == b'+' || ch == b'*'

abbrev pub is_bar : ℕ → Bool
is_bar ch = ch == b'|'

abbrev pub is_paren : ℕ → Bool
is_paren ch = ch == b'(' || ch == b')'

abbrev quantified : Text → Bool
quantified [] = false
quantified (ch ∷ s) = is_quantifier ch

with_first : ℕ → Option Text → Option Text
with_first ch none = none
with_first ch (some inner) = some (ch ∷ inner)

-- After an opening parenthesis: the inside of a group that has no groups and is repeated.
group_of : Text → Option Text
unfolding with_first
group_of [] = none
group_of (ch ∷ s) =
    let rest = group_of s in
    if is_paren ch
    then (if ch == b')' && quantified s then some [] else none)
    else with_first ch rest

inside : (ℕ → Bool) → Option Text → Bool
inside p none = false
inside p (some inner) = any p inner

-- The search for such a group whose inside has a character of the kind `p`.
unfoldable pub has_group : (ℕ → Bool) → Text → Bool
unfolding with_first group_of inside
has_group p [] = false
has_group p (ch ∷ s) = let rest = has_group p s in (ch == b'(' && inside p (group_of s)) || rest

unfoldable pub validate_ua_regex_pattern : (Text → Bool) → Text → Option PatternError
validate_ua_regex_pattern compiles pattern =
    if is_empty pattern
    then some empty_pattern
    else if ltb 512 (length pattern)
    then some too_long
    else if not (compiles pattern)
    then some invalid_regex
    else if has_group is_quantifier pattern
    then some nested_quantifier
    else if has_group is_bar pattern
    then some quantified_alternation
    else none
