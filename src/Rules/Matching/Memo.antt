-- ===== src/Rules/Matching/Memo.antt =====
-- The memo of compiled patterns is transparent.
use django_waf.Base.{
  ◌≡◌, refl, Option, some, [], ◌∷◌, Text, =ᵗ_iff, arith, All, Option-cases, inl, inr,
}
use django_waf.Rules.{MatchType, regex, Platform}
use django_waf.Rules.Matching.{
  PatternCache, find_pattern, remember, get_compiled_ua_regex, match_ua, match_ua_memo,
}

module _ (p : Platform) where
  -- Every entry holds what compiling its pattern gives, failures included.
  abbrev pub IsFaithful : PatternCache p → Type 0
  IsFaithful cache = All (λ e. e.1 ≡ p.compile e.0) cache

  find_pattern-IsFaithful :
      (pattern : Text) (cache : PatternCache p) (compiled : Option p.Regex)
      → IsFaithful cache
      → find_pattern p pattern cache ≡ some compiled
      → compiled ≡ p.compile pattern
  unfolding find_pattern
  find_pattern-IsFaithful pattern [] compiled h e = cc
  find_pattern-IsFaithful pattern ((q, c) ∷ cache) compiled (same, h) e =
      ground (arith, =ᵗ_iff q pattern, find_pattern-IsFaithful pattern cache compiled h)

  get_compiled_lem :
      (pattern : Text) (cache : PatternCache p)
      → IsFaithful cache
      → ((get_compiled_ua_regex p pattern cache).0 ≡ p.compile pattern)
        × IsFaithful (get_compiled_ua_regex p pattern cache).1
  unfolding get_compiled_ua_regex remember
  get_compiled_lem pattern cache h = elim (Option-cases (find_pattern p pattern cache)) [
    | inl e ↦ rw e (refl, (refl, h))
    | inr (compiled, e) ↦ rw e (find_pattern-IsFaithful pattern cache compiled h e, h)
  ]

  -- With a faithful memo, matching a user agent through the memo gives what compiling afresh would
  -- give, for every match type, and leaves a faithful memo.
  pub match_ua_memo_lem :
      (user_agent pattern : Text) (match_type : MatchType) (cache : PatternCache p)
      → IsFaithful cache
      → ((match_ua_memo p user_agent pattern match_type cache).0
          ≡ match_ua p user_agent pattern match_type)
        × IsFaithful (match_ua_memo p user_agent pattern match_type cache).1
  unfolding match_ua_memo match_ua
  match_ua_memo_lem user_agent pattern regex cache h =
      let (e, kept) = get_compiled_lem pattern cache h in (rw e refl, kept)
  match_ua_memo_lem user_agent pattern _ cache h = (refl, h)
