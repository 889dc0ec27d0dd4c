-- ===== src/Client/UserAgent.antt =====
-- services/ua_analyser.py: the score of a user agent string, and its category.
use Prim.Native.Nat.{min}
use django_waf.Base.{
  ℕ, ◌+◌, ◌≤◌, Bool, not, ◌||◌, Text, ltb, if◌then◌else◌, length, is_empty, arith,
}

-- What the module's patterns find in a user agent.
pub record Traits : Type 0 where
  pub ios_windows : Text → Bool
  pub android_ios : Text → Bool
  pub android_windows : Text → Bool
  pub ancient_browser : Text → Bool
  pub version_token : Text → Bool
  pub crawler : Text → Bool
  pub scraper_lib : Text → Bool
  pub bot_word : Text → Bool
  pub browser_mark : Text → Bool

pub data UaClass : Type 0 where
  browser crawler bot library unknown : UaClass

module _ (traits : Traits) (user_agent : Text) where
  unfoldable pub score_user_agent : ℕ
  score_user_agent =
      if is_empty user_agent
      then 10
      else min
          ((if traits.ios_windows user_agent
                || traits.android_ios user_agent
                || traits.android_windows user_agent
              then 30
              else 0)
            + (if traits.ancient_browser user_agent then 20 else 0)
            + (if not (traits.version_token user_agent) then 15 else 0)
            + (if ltb (length user_agent) 15 then 10 else 0))
          100

  unfoldable pub classify_ua : UaClass
  classify_ua =
      if is_empty user_agent
      then unknown
      else if traits.crawler user_agent
      then crawler
      else if traits.scraper_lib user_agent
      then library
      else if traits.bot_word user_agent
      then bot
      else if traits.browser_mark user_agent
      then browser
      else unknown

  -- The score of a user agent stays at or below 7.5 however the patterns fall.
  pub score_user_agent-le : score_user_agent ≤ 75
  unfolding score_user_agent
  score_user_agent-le = ground arith
