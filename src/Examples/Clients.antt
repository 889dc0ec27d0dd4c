-- ===== src/Examples/Clients.antt =====
-- Examples for the fingerprint and the user agent: a Chrome that sends no header at all.
use django_waf.Base.{◌≡◌, refl, false, none, some, [], Text, text, starts_with, if◌then◌else◌}
use django_waf.Client.Fingerprint.{
  Meta, Claims, bot, score_fingerprint_mismatch, classify_fingerprint,
}
use django_waf.Client.UserAgent.{Traits}

abbrev pub claims : Claims
claims = record {
  chrome_version = λ s. if starts_with s (text "Chrome/120") then some 120 else none;
  names_browser = λ s. starts_with s (text "Chrome/");
}

abbrev no_headers : Meta
no_headers h = []

abbrev strip : Text → Text
strip s = s

abbrev chrome : Text
chrome = text "Chrome/120"

abbrev curl : Text
curl = text "curl/8.0"

chrome_is_bot : classify_fingerprint claims strip chrome no_headers ≡ bot
unfolding classify_fingerprint score_fingerprint_mismatch
chrome_is_bot = refl

abbrev pub traits : Traits
traits = record {
  ios_windows = λ s. false;
  android_ios = λ s. false;
  android_windows = λ s. false;
  ancient_browser = λ s. false;
  version_token = λ s. starts_with s (text "Chrome/");
  crawler = λ s. false;
  scraper_lib = λ s. starts_with s (text "curl/");
  bot_word = λ s. false;
  browser_mark = λ s. starts_with s (text "Chrome/");
}
