-- ===== src/Examples/Engine.antt =====
-- Examples for the rule engine, on the deployment of `Examples.Deployment`.
use django_waf.Base.{
  ◌↔◌, Text, length, is_empty, ◌≤◌, ◌≡◌, refl, true, false, Option, none, some, text,
}
use django_waf.Rules.{challenge, challenged, passed, EvaluationResult, plain_result}
use django_waf.Rules.Matching.{is_expired, rule_matches}
use django_waf.Rules.Rdns.{resolve_and_confirm_rdns, verify_rdns}
use django_waf.Rules.Rdns.Laws.{IsConfirmed, resolve-IsConfirmed}
use django_waf.Rules.RuleCache.{RuleCache, read_version, load_rule_cache}
use django_waf.Rules.RuleCache.Laws.{ComesFrom, load_rule_cache-Loads}
use django_waf.Rules.Gate.{unsolved_challenge_count, gate_challenge_or_escalate}
use django_waf.Rules.Scan.{record_rule_hit, check_allow_rules, check_block_rules}
use django_waf.Rules.Score.{action_to_verdict}
use django_waf.Rules.Evaluate.{evaluate_request, matched}
use django_waf.Rules.Evaluate.Ways.{BelowThreshold, Judged}
use django_waf.Rules.Evaluate.Judged.{evaluate_request-Judged}
use django_waf.Rules.Evaluate.Laws.{
  LetThrough, IsConsistent, evaluate-passed, evaluate-challenged, evaluate-IsConsistent,
}
use django_waf.Client.Fingerprint.{classify_fingerprint}
use django_waf.Rules.Patterns.{
  is_quantifier, is_bar, nested_quantifier, has_group, validate_ua_regex_pattern,
}
use django_waf.Rules.Patterns.Shapes.{HasShape, validate_ua_regex_pattern_iff}
use django_waf.Examples.Memory.{memory}
use django_waf.Examples.Deployment.{crawler_ip, platform, rules, site, fresh, by_crawler, by_curl}

abbrev loaded : Option RuleCache
loaded =
    (load_rule_cache memory platform.show site.encode site.decode site.read_rules platform.int
      fresh).0

abbrev passed_crawler : EvaluationResult
passed_crawler = matched site memory by_crawler (text "a1") (text "allow") passed none

crawler_passes : (evaluate_request site memory by_crawler fresh).0 ≡ some passed_crawler
unfolding evaluate_request load_rule_cache check_allow_rules is_expired rule_matches verify_rdns
    resolve_and_confirm_rdns
crawler_passes = refl

abbrev challenged_curl : EvaluationResult
challenged_curl = matched site memory by_curl (text "b1") (text "block") challenged (some challenge)

curl_is_challenged : (evaluate_request site memory by_curl fresh).0 ≡ some challenged_curl
unfolding evaluate_request load_rule_cache check_allow_rules check_block_rules is_expired
    rule_matches gate_challenge_or_escalate unsolved_challenge_count classify_fingerprint
    record_rule_hit action_to_verdict
curl_is_challenged = refl

evaluate_request-Judged_example :
    (cache : RuleCache) × (loaded ≡ some cache)
    × Judged site memory by_crawler cache.rules passed_crawler
evaluate_request-Judged_example =
    evaluate_request-Judged site memory by_crawler fresh passed_crawler crawler_passes

evaluate-passed_example :
    (cache : RuleCache) × (loaded ≡ some cache)
    × LetThrough site memory by_crawler cache.rules passed_crawler
evaluate-passed_example =
    evaluate-passed site memory by_crawler fresh passed_crawler crawler_passes refl

evaluate-challenged_example : BelowThreshold site memory by_curl
evaluate-challenged_example =
    evaluate-challenged site memory by_curl fresh challenged_curl curl_is_challenged refl

evaluate-IsConsistent_example : IsConsistent challenged_curl
evaluate-IsConsistent_example =
    evaluate-IsConsistent site memory by_curl fresh challenged_curl curl_is_challenged

crawler_confirmed : resolve_and_confirm_rdns platform crawler_ip (text "googlebot.com") ≡ true
unfolding resolve_and_confirm_rdns
crawler_confirmed = refl

resolve-IsConfirmed_example : IsConfirmed platform crawler_ip (text "googlebot.com")
resolve-IsConfirmed_example =
    resolve-IsConfirmed platform crawler_ip (text "googlebot.com") crawler_confirmed

abbrev kept_rules : RuleCache
kept_rules = record { version = 0; rules = rules }

rules_load : loaded ≡ some kept_rules
unfolding load_rule_cache
rules_load = refl

version_is_read : read_version platform.int none ≡ some 0
unfolding read_version
version_is_read = refl

load_rule_cache-Loads_example :
    (kept_rules.version ≡ 0)
    × ((load_rule_cache memory platform.show site.encode site.decode site.read_rules platform.int
          fresh).1.process_cache
        ≡ some kept_rules)
    × ComesFrom memory platform.show site.encode site.decode site.read_rules 0 none fresh.server
        kept_rules
load_rule_cache-Loads_example =
    load_rule_cache-Loads memory platform.show site.encode site.decode site.read_rules platform.int
      fresh none 0 kept_rules refl version_is_read rules_load

abbrev a_challenge : EvaluationResult
a_challenge = plain_result challenged (some challenge)

-- A nested quantifier.
abbrev nested : Text
nested = text "(a+)+"

validate_ua_regex_pattern_iff_example : (validate_ua_regex_pattern (λ s. true) nested ≡ none) ↔ (
    (is_empty nested ≡ false)
    × (length nested ≤ 512)
    × (true ≡ true)
    × (HasShape is_quantifier nested → ⊥)
    × (HasShape is_bar nested → ⊥))
validate_ua_regex_pattern_iff_example = validate_ua_regex_pattern_iff (λ s. true) nested

nested_is_refused : validate_ua_regex_pattern (λ s. true) nested ≡ some nested_quantifier
unfolding validate_ua_regex_pattern has_group
nested_is_refused = refl
