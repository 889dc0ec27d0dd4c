-- ===== src/Examples/Requests.antt =====
-- Examples for the middleware: the crawler's request, and the block of a client that has ignored
-- five challenges.
use django_waf.Base.{◌≡◌, refl, true, false, none, some, [], ◌∷◌, text, if◌then◌else◌, ◌=ᵗ◌, arith}
use django_waf.Rules.{block, blocked, challenged, challenge, EvaluationResult, plain_result}
use django_waf.Rules.Matching.{is_expired, rule_matches}
use django_waf.Rules.Rdns.{verify_rdns, resolve_and_confirm_rdns}
use django_waf.Rules.RuleCache.{load_rule_cache}
use django_waf.Rules.Gate.{
  blocked_key, challenged_key, unsolved_challenge_count, gate_challenge_or_escalate,
}
use django_waf.Rules.Scan.{check_allow_rules}
use django_waf.Rules.Evaluate.{evaluate_request}
use django_waf.Middleware.{view, returned, unset, HttpRequest, MiddlewareConf, Traffic}
use django_waf.Middleware.SitePassword.{check_password, check_site_password}
use django_waf.Middleware.SitePassword.Laws.{Gated, check_site_password-Gated}
use django_waf.Middleware.Verdicts.{handle_verdict, log_request}
use django_waf.Middleware.Verdicts.Laws.{Blocks, handle_verdict-Blocks}
use django_waf.Middleware.Call.{call, is_exempt_host, is_staff_user}
use django_waf.Middleware.Call.Laws.{LetThrough, call-LetThrough}
use django_waf.Middleware.Call.Answers.{Answers}
use django_waf.Middleware.Escalation.{escalation-overwritten}
use django_waf.Examples.Memory.{Memory, memory, empty_memory, memory_strings}
use django_waf.Examples.Deployment.{platform, site, fresh, by_crawler, by_curl}

abbrev waf : MiddlewareConf
waf = record {
  enabled = true;
  exempt_paths = text "/static/" ∷ [];
  exempt_hosts = [];
  allowed_methods = none;
  blocked_countries = [];
  challenge_url = text "/waf/challenge/";
  verify_url = text "/waf/verify/";
  reverse_challenge = none;
  reverse_verify = none;
  site_password_enabled = false;
  site_password = [];
  site_password_exempt_paths = [];
  site_password_verify_path = text "/waf/password/";
  block_handler = λ result. returned 403 (text "blocked");
  throttle_handler = λ result. unset;
  sign = λ s. text "5f";
  canonical = λ ip. none;
  read = λ s. none;
}

abbrev crawler : HttpRequest
crawler = record {
  request = by_crawler;
  host = text "example.com";
  full_path = text "/";
  waf_pass = [];
  has_password_cookie = false;
  has_trusted_cookie = false;
  user = none;
  password = [];
  next = [];
  next_is_safe = false;
  form_is_readable = true;
  host_is_allowed = true;
  set_trusted_cookie = false;
  has_redis = true;
  country = none;
  sampled = true;
  log_is_up = true;
}

abbrev curl : HttpRequest
curl = record crawler { request = by_curl }

abbrev quiet : Traffic memory
quiet = record { engine = fresh; signals = []; logs = [] }

crawler_is_served : (call site memory waf 200 crawler quiet).0 ≡ some (view false)
unfolding call check_site_password is_exempt_host is_staff_user evaluate_request load_rule_cache
    check_allow_rules is_expired rule_matches verify_rdns resolve_and_confirm_rdns handle_verdict
    log_request
crawler_is_served = refl

call-LetThrough_example : LetThrough site memory waf 200 crawler quiet
call-LetThrough_example =
    call-LetThrough site memory waf 200 crawler quiet (view false) crawler_is_served refl

-- The gate is on, and a password is set.
abbrev locked : MiddlewareConf
locked = record waf { site_password_enabled = true; site_password = text "hunter2" }

-- A guess with a character beyond ASCII.
abbrev guess : HttpRequest
guess = record crawler {
  request = record by_crawler { method = text "POST"; path = text "/waf/password/" };
  password = 233 ∷ [];
}

guess_raises : (check_site_password site memory locked guess quiet).0 ≡ none
unfolding check_site_password check_password
guess_raises = refl

check_site_password-Gated_example :
    Gated site memory locked guess quiet (check_site_password site memory locked guess quiet)
check_site_password-Gated_example = check_site_password-Gated site memory locked guess quiet

abbrev a_block : EvaluationResult
a_block = plain_result blocked (some block)

handle_verdict-Blocks_example :
    Blocks memory waf curl memory_strings a_block quiet
      (handle_verdict memory waf curl a_block quiet)
handle_verdict-Blocks_example =
    handle_verdict-Blocks memory waf curl memory_strings a_block quiet refl

-- Redis holds the number of challenges, five, as one character.
abbrev five_challenges : Memory
five_challenges = record empty_memory {
  cells = λ k.
      if challenged_key by_curl.ip =ᵗ k then some (record { value = 5 ∷ []; ttl = 3600 }) else none;
}

abbrev before : Traffic memory
before = record quiet { engine = record fresh { server = five_challenges } }

abbrev a_challenge : EvaluationResult
a_challenge = plain_result challenged (some challenge)

abbrev gated : Traffic memory
gated = record quiet {
  engine = record fresh {
    server =
        (gate_challenge_or_escalate memory platform.int site.escalation_rule site.conf.gate
          by_curl.ip true a_challenge five_challenges).1;
  };
}

five_are_counted :
    (unsolved_challenge_count memory platform.int by_curl.ip true five_challenges).0 ≡ some 5
unfolding unsolved_challenge_count
five_are_counted = refl

escalation-overwritten_example :
    ((gate_challenge_or_escalate memory platform.int site.escalation_rule site.conf.gate by_curl.ip
        true a_challenge five_challenges).0
      ≡ some a_block)
    × (gated.engine.server.cells (blocked_key by_curl.ip)
        ≡ some (record { value = text "e1"; ttl = 3600 }))
    × ((handle_verdict memory waf curl a_block gated).1.engine.server.cells (blocked_key by_curl.ip)
        ≡ some (record { value = text "1"; ttl = 300 }))
escalation-overwritten_example =
    escalation-overwritten memory memory_strings waf curl platform.int site.escalation_rule
      site.conf.gate true a_challenge (text "e1") 5 before gated five_are_counted (omega arith) refl
      refl
