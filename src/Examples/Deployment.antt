-- ===== src/Examples/Deployment.antt =====
-- A deployment with one allow rule, for a crawler with a confirmed host name, and one block rule,
-- which challenges curl.
use django_waf.Base.{
  ℕ, true, false, Option, none, some, [], ◌∷◌, Text, text, has_substring, ◌=ᵗ◌, if◌then◌else◌,
}
use django_waf.Rules.{exact, ua, challenge, BlockRule, AllowRule, Platform}
use django_waf.Rules.RuleCache.{Rules, Engine}
use django_waf.Rules.Evaluate.{Conf, Site, Request}
use django_waf.Examples.Memory.{memory, empty_memory}
use django_waf.Examples.Clients.{claims, traits}

abbrev pub crawler_ip : Text
crawler_ip = text "66.249.66.1"

abbrev pub crawler_host : Text
crawler_host = text "crawl.googlebot.com"

abbrev pub read : Text → Option ℕ
read [] = none
read (n ∷ _) = some n

-- Patterns are searched as they stand, and a number is one character.
abbrev pub platform : Platform
platform = record {
  Regex = Text;
  Address = Text;
  Network = Text;
  lower = λ s. s;
  upper = λ s. s;
  strip = λ s. s;
  compile = λ s. some s;
  search = λ pattern s. has_substring pattern s;
  ip_address = λ s. some s;
  same_address = λ a b. a =ᵗ b;
  ip_network = λ s. some s;
  in_network = λ a n. a =ᵗ n;
  reverse_lookup = λ s. if s =ᵗ crawler_ip then some crawler_host else none;
  forward_lookup = λ s. if s =ᵗ crawler_host then some (crawler_ip ∷ []) else none;
  uuid = λ s. some s;
  int = read;
  show = λ n. n ∷ [];
  short_hash = λ s. s;
}

abbrev pub allow_crawler : AllowRule
allow_crawler = record {
  id = text "a1";
  matcher = record { rule_type = ua; match_type = exact; pattern = text "Googlebot" };
  verify_rdns = true;
  rdns_pattern = text "googlebot.com";
  expires_at = none;
}

abbrev pub challenge_curl : BlockRule
challenge_curl = record {
  id = text "b1";
  matcher = record { rule_type = ua; match_type = exact; pattern = text "curl" };
  action = challenge;
  expires_at = none;
}

abbrev pub rules : Rules
rules = record { allow_rules = allow_crawler ∷ []; block_rules = challenge_curl ∷ [] }

abbrev pub conf : Conf
conf = record {
  gate = record { escalation_threshold = 3; escalation_block_ttl = 3600 };
  rate = record {
    burst = 5;
    per_minute = 60;
    per_5min = 200;
    paths = [];
    verify_max = 10;
    verify_window_seconds = 60;
  };
  scores = record {
    block_at = 70;
    challenge_at = 50;
    log_at = 30;
    suspicious_paths = text "/wp-admin" ∷ [];
    suspicious_path_score = 30;
  };
  rdns_failure_ttl = 300;
  challenge_no_referer = false;
  no_referer_exempt_paths = [];
}

abbrev pub site : Site
site = record {
  platform = platform;
  claims = claims;
  traits = traits;
  hex_sha256 = λ s. s;
  encode = λ r. [];
  decode = λ s. none;
  read_rules = some rules;
  escalation_rule = λ ip. some (text "e1");
  conf = conf;
}

abbrev pub fresh : Engine memory
fresh = record { server = empty_memory; process_cache = none }

abbrev pub by_crawler : Request
by_crawler = record {
  ip = crawler_ip;
  user_agent = text "Googlebot";
  path = text "/";
  method = text "GET";
  referer = [];
  meta = none;
  now = 1_000_000_000;
}

abbrev pub by_curl : Request
by_curl = record by_crawler { ip = text "10.0.0.1"; user_agent = text "curl" }
