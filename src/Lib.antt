-- ===== src/Lib.antt =====
-- A model of django-waf: a firewall for Django sites that judges every request by rules, rate limits
-- and scores, and that makes suspect clients solve a proof of work.
--
-- How the parts interact. The middleware asks `evaluate_request` for a verdict. That function loads
-- the rules (process, Redis, database), and tries in turn the allow rules, the addresses that are
-- known to be blocked, the block rules, the rate limits, the missing referer and the scores of path,
-- fingerprint and user agent; each challenge passes the escalation gate. A challenged client gets a
-- token, solves it, and receives a signed cookie that spares it further judgement. A protected form
-- carries a signed token; its submission runs through a chain of defences before the view sees it, and
-- a flagged one can be sent to the challenge and replayed from the session.
--
-- Which file models which part (paths from the root of the repository):
--   Base, Exec, Exec/Ensures   shared types, the monad of fallible code over a server's state, and
--                              the rules for what an action can return
--   Redis, Redis/*             the Redis commands as a record of operations, and the documented
--                              behaviour of sorted sets and strings as laws on that record
--   RateLimiter, RateLimiter/* src/django_waf/services/rate_limiter.py: `check_rate_limit`,
--                              `_check_path_rate_limit`, `check_verify_rate_limit`,
--                              `get_request_count`
--   Challenge/*                src/django_waf/services/challenge_service.py: `issue_challenge`,
--                              `verify_challenge_solution` (Token), the proof of work (Work), and
--                              `issue_pass_cookie`, `validate_pass_cookie` (PassCookie)
--   Client/*                   src/django_waf/services/fingerprint.py, ua_analyser.py and client_ip.py
--   Rules, Rules/*             src/django_waf/services/rule_engine.py: `load_rule_cache` (RuleCache),
--                              `_rule_matches` (Matching), `_verify_rdns` (Rdns), the scans of the
--                              rules (Scan), the scores (Score), the escalation gate (Gate) and
--                              `evaluate_request` with its steps (Evaluate); and
--                              src/django_waf/services/pattern_validation.py (Patterns)
--   Middleware, Middleware/*   src/django_waf/middleware.py: `__call__` and the gates that it goes
--                              through (Call), the gate of the site's password with
--                              src/django_waf/services/site_password_service.py (SitePassword),
--                              `_handle_verdict`, the response handlers and the log (Verdicts)
--   Forms, Forms/*             src/django_waf/forms/: the render token (Tokens, with Base64), markers
--                              and counters (Services), the defences (Context, Defences), the chain
--                              `FormProtection.evaluate` (Protection), the replay of flagged
--                              submissions (Replay), `waf_protect_post` (Decorator),
--                              the validation of `ProtectedForm` (Mixin) and its log (Logging)
--   Anomaly, Anomaly/*         src/django_waf/services/anomaly_detector.py: the store of automatic
--                              rules, `_get_or_create_auto_rule` (Store, Names, Flags), the six
--                              detectors (Detectors, SubnetBurst, Unsolved, CloudSpray, Scraper), their
--                              evidence and confidence (Evidence, Confidence) and
--                              `run_all_detectors` (RunAll); what a write and a loop keep (Kept,
--                              Unique, Writes, Loops, DryRun, Present, Passes)
--   Middleware/SignedCookies   the cookies of src/django_waf/services/trusted_user_service.py and
--                              site_password_service.py
--   Tasks, Tasks/*             src/django_waf/tasks.py: `expire_rules`, `prune_stale_rules` and
--                              `_invalidate_rule_cache_redis`, with the managers of rules in
--                              src/django_waf/models.py and `auto_rule_review_outcomes`
--   Examples, Examples/*       a Redis server in memory, a small deployment, and inputs on which the
--                              theorems apply
--
-- How state and operations correspond. A call that talks to Redis is an `Exec`: a function from the
-- server's state to an optional result and the next state, where `none` is an exception and what
-- was written before it stays written. The Redis commands are fields of a record that every
-- definition takes, so a theorem holds of every server with the laws that it names. The process'
-- rule cache is part of an `Engine`, the table of challenge tokens and the signals that are sent
-- are part of a `World`, and the signals and logs of the middleware are part of a `Traffic`. The
-- rules of the database and the anomaly signals are part of a `Store`; `update_or_create` of Django
-- is a field of `Orm`, and its laws say what the documentation says, a lost race against another
-- insert included. A text is a list of code points; a time is a number of microseconds; a score is
-- a number of tenths. The clock is read once in
-- each call, except in `expire_rules`, whose three updates read it each.
--
-- Bounds and fuel. The only bounded loop is the acquisition of the rebuild lock, which makes the
-- four attempts of the source (one and `_REBUILD_LOCK_RETRIES` = 3 more). Everything else recurses on
-- lists.
--
-- What is not modelled. hashlib, hmac, base64, re, ipaddress, socket, uuid and json are parameters.
-- Of the models only the fields that the modelled code reads are there. Views, the tasks
-- that flush counters and read access logs, the threat feed, GeoIP, system checks, the admin, the API, the management commands and the HTML that forms
-- render are left out. A response has its kind and status, not its body. Django's signer
-- is a parameter, and the middleware's request says whether the two signed cookies hold.
pub mod Base
pub mod Exec
pub mod Redis
pub mod RateLimiter
pub mod Challenge
pub mod Client
pub mod Rules
pub mod Middleware
pub mod Forms
pub mod Anomaly
pub mod Tasks
pub mod Examples
