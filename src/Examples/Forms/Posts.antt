-- ===== src/Examples/Forms/Posts.antt =====
-- Examples for an honest submission, the one use of a token, the one replay, and failed logins.
use django_waf.Base.{
  false, ℕ, ◌+◌, ◌<◌, ◌≡◌, refl, sym, ◌∙◌, true, none, some, [], ◌∷◌, Text, text, map, arith,
}
use django_waf.Exec.{Exec, pure}
use django_waf.Challenge.Work.{digest_has_leading_zero_bits}
use django_waf.Forms.Tokens.{issue_token}
use django_waf.Forms.Context.{passed}
use django_waf.Forms.Services.{credential_ip_count, signup_count, marker_exists}
use django_waf.Forms.Services.Laws.{CounterLaws}
use django_waf.Forms.Defences.Honeypot.{pick_field_names, honeypot_evaluate}
use django_waf.Forms.Defences.{
  honeypot, time_trap, js_touch, defence_evaluate, render_token_evaluate, time_trap_evaluate,
  js_touch_evaluate,
}
use django_waf.Forms.Protection.{
  aggregate_score, resolve_verdict, passed_form, FormEvaluationResult, evaluate,
}
use django_waf.Forms.Protection.Honest.{Honest}
use django_waf.Forms.Protection.Honest.Chain.{evaluate-honest}
use django_waf.Forms.Logging.{LogConf}
use django_waf.Forms.Replay.Stash.{session, fetch_from_session}
use django_waf.Forms.Decorator.{
  QueryDict, get_method, post_method, PostRequest, rejected, DecoratorConf, FormWorld, handle_post,
  try_replay,
}
use django_waf.Forms.Decorator.OneUse.{Passed, handle_post-one_use}
use django_waf.Forms.Decorator.Replayed.{try_replay-once}
use django_waf.Examples.Memory.{
  Memory, memory, memory_reads, empty_memory, at_key, at_key_other, at_key_same, memory_keys,
  put_cell,
}
use django_waf.Examples.Forms.{
  codec, signing_key, home, issued, issued_verifies, issued_is_given, visitor, form_conf,
  contact_form, sent_fields, submit_time, read_time,
}
use django_waf.Examples.Forms.Tokens.{replay_codec, replay_token, replay_token_verifies}

-- A Redis that holds the token's marker and has counted nothing.
abbrev holding : Memory
holding = put_cell (text "waf:form:token:n1") (text "1") 3600 empty_memory

no_failures : (n : ℕ) → (credential_ip_count memory read_time home holding).0 ≡ some n → n < 20
unfolding credential_ip_count
no_failures n e = let none_yet : 0 ≡ n = cc in omega arith

no_signups : (n : ℕ) → (signup_count memory read_time home holding).0 ≡ some n → n < 3
unfolding signup_count
no_signups n e = let none_yet : 0 ≡ n = cc in omega arith

honest :
    Honest form_conf contact_form memory codec read_time signing_key submit_time visitor sent_fields
      issued.1 holding
unfolding issue_token pick_field_names digest_has_leading_zero_bits
honest = record {
  given = issued_is_given;
  valid = issued_verifies;
  same_ip = refl;
  same_agent = refl;
  in_time = omega arith;
  unused = λ e. let no : ⊥ = cc in no;
  not_at_once = omega arith;
  not_fast = omega arith;
  not_stale = omega arith;
  untouched = refl;
  touched = refl;
  is_set = refl;
  is_there = refl;
  has_work = refl;
  works = refl;
  few_failures = no_failures;
  few_signups = no_signups;
}

evaluate-honest_example :
    (res : FormEvaluationResult) × ((evaluate form_conf contact_form memory codec read_time
        signing_key submit_time visitor sent_fields holding).0
      ≡ some res)
    × (res.verdict ≡ passed_form)
evaluate-honest_example =
    evaluate-honest form_conf contact_form memory memory_reads codec read_time signing_key
      submit_time visitor sent_fields issued.1 holding honest (omega arith) (omega arith)
      (honeypot ∷ time_trap ∷ js_touch ∷ []) refl

abbrev memory_counts : CounterLaws memory
memory_counts = record {
  count = λ s k. s.counters k;
  execute_pair = λ a b ttl s ne. (
    1,
    1,
    rw (at_key_other a b (s.counters a + 1) s.counters ne) refl,
    at_key_other b a _ (at_key a (s.counters a + 1) s.counters) (λ e. ne (sym e))
        ∙ at_key_same a (s.counters a + 1) s.counters,
  );
}

abbrev post_of : Text → PostRequest
post_of replay = record {
  method = post_method;
  request = visitor;
  path = text "/contact";
  form_replay = replay;
  post = map (λ entry. (entry.0, entry.1 ∷ [])) sent_fields;
}

abbrev every_log : LogConf
every_log = record { sampled_out = false; emit_passed_signal = true }

abbrev form_conf2 : DecoratorConf
form_conf2 = record {
  challenge_on_flag = true;
  challenge_url = some (text "/waf/challenge/");
  log = every_log;
}

-- A view that does nothing.
abbrev idle : QueryDict → Exec (FormWorld memory) (Unit {0})
idle post = pure tt

abbrev marked : FormWorld memory
marked = record { server = holding; session = session none; logged = []; sent = [] }

first_submission :
    Passed memory codec replay_codec read_time signing_key form_conf form_conf2 contact_form idle
      memory_keys
      (post_of [])
      issued.1
      submit_time
      (text "f1")
      marked
unfolding evaluate defence_evaluate render_token_evaluate marker_exists honeypot_evaluate
    pick_field_names time_trap_evaluate js_touch_evaluate aggregate_score resolve_verdict
    issue_token
first_submission = record {
  result = record {
    verdict = passed_form;
    total_score = 0;
    outcomes = passed ∷ passed ∷ passed ∷ passed ∷ [];
    token_payload = some issued.1;
  };
  evaluated = simp (issued_is_given, issued_verifies) refl;
  is_passed = refl;
}

-- The same submission again, a minute later.
handle_post-one_use_example :
    (handle_post memory codec replay_codec read_time signing_key form_conf form_conf2 contact_form
      idle 71000000
      (text "f2")
      (post_of [])
      (handle_post memory codec replay_codec read_time signing_key form_conf form_conf2 contact_form
        idle submit_time
        (text "f1")
        (post_of [])
        marked).1).0
    ≡ some rejected
unfolding issue_token
handle_post-one_use_example =
    handle_post-one_use memory codec replay_codec read_time signing_key form_conf form_conf2
      contact_form idle memory_keys (post_of []) (post_of []) (honeypot ∷ time_trap ∷ js_touch ∷ [])
      (honeypot ∷ time_trap ∷ js_touch ∷ []) issued.1 submit_time 71000000 (text "f1") (text "f2")
      marked
      (handle_post memory codec replay_codec read_time signing_key form_conf form_conf2 contact_form
        idle submit_time (text "f1") (post_of []) marked).1
      refl refl refl issued_is_given issued_verifies refl first_submission (λ u. refl) (omega arith)
      refl

abbrev replaying : PostRequest
replaying = record (post_of replay_token) { method = get_method; post = [] }

abbrev stashed : FormWorld memory
stashed = record {
  server = empty_memory;
  session = session (
      some (
        (
          text "s1",
          record {
            form_id = text "contact";
            post_url = text "/contact";
            fields = (text "message", text "hello") ∷ [];
            stored_at = 10;
          },
        )
        ∷ []));
  logged = [];
  sent = [];
}

abbrev replayed_post : PostRequest
replayed_post = record replaying {
  method = post_method;
  post = (text "message", text "hello" ∷ []) ∷ [];
}

is_replayed :
    (try_replay memory codec replay_codec read_time signing_key form_conf form_conf2 contact_form
      idle 30000000
      (text "f3")
      replaying
      stashed).0
    ≡ some (some replayed_post)
unfolding try_replay fetch_from_session
is_replayed = simp replay_token_verifies refl

try_replay-once_example :
    (try_replay memory codec replay_codec read_time signing_key form_conf form_conf2 contact_form
      idle 30000000
      (text "f4")
      replaying
      (record (try_replay memory codec replay_codec read_time signing_key form_conf form_conf2
        contact_form idle 30000000
        (text "f3")
        replaying
        stashed).1 { server = empty_memory })).0
    ≡ some none
try_replay-once_example =
    try_replay-once memory codec replay_codec read_time signing_key form_conf form_conf2
      contact_form idle replaying replaying replayed_post
      (record { form_id = text "contact"; session_key = text "s1" })
      (record { form_id = text "contact"; session_key = text "s1" }) 30000000 30000000 (text "f3")
      (text "f4") stashed empty_memory replay_token_verifies replay_token_verifies refl is_replayed
