-- ===== src/Examples/Forms/Tokens.antt =====
-- Examples for the tokens, the stash and the counters of forms.
use django_waf.Base.{◌+◌, ◌≡◌, refl, ap, none, some, [], ◌∷◌, Text, text, arith}
use django_waf.Forms.Tokens.{bar}
use django_waf.Forms.Replay.{ReplayCodec, replayable, issue_replay_token, verify_replay_token}
use django_waf.Forms.Replay.Laws.{ReplayLaws, verify-issue_replay}
use django_waf.Forms.Replay.Sound.{Behind, verify_replay_sound}
use django_waf.Forms.Replay.Stash.{session, store_in_session, discard_from_session}
use django_waf.Forms.Replay.Stash.Bounds.{WellKept, stash-WellKept}
use django_waf.Forms.Tokens.{verified, issue_token, verify_token}
use django_waf.Forms.Tokens.Laws.{Signs, verify-issue, verify_sound}
use django_waf.Examples.Forms.{
  encode64, decode64, laws64, codec, codec_laws, sent_fields, read_time, signing_key, home, issued,
  issued_verifies, free_of, minus_plus,
}

verify-issue_example :
    verify_token codec signing_key
      (issue_token codec signing_key (text "a") (text "b") (text "c") (text "ua") (text "d") 7).0
    ≡ verified
        (issue_token codec signing_key (text "a") (text "b") (text "c") (text "ua") (text "d") 7).1
verify-issue_example =
    verify-issue codec codec_laws signing_key (text "a") (text "b") (text "c") (text "ua")
      (text "d") 7 (omega arith, tt) (omega arith, tt) (omega arith, tt) (omega arith, tt)

verify_sound_example : (s : Text) × Signs codec signing_key issued.0 issued.1 s
verify_sound_example = verify_sound codec signing_key issued.0 issued.1 issued_verifies

abbrev pub replay_codec : ReplayCodec
replay_codec = record {
  hmac = λ s. text "sig";
  b64encode = encode64;
  b64decode = decode64;
  utf8_encode = λ s. s;
  utf8_decode = λ s. some s;
  str = λ n. (n + 200) ∷ [];
  int = read_time;
}

abbrev replay_laws : ReplayLaws replay_codec
replay_laws = record {
  base64 = laws64;
  hmac-NoChar = λ s. free_of bar (text "sig") refl;
  hmac_ascii = λ s. refl;
  utf8_round = λ s. refl;
  str-NoChar = λ n. (omega arith, tt);
  int_round = λ n. ap some (minus_plus n 200);
}

abbrev pub replay_token : Text
replay_token = issue_replay_token replay_codec (text "contact") home (text "s1") 10

verify-issue_replay_example :
    verify_replay_token replay_codec home 30 replay_token
    ≡ replayable (record { form_id = text "contact"; session_key = text "s1" })
verify-issue_replay_example =
    verify-issue_replay replay_codec replay_laws (text "contact") home (text "s1") home 10 30
      (free_of bar (text "contact") refl) (free_of bar home refl) (free_of bar (text "s1") refl)

-- The token of the example above, as a fact on its own.
pub replay_token_verifies :
    verify_replay_token replay_codec home 30 replay_token
    ≡ replayable (record { form_id = text "contact"; session_key = text "s1" })
replay_token_verifies =
    verify-issue_replay replay_codec replay_laws (text "contact") home (text "s1") home 10 30
      (free_of bar (text "contact") refl) (free_of bar home refl) (free_of bar (text "s1") refl)

verify_replay_sound_example :
    Behind replay_codec home 30 replay_token
      (record { form_id = text "contact"; session_key = text "s1" })
verify_replay_sound_example =
    verify_replay_sound replay_codec home 30 replay_token
      (record { form_id = text "contact"; session_key = text "s1" }) replay_token_verifies

no_stash : WellKept (session none)
unfolding WellKept
no_stash = tt

stash-WellKept_example :
    WellKept
      (store_in_session (text "s1") (text "contact") (text "/") sent_fields 10 (session none)).1
    × WellKept (discard_from_session (text "s1") (session none))
stash-WellKept_example =
    stash-WellKept (text "s1") (text "contact") (text "/") sent_fields 10 (session none) no_stash
