-- ===== src/Forms/Context.antt =====
-- forms/defences/base.py: a defence's outcome and what it is given; and what the defences read of
-- the request and of the settings.
--
-- Scores and weights are tenths of a point, seconds that may have a fraction are microseconds. The
-- `ip` of a request is what `resolve_client_ip` finds, "" if it finds none.
use django_waf.Base.{ℕ, Bool, true, false, Option, List, [], Text}
use django_waf.Forms.Tokens.{TokenPayload}

pub data OutcomeVerdict : Type 0 where
  pass flag block : OutcomeVerdict

pub record Outcome : Type 0 where
  pub verdict : OutcomeVerdict
  pub score : ℕ
  pub reason : Text

abbrev pub passed : Outcome
passed = record { verdict = pass; score = 0; reason = [] }

abbrev pub flagged : ℕ → Text → Outcome
flagged score reason = record { verdict = flag; score = score; reason = reason }

abbrev pub blocked : Text → ℕ → Outcome
blocked reason score = record { verdict = block; score = score; reason = reason }

abbrev pub is_block : Outcome → Bool
is_block o = elim o.verdict [ block ↦ true | _ ↦ false ]

abbrev pub is_pass : Outcome → Bool
is_pass o = elim o.verdict [ pass ↦ true | _ ↦ false ]

pub record FormUser : Type 0 where
  pub is_authenticated : Bool
  -- the primary key, as a text
  pub pk : Option Text

pub record FormRequest : Type 0 where
  pub ip : Text
  pub user_agent : Text
  pub user : Option FormUser

pub record FormConf : Type 0 where
  pub protection_enabled : Bool
  pub token_ttl : ℕ
  pub honeypot_field_names : List Text
  pub time_trap_min : ℕ
  pub time_trap_max : ℕ
  pub credential_ip_limit : ℕ
  pub signup_velocity_limit : ℕ
  pub pow_difficulty : ℕ
  pub defence_weights : List (Text × ℕ)
  pub block_threshold : ℕ
  pub flag_threshold : ℕ

-- The keyword arguments of a form, and the nonce that the chain adds.
pub record Config : Type 0 where
  pub token_ttl : Option ℕ
  pub field_names : Option (List Text)
  pub min_fill : Option ℕ
  pub max_fill : Option ℕ
  pub ip_limit : Option ℕ
  pub limit : Option ℕ
  pub difficulty : Option ℕ
  pub token_nonce : Option Text

pub record EvaluateContext : Type 0 where
  pub form_id : Text
  pub request : FormRequest
  pub submitted_data : List (Text × Text)
  pub config : Config
  pub token_payload : Option TokenPayload
