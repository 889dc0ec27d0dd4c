-- ===== src/Middleware/Call/Answers.antt =====
-- The middleware answers every request.
use django_waf.Base.{ℕ, ◌≡◌, ◌⊎◌, true, false, Option, none, some}
use django_waf.Exec.{Exec}
use django_waf.Exec.Total.{Total}
use django_waf.Redis.{Redis}
use django_waf.Rules.Evaluate.{Site}
use django_waf.Middleware.{Response, HttpRequest, MiddlewareConf}
use django_waf.Middleware.SitePassword.{is_verify}
use django_waf.Middleware.SitePassword.Laws.{Unlocked, Unanswerable}
use django_waf.Middleware.Call.{is_exempt}

module _ (site : Site) (r : Redis) (conf : MiddlewareConf) (view_status : ℕ)
    (http : HttpRequest) where
  open http use {request}

  -- A guess of the site's password on which the gate raises.
  abbrev pub Raises : Type 0
  Raises =
      (is_exempt site r conf view_status http ≡ false)
      × (is_verify site r conf http ≡ true)
      × (Unlocked site r conf http → ⊥)
      × Unanswerable site r conf http

  abbrev pub Answers : Option Response → Type 0
  Answers o = ((response : Response) × (o ≡ some response)) ⊎ ((o ≡ none) × Raises)
