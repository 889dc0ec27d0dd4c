-- ===== src/Middleware/SitePassword/Laws.antt =====
-- What the gate of the site's password does with a request.
use django_waf.Base.{
  ◌≡◌, ◌≢◌, ◌⊎◌, refl, inl, inr, true, false, not, ◌&&◌, Bool, Option, none, some, Text, is_empty,
  if◌then◌else◌, arith, ◌=ᵗ◌, =ᵗ_iff,
}
use django_waf.Exec.{Exec, pure, continue}
use django_waf.Exec.Ensures.{Ensures, Ensures-pure, Ensures-if, Ensures-bind}
use django_waf.Exec.Total.{Total, Total-pure, Total-if, Total-bind, Total-try}
use django_waf.Redis.{Redis}
use django_waf.RateLimiter.{RateLimitResult}
use django_waf.Rules.Evaluate.{Site}
use django_waf.Forms.Tokens.{is_ascii}
use django_waf.Middleware.{
  Response, password_prompt, password_verified, HttpRequest, MiddlewareConf, Traffic, is_view,
}
use django_waf.Middleware.SitePassword.{
  check_site_password, handle_site_password_verify, judge_guess, redirect_next, record_guess,
  answer_guess, is_exempt_path, check_password, is_verify, answered,
}

module _ (site : Site) (r : Redis) (conf : MiddlewareConf) (http : HttpRequest) where
  -- The site's password is not asked for: the gate is off, the path is exempt, or a password is set
  -- and the request has the cookie of a client that gave it.
  abbrev pub Unlocked : Type 0
  Unlocked =
      (conf.site_password_enabled ≡ false)
      ⊎ (is_exempt_path site r conf http ≡ true)
      ⊎ ((is_empty conf.site_password ≡ false) × (http.has_password_cookie ≡ true))

  -- A guess on which the code raises: the form cannot be read, the password that was sent or the one
  -- that is set has a character beyond ASCII, or the password is right, a `next` was sent and the
  -- host is not allowed.
  pub data Unanswerable : Type 0 where
    unreadable : http.form_is_readable ≡ false → Unanswerable
    not_ascii :
        is_empty http.password ≡ false
        → (is_ascii http.password && is_ascii conf.site_password) ≡ false
        → Unanswerable
    unknown_host :
        http.password ≡ conf.site_password
        → is_empty http.next ≡ false
        → http.host_is_allowed ≡ false
        → Unanswerable

  -- A page of the gate's own, which is the redirect of a verified client only for the password.
  pub record IsPage (response : Response) : Type 0 where
    pub no_view : is_view response ≡ false
    pub verified :
        (url : Text)
        → response ≡ password_verified url
        → (http.password ≡ conf.site_password) × (is_empty http.password ≡ false)

  -- What comes of a guess.
  abbrev Guessed : Option Response → Type 0
  Guessed none = Unanswerable
  Guessed (some response) = IsPage response

  -- What comes of the gate, from the state `t`.
  abbrev pub Gated : Traffic r → Option (Option Response) × Traffic r → Type 0
  Gated t (none, s) = (is_verify site r conf http ≡ true) × (Unlocked → ⊥) × Unanswerable
  Gated t (some none, s) = Unlocked × (s ≡ t)
  Gated t (some (some response), s) = IsPage response

  other-IsPage :
      (response : Response)
      → is_view response ≡ false
      → ((url : Text) → response ≢ password_verified url)
      → IsPage response
  other-IsPage response e ne = record { no_view = e; verified = λ url same. absurd (ne url same) }

  prompt-IsPage : (error next : Text) → IsPage (password_prompt error next)
  prompt-IsPage error next =
      other-IsPage (password_prompt error next) refl (λ url e. let no : ⊥ = cc in no)

  guess-IsPage : (rate : RateLimitResult) → Ensures IsPage (answer_guess site r conf http rate)
  unfolding answer_guess
  guess-IsPage rate =
      Ensures-if IsPage rate.exceeded _ _
        (λ _. Ensures-pure IsPage _ (other-IsPage _ refl (λ url e. let no : ⊥ = cc in no)))
        (λ _. Ensures-pure IsPage _ (prompt-IsPage _ _))

  rated-Total : Total (record_guess site r conf http)
  unfolding record_guess
  rated-Total = Total-if http.has_redis _ _ (Total-try _ _) (Total-pure _)

  rate-Total : (rate : RateLimitResult) → Total (answer_guess site r conf http rate)
  unfolding answer_guess
  rate-Total rate = Total-if rate.exceeded _ _ (Total-pure _) (Total-pure _)

  Total-Guessed :
      (m : Exec (Traffic r) Response) (t : Traffic r) → Total m → Ensures IsPage m → Guessed (m t).0
  Total-Guessed m t total page = let (response, e) = total.at t in rw e (page.at t response e)

  check_password-raises :
      check_password conf.site_password http.password ≡ none
      → (is_empty http.password ≡ false)
        × ((is_ascii http.password && is_ascii conf.site_password) ≡ false)
  unfolding check_password
  check_password-raises e = (ground arith, ground arith)

  check_password-accepts :
      check_password conf.site_password http.password ≡ some true
      → (http.password ≡ conf.site_password) × (is_empty http.password ≡ false)
  unfolding check_password
  check_password-accepts e =
      let same : (http.password =ᵗ conf.site_password) ≡ true = ground arith in
      ((=ᵗ_iff http.password conf.site_password).0 same, ground arith)

  Guessed-if :
      (t : Traffic r) (b : Bool) (m n : Exec (Traffic r) Response)
      → (b ≡ true → Guessed (m t).0)
      → (b ≡ false → Guessed (n t).0)
      → Guessed ((if b then m else n) t).0
  Guessed-if t true m n h k = h refl
  Guessed-if t false m n h k = k refl

  next-Guessed :
      (t : Traffic r)
      → (http.password ≡ conf.site_password) × (is_empty http.password ≡ false)
      → Guessed (redirect_next site r conf http t).0
  unfolding redirect_next
  next-Guessed t right =
      let page : (url : Text) → IsPage (password_verified url) =
        λ url. record { no_view = refl; verified = λ url' same. right } in
      Guessed-if t (is_empty http.next) _ _ (λ _. page _)
        (λ given.
          Guessed-if t (not http.host_is_allowed) _ _
            (λ e. unknown_host right.0 given (ground arith)) (λ _. page _))

  judged-Guessed :
      (o : Option Bool) (t : Traffic r)
      → check_password conf.site_password http.password ≡ o
      → Guessed (judge_guess site r conf http o t).0
  unfolding judge_guess
  judged-Guessed none t e = let (given, beyond) = check_password-raises e in not_ascii given beyond
  judged-Guessed (some true) t e = next-Guessed t (check_password-accepts e)
  judged-Guessed (some false) t e =
      Total-Guessed _ t (Total-bind (record_guess site r conf http) _ rated-Total rate-Total)
        (Ensures-bind IsPage (record_guess site r conf http) _ guess-IsPage)

  verify-Guessed : (t : Traffic r) → Guessed (handle_site_password_verify site r conf http t).0
  unfolding handle_site_password_verify
  verify-Guessed t =
      Guessed-if t (not http.form_is_readable) _ _ (λ e. unreadable (ground arith))
        (λ _. judged-Guessed _ t refl)

  answered-Gated :
      (t s : Traffic r) (o : Option Response)
      → is_verify site r conf http ≡ true
      → (Unlocked → ⊥)
      → Guessed o
      → Gated t (continue o (λ response. pure (some response)) s)
  answered-Gated t s none v locked g = (v, locked, g)
  answered-Gated t s (some response) v locked g = g

  Gated-if :
      (t : Traffic r) (b : Bool) (m n : Exec (Traffic r) (Option Response))
      → (b ≡ true → Gated t (m t))
      → (b ≡ false → Gated t (n t))
      → Gated t ((if b then m else n) t)
  Gated-if t true m n h k = h refl
  Gated-if t false m n h k = k refl

  still_locked :
      conf.site_password_enabled ≡ true
      → is_exempt_path site r conf http ≡ false
      → http.has_password_cookie ≡ false
      → Unlocked
      → ⊥
  still_locked on covered cookie (inl e) = cc
  still_locked on covered cookie (inr (inl e)) = cc
  still_locked on covered cookie (inr (inr (set, e))) = cc

  -- The gate lets a request go on only if it is off, the path is exempt, or a password is set and the
  -- request has the cookie of a client that gave it, and it then leaves everything as it was. Else it
  -- answers in the view's place, with the redirect of a verified client only if the password that
  -- was sent is the one that is set. An enabled gate with no password is closed to all but the exempt
  -- paths. It raises only on a guess from a request that it does not let go on: if the form cannot be
  -- read, if one of the two passwords has a character beyond ASCII, or if the password is right but
  -- the host of the request is not allowed.
  pub check_site_password-Gated : (t : Traffic r) → Gated t (check_site_password site r conf http t)
  unfolding check_site_password answered
  check_site_password-Gated t =
      Gated-if t (not conf.site_password_enabled) _ _ (λ off. (inl (ground arith), refl))
        (λ on.
          Gated-if t (is_exempt_path site r conf http) _ _ (λ exempt. (inr (inl exempt), refl))
            (λ covered.
              Gated-if t (is_empty conf.site_password) _ _ (λ _. prompt-IsPage _ _)
                (λ set.
                  Gated-if t http.has_password_cookie _ _
                    (λ cookie. (inr (inr (set, cookie)), refl))
                    (λ cookie.
                      Gated-if t (is_verify site r conf http) _ _
                        (λ v.
                          answered-Gated t _ _ v (still_locked (ground arith) covered cookie)
                            (verify-Guessed t))
                        (λ _. prompt-IsPage _ _)))))
