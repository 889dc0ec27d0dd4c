-- ===== src/Forms/Base64.antt =====
-- Base64 text without its padding, as the two kinds of token carry it: what is stripped with
-- `rstrip("=")` is restored with `"=" * (-len(token) % 4)`.
use django_waf.Base.{
  ℕ, ◌+◌, ◌-◌, ◌%◌, ◌<◌, ◌≡◌, sym, Option, some, [], ◌++◌, Text, strip_end, strip_end_lem, repeat,
  length, NoChar, arith,
}

-- The documented behaviour of base64: a round trip, and a text of whole groups of four characters
-- that has its "=" at the end.
pub record Base64Laws (b64encode : Text → Text) (b64decode : Text → Option Text) : Type 0 where
  pub body : Text → Text
  pub tail : Text → ℕ
  pub b64_shape : (s : Text) → b64encode s ≡ body s ++ repeat (tail s) b'='
  pub body-NoChar : (s : Text) → NoChar b'=' (body s)
  pub tail-lt : (s : Text) → tail s < 4
  pub b64_groups : (s : Text) → (length (body s) + tail s) % 4 ≡ 0
  pub b64_round : (s : Text) → b64decode (b64encode s) ≡ some s
  pub b64_empty : b64decode [] ≡ some []

abbrev pub padded : Text → Text
padded token = token ++ repeat ((4 - length token % 4) % 4) b'='

-- The number of "=" that were stripped is the one that is restored.
groups_lem : (n k : ℕ) → k < 4 → (n + k) % 4 ≡ 0 → (4 - n % 4) % 4 ≡ k
groups_lem n k h e = omega arith

module _ (b64encode : Text → Text) (b64decode : Text → Option Text)
    (l : Base64Laws b64encode b64decode) where
  stripped_lem : (s : Text) → strip_end b'=' (b64encode s) ≡ l.body s
  stripped_lem s = rw (l.b64_shape s) (strip_end_lem b'=' (l.tail s) (l.body s) (l.body-NoChar s))

  pub padded-strip_end : (s : Text) → padded (strip_end b'=' (b64encode s)) ≡ b64encode s
  padded-strip_end s =
      rw (stripped_lem s, groups_lem (length (l.body s)) (l.tail s) (l.tail-lt s) (l.b64_groups s))
        (sym (l.b64_shape s))
