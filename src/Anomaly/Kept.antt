-- ===== src/Anomaly/Kept.antt =====
-- services/anomaly_detector.py: what becomes of a stored rule when detectors run.
use django_waf.Base.{
  true, some, ◌≡◌, ◌≢◌, refl, sym, ◌∙◌, ap, inl, inr, ◌∷◌, ◌++◌, Text, In, In-append_left,
  In-middle, In-replaced, NoChar, Bool-cases,
}
use mathlib.Core.Path.{subst}
use django_waf.Anomaly.{auto, BlockRuleRow, Table, Defaults, set_fields}
use django_waf.Anomaly.Names.{names_of}
use django_waf.Anomaly.Names.Laws.{merge_detector_names-keeps}
use django_waf.Anomaly.Store.{is_reviewed, write_defaults}

-- What may become of a row: its key stays; a row of an administrator or of the feed stays as it is;
-- an operator's review stays and so does whether the rule is on; and no detector's name goes.
pub record Follows (row later : BlockRuleRow) : Type 0 where
  pub same_id : later.id ≡ row.id
  pub same_source : later.source ≡ row.source
  pub same_type : later.rule_type ≡ row.rule_type
  pub same_pattern : later.pattern ≡ row.pattern
  pub same_action : later.action ≡ row.action
  pub foreign : row.source ≢ auto → later ≡ row
  pub review :
      is_reviewed row.review_status ≡ true
      → (later.review_status ≡ row.review_status) × (later.is_active ≡ row.is_active)
  pub names : (name : Text) → In name (names_of row.detectors) → In name (names_of later.detectors)

pub Follows-refl : (row : BlockRuleRow) → Follows row row
Follows-refl row = record {
  same_id = refl;
  same_source = refl;
  same_type = refl;
  same_pattern = refl;
  same_action = refl;
  foreign = λ h. refl;
  review = λ h. (refl, refl);
  names = λ name i. i;
}

pub Follows-trans : (a b c : BlockRuleRow) → Follows a b → Follows b c → Follows a c
Follows-trans a b c f g = record {
  same_id = g.same_id ∙ f.same_id;
  same_source = g.same_source ∙ f.same_source;
  same_type = g.same_type ∙ f.same_type;
  same_pattern = g.same_pattern ∙ f.same_pattern;
  same_action = g.same_action ∙ f.same_action;
  foreign = λ h. g.foreign (λ e. h (sym f.same_source ∙ e)) ∙ f.foreign h;
  review = λ h.
      let (s, on) = f.review h in
      let (s', on') = g.review (ap (λ x. is_reviewed x) s ∙ h) in (s' ∙ s, on' ∙ on);
  names = λ name i. g.names name (f.names name i);
}

-- The defaults that a detector writes to a row that is there.
pub Follows-written :
    (row : BlockRuleRow) (d : Defaults) (detector_name : Text)
    → row.source ≡ auto
    → NoChar b',' detector_name
    → Follows row (set_fields (write_defaults (some row) d detector_name) row)
Follows-written row d detector_name e n = elim (Bool-cases (is_reviewed row.review_status)) [
  | inl h ↦ record {
    same_id = refl;
    same_source = refl;
    same_type = refl;
    same_pattern = refl;
    same_action = refl;
    foreign = λ no. absurd (no e);
    review = λ _. rw h (refl, refl);
    names = λ name i. rw h (merge_detector_names-keeps row.detectors detector_name name n i);
  }
  | inr h ↦ record {
    same_id = refl;
    same_source = refl;
    same_type = refl;
    same_pattern = refl;
    same_action = refl;
    foreign = λ no. absurd (no e);
    review = λ yes_it_is. cc;
    names = λ name i. rw h (merge_detector_names-keeps row.detectors detector_name name n i);
  }
]

pub record Kept (t t' : Table) : Type 0 where
  pub at :
      (row : BlockRuleRow) → In row t → (later : BlockRuleRow) × In later t' × Follows row later

pub Kept-refl : (t : Table) → Kept t t
Kept-refl t = record { at = λ row i. (row, i, Follows-refl row) }

pub Kept-trans : (t u v : Table) → Kept t u → Kept u v → Kept t v
Kept-trans t u v f g = record {
  at = λ row i.
      let (a, j, h) = f.at row i in let (b, k, h') = g.at a j in (b, k, Follows-trans row a b h h');
}

pub Kept-append : (t new : Table) → Kept t (t ++ new)
Kept-append t new = record { at = λ row i. (row, In-append_left row t new i, Follows-refl row) }

pub Kept-replace :
    (earlier later : Table) (row row' : BlockRuleRow)
    → Follows row row'
    → Kept (earlier ++ row ∷ later) (earlier ++ row' ∷ later)
Kept-replace earlier later row row' f = record {
  at = λ r i. elim (In-replaced r row row' earlier later i) [
    | inl e ↦ (row', In-middle row' earlier later, subst (λ x. Follows x row') (sym e) f)
    | inr j ↦ (r, j, Follows-refl r)
  ];
}
