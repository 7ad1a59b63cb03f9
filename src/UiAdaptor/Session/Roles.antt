-- ===== src/UiAdaptor/Session/Roles.antt =====
-- The answer to the question of the role.
use ioppytest.Prelude.{
  ◌≡◌, refl, ◌≢◌, false, [], Option, Text, codes, text_eq, text_eq_iff, text_eq_refl, insert, ok,
  raised, value_error, arith, sym,
}
use ioppytest.UiAdaptor.Session.{Roles, or_automated, roles_from_answer}

-- The two roles of a suite, none of them a word of the question.
pub record IsPair (roles : Roles) : Type 0 where
  pub differ : roles.0 ≢ roles.1
  pub none_both : (roles.0 ≢ codes "both") × (roles.1 ≢ codes "both")
  pub none_all : (roles.0 ≢ codes "all") × (roles.1 ≢ codes "all")

ne_test : (s t : Text) → s ≢ t → text_eq s t ≡ false
ne_test s t n = ground (arith, text_eq_iff s t)

all_not_both : codes "all" ≢ codes "both"
unfolding text_eq
all_not_both e = cc

-- Of the three answers offered, each role gives it to the first user and the other role to the
-- second user, or to the automated IUT if there is none; `all` raises a `ValueError`.
pub roles_from_answer_lem :
    (roles : Roles) (user_lead : Text) (second_user : Option Text)
    → IsPair roles
    → (roles_from_answer roles user_lead second_user roles.0
        ≡ ok (insert roles.1 (or_automated second_user) (insert roles.0 user_lead [])))
      × (roles_from_answer roles user_lead second_user roles.1
          ≡ ok (insert roles.0 (or_automated second_user) (insert roles.1 user_lead [])))
      × (roles_from_answer roles user_lead second_user (codes "all") ≡ raised value_error)
unfolding roles_from_answer
roles_from_answer_lem (r0, r1) user_lead second_user h = (
  rw (ne_test r0 (codes "both") h.none_both.0, text_eq_refl r0) refl,
  rw
      (
        ne_test r1 (codes "both") h.none_both.1,
        ne_test r1 r0 (λ e. h.differ (sym e)),
        text_eq_refl r1,
      )
      refl,
  rw
      (
        ne_test (codes "all") (codes "both") all_not_both,
        ne_test (codes "all") r0 (λ e. h.none_all.0 (sym e)),
        ne_test (codes "all") r1 (λ e. h.none_all.1 (sym e)),
      )
      refl,
)
