-- ===== src/Auth/Login/Checked.antt =====
-- The checks of cpkit/auth/router.py before a code is exchanged, and the redirects of
-- cpkit/auth/redirects.py.
use cpkit.Base.{
  not-false, String, true, false, not, ◌||◌, Option, none, some, ◌≡◌, ◌≢◌, refl, sym, ap, ◌∙◌,
  arith, str_eq, eq_iff, if_split,
}
use cpkit.Base.Exec.{ok}
use cpkit.Base.Value.{is_nonempty}
use cpkit.Auth.Login.{
  safe_next_path, starts_with_slash, starts_with_slashes, Callback, text_of, checked_callback,
}

-- The callback carries a code, the state and the nonce of the browser's own login.
pub record IsOwn (cb : Callback) (code nonce : String) : Type 0 where
  pub code_given : cb.code ≡ some code
  pub nonce_given : cb.nonce_cookie ≡ some nonce
  pub nonce_nonempty : nonce ≢ ""
  pub state_nonempty : text_of cb.state ≢ ""
  pub same_state : cb.state ≡ cb.state_cookie

nonempty_text : (o : Option String) → is_nonempty (text_of o) ≡ true → o ≡ some (text_of o)
nonempty_text none e = absurd (cc e)
nonempty_text (some s) e = refl

-- a path of the application: one slash at its head
abbrev pub IsInApp : String → Type 0
IsInApp path = (starts_with_slash path ≡ true) × (starts_with_slashes path ≡ false)

pub safe_next_path-IsInApp : (o : Option String) → IsInApp (safe_next_path o)
unfolding safe_next_path starts_with_slash starts_with_slashes
safe_next_path-IsInApp none = (refl, refl)
safe_next_path-IsInApp (some s) =
    if_split IsInApp (not (is_nonempty s)) (λ e. (refl, refl))
      λ e.
        if_split IsInApp (not (starts_with_slash s)) (λ a. (refl, refl))
          λ a. if_split IsInApp (starts_with_slashes s) (λ b. (refl, refl)) λ b. (not-false _ a, b)

pub checked_callback-IsOwn :
    (cb : Callback) (code nonce : String)
    → checked_callback cb ≡ ok (code, nonce)
    → IsOwn cb code nonce
unfolding checked_callback
checked_callback-IsOwn cb code nonce =
    if_split (λ r. r ≡ ok (code, nonce) → IsOwn cb code nonce) (is_nonempty (text_of cb.error))
      (λ b e. absurd (cc e))
      λ b.
        if_split (λ r. r ≡ ok (code, nonce) → IsOwn cb code nonce)
          (not (is_nonempty (text_of cb.code))) (λ b e. absurd (cc e))
          λ has_code.
            if_split (λ r. r ≡ ok (code, nonce) → IsOwn cb code nonce)
              (not (is_nonempty (text_of cb.state))
                || not (is_nonempty (text_of cb.state_cookie))
                || not (str_eq (text_of cb.state) (text_of cb.state_cookie)))
              (λ b e. absurd (cc e))
              λ same.
                if_split (λ r. r ≡ ok (code, nonce) → IsOwn cb code nonce)
                  (not (is_nonempty (text_of cb.nonce_cookie))) (λ b e. absurd (cc e))
                  λ has_nonce e. own has_code same has_nonce (cc e) (cc e)
  where
    own :
        not (is_nonempty (text_of cb.code)) ≡ false
        → (not (is_nonempty (text_of cb.state))
            || not (is_nonempty (text_of cb.state_cookie))
            || not (str_eq (text_of cb.state) (text_of cb.state_cookie)))
          ≡ false
        → not (is_nonempty (text_of cb.nonce_cookie)) ≡ false
        → text_of cb.code ≡ code
        → text_of cb.nonce_cookie ≡ nonce
        → IsOwn cb code nonce
    own has_code same has_nonce c n = record {
      code_given = nonempty_text cb.code (not-false _ has_code) ∙ ap some c;
      nonce_given = nonempty_text cb.nonce_cookie (not-false _ has_nonce) ∙ ap some n;
      nonce_nonempty = λ q. ground (arith, has_nonce, eq_iff (text_of cb.nonce_cookie) "", n, q);
      state_nonempty = λ q. ground (arith, same, eq_iff (text_of cb.state) "", q);
      same_state =
          nonempty_text cb.state (ground (arith, same))
          ∙ ap some ((eq_iff (text_of cb.state) (text_of cb.state_cookie)).0 (ground (arith, same)))
          ∙ sym (nonempty_text cb.state_cookie (ground (arith, same)));
    }
