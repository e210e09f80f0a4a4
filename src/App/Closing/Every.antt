-- ===== src/App/Closing/Every.antt =====
-- What the functions of app/ leave open, and what they return, against every library.
use se05x.Base.{ℕ, ◌≡◌, refl, sym, subst, inl, inr, true, false, List, [], ◌∷◌, ◌==◌, ◌∙◌, arith}
use se05x.Prog.{ret}
use se05x.Prog.Hoare.{Wp, Wp-bind, Wp-if, Wp-mono}
use se05x.App.Sss.{Sss, success}
use se05x.App.Rng.{demo_rng}
use se05x.App.Keys.{demo_ec_keygen, demo_rsa_keygen}
use se05x.App.SignVerify.{demo_ec_sign_verify, demo_rsa_sign_verify}
use se05x.App.Ecdh.{demo_ec_ecdh}
use se05x.App.EncDec.{demo_rsa_enc_dec}
use se05x.App.Entry.{run_demos, demos, ex_sss_entry}
use se05x.App.Watching.{Contexts, contexts, fresh, Closed, Ends, Closes}
use se05x.App.Closing.{
  demo_rng-Closes, demo_ec_keygen-Closes, demo_rsa_keygen-Closes, demo_ec_sign_verify-Closes,
  demo_rsa_sign_verify-Closes, demo_ec_ecdh-Closes,
}
use se05x.App.Closing.Decryption.{demo_rsa_enc_dec-Closes}
use se05x.App.Closing.Requests.{demo_ec_csr-Ends, demo_rsa_csr-Ends}

abbrev AllEnd : List (Sss ℕ) → Type 0
AllEnd [] = Unit
AllEnd (q ∷ qs) = ((p : List ℕ) → Wp contexts q Ends (fresh p)) × AllEnd qs

closes : (q : Sss ℕ) → ((p : List ℕ) → Closes q p) → (p : List ℕ) → Wp contexts q Ends (fresh p)
closes q h p = Wp-mono contexts q Closed Ends (fresh p) (λ v m e. inl e) (h p)

-- After a demo that succeeded nothing is open, and the next one starts as the first.
goes_on :
    (q : Sss ℕ) (s : ℕ) (m : Contexts)
    → (s == success) ≡ true
    → ((p : List ℕ) → Wp contexts q Ends (fresh p))
    → Ends s m
    → Wp contexts q Ends m
goes_on q s m good h (inl (l, u, a, e)) =
    let f : m.failed ≡ false = grind arith in
    let same : m ≡ fresh m.plain =
      λ i. record { live = l i; misused = u i; failed = f i; abandoned = a i; plain = m.plain } in
    subst (Wp contexts q Ends) (sym same) (h m.plain)
goes_on q s m good h (inr (l, u, a, e)) = let no : true ≡ false = sym good ∙ e in ground arith

run_demos-Ends :
    (qs : List (Sss ℕ)) (v : ℕ) (p : List ℕ)
    → (v == success) ≡ true
    → AllEnd qs
    → Wp contexts (run_demos qs v) Ends (fresh p)
unfolding run_demos
run_demos-Ends [] v p ok h = inl (refl, refl, refl, ok)
run_demos-Ends (q ∷ qs) v p ok h = Wp-bind contexts q _ _ _ (
    Wp-mono contexts q Ends _ (fresh p)
      (λ s m e.
        Wp-if contexts (s == success) (run_demos qs s) (ret s) Ends m
          (λ good. goes_on (run_demos qs s) s m good (λ p'. run_demos-Ends qs s p' good h.1) e)
          (λ _. e))
      (h.0 p))

demos-AllEnd : AllEnd demos
demos-AllEnd = (
  closes demo_rng demo_rng-Closes,
  (
    closes demo_ec_keygen demo_ec_keygen-Closes,
    (
      closes demo_ec_sign_verify demo_ec_sign_verify-Closes,
      (
        closes demo_ec_ecdh demo_ec_ecdh-Closes,
        (
          demo_ec_csr-Ends,
          (
            closes demo_rsa_keygen demo_rsa_keygen-Closes,
            (
              closes demo_rsa_sign_verify demo_rsa_sign_verify-Closes,
              (closes demo_rsa_enc_dec demo_rsa_enc_dec-Closes, (demo_rsa_csr-Ends, tt)),
            ),
          ),
        ),
      ),
    ),
  ),
)

pub ex_sss_entry-Ends : (p : List ℕ) → Wp contexts ex_sss_entry Ends (fresh p)
unfolding ex_sss_entry
ex_sss_entry-Ends p = run_demos-Ends demos success p refl demos-AllEnd
