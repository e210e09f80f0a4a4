-- ===== src/App/Rng.antt =====
-- app/demo_rng.c.
use se05x.Base.{ℕ}
use se05x.Prog.{ret, call, ◌>>◌}
use se05x.App.Sss.{Sss, success, rng, rng_context, init, free, get_random, ensure}

-- The label `cleanup`.
unfoldable pub rng_cleanup : (status : ℕ) → Sss ℕ
rng_cleanup status = call (free rng) >> ret status

unfoldable pub demo_rng : Sss ℕ
unfolding rng_cleanup
demo_rng =
    ensure (init rng rng_context) rng_cleanup
      λ _. ensure (get_random 32) rng_cleanup λ _. rng_cleanup success
