-- ===== src/App/Runs.antt =====
-- What every run of a function of app/ returns and leaves open, whatever the libraries reply.
use se05x.Base.{ℕ, []}
use se05x.Prog.{Device, run}
use se05x.Prog.Hoare.{after}
use se05x.App.Sss.{Call, Reply, Sss}
use se05x.App.Rng.{demo_rng}
use se05x.App.Keys.{demo_ec_keygen, demo_rsa_keygen}
use se05x.App.SignVerify.{demo_ec_sign_verify, demo_rsa_sign_verify}
use se05x.App.Ecdh.{demo_ec_ecdh}
use se05x.App.EncDec.{demo_rsa_enc_dec}
use se05x.App.Csr.{demo_ec_csr, demo_rsa_csr}
use se05x.App.Entry.{ex_sss_entry}
use se05x.App.Watching.{Contexts, contexts, fresh, Closed, Ends}
use se05x.App.Watching.Rules.{Wp-every_run}
use se05x.App.Closing.{
  demo_rng-Closes, demo_ec_keygen-Closes, demo_rsa_keygen-Closes, demo_ec_sign_verify-Closes,
  demo_rsa_sign_verify-Closes, demo_ec_ecdh-Closes,
}
use se05x.App.Closing.Decryption.{demo_rsa_enc_dec-Closes}
use se05x.App.Closing.Requests.{demo_ec_csr-Ends, demo_rsa_csr-Ends}
use se05x.App.Closing.Every.{ex_sss_entry-Ends}

-- What the monitor has seen at the end of a run that began with nothing open.
abbrev pub seen : (d : Device Call Reply) → Sss ℕ → d.State → Contexts
seen d p st = after contexts (fresh []) (run d p st).log

module _ (d : Device Call Reply) (st : d.State) where
  -- Whatever the libraries reply, `ex_sss_entry` uses every object and context only while it is
  -- initialised, and for what it was initialised. If no writer under MBEDTLS_ASN1_CHK_ADD fails,
  -- nothing is left open, and the status is success exactly if no call failed that a demo needs and
  -- the decryption gave the plaintext back. If one fails, the status is not success, and the key
  -- object of the request is left open.
  pub ex_sss_entry_life : Ends (run d ex_sss_entry st).value (seen d ex_sss_entry st)
  ex_sss_entry_life = Wp-every_run d ex_sss_entry Ends (fresh []) st (ex_sss_entry-Ends [])

  -- Whatever the libraries reply, `demo_ec_csr` uses the key object, the signing context and the
  -- list of names only while they are initialised. If no writer under MBEDTLS_ASN1_CHK_ADD fails,
  -- nothing is left open, and the status is success exactly if the key, the names, the hash and the
  -- signature were got. If one fails, the status is not success and the key object, and nothing
  -- else, is left open.
  pub demo_ec_csr_life : Ends (run d demo_ec_csr st).value (seen d demo_ec_csr st)
  demo_ec_csr_life = Wp-every_run d demo_ec_csr Ends (fresh []) st (demo_ec_csr-Ends [])

  -- Whatever the libraries reply, `demo_rsa_csr` uses the key object, the signing context and the
  -- list of names only while they are initialised. If no writer under MBEDTLS_ASN1_CHK_ADD fails,
  -- nothing is left open, and the status is success exactly if the key, the names, the hash and the
  -- signature were got. If one fails, the status is not success and the key object, and nothing
  -- else, is left open.
  pub demo_rsa_csr_life : Ends (run d demo_rsa_csr st).value (seen d demo_rsa_csr st)
  demo_rsa_csr_life = Wp-every_run d demo_rsa_csr Ends (fresh []) st (demo_rsa_csr-Ends [])

  -- Whatever the libraries reply, `demo_ec_ecdh` derives only with the context and both objects
  -- open, leaves none of them open, and returns success exactly if no call failed but those that
  -- erase an old key and the export of the secret.
  pub demo_ec_ecdh_life : Closed (run d demo_ec_ecdh st).value (seen d demo_ec_ecdh st)
  demo_ec_ecdh_life = Wp-every_run d demo_ec_ecdh Closed (fresh []) st (demo_ec_ecdh-Closes [])

  -- Whatever the libraries reply, `demo_rsa_enc_dec` encrypts with a context for encryption and
  -- decrypts with one for decryption, frees the first before it makes the second, leaves nothing
  -- open, and returns success exactly if no call failed and the decryption gave the plaintext back.
  pub demo_rsa_enc_dec_life : Closed (run d demo_rsa_enc_dec st).value (seen d demo_rsa_enc_dec st)
  demo_rsa_enc_dec_life =
      Wp-every_run d demo_rsa_enc_dec Closed (fresh []) st (demo_rsa_enc_dec-Closes [])

  -- Whatever the libraries reply, `demo_ec_sign_verify` signs with a context for signing and
  -- verifies with one for verification, frees the first before it makes the second, leaves nothing
  -- open, and returns success exactly if no call failed.
  pub demo_ec_sign_verify_life :
      Closed (run d demo_ec_sign_verify st).value (seen d demo_ec_sign_verify st)
  demo_ec_sign_verify_life =
      Wp-every_run d demo_ec_sign_verify Closed (fresh []) st (demo_ec_sign_verify-Closes [])

  -- Whatever the libraries reply, `demo_rsa_sign_verify` signs with a context for signing and
  -- verifies with one for verification, frees the first before it makes the second, leaves nothing
  -- open, and returns success exactly if no call failed.
  pub demo_rsa_sign_verify_life :
      Closed (run d demo_rsa_sign_verify st).value (seen d demo_rsa_sign_verify st)
  demo_rsa_sign_verify_life =
      Wp-every_run d demo_rsa_sign_verify Closed (fresh []) st (demo_rsa_sign_verify-Closes [])

  -- Whatever the libraries reply, `demo_ec_keygen` leaves no object open, and returns success
  -- exactly if no call failed but those that erase an old key.
  pub demo_ec_keygen_life : Closed (run d demo_ec_keygen st).value (seen d demo_ec_keygen st)
  demo_ec_keygen_life =
      Wp-every_run d demo_ec_keygen Closed (fresh []) st (demo_ec_keygen-Closes [])

  -- Whatever the libraries reply, `demo_rsa_keygen` leaves no object open, and returns success
  -- exactly if no call failed but those that erase an old key.
  pub demo_rsa_keygen_life : Closed (run d demo_rsa_keygen st).value (seen d demo_rsa_keygen st)
  demo_rsa_keygen_life =
      Wp-every_run d demo_rsa_keygen Closed (fresh []) st (demo_rsa_keygen-Closes [])

  -- Whatever the libraries reply, `demo_rng` draws random bytes only with its context open, leaves
  -- it closed, and returns success exactly if the context was made and the bytes were drawn.
  pub demo_rng_life : Closed (run d demo_rng st).value (seen d demo_rng st)
  demo_rng_life = Wp-every_run d demo_rng Closed (fresh []) st (demo_rng-Closes [])
