-- ===== src/Pkcs11/Examples.antt =====
-- The theorems on the PKCS#11 suite at runs against the software token.
use se05x.Base.{map, ℕ, ◌≡◌, refl, true, false, List, [], ◌∷◌, arith, if◌then◌else◌}
use se05x.Prog.{run}
use se05x.Pkcs11.Cryptoki.{destroy}
use se05x.Pkcs11.Protocol.{unloaded}
use se05x.Pkcs11.Suite.{main}
use se05x.Pkcs11.Suite.Protocol.{outside, Ends}
use se05x.Pkcs11.Token.{
  soft_token, stubborn_token, stubborn_answer, soft_answer, crowded_token, crowded_answer,
  fresh_token,
}
use se05x.Pkcs11.Protocol.Resources.{object, held, Releases}
use se05x.Pkcs11.Clean.{
  Restores, monitor_after, main_clean, run_module_info_clean, run_random_gen_clean,
  run_digest_clean, run_sym_key_gen_clean, run_import_object_clean, run_ecc_clean, run_rsa_clean,
  run_ecdh_derive_clean, run_hmac_clean, run_encrypt_decrypt_clean,
}
use se05x.Pkcs11.ModuleInfo.{run_module_info}
use se05x.Pkcs11.RandomGen.{run_random_gen}
use se05x.Pkcs11.RandomGen.Protocol.{drawing}
use se05x.Pkcs11.Digest.{run_digest}
use se05x.Pkcs11.SymKeyGen.{run_sym_key_gen}
use se05x.Pkcs11.ImportObject.{run_import_object}
use se05x.Pkcs11.Ecc.{run_ecc, pub_template, curves}
use se05x.Pkcs11.Ecc.Rounds.{asked}
use se05x.Pkcs11.Rsa.{run_rsa}
use se05x.Pkcs11.EcdhDerive.{run_ecdh_derive}
use se05x.Pkcs11.Hmac.{run_hmac}
use se05x.Pkcs11.EncryptDecrypt.{run_encrypt_decrypt}
use se05x.Pkcs11.Protocol.Rules.{code}
use se05x.Pkcs11.Verdict.{any_fatal}
use se05x.Pkcs11.ModuleInfo.Verdict.{run_module_info_verdict}
use se05x.Pkcs11.RandomGen.Verdict.{run_random_gen_verdict}
use se05x.Pkcs11.Digest.Verdict.{run_digest_verdict}
use se05x.Pkcs11.SymKeyGen.Verdict.{run_sym_key_gen_verdict}
use se05x.Pkcs11.ImportObject.Verdict.{run_import_object_verdict}
use se05x.Pkcs11.Ecc.Verdict.{run_ecc_verdict}
use se05x.Pkcs11.Rsa.Verdict.{run_rsa_verdict}
use se05x.Pkcs11.EcdhDerive.Verdict.{run_ecdh_derive_verdict}
use se05x.Pkcs11.Hmac.Verdict.{run_hmac_verdict}
use se05x.Pkcs11.EncryptDecrypt.Ledger.{run_encrypt_decrypt_verdict}
use se05x.Pkcs11.EncryptDecrypt.Ledger.Rules.{ledger, entry}
use se05x.Prog.Hoare.{after}
use se05x.Pkcs11.ModuleInfo.Slots.{run_module_info_many_slots}
use se05x.Pkcs11.Suite.{demos, run_all}
use se05x.Pkcs11.Suite.Every.{any_nonzero, in_turn, run_all_exit_status}

-- Objects that another part of the program holds.
abbrev others : List ℕ
others = 500 ∷ 501 ∷ []

all_demos_pass : (run soft_token (main 0) fresh_token).value ≡ 0
unfolding run main run_module_info run_random_gen run_digest run_sym_key_gen run_import_object
    run_ecc run_rsa run_ecdh_derive run_hmac run_encrypt_decrypt destroy soft_answer
all_demos_pass = refl

run_module_info_clean_example : Restores stubborn_token fresh_token 7 others (run_module_info 7)
unfolding run run_module_info destroy soft_answer stubborn_answer
run_module_info_clean_example = run_module_info_clean stubborn_token fresh_token 7 others refl

run_random_gen_clean_example :
    Restores soft_token fresh_token 7 others (run_random_gen 7)
    × (after drawing true (run soft_token (run_random_gen 7) fresh_token).log ≡ true)
unfolding run run_random_gen destroy soft_answer
run_random_gen_clean_example = run_random_gen_clean soft_token fresh_token 7 others refl

run_digest_clean_example : Restores soft_token fresh_token 7 others (run_digest 7)
unfolding run run_digest destroy soft_answer
run_digest_clean_example = run_digest_clean soft_token fresh_token 7 others refl

run_sym_key_gen_clean_example : Restores stubborn_token fresh_token 7 others (run_sym_key_gen 7)
unfolding run run_sym_key_gen destroy soft_answer stubborn_answer
run_sym_key_gen_clean_example = run_sym_key_gen_clean stubborn_token fresh_token 7 others refl

run_import_object_clean_example : Restores soft_token fresh_token 7 others (run_import_object 7)
unfolding run run_import_object destroy soft_answer
run_import_object_clean_example = run_import_object_clean soft_token fresh_token 7 others refl

run_ecc_clean_example : Restores soft_token fresh_token 7 others (run_ecc 7)
unfolding run run_ecc destroy soft_answer
run_ecc_clean_example = run_ecc_clean soft_token fresh_token 7 others refl

run_rsa_clean_example : Restores soft_token fresh_token 7 others (run_rsa 7)
unfolding run run_rsa destroy soft_answer
run_rsa_clean_example = run_rsa_clean soft_token fresh_token 7 others refl

run_ecdh_derive_clean_example : Restores soft_token fresh_token 7 others (run_ecdh_derive 7)
unfolding run run_ecdh_derive destroy soft_answer
run_ecdh_derive_clean_example = run_ecdh_derive_clean soft_token fresh_token 7 others refl

run_hmac_clean_example : Restores soft_token fresh_token 7 others (run_hmac 7)
unfolding run run_hmac destroy soft_answer
run_hmac_clean_example = run_hmac_clean soft_token fresh_token 7 others refl

run_encrypt_decrypt_clean_example : Restores soft_token fresh_token 7 others (run_encrypt_decrypt 7)
unfolding run run_encrypt_decrypt destroy soft_answer
run_encrypt_decrypt_clean_example = run_encrypt_decrypt_clean soft_token fresh_token 7 others refl

main_clean_example :
    Ends
      (run stubborn_token (main 0) fresh_token).value
      (monitor_after stubborn_token (main 0) fresh_token (outside unloaded false))
    × Releases (outside unloaded false) (run stubborn_token (main 0) fresh_token).log
unfolding run main run_module_info run_random_gen run_digest run_sym_key_gen run_import_object
    run_ecc run_rsa run_ecdh_derive run_hmac run_encrypt_decrypt destroy soft_answer stubborn_answer
main_clean_example = main_clean stubborn_token fresh_token 0 refl

-- The first key that run_sym_key_gen generates stays in a token that refuses to destroy it.
first_key_stays : held (object 100) 0 (run stubborn_token (run_sym_key_gen 7) fresh_token).log ≡ 1
unfolding run run_sym_key_gen destroy soft_answer stubborn_answer
first_key_stays = refl

run_module_info_verdict_example :
    (run soft_token (run_module_info 7) fresh_token).value
    ≡ code (any_fatal false (run soft_token (run_module_info 7) fresh_token).log)
run_module_info_verdict_example = run_module_info_verdict soft_token fresh_token 7

run_random_gen_verdict_example :
    (run soft_token (run_random_gen 7) fresh_token).value
    ≡ code (any_fatal false (run soft_token (run_random_gen 7) fresh_token).log)
run_random_gen_verdict_example = run_random_gen_verdict soft_token fresh_token 7

run_digest_verdict_example :
    (run soft_token (run_digest 7) fresh_token).value
    ≡ code (any_fatal false (run soft_token (run_digest 7) fresh_token).log)
run_digest_verdict_example = run_digest_verdict soft_token fresh_token 7

run_sym_key_gen_verdict_example :
    (run soft_token (run_sym_key_gen 7) fresh_token).value
    ≡ code (any_fatal false (run soft_token (run_sym_key_gen 7) fresh_token).log)
run_sym_key_gen_verdict_example = run_sym_key_gen_verdict soft_token fresh_token 7

run_import_object_verdict_example :
    (run soft_token (run_import_object 7) fresh_token).value
    ≡ code (any_fatal false (run soft_token (run_import_object 7) fresh_token).log)
run_import_object_verdict_example = run_import_object_verdict soft_token fresh_token 7

run_ecc_verdict_example :
    (after asked [] (run soft_token (run_ecc 7) fresh_token).log ≡ map pub_template curves)
    × ((run soft_token (run_ecc 7) fresh_token).value
        ≡ code (any_fatal false (run soft_token (run_ecc 7) fresh_token).log))
run_ecc_verdict_example = run_ecc_verdict soft_token fresh_token 7

run_rsa_verdict_example :
    (run soft_token (run_rsa 7) fresh_token).value
    ≡ code (any_fatal true (run soft_token (run_rsa 7) fresh_token).log)
run_rsa_verdict_example = run_rsa_verdict soft_token fresh_token 7

run_ecdh_derive_verdict_example :
    (run soft_token (run_ecdh_derive 7) fresh_token).value
    ≡ code (any_fatal true (run soft_token (run_ecdh_derive 7) fresh_token).log)
run_ecdh_derive_verdict_example = run_ecdh_derive_verdict soft_token fresh_token 7

run_hmac_verdict_example :
    (run soft_token (run_hmac 7) fresh_token).value
    ≡ code (any_fatal false (run soft_token (run_hmac 7) fresh_token).log)
run_hmac_verdict_example = run_hmac_verdict soft_token fresh_token 7

run_encrypt_decrypt_verdict_example :
    (run soft_token (run_encrypt_decrypt 7) fresh_token).value
    ≡ code
        (after ledger
          (entry [] false)
          (run soft_token (run_encrypt_decrypt 7) fresh_token).log).failed
unfolding run run_encrypt_decrypt destroy soft_answer
run_encrypt_decrypt_verdict_example = run_encrypt_decrypt_verdict soft_token fresh_token 7 refl

run_module_info_many_slots_example : (run crowded_token (run_module_info 7) fresh_token).value ≡ 1
unfolding run run_module_info crowded_answer
run_module_info_many_slots_example =
    run_module_info_many_slots crowded_token fresh_token 7 9 (omega arith) refl

run_all_exit_status_example : run crowded_token (run_all 7 demos 0) fresh_token ≡ record {
  value = if any_nonzero (in_turn crowded_token 7 demos fresh_token).value then 1 else 0;
  log = (in_turn crowded_token 7 demos fresh_token).log;
  state = (in_turn crowded_token 7 demos fresh_token).state;
}
run_all_exit_status_example = run_all_exit_status crowded_token 7 demos fresh_token
