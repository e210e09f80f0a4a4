-- ===== src/Pkcs11/Verdict.antt =====
-- The return codes of the demos, described by the replies of the library alone: which failing calls
-- make a demo fail, and which ones it skips or passes over.
pub mod Rules
use se05x.Base.{Bool, true, false, not, ◌&&◌, ◌||◌, List, [], ◌∷◌}
use se05x.Prog.Hoare.{Watch}
use se05x.Pkcs11.Cryptoki.{
  Mechanism, rsa_pkcs, aes_ecb, aes_cbc, AttributeType, ec_point_of, digesting, signing, verifying,
  encrypting, decrypting, Call, get_info, get_slot_list, find_objects_init, generate_random,
  generate_key, generate_key_pair, create_object, get_attribute_value, op_init, op_data, op_verify,
  Reply, is_ok,
}

-- Whether a demo needs the mechanism: the others may be missing on a token.
abbrev pub is_required : Mechanism → Bool
is_required (rsa_pkcs h) = true
is_required aes_ecb = true
is_required (aes_cbc iv) = true
is_required _ = false

abbrev pub is_point : AttributeType → Bool
is_point ec_point_of = true
is_point _ = false

-- The calls whose failure is an error. `strict` is for the demos that need their key pair, and the
-- public point of it.
abbrev pub is_fatal : (strict : Bool) → Call → Bool
is_fatal strict get_info = true
is_fatal strict (get_slot_list present room) = true
is_fatal strict (find_objects_init s) = true
is_fatal strict (generate_random s n) = true
is_fatal strict (generate_key s mech tmpl) = true
is_fatal strict (create_object s tmpl) = true
is_fatal strict (generate_key_pair s mech pub_tmpl priv_tmpl) = strict
is_fatal strict (get_attribute_value s h t room) = strict && is_point t
is_fatal strict (op_init digesting s mech key) = false
is_fatal strict (op_init signing s mech key) = is_required mech
is_fatal strict (op_init encrypting s mech key) = is_required mech
is_fatal strict (op_init verifying s mech key) = true
is_fatal strict (op_init decrypting s mech key) = true
is_fatal strict (op_data o s input room) = true
is_fatal strict (op_verify s message signature) = true
is_fatal strict _ = false

-- Some call of the log failed whose failure is an error.
abbrev pub any_fatal : (strict : Bool) → List (Call × Reply) → Bool
any_fatal strict [] = false
any_fatal strict ((c, r) ∷ t) = (is_fatal strict c && not (is_ok r)) || any_fatal strict t

-- The same, followed along a run.
abbrev pub judge : (strict : Bool) → Watch Call Reply Bool
judge strict = record {
  step = λ m c r. (is_fatal strict c && not (is_ok r)) || m;
  honest = λ m c r. true;
}
