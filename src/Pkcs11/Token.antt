-- ===== src/Pkcs11/Token.antt =====
-- A library for the tests: a token in software that accepts every call, with a cipher that changes
-- nothing. It stands for no code of the repository.
use se05x.Base.{ℕ, ◌+◌, true, none, some, List, [], ◌∷◌, length}
use se05x.Prog.{Device}
use se05x.Pkcs11.Cryptoki.{
  ckr_buffer_too_small, Call, Reply, get_slot_list, open_session, generate_key, generate_key_pair,
  create_object, derive_key, destroy_object, find_objects_final, close_session, finalize, op_data,
  digesting, signing, get_attribute_value,
}

-- The next handle to give.
pub record Token : Type 0 where
  pub next : ℕ

abbrev pub fresh_token : Token
fresh_token = record { next = 100 }

abbrev accept : List ℕ → Reply
accept bytes = record { rv = 0; handle = none; handle2 = none; bytes = bytes; len = length bytes }

-- CKR_FUNCTION_FAILED
abbrev refusal : Reply
refusal = record (accept []) { rv = 6 }

abbrev create : Token → Reply × Token
create t = (record (accept []) { handle = some t.next }, record { next = t.next + 1 })

unfoldable pub soft_answer : Token → Call → Reply × Token
soft_answer t (open_session slot) = (record (accept []) { handle = some 7 }, t)
soft_answer t (get_slot_list present room) = (accept (3 ∷ []), t)
soft_answer t (generate_key s mech tmpl) = create t
soft_answer t (create_object s tmpl) = create t
soft_answer t (derive_key s mech base tmpl) = create t
soft_answer t (generate_key_pair s mech pub_tmpl priv_tmpl) = (
  record (accept []) { handle = some t.next; handle2 = some (t.next + 1) },
  record { next = t.next + 2 },
)
soft_answer t (op_data digesting s input room) = (accept (length input ∷ []), t)
soft_answer t (op_data signing s input room) = (accept (length input ∷ 9 ∷ []), t)
soft_answer t (op_data o s input room) = (accept input, t)
soft_answer t (get_attribute_value s h a room) = (accept (4 ∷ []), t)
soft_answer t _ = (accept [], t)

abbrev pub soft_token : Device Call Reply
soft_token = record { State = Token; answer = soft_answer }

-- The same with nine slots that hold a token, and a C_GetSlotList that wants room for all of them.
unfoldable pub crowded_answer : Token → Call → Reply × Token
unfolding soft_answer
crowded_answer t (get_slot_list true none) = (record (accept []) { len = 9 }, t)
crowded_answer t (get_slot_list true (some room)) =
    (record (accept []) { rv = ckr_buffer_too_small; len = 9 }, t)
crowded_answer t c = soft_answer t c

abbrev pub crowded_token : Device Call Reply
crowded_token = record { State = Token; answer = crowded_answer }

-- The same, but it refuses every release: nothing is destroyed, ended, closed or finalised.
unfoldable pub stubborn_answer : Token → Call → Reply × Token
unfolding soft_answer
stubborn_answer t (destroy_object s h) = (refusal, t)
stubborn_answer t (find_objects_final s) = (refusal, t)
stubborn_answer t (close_session s) = (refusal, t)
stubborn_answer t finalize = (refusal, t)
stubborn_answer t c = soft_answer t c

abbrev pub stubborn_token : Device Call Reply
stubborn_token = record { State = Token; answer = stubborn_answer }
