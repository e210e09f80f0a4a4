-- ===== src/Pkcs11/Protocol.antt =====
-- The rules of PKCS#11 v2.40 that a caller has to keep, as a monitor of the calls and replies, and
-- the documented behaviour of a library, as a test on each reply. Both describe code outside the
-- repository: nothing here translates a line of it.
pub mod Rules
pub mod Failed
pub mod Resources
use se05x.Base.{
  ℕ, Bool, true, false, not, ◌&&◌, ◌||◌, Option, none, some, List, ◌∷◌, ltb, leb, ◌==◌,
  if◌then◌else◌, length, member, remove,
}
use se05x.Prog.Hoare.{Watch}
use se05x.Pkcs11.Cryptoki.{
  ckr_buffer_too_small, ck_invalid_handle, Hash, sha_1, sha224, sha256, sha384, sha512, Mechanism,
  digest, hmac, ecdsa, aes_ecb, aes_cbc, Operation, digesting, signing, verifying, encrypting,
  decrypting, Line, fail_line, Call, print, open_library, get_function_list, get_info,
  get_slot_info, get_token_info, get_mechanism_list, find_objects_init, find_objects_final,
  find_objects, get_object_class, initialize, finalize, close_library, get_slot_list, open_session,
  close_session, generate_random, generate_key, generate_key_pair, create_object, derive_key,
  destroy_object, get_attribute_value, op_init, op_data, op_verify, Reply, is_ok, handle_of,
  handle2_of,
}

-- The operation that is active in the session, with its mechanism, as far as the caller goes.
pub data Active : Type 0 where
  idle : Active
  active : Operation → Mechanism → Active
  searching : Active

-- How far the caller is: what it has initialised and opened, and not given back by C_Finalize,
-- C_CloseSession or dlclose.
pub data Phase : Type 0 where
  unloaded loaded ready : Phase
  opened : ℕ → Phase

-- The caller's side: `live` are the handles of the objects that it created and has not yet asked to
-- destroy, `active` the operation that it has not yet ended; whether the library grants what is asked
-- is another matter (Resources). `broken` says that a rule was broken, `failed` that a [FAIL] line was
-- printed.
pub record Monitor : Type 0 where
  pub phase : Phase
  pub live : List ℕ
  pub active : Active
  pub broken : Bool
  pub failed : Bool

abbrev pub same_operation : Operation → Operation → Bool
same_operation digesting digesting = true
same_operation signing signing = true
same_operation verifying verifying = true
same_operation encrypting encrypting = true
same_operation decrypting decrypting = true
same_operation _ _ = false

abbrev pub is_idle : Active → Bool
is_idle idle = true
is_idle _ = false

abbrev pub is_searching : Active → Bool
is_searching searching = true
is_searching _ = false

abbrev pub is_active : Operation → Active → Bool
is_active o (active p mech) = same_operation o p
is_active o _ = false

abbrev pub in_session : Phase → ℕ → Bool
in_session (opened t) s = t == s
in_session _ s = false

abbrev pub is_initialized : Phase → Bool
is_initialized ready = true
is_initialized (opened s) = true
is_initialized _ = false

abbrev pub is_unloaded : Phase → Bool
is_unloaded unloaded = true
is_unloaded _ = false

abbrev pub is_loaded : Phase → Bool
is_loaded loaded = true
is_loaded _ = false

abbrev pub is_ready : Phase → Bool
is_ready ready = true
is_ready _ = false

-- A key of an operation is an object that exists; a digest has none.
abbrev pub is_key : Operation → ℕ → List ℕ → Bool
is_key digesting h live = true
is_key _ h live = member h live

-- The call keeps the rules: sessions are open, handles live, operations begun before they run.
abbrev pub is_legal : Monitor → Call → Bool
is_legal m (print l) = true
is_legal m open_library = is_unloaded m.phase
is_legal m get_function_list = is_loaded m.phase
is_legal m initialize = is_loaded m.phase
is_legal m finalize = is_ready m.phase
is_legal m close_library = is_loaded m.phase
is_legal m get_info = is_initialized m.phase
is_legal m (get_slot_list present room) = is_initialized m.phase
is_legal m (get_slot_info slot) = is_initialized m.phase
is_legal m (get_token_info slot) = is_initialized m.phase
is_legal m (get_mechanism_list slot room) = is_initialized m.phase
is_legal m (find_objects_init s) = in_session m.phase s && is_idle m.active
is_legal m (find_objects s room) = in_session m.phase s && is_searching m.active
is_legal m (find_objects_final s) = in_session m.phase s && is_searching m.active
is_legal m (get_object_class s h) = in_session m.phase s
is_legal m (open_session slot) = is_ready m.phase
is_legal m (close_session s) = in_session m.phase s
is_legal m (generate_random s room) = in_session m.phase s
is_legal m (generate_key s mech tmpl) = in_session m.phase s
is_legal m (generate_key_pair s mech pub_tmpl priv_tmpl) = in_session m.phase s
is_legal m (create_object s tmpl) = in_session m.phase s
is_legal m (derive_key s mech base tmpl) = in_session m.phase s && member base m.live
is_legal m (destroy_object s h) = in_session m.phase s && member h m.live
is_legal m (get_attribute_value s h a room) = in_session m.phase s && member h m.live
is_legal m (op_init o s mech key) =
    in_session m.phase s && (is_idle m.active && is_key o key m.live)
is_legal m (op_data o s input room) = in_session m.phase s && is_active o m.active
is_legal m (op_verify s message signature) = in_session m.phase s && is_active verifying m.active

abbrev pub fails : Line → Bool
fails fail_line = true
fails _ = false

-- What a legal call does. A data call ends its operation, unless it reports a buffer too small.
abbrev pub effect : Monitor → Call → Reply → Monitor
effect m (print l) r = record m { failed = fails l || m.failed }
effect m open_library r = if is_ok r then record m { phase = loaded } else m
effect m initialize r = if is_ok r then record m { phase = ready } else m
effect m finalize r = record m { phase = loaded }
effect m close_library r = record m { phase = unloaded }
effect m (open_session slot) r = if is_ok r then record m { phase = opened (handle_of r) } else m
effect m (close_session s) r = record m { phase = ready }
effect m (generate_key s mech tmpl) r =
    if is_ok r then record m { live = handle_of r ∷ m.live } else m
effect m (generate_key_pair s mech pub_tmpl priv_tmpl) r =
    if is_ok r then record m { live = handle2_of r ∷ handle_of r ∷ m.live } else m
effect m (create_object s tmpl) r = if is_ok r then record m { live = handle_of r ∷ m.live } else m
effect m (derive_key s mech base tmpl) r =
    if is_ok r then record m { live = handle_of r ∷ m.live } else m
effect m (destroy_object s h) r = record m { live = remove h m.live }
effect m (op_init o s mech key) r = if is_ok r then record m { active = active o mech } else m
effect m (op_data o s input room) r =
    if r.rv == ckr_buffer_too_small then m else record m { active = idle }
effect m (find_objects_init s) r = if is_ok r then record m { active = searching } else m
effect m (find_objects_final s) r = record m { active = idle }
effect m (op_verify s message signature) r = record m { active = idle }
effect m _ r = m

abbrev pub hash_size : Hash → ℕ
hash_size sha_1 = 20
hash_size sha224 = 28
hash_size sha256 = 32
hash_size sha384 = 48
hash_size sha512 = 64

-- The most bytes that an operation puts out, for keys up to P-521 and RSA-2048.
abbrev pub output_bound : Mechanism → ℕ → ℕ
output_bound (digest h) n = hash_size h
output_bound (hmac h) n = hash_size h
output_bound (ecdsa h) n = 132
output_bound aes_ecb n = n
output_bound (aes_cbc iv) n = n
output_bound _ n = 256

abbrev pub active_bound : Active → ℕ → ℕ
active_bound (active o mech) n = output_bound mech n
active_bound _ n = 0

abbrev pub is_unwritten : Option ℕ → Bool
is_unwritten none = true
is_unwritten (some h) = false

abbrev pub is_handle : Option ℕ → Bool
is_handle none = false
is_handle (some h) = not (h == ck_invalid_handle)

-- A handle is written exactly on success, and is then valid.
abbrev pub creates : Reply → Bool
creates r = if is_ok r then is_handle r.handle else is_unwritten r.handle

abbrev pub creates2 : Reply → Bool
creates2 r = if is_ok r then is_handle r.handle2 else is_unwritten r.handle2

-- On success the length is that of what was written, and within the room given.
abbrev pub fits : ℕ → Reply → Bool
fits room r = if is_ok r then r.len == length r.bytes && leb r.len room else true

-- The documented behaviour. CKR_BUFFER_TOO_SMALL is not reported where the room is large enough.
abbrev pub is_honest : Monitor → Call → Reply → Bool
is_honest m (generate_key s mech tmpl) r = creates r
is_honest m (generate_key_pair s mech pub_tmpl priv_tmpl) r = creates r && creates2 r
is_honest m (create_object s tmpl) r = creates r
is_honest m (derive_key s mech base tmpl) r = creates r
is_honest m (open_session slot) r = creates r
is_honest m (op_data o s input room) r =
    fits room r
    && (if r.rv == ckr_buffer_too_small
        then ltb room (active_bound m.active (length input))
        else true)
is_honest m _ r = true

abbrev pub step : Monitor → Call → Reply → Monitor
step m c r = if is_legal m c then effect m c r else record m { broken = true }

abbrev pub protocol : Watch Call Reply Monitor
protocol = record { step = step; honest = is_honest }
