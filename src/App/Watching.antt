-- ===== src/App/Watching.antt =====
-- What a run of a function of app/ leaves open. The monitor follows which variables hold an object,
-- a context or a list of names, and how each was initialised.
pub mod Rules
use se05x.Base.{
  ℕ, ◌≡◌, ◌⊎◌, Bool, true, false, not, ◌&&◌, ◌||◌, List, [], ◌∷◌, ◌++◌, ◌==◌, bytes_eq, take, drop,
  length, replicate, if◌then◌else◌,
}
use se05x.Prog.Hoare.{Watch, Wp}
use se05x.App.Sss.{
  mode_digest, mode_sign, mode_verify, mode_encrypt, mode_decrypt, Init, object, rng_context,
  digest_context, asymmetric_context, derive_key_context, string_to_names, Call, init, free,
  get_handle, allocate_handle, generate_key, set_key, get_key, erase_key, get_random, digest_one_go,
  sign_digest, verify_digest, encrypt, decrypt, derive_dh, sha256_ret, asn1_write, write_names,
  Reply, Sss, is_success, success, key_pair, shared, dig_ctx, asym, dctx, rng, obj, names,
}

abbrev pub Open : Type 0
Open = List (ℕ × Init)

-- `misused`: a call was made on a variable that was not initialised for it, or a variable that was
-- in use was initialised again. `failed`: a call failed on which the result of the function depends,
-- or a decryption did not give `plain`, what was encrypted last. `abandoned`: a writer of mbedTLS
-- failed, where MBEDTLS_ASN1_CHK_ADD returns.
pub record Contexts : Type 0 where
  pub live : Open
  pub misused : Bool
  pub failed : Bool
  pub abandoned : Bool
  pub plain : List ℕ

-- Nothing has gone wrong.
abbrev pub amid : Open → List ℕ → Contexts
amid l p = record { live = l; misused = false; failed = false; abandoned = false; plain = p }

-- Nothing is open and nothing has gone wrong.
abbrev pub fresh : List ℕ → Contexts
fresh p = amid [] p

abbrev pub has : ℕ → (Init → Bool) → Open → Bool
has v suits [] = false
has v suits ((u, i) ∷ l) = (u == v && suits i) || has v suits l

abbrev pub close : ℕ → Open → Open
close v [] = []
close v ((u, i) ∷ l) = let rest = close v l in if u == v then rest else ((u, i) ∷ rest)

abbrev pub is_object : Init → Bool
is_object object = true
is_object _ = false

abbrev pub is_rng : Init → Bool
is_rng rng_context = true
is_rng _ = false

abbrev pub is_digest : Init → Bool
is_digest (digest_context alg mode_digest) = true
is_digest _ = false

abbrev pub is_derive : Init → Bool
is_derive (derive_key_context k alg m) = true
is_derive _ = false

abbrev pub is_names : Init → Bool
is_names (string_to_names s) = true
is_names _ = false

abbrev pub is_for_sign : Init → Bool
is_for_sign (asymmetric_context k alg mode_sign) = true
is_for_sign _ = false

abbrev pub is_for_verify : Init → Bool
is_for_verify (asymmetric_context k alg mode_verify) = true
is_for_verify _ = false

abbrev pub is_for_encrypt : Init → Bool
is_for_encrypt (asymmetric_context k alg mode_encrypt) = true
is_for_encrypt _ = false

abbrev pub is_for_decrypt : Init → Bool
is_for_decrypt (asymmetric_context k alg mode_decrypt) = true
is_for_decrypt _ = false

-- The key that a context is made with.
abbrev pub key_open : Init → Open → Bool
key_open (asymmetric_context k alg m) l = has k is_object l
key_open (derive_key_context k alg m) l = has k is_object l
key_open _ l = true

-- The call may be made: what it works on is initialised for it.
abbrev pub is_ready : Call → Open → Bool
is_ready (init v i) l = not (has v (λ _. true) l) && key_open i l
is_ready (get_handle v id) l = has v is_object l
is_ready (allocate_handle v id part t n m) l = has v is_object l
is_ready (generate_key v bits) l = has v is_object l
is_ready (set_key v key bits) l = has v is_object l
is_ready (get_key v room) l = has v is_object l
is_ready (erase_key v) l = has v is_object l
is_ready (get_random n) l = has rng is_rng l
is_ready (digest_one_go input room) l = has dig_ctx is_digest l
is_ready (sign_digest digest room) l = has asym is_for_sign l
is_ready (verify_digest digest sig) l = has asym is_for_verify l
is_ready (encrypt input room) l = has asym is_for_encrypt l
is_ready (decrypt input room) l = has asym is_for_decrypt l
is_ready (derive_dh other derived) l =
    has dctx is_derive l && (has other is_object l && has derived is_object l)
is_ready (write_names room) l = has names is_names l
is_ready _ l = true

-- The result of the function depends on the success of the call. What is done to erase an old key,
-- the export of the shared secret and the writing of files may fail.
abbrev pub is_needed : Call → Bool
is_needed (init v i) = not (v == obj)
is_needed (get_handle v id) = not (v == obj)
is_needed (get_key v room) = not (v == shared)
is_needed (allocate_handle v id part t n m) = true
is_needed (generate_key v bits) = true
is_needed (set_key v key bits) = true
is_needed (get_random n) = true
is_needed (digest_one_go input room) = true
is_needed (sign_digest digest room) = true
is_needed (verify_digest digest sig) = true
is_needed (encrypt input room) = true
is_needed (decrypt input room) = true
is_needed (derive_dh other derived) = true
is_needed (sha256_ret input) = true
is_needed (asn1_write w room) = true
is_needed (write_names room) = true
is_needed _ = false

abbrev pub is_write : Call → Bool
is_write (asn1_write w room) = true
is_write _ = false

abbrev pub track : Open → Call → (ok : Bool) → Open
track l (init v i) ok = if ok then (v, i) ∷ l else l
track l (free v) ok = close v l
track l _ ok = l

-- A decryption wrote, to a buffer of zeros, what is not the plaintext.
abbrev pub is_wrong : List ℕ → Call → (ok : Bool) → Reply → Bool
is_wrong p (decrypt input room) true r = not (
    r.len == length p
    && bytes_eq (take (length p) (r.bytes ++ drop (length r.bytes) (replicate room 0))) p)
is_wrong p _ ok r = false

abbrev pub plain_after : List ℕ → Call → List ℕ
plain_after p (encrypt input room) = input
plain_after p _ = p

abbrev pub effect : Contexts → Call → (ok : Bool) → Reply → Contexts
effect m c ok r = record {
  live = track m.live c ok;
  misused = not (is_ready c m.live) || m.misused;
  failed = (is_needed c && not ok) || (is_wrong m.plain c ok r || m.failed);
  abandoned = (is_write c && not ok) || m.abandoned;
  plain = plain_after m.plain c;
}

abbrev pub contexts : Watch Call Reply Contexts
contexts = record { step = λ m c r. effect m c (is_success r) r; honest = λ m c r. true }

-- Nothing is left open, no context was misused, and the status is success exactly if no call failed
-- that is needed.
abbrev pub Closed : ℕ → Contexts → Type 0
Closed status m =
    (m.live ≡ [])
    × (m.misused ≡ false)
    × (m.abandoned ≡ false)
    × ((status == success) ≡ not m.failed)

-- A writer under MBEDTLS_ASN1_CHK_ADD failed: no context was misused and the status is not success, but `key_pair` is left open.
abbrev pub Abandoned : ℕ → Contexts → Type 0
Abandoned status m =
    (m.live ≡ (key_pair, object) ∷ [])
    × (m.misused ≡ false)
    × (m.abandoned ≡ true)
    × ((status == success) ≡ false)

abbrev pub Ends : ℕ → Contexts → Type 0
Ends status m = Closed status m ⊎ Abandoned status m

-- From a fresh state, on all replies.
abbrev pub Closes : Sss ℕ → List ℕ → Type 0
Closes p plain = Wp contexts p Closed (fresh plain)
