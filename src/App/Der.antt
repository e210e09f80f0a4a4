-- ===== src/App/Der.antt =====
-- A certification request as it is meant: the specification of the DER that is hashed, signed and
-- written, over the bytes that each writer of mbedTLS is documented to write.
pub mod Rules
pub mod Requests
mod Examples
use se05x.Base.{
  ℕ, ◌*◌, ◌≡◌, Bool, true, false, ◌&&◌, String, List, [], ◌++◌, ◌==◌, bytes_eq, length, take,
  if◌then◌else◌,
}
use se05x.Prog.Hoare.{Watch}
use se05x.App.Sss.{
  Write, write_len, write_tag, write_int, write_bitstring, Call, get_key, sign_digest, sha256_ret,
  asn1_write, write_names, pem_write_buffer, Reply, is_success, success,
}

-- What a run has shown: the public key read, the subject Name written, what was hashed and its hash,
-- what was signed and the signature, and what was encoded as PEM.
pub record Draft : Type 0 where
  pub spki : List ℕ
  pub subject : List ℕ
  pub hashed : List ℕ
  pub digest : List ℕ
  pub signed : List ℕ
  pub signature : List ℕ
  pub der : List ℕ

abbrev pub note : Draft → Call → Reply → Draft
note m (get_key v room) r = record m { spki = r.bytes }
note m (write_names room) r = record m { subject = r.bytes }
note m (sha256_ret input) r = record m { hashed = input; digest = take 32 r.bytes }
note m (sign_digest digest room) r = record m { signed = digest; signature = r.bytes }
note m (pem_write_buffer input room) r = record m { der = input }
note m _ r = m

-- The bytes that each writer writes are a parameter.
module _ (enc : Write → List ℕ) where
  -- SEQUENCE { xs }
  abbrev pub in_sequence : List ℕ → List ℕ
  in_sequence xs = enc (write_tag 0x30) ++ (enc (write_len (length xs)) ++ xs)

  -- CertificationRequestInfo: version 0, subject, public key, no attributes.
  abbrev pub info_der : (subject spki : List ℕ) → List ℕ
  info_der subject spki =
      in_sequence
        (enc (write_int 0) ++ (subject ++ (spki ++ (enc (write_tag 0xA0) ++ enc (write_len 0)))))

  -- CertificationRequest: info, algorithm, signature.
  abbrev pub request_der : (info algorithm signature : List ℕ) → List ℕ
  request_der info algorithm signature =
      in_sequence (info ++ (algorithm ++ enc (write_bitstring signature (length signature * 8))))

  -- The documented behaviour of a call that succeeds: a length that is reported is that of what was
  -- written, and a writer writes its bytes.
  abbrev pub keeps_word : Call → Reply → Bool
  keeps_word (asn1_write w room) r = bytes_eq r.bytes (enc w) && r.len == length r.bytes
  keeps_word (write_names room) r = r.len == length r.bytes
  keeps_word (get_key v room) r = r.len == length r.bytes
  keeps_word (sign_digest digest room) r = r.len == length r.bytes
  keeps_word _ r = true

  abbrev pub drafting : Watch Call Reply Draft
  drafting = record { step = note; honest = λ m c r. if is_success r then keeps_word c r else true }

  -- What was hashed is the info of the key and the subject; what was signed is that hash; what was
  -- encoded is the request of that info and that signature.
  abbrev pub Certifies : (algorithm : List ℕ) → Draft → Type 0
  Certifies algorithm m =
      (m.hashed ≡ info_der m.subject m.spki)
      × (m.signed ≡ m.digest)
      × (m.der ≡ request_der m.hashed algorithm m.signature)
