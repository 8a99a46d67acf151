-- ===== src/Tls/Provider.antt =====
-- src/client/tls.rs: the provider of a handshake that verifies. It lends the generator and the verifier
-- of the client; the trait `TlsVerifier` of embedded-tls is passed on to the verifier.
use nanofish.Prelude.{ℕ, Option, Bytes}

pub record RefVerifier (V : Type 0) : Type 0 where
  pub inner : V

pub record VerifiedTlsProvider (Rng V : Type 0) : Type 0 where
  pub rng : Rng
  pub verifier : RefVerifier V

-- The trait: each call may change the verifier, and returns an error or none.
pub record TlsVerifier (V Transcript Certificate Signature : Type 0) : Type 0 where
  pub set_hostname : V → Bytes → Option ℕ × V
  pub check_certificate : V → Transcript → Certificate → Option ℕ × V
  pub check_signature : V → Signature → Option ℕ × V

module _ {V Transcript Certificate Signature : Type 0}
    (trait : TlsVerifier V Transcript Certificate Signature) where
  abbrev forwarded : Option ℕ × V → Option ℕ × RefVerifier V
  forwarded (e, v) = (e, record { inner = v })

  abbrev set_hostname_verification : RefVerifier V → Bytes → Option ℕ × RefVerifier V
  set_hostname_verification self hostname = forwarded (trait.set_hostname self.inner hostname)

  abbrev verify_certificate : RefVerifier V → Transcript → Certificate → Option ℕ × RefVerifier V
  verify_certificate self transcript cert =
      forwarded (trait.check_certificate self.inner transcript cert)

  abbrev verify_signature : RefVerifier V → Signature → Option ℕ × RefVerifier V
  verify_signature self verify = forwarded (trait.check_signature self.inner verify)

  -- The implementation of the trait for `RefVerifier`.
  abbrev pub ref_verifier : TlsVerifier (RefVerifier V) Transcript Certificate Signature
  ref_verifier = record {
    set_hostname = set_hostname_verification;
    check_certificate = verify_certificate;
    check_signature = verify_signature;
  }
