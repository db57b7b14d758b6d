-- ===== src/SshAgent/Eku.antt =====
-- sshagent/eku.go: which certificates are offered as SSH keys, by their extended key usages.
pub mod Rule
mod Tests
use keybridge.Base.{ℕ, List, [], ◌∷◌, Bool, true, false, ◌||◌, bytes_equal, if◌then◌else◌}

-- `x509.ExtKeyUsage`; `other` stands for the usages that the code does not name.
pub data ExtKeyUsage : Type 0 where
  any server_auth client_auth : ExtKeyUsage
  other : ℕ → ExtKeyUsage

-- `asn1.ObjectIdentifier`
abbrev pub Oid : Type 0
Oid = List ℕ

abbrev pub oid_smart_card_logon : Oid
oid_smart_card_logon = 1 ∷ 3 ∷ 6 ∷ 1 ∷ 4 ∷ 1 ∷ 311 ∷ 20 ∷ 2 ∷ 2 ∷ []

abbrev pub oid_bit_locker : Oid
oid_bit_locker = 1 ∷ 3 ∷ 6 ∷ 1 ∷ 4 ∷ 1 ∷ 311 ∷ 67 ∷ 1 ∷ 1 ∷ []

abbrev pub oid_encrypting_file_system : Oid
oid_encrypting_file_system = 1 ∷ 3 ∷ 6 ∷ 1 ∷ 4 ∷ 1 ∷ 311 ∷ 10 ∷ 3 ∷ 4 ∷ []

pub record Flags : Type 0 where
  pub flag_any : Bool
  pub flag_bit_locker : Bool
  pub flag_auth : Bool
  pub flag_server_auth : Bool

note_usage : ExtKeyUsage → Flags → Flags
note_usage any f = record f { flag_any = true }
note_usage client_auth f = record f { flag_auth = true }
note_usage server_auth f = record f { flag_server_auth = true }
note_usage (other n) f = f

note_oid : Oid → Flags → Flags
note_oid oid f =
    if bytes_equal oid oid_smart_card_logon
    then record f { flag_auth = true }
    else if bytes_equal oid oid_bit_locker
    then record f { flag_bit_locker = true }
    else if bytes_equal oid oid_encrypting_file_system
    then record f { flag_bit_locker = true }
    else f

-- The two loops.
scan_usages : List ExtKeyUsage → Flags → Flags
unfolding note_usage
scan_usages [] f = f
scan_usages (u ∷ us) f = scan_usages us (note_usage u f)

scan_oids : List Oid → Flags → Flags
unfolding note_oid
scan_oids [] f = f
scan_oids (oid ∷ oids) f = scan_oids oids (note_oid oid f)

decide_by : Flags → Bool
decide_by f =
    if f.flag_any || f.flag_auth
    then true
    else if f.flag_bit_locker || f.flag_server_auth
    then false
    else true

-- `FilterCertificateEKU`, by the certificate's `ExtKeyUsage` and `UnknownExtKeyUsage`.
unfoldable pub filter_certificate_eku : List ExtKeyUsage → List Oid → Bool
unfolding scan_usages scan_oids decide_by
filter_certificate_eku usages oids = decide_by (
    scan_oids oids (
      scan_usages usages (record {
        flag_any = false;
        flag_bit_locker = false;
        flag_auth = false;
        flag_server_auth = false;
      })))
