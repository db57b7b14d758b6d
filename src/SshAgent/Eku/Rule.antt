-- ===== src/SshAgent/Eku/Rule.antt =====
-- The rule that the filter follows, whatever the order of the usages.
use keybridge.Base.{
  ◌≡◌, List, [], ◌∷◌, Bool, true, false, ◌||◌, not, Bool-cases, inl, inr, bytes_equal,
  bytes_equal→eq, arith,
}
use keybridge.SshAgent.Eku.{
  ExtKeyUsage, any, server_auth, client_auth, Oid, oid_smart_card_logon, oid_bit_locker,
  oid_encrypting_file_system, Flags, scan_usages, scan_oids, filter_certificate_eku, note_usage,
  note_oid,
}

-- Whether some entry passes a test.
abbrev pub exists {ℓ} : {A : Type ℓ} → (A → Bool) → List A → Bool
exists p [] = false
exists p (x ∷ xs) = p x || exists p xs

abbrev pub is_any : ExtKeyUsage → Bool
is_any any = true
is_any _ = false

abbrev pub is_client_auth : ExtKeyUsage → Bool
is_client_auth client_auth = true
is_client_auth _ = false

abbrev pub is_server_auth : ExtKeyUsage → Bool
is_server_auth server_auth = true
is_server_auth _ = false

abbrev pub is_smart_card_logon : Oid → Bool
is_smart_card_logon oid = bytes_equal oid oid_smart_card_logon

abbrev pub is_disk_encryption : Oid → Bool
is_disk_encryption oid =
    bytes_equal oid oid_bit_locker || bytes_equal oid oid_encrypting_file_system

scan_usages_lem :
    (us : List ExtKeyUsage) (f : Flags)
    → scan_usages us f ≡ record f {
      flag_any = f.flag_any || exists is_any us;
      flag_auth = f.flag_auth || exists is_client_auth us;
      flag_server_auth = f.flag_server_auth || exists is_server_auth us;
    }
unfolding scan_usages
scan_usages_lem [] f = ground arith
scan_usages_lem (u ∷ us) f = ground (arith, scan_usages_lem us (note_usage u f))

-- An entry counts as the first of the three identifiers that it equals; they differ, so it counts
-- for each that it equals.
note_oid_lem :
    (oid : Oid) (f : Flags)
    → note_oid oid f ≡ record f {
      flag_auth = f.flag_auth || is_smart_card_logon oid;
      flag_bit_locker = f.flag_bit_locker || is_disk_encryption oid;
    }
unfolding note_oid
note_oid_lem oid f = elim (Bool-cases (is_smart_card_logon oid)) [
  | inl is_it ↦
      let e : oid ≡ oid_smart_card_logon = bytes_equal→eq oid oid_smart_card_logon is_it in
      rw e (ground arith)
  | inr is_not ↦ ground (arith, is_not)
]

scan_oids_lem :
    (oids : List Oid) (f : Flags)
    → scan_oids oids f ≡ record f {
      flag_auth = f.flag_auth || exists is_smart_card_logon oids;
      flag_bit_locker = f.flag_bit_locker || exists is_disk_encryption oids;
    }
unfolding scan_oids
scan_oids_lem [] f = ground arith
scan_oids_lem (oid ∷ oids) f = rw (note_oid_lem oid f, scan_oids_lem oids _) (ground arith)

-- A certificate is kept exactly if some usage is "any", client authentication or smart card logon, or
-- else if none is server authentication, BitLocker or the encrypting file system.
pub filter_certificate_eku_lem :
    (usages : List ExtKeyUsage) (oids : List Oid)
    → filter_certificate_eku usages oids ≡ (
        (exists is_any usages || (exists is_client_auth usages || exists is_smart_card_logon oids))
        || not (exists is_server_auth usages || exists is_disk_encryption oids))
unfolding filter_certificate_eku
filter_certificate_eku_lem usages oids =
    rw (scan_usages_lem usages _, scan_oids_lem oids _) (ground arith)
