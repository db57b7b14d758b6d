-- ===== src/SshAgent/Eku/Tests.antt =====
-- Runs and an instance of the theorem about sshagent/eku.go.
use keybridge.Base.{◌≡◌, refl, [], ◌∷◌, true, false}
use keybridge.SshAgent.Eku.{
  server_auth, other, oid_smart_card_logon, oid_bit_locker, filter_certificate_eku,
}
use keybridge.SshAgent.Eku.Rule.{filter_certificate_eku_lem}

smart_card_run : filter_certificate_eku (server_auth ∷ []) (oid_smart_card_logon ∷ []) ≡ true
unfolding filter_certificate_eku
smart_card_run = refl

bit_locker_run : filter_certificate_eku (other 3 ∷ []) (oid_bit_locker ∷ []) ≡ false
unfolding filter_certificate_eku
bit_locker_run = refl

server_refused : filter_certificate_eku (server_auth ∷ other 3 ∷ []) ((1 ∷ 2 ∷ []) ∷ []) ≡ false
server_refused = filter_certificate_eku_lem (server_auth ∷ other 3 ∷ []) ((1 ∷ 2 ∷ []) ∷ [])
