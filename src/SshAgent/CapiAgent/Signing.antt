-- ===== src/SshAgent/CapiAgent/Signing.antt =====
-- sshagent/capi_agent.go: the requests to sign.
use keybridge.Base.{
  ℕ, suc, String, List, [], ◌∷◌, Bool, false, not, Option, none, some, ◌⊎◌, inl, inr, ◌&&◌, ◌==◌,
  bytes_equal, if◌then◌else◌,
}
use keybridge.Base.Outcome.{Error, errorf, Result, ok, err, panic, Exec, ◌>>◌, pure}
use keybridge.SshAgent.Agent.{Signature}
use keybridge.SshAgent.Signers.{sig_algo_rsa_sha2256, sig_algo_rsa_sha2512}
use keybridge.Capi.{Windows}
use keybridge.Utils.Desktop.{Desktop, notify, quote}
use keybridge.SshAgent.CapiAgent.{Outside, SshKey, CapiAgent, keys_of, load_certs}

-- The question whether to start the smart card service.
unfoldable pub ask_service : Outside → CapiAgent → CapiAgent
ask_service o s =
    if o.check_service && (stopped o.service_running && o.answer == 1)
    then record s { service_starts = suc s.service_starts }
    else s
  where
    stopped : Error ⊎ Bool → Bool
    stopped (inl e) = false
    stopped (inr running) = not running

-- `if s.keys == nil { … }`
unfoldable pub load_if_nil : Outside → Option (List SshKey) → Exec CapiAgent (Unit {0})
load_if_nil o none = load_certs o
load_if_nil o (some ks) = pure tt

-- The first key with the wanted wire form.
unfoldable pub find : List SshKey → List ℕ → Option SshKey
find [] wanted = none
find (k ∷ ks) wanted = if bytes_equal k.signer.public_blob wanted then some k else find ks wanted

abbrev pub announced : {A : Type 0} → String → Result A → Desktop → Desktop
announced comment (ok a) d =
    notify "Authenticated" (quote "Authentication Success by Certificate <" comment ">") d
announced comment (err e) d = d
announced comment panic d = d

-- A signer's call, and the notification when it has no error.
unfoldable pub call_signer :
    SshKey → Exec Windows (Option Signature) → Exec CapiAgent (Option Signature)
call_signer k op s =
    let (r, w) = op s.windows in
    (r, record s { windows = w; desktop = announced k.comment r s.desktop })

unfoldable pub sign_flags :
    SshKey
    → Option (List ℕ → String → Exec Windows (Option Signature))
    → List ℕ
    → ℕ
    → Exec CapiAgent (Option Signature)
unfolding call_signer
sign_flags k none bytes flags s =
    (err (errorf "agent: signature does not support non-default signature algorithm: %T" []), s)
sign_flags k (some by) bytes flags s =
    if flags == 2
    then call_signer k (by bytes sig_algo_rsa_sha2256) s
    else if flags == 4
    then call_signer k (by bytes sig_algo_rsa_sha2512) s
    else (err (errorf "agent: unsupported signature flags: %d" (flags ∷ [])), s)

unfoldable pub sign_found : Option SshKey → List ℕ → ℕ → Exec CapiAgent (Option Signature)
unfolding sign_flags call_signer
sign_found none bytes flags s = (err (errorf "not found" []), s)
sign_found (some k) bytes flags s =
    if flags == 0
    then call_signer k (k.signer.sign bytes) s
    else sign_flags k k.signer.sign_with_algorithm bytes flags s

unfoldable pub sign_loaded : List ℕ → List ℕ → ℕ → Exec CapiAgent (Option Signature)
unfolding find sign_found
sign_loaded key bytes flags s = sign_found (find (keys_of s.keys) key) bytes flags s

-- `SignWithFlags`
unfoldable pub sign_with_flags : Outside → List ℕ → List ℕ → ℕ → Exec CapiAgent (Option Signature)
unfolding load_if_nil
sign_with_flags o key bytes flags s =
    let s' = ask_service o s in (do load_if_nil o s'.keys; sign_loaded key bytes flags) s'

-- `Sign`
unfoldable pub sign : Outside → List ℕ → List ℕ → Exec CapiAgent (Option Signature)
unfolding sign_with_flags
sign o key bytes = sign_with_flags o key bytes 0
