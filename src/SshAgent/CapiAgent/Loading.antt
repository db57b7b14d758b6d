-- ===== src/SshAgent/CapiAgent/Loading.antt =====
-- The references to certificate contexts, from a certificate to the agent's keys.
use keybridge.Base.{
  ℕ, List, [], ◌∷◌, ◌++◌, Option, ◌⊎◌, inl, inr, arith, ◌||◌, Bool-cases, map, map-append,
  append-nil, append_assoc, String,
}
use keybridge.Base.Outcome.{Error, Result, ok, err, panic, continue}
use text.Mathlib.Text.{◌==◌ as str_eq}
use keybridge.SshAgent.Eku.{filter_certificate_eku}
use keybridge.Capi.{CryptoApi, Windows, Certificate, free, copy}
use keybridge.Capi.Store.{contexts_of, count-append}
use keybridge.Capi.Handles.{Holds, free-Holds, with_copy, copy-Holds, Holds-count}
use keybridge.SshAgent.Signers.{Signer}
use keybridge.SshAgent.CapiAgent.{
  Outside, SshKey, SshCertificate, close_keys, copied, load_ssh_certificate, with_certificate,
  add_key, drop_cert, take_public, load_cert, load_each, new_key, ssh_certificate,
}

-- The references that the keys of an agent stand for.
abbrev pub held : List SshKey → List ℕ
held = map (λ k. k.cert.cert_context)

pub close_keys-Holds :
    (api : CryptoApi) (ks : List SshKey) (e : Option Error) (w : Windows) (others : List ℕ)
    (bad : ℕ)
    → Holds w (held ks) others bad
    → Holds (close_keys api ks e w).1 [] others bad
unfolding close_keys
close_keys-Holds api [] e w others bad holds = holds
close_keys-Holds api (k ∷ ks) e w others bad holds =
    let (e', w') = free api k.cert w in
    close_keys-Holds api ks e' w' others bad (free-Holds api k.cert w _ others bad holds)

-- The step from a copied certificate to the key that is added.
copied_key-Holds :
    (key_id : String) (signer : Signer) (keys : List SshKey) (pending others : List ℕ) (bad : ℕ)
    (r : Result Certificate) (w : Windows)
    → Holds w (with_copy r (held keys ++ pending)) others bad
    → let (r', w') =
        continue {B = SshKey} r
          (λ cert w. (ok (record { cert = cert; signer = signer; comment = key_id }), w))
          w in
      Holds w' (held (with_certificate keys r') ++ pending) others bad
unfolding with_certificate
copied_key-Holds key_id signer keys pending others bad (ok cert) w holds =
    Holds-count w _ _ others bad
      (λ h. ground (
        arith,
        map-append (λ (k : SshKey). k.cert.cert_context) keys
            (record { cert = cert; signer = signer; comment = key_id } ∷ []),
        count-append h (held keys) pending,
        count-append h (held keys ++ cert.cert_context ∷ []) pending,
        count-append h (held keys) (cert.cert_context ∷ []),
      ))
      holds
copied_key-Holds key_id signer keys pending others bad (err e) w holds = holds
copied_key-Holds key_id signer keys pending others bad panic w holds = holds

copied-Holds :
    (api : CryptoApi) (key : SshKey) (found : Error ⊎ (SshCertificate × Signer))
    (keys : List SshKey) (w : Windows) (pending others : List ℕ) (bad : ℕ)
    → Holds w (held keys ++ pending) others bad
    → let (r, w') = copied key found api w in
      Holds w' (held (with_certificate keys r) ++ pending) others bad
unfolding copied with_certificate
copied-Holds api key (inl e) keys w pending others bad holds = holds
copied-Holds api key (inr (c, signer)) keys w pending others bad holds =
    let (r, w') = copy api key.cert w in
    copied_key-Holds c.key_id signer keys pending others bad r w'
      (copy-Holds api key.cert w (held keys ++ pending) others bad holds)

-- A certificate that became a key: its reference is the key's.
add_key-Holds :
    (o : Outside) (key : SshKey) (keys : List SshKey) (w : Windows) (pending others : List ℕ)
    (bad : ℕ)
    → Holds w (held keys ++ key.cert.cert_context ∷ pending) others bad
    → let (keys', w') = add_key o key keys w in Holds w' (held keys' ++ pending) others bad
unfolding add_key load_ssh_certificate
add_key-Holds o key keys w pending others bad holds =
    copied-Holds o.api key (ssh_certificate o key) (keys ++ key ∷ []) w pending others bad (
      Holds-count w _ _ others bad
        (λ h. ground (
          arith,
          map-append (λ (k : SshKey). k.cert.cert_context) keys (key ∷ []),
          append_assoc (held keys) (key.cert.cert_context ∷ []) pending,
        ))
        holds)

drop_cert-Holds :
    (o : Outside) (cert : Certificate) (keys : List SshKey) (w : Windows) (pending others : List ℕ)
    (bad : ℕ)
    → Holds w (held keys ++ cert.cert_context ∷ pending) others bad
    → let (keys', w') = drop_cert o cert keys w in Holds w' (held keys' ++ pending) others bad
unfolding drop_cert
drop_cert-Holds o cert keys w pending others bad holds =
    free-Holds o.api cert w (held keys ++ pending) others bad (
      Holds-count w _ _ others bad
        (λ h. ground (
          arith,
          count-append h (held keys) (cert.cert_context ∷ pending),
          count-append h (held keys) pending,
        ))
        holds)

take_public-Holds :
    (o : Outside) (cert : Certificate) (pub_key : Error ⊎ (String × List ℕ)) (keys : List SshKey)
    (w : Windows) (pending others : List ℕ) (bad : ℕ)
    → Holds w (held keys ++ cert.cert_context ∷ pending) others bad
    → let (keys', w') = take_public o cert pub_key keys w in
      Holds w' (held keys' ++ pending) others bad
unfolding take_public
take_public-Holds o cert (inl e) keys w pending others bad holds =
    drop_cert-Holds o cert keys w pending others bad holds
take_public-Holds o cert (inr (key_type, blob)) keys w pending others bad holds =
    elim (Bool-cases (str_eq key_type "ssh-rsa")) [
      | inl rsa ↦ rw rsa (add_key-Holds o (new_key cert _) keys w pending others bad holds)
      | inr not_rsa ↦
          rw not_rsa
            (elim (Bool-cases (
              str_eq key_type "ecdsa-sha2-nistp256"
              || (str_eq key_type "ecdsa-sha2-nistp384"
                  || str_eq key_type "ecdsa-sha2-nistp521"))) [
                    | inl ecdsa ↦
                        rw ecdsa (add_key-Holds o (new_key cert _) keys w pending others bad holds)
                    | inr neither ↦
                        rw neither (drop_cert-Holds o cert keys w pending others bad holds)
                  ])
    ]

load_cert-Holds :
    (o : Outside) (cert : Certificate) (keys : List SshKey) (w : Windows) (pending others : List ℕ)
    (bad : ℕ)
    → Holds w (held keys ++ cert.cert_context ∷ pending) others bad
    → let (keys', w') = load_cert o cert keys w in Holds w' (held keys' ++ pending) others bad
unfolding load_cert
load_cert-Holds o cert keys w pending others bad holds =
    elim (Bool-cases (filter_certificate_eku cert.x509.usages cert.x509.unknown_usages)) [
      | inl kept ↦
          rw kept (take_public-Holds o cert cert.x509.pub_key keys w pending others bad holds)
      | inr dropped ↦ rw dropped (drop_cert-Holds o cert keys w pending others bad holds)
    ]

pub load_each-Holds :
    (o : Outside) (certs : List Certificate) (keys : List SshKey) (w : Windows) (others : List ℕ)
    (bad : ℕ)
    → Holds w (held keys ++ contexts_of certs) others bad
    → let (keys', w') = load_each o certs keys w in Holds w' (held keys') others bad
unfolding load_each
load_each-Holds o [] keys w others bad holds = rw append-nil at holds
load_each-Holds o (cert ∷ certs) keys w others bad holds =
    let (keys', w') = load_cert o cert keys w in
    load_each-Holds o certs keys' w' others bad
      (load_cert-Holds o cert keys w (contexts_of certs) others bad holds)
