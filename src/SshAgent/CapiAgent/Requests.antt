-- ===== src/SshAgent/CapiAgent/Requests.antt =====
-- Every request to sign, whether the keys are loaded or not.
use keybridge.Base.{
  ℕ, ◌≡◌, ◌≢◌, refl, ap, sym, subst, ◌∙◌, List, [], ◌∷◌, Option, none, some, All, arith,
  if◌then◌else◌, inl, inr, Bool-cases, bytes_equal, bytes_equal→eq, bytes_equal_refl, false, String,
  ◌==◌,
}
use keybridge.Base.Outcome.{Error, errorf, Result, ok, err, panic, Exec, continue}
use keybridge.Capi.{Windows}
use keybridge.SshAgent.Agent.{Signature}
use keybridge.SshAgent.CapiAgent.{Outside, SshKey, CapiAgent, keys_of, load_certs}
use keybridge.SshAgent.CapiAgent.Signing.{
  announced, find, load_if_nil, ask_service, sign_found, sign_flags, call_signer, sign_loaded,
  sign_with_flags,
}
use keybridge.SshAgent.CapiAgent.Signatures.{IsFirst, algorithm_of, keys-ask_service}

-- What a search for a wire form in a list of keys finds: the first key that has it, or none.
pub data Search (ks : List SshKey) (key : List ℕ) : Option SshKey → Type 0 where
  first :
      (k : SshKey) (before behind : List SshKey)
      → IsFirst k before behind ks
      → k.signer.public_blob ≡ key
      → Search ks key (some k)
  missing : All (λ j. j.signer.public_blob ≢ key) ks → Search ks key none

-- A call of the key's signer, and the notification if it has no error.
abbrev pub signed :
    SshKey → Exec Windows (Option Signature) → CapiAgent → Result (Option Signature) × CapiAgent
signed k op s =
    let (r, w) = op s.windows in
    (r, record s { windows = w; desktop = announced k.comment r s.desktop })

-- The answer with flags, by whether the signer offers a choice of algorithm.
abbrev pub with_algorithm :
    SshKey
    → Option (List ℕ → String → Exec Windows (Option Signature))
    → List ℕ
    → ℕ
    → CapiAgent
    → Result (Option Signature) × CapiAgent
with_algorithm k none bytes flags s =
    (err (errorf "agent: signature does not support non-default signature algorithm: %T" []), s)
with_algorithm k (some by) bytes flags s = elim (algorithm_of flags) [
  | some algorithm ↦ signed k (by bytes algorithm) s
  | none ↦ (err (errorf "agent: unsupported signature flags: %d" (flags ∷ [])), s)
]

abbrev pub answered : Option SshKey → List ℕ → ℕ → CapiAgent → Result (Option Signature) × CapiAgent
answered none bytes flags s = (err (errorf "not found" []), s)
answered (some k) bytes flags s =
    if flags == 0
    then signed k (k.signer.sign bytes) s
    else with_algorithm k k.signer.sign_with_algorithm bytes flags s

with_algorithm-sign_flags :
    (k : SshKey) (by : Option (List ℕ → String → Exec Windows (Option Signature))) (bytes : List ℕ)
    (flags : ℕ) (s : CapiAgent)
    → sign_flags k by bytes flags s ≡ with_algorithm k by bytes flags s
unfolding sign_flags call_signer
with_algorithm-sign_flags k none bytes flags s = refl
with_algorithm-sign_flags k (some by) bytes flags s = ground arith

answered-sign_found :
    (f : Option SshKey) (bytes : List ℕ) (flags : ℕ) (s : CapiAgent)
    → sign_found f bytes flags s ≡ answered f bytes flags s
unfolding sign_found call_signer
answered-sign_found none bytes flags s = refl
answered-sign_found (some k) bytes flags s = elim (Bool-cases (flags == 0)) [
  | inl q ↦ rw q refl
  | inr q ↦ rw q (with_algorithm-sign_flags k k.signer.sign_with_algorithm bytes flags s)
]

search-cons :
    (j : SshKey) (ks : List SshKey) (key : List ℕ) (f : Option SshKey)
    → j.signer.public_blob ≢ key
    → Search ks key f
    → Search (j ∷ ks) key f
search-cons j ks key f differs (first k before behind is_first same) =
    first k (j ∷ before) behind
      (record {
        split = ap (λ l. j ∷ l) is_first.split;
        others = (λ h. differs (h ∙ same), is_first.others);
      })
      same
search-cons j ks key f differs (missing others) = missing (differs, others)

-- The search of the code is such a search.
find-Search : (ks : List SshKey) (key : List ℕ) → Search ks key (find ks key)
unfolding find
find-Search [] key = missing tt
find-Search (j ∷ ks) key = elim (Bool-cases (bytes_equal j.signer.public_blob key)) [
  | inl same ↦ rw same (
      first j [] ks (record { split = refl; others = tt })
        (bytes_equal→eq j.signer.public_blob key same))
  | inr differs ↦ rw differs (
      search-cons j ks key (find ks key)
        (λ h.
          let e : bytes_equal key key ≡ false = subst (λ b. bytes_equal b key ≡ false) h differs in
          ground (arith, e, bytes_equal_refl key))
        (find-Search ks key))
]

-- The agent with its keys, which are loaded if they are not there.
abbrev pub ready_by : Outside → Option (List SshKey) → CapiAgent → Result (Unit {0}) × CapiAgent
ready_by o none s = load_certs o s
ready_by o (some ks) s = (ok tt, s)

abbrev pub ready : Outside → CapiAgent → Result (Unit {0}) × CapiAgent
ready o s = ready_by o s.keys (ask_service o s)

-- How a request ends: by the error or the panic of the loading; or by the search in the keys that are there
-- then.
pub data Replied (o : Outside) (s : CapiAgent) (key bytes : List ℕ) (flags : ℕ)
    (r : Result (Option Signature) × CapiAgent) : Type 0 where
  refused :
      (e : Error) (t : CapiAgent)
      → ready o s ≡ (err e, t)
      → r ≡ (err e, t)
      → Replied o s key bytes flags r
  crashed :
      (t : CapiAgent) → ready o s ≡ (panic, t) → r ≡ (panic, t) → Replied o s key bytes flags r
  served :
      (t : CapiAgent) (f : Option SshKey)
      → ready o s ≡ (ok tt, t)
      → Search (keys_of t.keys) key f
      → r ≡ answered f bytes flags t
      → Replied o s key bytes flags r

replied_by :
    (o : Outside) (s : CapiAgent) (key bytes : List ℕ) (flags : ℕ)
    (m : Result (Unit {0}) × CapiAgent)
    → ready o s ≡ m
    → Replied o s key bytes flags (continue m.0 (λ u. sign_loaded key bytes flags) m.1)
unfolding sign_loaded
replied_by o s key bytes flags (ok u, t) e =
    served t (find (keys_of t.keys) key) e (find-Search (keys_of t.keys) key)
      (answered-sign_found (find (keys_of t.keys) key) bytes flags t)
replied_by o s key bytes flags (err x, t) e = refused x t e refl
replied_by o s key bytes flags (panic, t) e = crashed t e refl

ready_by-load_if_nil :
    (o : Outside) (keys : Option (List SshKey)) (s : CapiAgent)
    → load_if_nil o keys s ≡ ready_by o keys s
unfolding load_if_nil
ready_by-load_if_nil o none s = refl
ready_by-load_if_nil o (some ks) s = refl

ready-load_if_nil :
    (o : Outside) (s : CapiAgent)
    → load_if_nil o (ask_service o s).keys (ask_service o s) ≡ ready o s
ready-load_if_nil o s =
    ap (λ keys. load_if_nil o keys (ask_service o s)) (keys-ask_service o s)
    ∙ ready_by-load_if_nil o s.keys (ask_service o s)

-- Any request to sign, in any state of the agent: the keys are loaded if they are not there, and an error or
-- panic of that is the result. Then the first key with the wanted wire form signs, by its default algorithm
-- for the flags 0, by "rsa-sha2-256" for 2 and "rsa-sha2-512" for 4 if its signer offers a choice of
-- algorithm, and a result without an error is announced once, with that key's comment. Other flags are
-- refused, and so is a key that none matches, with nothing signed or announced; at most the smart card
-- service is started before.
pub sign_with_flags-Replied :
    (o : Outside) (s : CapiAgent) (key bytes : List ℕ) (flags : ℕ)
    → Replied o s key bytes flags (sign_with_flags o key bytes flags s)
unfolding sign_with_flags
sign_with_flags-Replied o s key bytes flags =
    replied_by o s key bytes flags (load_if_nil o (ask_service o s).keys (ask_service o s))
      (sym (ready-load_if_nil o s))
