-- ===== src/Capi/Handles.antt =====
-- The references to certificate contexts that a holder of certificates has.
use keybridge.Base.{ℕ, ◌+◌, ◌<◌, ◌≡◌, refl, ◌∙◌, List, [], ◌∷◌, arith, Option-cases, inl, inr}
use keybridge.Base.Outcome.{Result, ok, err, panic}
use keybridge.Capi.{
  CryptoApi, Windows, Certificate, UserStore, StoreEnd, StoreEntry, visit, no_more, free, copy,
  load_from, load_user_certs, count, without,
}
use keybridge.Capi.Store.{contexts_of, load_user_certs_lem}

-- The references are those to `mine` and those to `others`, and `bad` handles were freed in excess.
pub record Holds (w : Windows) (mine others : List ℕ) (bad : ℕ) : Type 0 where
  pub each : (h : ℕ) → count h w.contexts ≡ count h mine + count h others
  pub no_bad : w.bad_frees ≡ bad

count-without :
    (c h : ℕ) (xs : List ℕ)
    → 0 < count c xs
    → count h (without c xs) + count h (c ∷ []) ≡ count h xs
count-without c h [] pos = absurd (omega arith)
count-without c h (x ∷ xs) pos = ground (arith, count-without c h xs)

pub free-Holds :
    (api : CryptoApi) (cert : Certificate) (w : Windows) (mine others : List ℕ) (bad : ℕ)
    → Holds w (cert.cert_context ∷ mine) others bad
    → Holds (free api cert w).1 mine others bad
unfolding free
free-Holds api cert w mine others bad holds =
    let c = cert.cert_context in
    let held : 0 < count c w.contexts = ground (arith, holds.each c) in
    record {
      each = λ h. ground (arith, held, holds.each h, count-without c h w.contexts);
      no_bad = ground (arith, held, holds.no_bad);
    }

-- What a copy adds.
abbrev pub with_copy : Result Certificate → List ℕ → List ℕ
with_copy (ok cert) mine = cert.cert_context ∷ mine
with_copy (err e) mine = mine
with_copy panic mine = mine

pub copy-Holds :
    (api : CryptoApi) (cert : Certificate) (w : Windows) (mine others : List ℕ) (bad : ℕ)
    → Holds w mine others bad
    → Holds (copy api cert w).1 (with_copy (copy api cert w).0 mine) others bad
unfolding copy
copy-Holds api cert w mine others bad holds = record {
  each = λ h. ground (arith, holds.each h);
  no_bad = ground (arith, holds.no_bad);
}

-- Only how often a reference occurs matters.
pub Holds-count :
    (w : Windows) (mine mine' others : List ℕ) (bad : ℕ)
    → ((h : ℕ) → count h mine ≡ count h mine')
    → Holds w mine others bad
    → Holds w mine' others bad
Holds-count w mine mine' others bad same holds = record {
  each = λ h. omega (arith, holds.each h, same h);
  no_bad = holds.no_bad;
}

visit-bad_frees :
    (api : CryptoApi) (entry : StoreEntry) (certs : List Certificate) (w : Windows)
    → (visit api entry certs w).1.bad_frees ≡ w.bad_frees
unfolding visit
visit-bad_frees api entry certs w = ground arith

load_from-bad_frees :
    (api : CryptoApi) (entries : List StoreEntry) (end : StoreEnd) (certs : List Certificate)
    (w : Windows)
    → (load_from api entries end certs w).1.bad_frees ≡ w.bad_frees
unfolding load_from
load_from-bad_frees api [] end certs w = refl
load_from-bad_frees api (entry ∷ entries) end certs w =
    let (certs', w') = visit api entry certs w in
    load_from-bad_frees api entries end certs' w' ∙ visit-bad_frees api entry certs w

-- What `LoadUserCerts` adds, if the enumeration does not fail.
abbrev pub with_certs : Result (List Certificate) → List ℕ
with_certs (ok certs) = contexts_of certs
with_certs (err e) = []
with_certs panic = []

load_user_certs-bad_frees :
    (api : CryptoApi) (store : UserStore) (w : Windows)
    → (load_user_certs api store w).1.bad_frees ≡ w.bad_frees
unfolding load_user_certs
load_user_certs-bad_frees api store w = elim (Option-cases store.open_error) [
  | inl opens ↦ rw (opens, load_user_certs) (load_from-bad_frees api store.entries store.end [] w)
  | inr (e, fails) ↦ rw (fails, load_user_certs)
]

-- When the store enumerates to its end, loading leaves one reference for each certificate that it returns,
-- besides those that were held before, and frees none in excess.
pub load_user_certs-Holds :
    (api : CryptoApi) (store : UserStore) (w : Windows) (others : List ℕ) (bad : ℕ)
    → store.end ≡ no_more
    → Holds w [] others bad
    → Holds (load_user_certs api store w).1 (with_certs (load_user_certs api store w).0) others bad
unfolding load_user_certs
load_user_certs-Holds api store w others bad ends holds = elim (Option-cases store.open_error) [
  | inl opens ↦ rw (load_user_certs_lem api store w 0 opens ends).0 (record {
    each = λ h. omega (arith, holds.each h, (load_user_certs_lem api store w h opens ends).1);
    no_bad = load_user_certs-bad_frees api store w ∙ holds.no_bad;
  })
  | inr (e, fails) ↦ rw (fails, load_user_certs) holds
]
