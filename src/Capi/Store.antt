-- ===== src/Capi/Store.antt =====
-- `LoadUserCerts`: which certificates are loaded, and the references to them that are then held.
use keybridge.Base.{
  ℕ, ◌+◌, ◌≡◌, ap, ◌∙◌, List, [], ◌∷◌, ◌++◌, Option, none, some, arith, if◌then◌else◌, ◌==◌, map,
  map-append, append-nil, append_assoc,
}
use keybridge.Base.Outcome.{Error, ok, err}
use keybridge.Capi.{
  visit, CryptoApi, Windows, Certificate, X509, StoreEntry, StoreEnd, no_more, failed, UserStore,
  load_from, take_cert, end_of, load_user_certs, count,
}

-- The certificates that have a private key, that parse, and whose context can be duplicated.
abbrev kept : CryptoApi → ℕ → Option X509 → List Certificate
kept api context none = []
kept api context (some x) =
    let r = api.duplicate_context context in
    if r.last_error == 0 then record { cert_context = r.value; x509 = x } ∷ [] else []

abbrev pub usable : CryptoApi → List StoreEntry → List Certificate
usable api [] = []
usable api (entry ∷ entries) =
    (if entry.key_spec == 0 then [] else kept api entry.context entry.parsed) ++ usable api entries

abbrev pub contexts_of : List Certificate → List ℕ
contexts_of = map (λ c. c.cert_context)

pub count-append : (h : ℕ) (xs ys : List ℕ) → count h (xs ++ ys) ≡ count h xs + count h ys
count-append h [] ys = omega arith
count-append h (x ∷ xs) ys = ground (arith, count-append h xs ys)

take_cert-result :
    (api : CryptoApi) (context : ℕ) (x : Option X509) (certs : List Certificate) (w : Windows)
    → (take_cert api context x certs w).0 ≡ certs ++ kept api context x
unfolding take_cert
take_cert-result api context none certs w = rw append-nil
take_cert-result api context (some x) certs w = ground (arith, append-nil certs)

take_cert-contexts :
    (api : CryptoApi) (context : ℕ) (x : Option X509) (certs : List Certificate) (w : Windows)
    (h : ℕ)
    → count h (take_cert api context x certs w).1.contexts
      ≡ count h w.contexts + count h (contexts_of (kept api context x))
unfolding take_cert
take_cert-contexts api context none certs w h = omega arith
take_cert-contexts api context (some x) certs w h = ground arith

visit-result :
    (api : CryptoApi) (entry : StoreEntry) (certs : List Certificate) (w : Windows)
    → (visit api entry certs w).0
      ≡ certs ++ (if entry.key_spec == 0 then [] else kept api entry.context entry.parsed)
unfolding visit
visit-result api entry certs w =
    ground (arith, take_cert-result api entry.context entry.parsed certs w, append-nil certs)

visit-contexts :
    (api : CryptoApi) (entry : StoreEntry) (certs : List Certificate) (w : Windows) (h : ℕ)
    → count h (visit api entry certs w).1.contexts
      ≡ count h w.contexts
        + count h
            (contexts_of (if entry.key_spec == 0 then [] else kept api entry.context entry.parsed))
unfolding visit
visit-contexts api entry certs w h =
    ground (arith, take_cert-contexts api entry.context entry.parsed certs w h)

load_from-result :
    (api : CryptoApi) (entries : List StoreEntry) (end : StoreEnd) (certs : List Certificate)
    (w : Windows)
    → (load_from api entries end certs w).0 ≡ end_of end (certs ++ usable api entries)
unfolding load_from
load_from-result api [] end certs w = rw append-nil
load_from-result api (entry ∷ entries) end certs w =
    load_from-result api entries end _ _
    ∙ ap (end_of end) (rw (visit-result api entry certs w) (rw append_assoc))

load_from-contexts :
    (api : CryptoApi) (entries : List StoreEntry) (end : StoreEnd) (certs : List Certificate)
    (w : Windows) (h : ℕ)
    → count h (load_from api entries end certs w).1.contexts
      ≡ count h w.contexts + count h (contexts_of (usable api entries))
unfolding load_from
load_from-contexts api [] end certs w h = omega arith
load_from-contexts api (entry ∷ entries) end certs w h =
    let new = if entry.key_spec == 0 then [] else kept api entry.context entry.parsed in
    let (certs', w') = visit api entry certs w in
    omega (
      arith,
      load_from-contexts api entries end certs' w' h,
      visit-contexts api entry certs w h,
      ap (count h) (map-append (λ (c : Certificate). c.cert_context) new (usable api entries)),
      count-append h (contexts_of new) (contexts_of (usable api entries)),
    )

-- When the store opens and enumerates to its end, the result is the usable certificates in the store's
-- order, and exactly one reference more is held to each context that they hold.
pub load_user_certs_lem :
    (api : CryptoApi) (store : UserStore) (w : Windows) (h : ℕ)
    → store.open_error ≡ none
    → store.end ≡ no_more
    → ((load_user_certs api store w).0 ≡ ok (usable api store.entries))
      × (count h (load_user_certs api store w).1.contexts
          ≡ count h w.contexts + count h (contexts_of (usable api store.entries)))
unfolding load_user_certs end_of
load_user_certs_lem api store w h opens ends =
    rw (opens, load_user_certs)
      (
        load_from-result api store.entries store.end [] w ∙ rw ends,
        load_from-contexts api store.entries store.end [] w h,
      )

-- When the store opens and its enumeration fails, no certificate is returned, but the references to
-- the usable ones among those before the failure are still held.
pub load_user_certs_leaks :
    (api : CryptoApi) (store : UserStore) (w : Windows) (h : ℕ) (e : Error)
    → store.open_error ≡ none
    → store.end ≡ failed e
    → ((load_user_certs api store w).0 ≡ err e)
      × (count h (load_user_certs api store w).1.contexts
          ≡ count h w.contexts + count h (contexts_of (usable api store.entries)))
unfolding load_user_certs end_of
load_user_certs_leaks api store w h e opens ends =
    rw (opens, load_user_certs)
      (
        load_from-result api store.entries store.end [] w ∙ rw ends,
        load_from-contexts api store.entries store.end [] w h,
      )
