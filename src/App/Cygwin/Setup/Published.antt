-- ===== src/App/Cygwin/Setup/Published.antt =====
-- What the clients of the Cygwin socket find, and what a failed start leaves.
use keybridge.Base.{
  not, ◌&&◌, ℕ, suc, ◌+◌, ◌<◌, ◌≡◌, refl, ap, sym, ◌∙◌, List, [], ◌∷◌, ◌++◌, Bool, true, false,
  Option, none, some, ◌⊎◌, inl, inr, if◌then◌else◌, arith, length, drop, All, drop-append,
  append_assoc, length-append,
}
use keybridge.Base.Outcome.{Error, ok, err, Result}
use keybridge.Base.Conn.{Conn}
use keybridge.App.Cygwin.{admit_conn, uuid_to_string}
use keybridge.App.Cygwin.Secret.{served, admit_conn_accepts}
use keybridge.App.Cygwin.Text.{read_groups, uuid_to_string-read_groups}
use keybridge.App.Cygwin.Setup.{
  System, Files, socket_text, create_cygwin_socket, data_dir, tear_down, or_tear_down, listen_tcp,
  open_file, write_and_close, set_file_attributes, start,
}

abbrev pub is_right : {A B : Type 0} → A ⊎ B → Bool
is_right (inl a) = false
is_right (inr b) = true

abbrev pub is_none : {A : Type 0} → Option A → Bool
is_none none = true
is_none (some a) = false

-- Whether the file was opened and the random bytes did not come.
abbrev pub is_lost : System → Bool
is_lost sys =
    is_right sys.user_cache_dir
    && (is_none sys.mkdir_error
        && (is_right sys.listen && (is_none sys.open_error && not (is_right sys.random))))

-- How starting ends: with the file, its secret and a listener; or with an error, without a new listener.
-- What is left then of the file is what Remove could not take away, and one handle is lost exactly if the
-- file was opened and there were no random bytes.
pub data Outcome (sys : System) (f : Files) (r : Result (ℕ × List ℕ) × Files) : Type 0 where
  published :
      (port : ℕ) (uuid : List ℕ)
      → sys.listen ≡ inr port
      → sys.random ≡ inr uuid
      → r ≡ (
        ok (port, uuid),
        record f {
          listeners = suc f.listeners;
          sockfile = some (sys.written (socket_text sys port uuid));
          marked = true;
        },
      )
      → Outcome sys f r
  refused :
      (e : Error) (g : Files)
      → r ≡ (err e, g)
      → g.listeners ≡ f.listeners
      → g.handles ≡ (if is_lost sys then suc f.handles else f.handles)
      → (g.sockfile ≡ f.sockfile) ⊎ ((sys.removed_last ≡ true → g.sockfile ≡ none))
      → Outcome sys f r

started :
    (cache : Error ⊎ List ℕ) (join : List ℕ → List ℕ → List ℕ) (m : Option Error) (l : Error ⊎ ℕ)
    (first last : Bool) (o : Option Error) (r : Error ⊎ List ℕ) (w : List ℕ → List ℕ)
    (a : Option Error) (decimal : ℕ → List ℕ) (f : Files)
    → let sys : System = record {
      user_cache_dir = cache;
      join = join;
      mkdir_error = m;
      listen = l;
      removed_first = first;
      removed_last = last;
      open_error = o;
      random = r;
      written = w;
      attributes_error = a;
      decimal = decimal;
    } in
      Outcome sys f (start sys f)
unfolding start data_dir create_cygwin_socket tear_down or_tear_down listen_tcp open_file
    write_and_close set_file_attributes
started (inl e) join m l first last o r w a decimal f = refused e f refl refl refl (inl refl)
started (inr dir) join (some e) l first last o r w a decimal f =
    refused e f refl refl refl (inl refl)
started (inr dir) join none (inl e) first last o r w a decimal f =
    refused e f refl refl refl (inl refl)
started (inr dir) join none (inr port) first last (some e) r w a decimal f =
    refused e _ refl (ground arith) (ground arith) (inr (λ h. ground arith))
started (inr dir) join none (inr port) first last none (inl e) w a decimal f =
    refused e _ refl (ground arith) (ground arith) (inr (λ h. ground arith))
started (inr dir) join none (inr port) first last none (inr uuid) w (some e) decimal f =
    refused e _ refl (ground arith) (ground arith) (inr (λ h. ground arith))
started (inr dir) join none (inr port) first last none (inr uuid) w none decimal f =
    published port uuid refl refl (ground arith)

-- How starting the Cygwin application ends, whatever the system answers: with a listener, and the file, marked as
-- Cygwin wants it, with what WriteString got into it of the text with the port and the secret; or with an
-- error and no listener more than before. A file that was made is gone again when the last Remove takes it
-- away. A file handle is lost exactly in the case that the file was opened, which needs a directory and a
-- listener, and the random bytes were asked for and did not come.
pub start-Outcome : (sys : System) (f : Files) → Outcome sys f (start sys f)
start-Outcome sys f =
    started sys.user_cache_dir sys.join sys.mkdir_error sys.listen sys.removed_first
      sys.removed_last sys.open_error sys.random sys.written sys.attributes_error sys.decimal f

-- The secret in a socket file, behind the port.
abbrev pub secret_in : System → ℕ → List ℕ → List ℕ
secret_in sys port text = read_groups 4 (drop (10 + (length (sys.decimal port) + 3)) text)

secret_in-text :
    (sys : System) (port : ℕ) (uuid : List ℕ)
    → length uuid ≡ 16
    → All (λ b. b < 256) uuid
    → secret_in sys port (socket_text sys port uuid) ≡ uuid
secret_in-text sys port uuid l small =
    let before : List ℕ =
      33 ∷ 60 ∷ 115 ∷ 111 ∷ 99 ∷ 107 ∷ 101 ∷ 116 ∷ 32 ∷ 62 ∷ sys.decimal port
      ++ 32 ∷ 115 ∷ 32 ∷ [] in
    ap (λ text. read_groups 4 (drop (10 + (length (sys.decimal port) + 3)) text))
      (ap (λ t. 33 ∷ 60 ∷ 115 ∷ 111 ∷ 99 ∷ 107 ∷ 101 ∷ 116 ∷ 32 ∷ 62 ∷ t)
        (sym (append_assoc (sys.decimal port) (32 ∷ 115 ∷ 32 ∷ []) (uuid_to_string uuid))))
    ∙ ap (read_groups 4) (
        drop-append (10 + (length (sys.decimal port) + 3)) before (uuid_to_string uuid)
          (omega (arith, length-append (sys.decimal port) (32 ∷ 115 ∷ 32 ∷ []))))
    ∙ (uuid_to_string-read_groups uuid l small).1

some_same : {x y : List ℕ} → some x ≡ some y → x ≡ y
some_same h = ground (arith, h)

text_of :
    (sys : System) (f g : Files) (port : ℕ) (uuid text : List ℕ) (r : Result (ℕ × List ℕ) × Files)
    → Outcome sys f r
    → r ≡ (ok (port, uuid), g)
    → g.sockfile ≡ some text
    → text ≡ sys.written (socket_text sys port uuid)
text_of sys f g port uuid text r (published port' uuid' li ra e) s t =
    let same_port : port' ≡ port = ground (arith, e, s) in
    let same_uuid : uuid' ≡ uuid = ground (arith, e, s) in
    let same_file : g.sockfile ≡ some (sys.written (socket_text sys port' uuid')) =
      ground (arith, e, s) in
    some_same (sym t ∙ same_file)
    ∙ ap (λ n. sys.written (socket_text sys n uuid')) same_port
    ∙ ap (λ u. sys.written (socket_text sys port u)) same_uuid
text_of sys f g port uuid text r (refused x g' e a b d) s t = absurd (ground (arith, e, s))

-- A client that reads the secret in the socket file of a started application, and sends it and twelve bytes
-- more, is handled, whatever it sends behind them, if the system's random bytes are sixteen bytes and no
-- write, of the socket file or of the answer, fails.
pub published_secret_admits :
    (sys : System) (f g : Files) (port pid : ℕ) (uuid text ids rest : List ℕ) (c : Conn)
    → start sys f ≡ (ok (port, uuid), g)
    → g.sockfile ≡ some text
    → sys.written (socket_text sys port uuid) ≡ socket_text sys port uuid
    → length uuid ≡ 16
    → All (λ b. b < 256) uuid
    → length ids ≡ 12
    → c.incoming ≡ secret_in sys port text ++ (ids ++ rest)
    → c.write_errors ≡ []
    → admit_conn uuid pid c ≡ (true, served uuid pid ids rest c)
published_secret_admits sys f g port pid uuid text ids rest c s t whole l small li e w =
    admit_conn_accepts uuid pid ids rest c l li
      (e
        ∙ ap (λ bs. bs ++ (ids ++ rest))
            (ap (secret_in sys port)
                (text_of sys f g port uuid text (start sys f) (start-Outcome sys f) s t ∙ whole)
              ∙ secret_in-text sys port uuid l small))
      w
