-- ===== src/App/Cygwin/Setup/Tests.antt =====
-- Runs and instances of the theorems about the start of app/cygwin.go.
use keybridge.Base.{
  ℕ, ◌≡◌, ◌<◌, refl, List, [], ◌∷◌, ◌++◌, true, false, none, some, inl, inr, ◌⊎◌, All, arith,
}
use keybridge.Base.Outcome.{Error, eof, ok, err}
use keybridge.Base.Conn.{Conn}
use keybridge.App.Cygwin.{admit_conn}
use keybridge.App.Cygwin.Secret.{served}
use keybridge.App.Cygwin.Setup.{
  System, Files, socket_text, create_cygwin_socket, data_dir, tear_down, or_tear_down, listen_tcp,
  open_file, write_and_close, set_file_attributes, start,
}
use keybridge.App.Cygwin.Setup.Published.{
  Outcome, start-Outcome, secret_in, published_secret_admits,
}

abbrev secret : List ℕ
secret = 1 ∷ 2 ∷ 3 ∷ 4 ∷ 5 ∷ 6 ∷ 7 ∷ 8 ∷ 9 ∷ 10 ∷ 11 ∷ 12 ∷ 13 ∷ 14 ∷ 15 ∷ 255 ∷ []

abbrev ids : List ℕ
ids = 1 ∷ 1 ∷ 1 ∷ 1 ∷ 2 ∷ 2 ∷ 2 ∷ 2 ∷ 3 ∷ 3 ∷ 3 ∷ 3 ∷ []

-- The port is printed as "80".
abbrev system : Error ⊎ List ℕ → System
system random = record {
  user_cache_dir = inr (67 ∷ []);
  join = λ a b. a ++ b;
  mkdir_error = none;
  listen = inr 80;
  removed_first = true;
  removed_last = true;
  open_error = none;
  random = random;
  written = λ text. text;
  attributes_error = none;
  decimal = λ n. 56 ∷ 48 ∷ [];
}

abbrev files : Files
files = record { listeners = 0; handles = 0; sockfile = none; marked = false }

abbrev published_files : Files
published_files = record {
  listeners = 1;
  handles = 0;
  sockfile = some (socket_text (system (inr secret)) 80 secret);
  marked = true;
}

start_run : start (system (inr secret)) files ≡ (ok (80, secret), published_files)
unfolding start data_dir create_cygwin_socket tear_down or_tear_down listen_tcp open_file
    write_and_close set_file_attributes
start_run = refl

leak_run : start (system (inl eof)) files ≡ (err eof, record files { handles = 1 })
unfolding start data_dir create_cygwin_socket tear_down or_tear_down listen_tcp open_file
    write_and_close set_file_attributes
leak_run = refl

failed-Outcome : Outcome (system (inl eof)) files (start (system (inl eof)) files)
failed-Outcome = start-Outcome (system (inl eof)) files

abbrev client : Conn
client = record {
  incoming =
      secret_in (system (inr secret)) 80 (socket_text (system (inr secret)) 80 secret)
      ++ (ids ++ 9 ∷ []);
  end_error = eof;
  sent = [];
  write_errors = [];
  closed = false;
}

secret_small : All (λ b. b < 256) secret
secret_small = ground arith

published_client : admit_conn secret 7 client ≡ (true, served secret 7 ids (9 ∷ []) client)
published_client =
    published_secret_admits (system (inr secret)) files published_files 80 7 secret
      (socket_text (system (inr secret)) 80 secret) ids (9 ∷ []) client start_run refl refl refl
      secret_small refl refl refl
