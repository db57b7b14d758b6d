-- ===== src/App/Wsl/Setup/Tests.antt =====
-- Runs and instances of the theorem about the start of app/wsl.go.
use keybridge.Base.{◌≡◌, refl, [], ◌∷◌, ◌++◌, true, Option, some, inr}
use keybridge.Base.Outcome.{Error, eof, ok}
use keybridge.App.Wsl.Setup.{
  socat_text, export_fallback, System, listen_unix_sock, listen_in, listened, start, set_up,
  fall_back,
}

-- The socket's path is "a"; the port is printed as "80".
abbrev system : Option Error → System
system unix = record {
  data_dir = inr [];
  join = λ dir name. 97 ∷ [];
  listen_unix = λ path. unix;
  listen_tcp = inr 80;
  volume_name_length = λ path. 0;
  sprintf = λ format. format;
  decimal = λ n. 56 ∷ 48 ∷ [];
}

fallback_run :
    start (system (some eof))
    ≡ ok (record { fallback = true; help = socat_text ++ (56 ∷ 48 ∷ export_fallback) })
unfolding start set_up fall_back listen_unix_sock listen_in listened
fallback_run = refl
