-- ===== src/App/Wsl/Setup.antt =====
-- app/wsl.go up to the accept loop: the Unix socket or the loopback one, and the help text. The answers of
-- the system, fmt.Sprintf without further arguments, and how a number is printed, are parameters.
pub mod Help
mod Tests
use keybridge.Base.{ℕ, List, [], ◌∷◌, ◌++◌, Bool, true, false, Option, none, some, ◌⊎◌, inl, inr}
use keybridge.Base.Outcome.{Error, Result, ok, err}
use keybridge.App.Wsl.{win_path_to_unix}

-- dataDir, net.Listen for the Unix socket in it, and net.Listen for the loopback one with its port.
pub record System : Type 0 where
  pub data_dir : Error ⊎ List ℕ
  pub join : List ℕ → List ℕ → List ℕ
  pub listen_unix : List ℕ → Option Error
  pub listen_tcp : Error ⊎ ℕ
  pub volume_name_length : List ℕ → ℕ
  pub sprintf : List ℕ → List ℕ
  pub decimal : ℕ → List ℕ

-- "keybridge-wsl.sock"
abbrev pub wsl_sock : List ℕ
wsl_sock =
    107 ∷ 101 ∷ 121 ∷ 98 ∷ 114 ∷ 105 ∷ 100 ∷ 103 ∷ 101 ∷ 45 ∷ 119 ∷ 115 ∷ 108 ∷ 46 ∷ 115 ∷ 111 ∷ 99
    ∷ 107 ∷ []

listened : Option Error → List ℕ → Error ⊎ List ℕ
listened none path = inr path
listened (some e) path = inl e

listen_in : System → Error ⊎ List ℕ → List ℕ → Error ⊎ List ℕ
unfolding listened
listen_in sys (inl e) filename = inl e
listen_in sys (inr dir) filename =
    let path = sys.join dir filename in listened (sys.listen_unix path) path

-- `listenUnixSock`: the path, if there is a listener.
pub listen_unix_sock : System → List ℕ → Error ⊎ List ℕ
unfolding listen_in
listen_unix_sock sys filename = listen_in sys sys.data_dir filename

-- "export SSH_AUTH_SOCK="
abbrev pub export_text : List ℕ
export_text =
    101 ∷ 120 ∷ 112 ∷ 111 ∷ 114 ∷ 116 ∷ 32 ∷ 83 ∷ 83 ∷ 72 ∷ 95 ∷ 65 ∷ 85 ∷ 84 ∷ 72 ∷ 95 ∷ 83 ∷ 79
    ∷ 67 ∷ 75 ∷ 61 ∷ []

-- "socat UNIX-LISTEN:/tmp/ssh-capi-agent.sock,reuseaddr,fork TCP:localhost:"
abbrev pub socat_text : List ℕ
socat_text =
    115 ∷ 111 ∷ 99 ∷ 97 ∷ 116 ∷ 32 ∷ 85 ∷ 78 ∷ 73 ∷ 88 ∷ 45 ∷ 76 ∷ 73 ∷ 83 ∷ 84 ∷ 69 ∷ 78 ∷ 58 ∷ 47
    ∷ 116 ∷ 109 ∷ 112 ∷ 47 ∷ 115 ∷ 115 ∷ 104 ∷ 45 ∷ 99 ∷ 97 ∷ 112 ∷ 105 ∷ 45 ∷ 97 ∷ 103 ∷ 101 ∷ 110
    ∷ 116 ∷ 46 ∷ 115 ∷ 111 ∷ 99 ∷ 107 ∷ 44 ∷ 114 ∷ 101 ∷ 117 ∷ 115 ∷ 101 ∷ 97 ∷ 100 ∷ 100 ∷ 114 ∷ 44
    ∷ 102 ∷ 111 ∷ 114 ∷ 107 ∷ 32 ∷ 84 ∷ 67 ∷ 80 ∷ 58 ∷ 108 ∷ 111 ∷ 99 ∷ 97 ∷ 108 ∷ 104 ∷ 111 ∷ 115
    ∷ 116 ∷ 58 ∷ []

-- " &\n" and "export SSH_AUTH_SOCK=/tmp/ssh-capi-agent.sock"
abbrev pub export_fallback : List ℕ
export_fallback =
    32 ∷ 38 ∷ 10 ∷ 101 ∷ 120 ∷ 112 ∷ 111 ∷ 114 ∷ 116 ∷ 32 ∷ 83 ∷ 83 ∷ 72 ∷ 95 ∷ 65 ∷ 85 ∷ 84 ∷ 72
    ∷ 95 ∷ 83 ∷ 79 ∷ 67 ∷ 75 ∷ 61 ∷ 47 ∷ 116 ∷ 109 ∷ 112 ∷ 47 ∷ 115 ∷ 115 ∷ 104 ∷ 45 ∷ 99 ∷ 97 ∷ 112
    ∷ 105 ∷ 45 ∷ 97 ∷ 103 ∷ 101 ∷ 110 ∷ 116 ∷ 46 ∷ 115 ∷ 111 ∷ 99 ∷ 107 ∷ []

-- What is set up: whether the listener is the loopback one, and the help.
pub record Setup : Type 0 where
  pub fallback : Bool
  pub help : List ℕ

fall_back : System → Error ⊎ ℕ → Result Setup
fall_back sys (inl e) = err e
fall_back sys (inr port) =
    ok (record { fallback = true; help = socat_text ++ (sys.decimal port ++ export_fallback) })

set_up : System → Error ⊎ List ℕ → Result Setup
unfolding fall_back
set_up sys (inl e) = fall_back sys sys.listen_tcp
set_up sys (inr path) = ok (record {
  fallback = false;
  help = sys.sprintf (export_text ++ win_path_to_unix sys.volume_name_length path);
})

-- `(*WSL).Run` up to its loop; the path is part of the format that Sprintf reads.
pub start : System → Result Setup
unfolding listen_unix_sock set_up
start sys = set_up sys (listen_unix_sock sys wsl_sock)
