-- ===== src/App/AppId.antt =====
-- app/app.go: the identifiers of the applications, which are also those of their menu items, and their
-- names.
use keybridge.Base.{ℕ, String, ◌==◌, if◌then◌else◌}

-- The constants after the three names of sockets, so `iota` starts them at 3.
abbrev pub app_cygwin : ℕ
app_cygwin = 3

abbrev pub app_wsl : ℕ
app_wsl = 4

abbrev pub app_winssh : ℕ
app_winssh = 5

abbrev pub app_hyperv : ℕ
app_hyperv = 6

abbrev pub app_securecrt : ℕ
app_securecrt = 7

abbrev pub app_pageant : ℕ
app_pageant = 8

abbrev pub app_xshell : ℕ
app_xshell = 9

abbrev pub app_pubkey : ℕ
app_pubkey = 10

abbrev pub app_wsl2 : ℕ
app_wsl2 = 11

abbrev pub menu_quit : ℕ
menu_quit = 12

-- `AppId.String`: a lookup in `appIdToName`, which gives the empty string for the others.
abbrev pub app_id_to_name : ℕ → String
app_id_to_name id =
    if id == app_cygwin
    then "Cygwin"
    else if id == app_wsl
    then "WSL"
    else if id == app_winssh
    then "WinSSH"
    else if id == app_securecrt
    then "SecureCRT"
    else if id == app_pageant
    then "Pageant"
    else if id == app_xshell
    then "XShell"
    else if id == app_hyperv
    then "Hyper-V"
    else ""

-- `AppId.FullName`
abbrev pub app_id_to_full_name : ℕ → String
app_id_to_full_name id =
    if id == app_cygwin
    then "Cygwin (MinGW64 & MSYS2)"
    else if id == app_wsl
    then "Windows Subsystem for Linux"
    else if id == app_winssh
    then "Windows OpenSSH"
    else if id == app_securecrt
    then "SecureCRT"
    else if id == app_pageant
    then "Pageant"
    else if id == app_xshell
    then "XShell"
    else if id == app_hyperv
    then "Hyper-V"
    else ""
