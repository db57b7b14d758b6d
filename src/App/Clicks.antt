-- ===== src/App/Clicks.antt =====
-- What the applications do when their menu items are clicked: the onClick methods of app/wsl.go,
-- app/cygwin.go, app/pipe.go, app/vsock.go and app/pubkey.go. The message box and what the user clicks in
-- it, the clipboard, the check of the service and elevation are other code.
pub mod Copies
mod Tests
use Prim.Native.String.{◌++◌ as str_append}
use keybridge.Base.{
  ℕ, suc, false, String, List, [], ◌∷◌, ◌++◌, Bool, Option, none, some, ◌==◌, if◌then◌else◌, ◌⊎◌,
  inl, inr,
}
use keybridge.Utils.MessageBox.{
  Box, ℤ, pos, negsuc, message_box, mb_okcancel, mb_icon_warning, mb_icon_error, id_ok,
}
use keybridge.App.AppId.{
  app_cygwin, app_wsl, app_winssh, app_hyperv, app_id_to_name, app_id_to_full_name,
}

-- The boxes that MessageBoxW was called for, oldest first, what was given to SetClipBoard, and how often this program was
-- started as an administrator.
pub record Screen : Type 0 where
  pub boxes : List Box
  pub copied : List String
  pub elevations : ℕ

-- The state of the applications that their items look at: whether each runs, the text of the WSL
-- application, the Cygwin socket, and what the agent lists for the public keys, if it is set: the errors
-- and the keys come in their printed form.
pub record Apps : Type 0 where
  pub wsl_running : Bool
  pub wsl_help : String
  pub cygwin_running : Bool
  pub sockfile : String
  pub pipe_running : Bool
  pub vsock_running : Bool
  pub agent_keys : Option (String ⊎ List String)
  pub hv_service : Bool
  pub elevation : Option String

-- The user and the message boxes: the answer of MessageBoxW to a box, by the boxes before it, and whether a text
-- can be converted for it, without which there is no box.
pub record User : Type 0 where
  pub answer : List Box → Box → ℕ
  pub converts : String → Bool

-- Whether a result of MessageBox is `utils.IDOK`.
abbrev pub is_ok : ℤ → Bool
is_ok (pos n) = n == id_ok
is_ok (negsuc n) = false

-- `utils.MessageBox(box.title, box.text, box.style) == utils.IDOK`, and the screen behind it
pub ask : User → Box → Screen → Bool × Screen
unfolding message_box
ask user box s =
    let (r, boxes) = message_box user.converts user.answer box.title box.text box.style s.boxes in
    (is_ok r, record s { boxes = boxes })

-- A box whose result is not looked at.
abbrev pub show : User → Box → Screen → Screen
show user box s = (ask user box s).1

abbrev pub copy_if : String → Bool × Screen → Screen
copy_if text (agreed, s) = if agreed then record s { copied = s.copied ++ text ∷ [] } else s

-- `if utils.MessageBox(title, text, utils.MB_OKCANCEL) == utils.IDOK { utils.SetClipBoard(text) }`
pub offer : User → String → String → Screen → Screen
unfolding ask
offer user title text s =
    copy_if text (ask user (record { title = title; text = text; style = mb_okcancel }) s)

abbrev pub copy_title : ℕ → String
copy_title id = str_append (app_id_to_full_name id) " (OK to copy):"

-- The box of an application that does not run.
abbrev pub not_working : ℕ → Box
not_working id = record {
  title = "Error:";
  text = str_append (app_id_to_name id) " agent doesn't work!";
  style = mb_icon_warning;
}

-- `(*WSL).onClick`
pub wsl_on_click : User → Apps → Screen → Screen
unfolding offer ask
wsl_on_click user a s =
    if a.wsl_running
    then offer user (copy_title app_wsl) a.wsl_help s
    else show user (not_working app_wsl) s

-- The text of `(*Cygwin).onClick`
abbrev pub cygwin_help : String → String
cygwin_help sockfile = str_append "export SSH_AUTH_SOCK=\"" (str_append sockfile "\"")

-- `(*Cygwin).onClick`
pub cygwin_on_click : User → Apps → Screen → Screen
unfolding offer ask
cygwin_on_click user a s =
    if a.cygwin_running
    then offer user (copy_title app_cygwin) (cygwin_help a.sockfile) s
    else show user (not_working app_cygwin) s

abbrev pub pipe_help : String
pipe_help = "set SSH_AUTH_SOCK=\\\\.\\pipe\\openssh-ssh-agent"

-- `(*NamedPipe).onClick`
pub pipe_on_click : User → Apps → Screen → Screen
unfolding offer ask
pipe_on_click user a s =
    if a.pipe_running
    then offer user (copy_title app_winssh) pipe_help s
    else show user (not_working app_winssh) s

abbrev pub pipe_help_sc : String
pipe_help_sc = "setx \"VANDYKE_SSH_AUTH_SOCK\" \"\\\\.\\pipe\\openssh-ssh-agent\""

-- `(*NamedPipe).onClickSC`, which names WinSSH in its boxes
pub pipe_on_click_sc : User → Apps → Screen → Screen
unfolding offer ask
pipe_on_click_sc user a s =
    if a.pipe_running
    then offer user (copy_title app_winssh) pipe_help_sc s
    else show user (not_working app_winssh) s

-- The start as an administrator, with the box for its error.
pub elevate : User → Option String → Screen → Screen
unfolding ask
elevate user none s = record s { elevations = suc s.elevations }
elevate user (some e) s =
    show user (record { title = "Install Service Error:"; text = e; style = mb_icon_error })
      (record s { elevations = suc s.elevations })

abbrev pub enable_question : Box
enable_question = record {
  title = str_append (app_id_to_full_name app_hyperv) ":";
  text = str_append (app_id_to_name app_hyperv) " agent is not working! Do you want to enable it?";
  style = mb_okcancel;
}

abbrev pub elevate_if : User → Option String → Bool × Screen → Screen
elevate_if user e (agreed, s) = if agreed then elevate user e s else s

-- `(*VSock).checkHvService`
pub check_hv_service : User → Apps → Screen → Screen
unfolding elevate ask
check_hv_service user a s =
    if a.hv_service
    then show user (not_working app_hyperv) s
    else elevate_if user a.elevation (ask user enable_question s)

-- The text of `(*VSock).onClick`
abbrev pub vsock_help : String
vsock_help =
    str_append "export SSH_AUTH_SOCK=/tmp/keybridge-hv.sock\nss -lnx | grep -q $SSH_AUTH_SOCK\n" (
      str_append "if [ $? -ne 0 ]; then\n\trm -f $SSH_AUTH_SOCK\n" (
        str_append "  (setsid nohup socat UNIX-LISTEN:$SSH_AUTH_SOCK,fork "
          "SOCKET-CONNECT:40:0:x0000x33332222x02000000x00000000 >/dev/null 2>&1) & disown\nfi"))

-- `(*VSock).onClick`
pub vsock_on_click : User → Apps → Screen → Screen
unfolding check_hv_service offer ask
vsock_on_click user a s =
    if a.vsock_running
    then offer user (copy_title app_hyperv) vsock_help s
    else check_hv_service user a s

-- `(*VSock).onCheckClick`
pub vsock_on_check_click : User → Apps → Screen → Screen
unfolding check_hv_service ask
vsock_on_check_click user a s =
    if a.vsock_running
    then show user
        (record {
          title = str_append (app_id_to_full_name app_hyperv) ":";
          text = str_append (app_id_to_name app_hyperv) " agent is working!";
          style = 0;
        })
        s
    else check_hv_service user a s

-- The loop of `(*PubKeyView).onClick`
pub key_lines : List String → String
key_lines [] = ""
key_lines (key ∷ keys) = str_append (str_append key "\n") (key_lines keys)

abbrev pub keys_text : List String → String
keys_text [] = "No Keys"
keys_text (key ∷ keys) = key_lines (key ∷ keys)

-- `(*PubKeyView).onClick`, which panics when `Run` has not set the agent yet: `none`
pub pub_key_on_click : User → Option (String ⊎ List String) → Screen → Option Screen
unfolding offer key_lines ask
pub_key_on_click user none s = none
pub_key_on_click user (some (inl e)) s =
    some (show user (record { title = "Error:"; text = e; style = mb_icon_warning }) s)
pub_key_on_click user (some (inr keys)) s =
    some (offer user "Public Keys (OK to copy):" (keys_text keys) s)

-- The handlers that the applications register.
pub data Handler : Type 0 where
  pub_key_view wsl vsock vsock_check cygwin named_pipe named_pipe_sc : Handler

-- A click; a panic of the handler ends the process.
pub on_click : Handler → User → Apps → Screen → Option Screen
unfolding wsl_on_click cygwin_on_click pipe_on_click pipe_on_click_sc vsock_on_click
    vsock_on_check_click pub_key_on_click
on_click pub_key_view user a s = pub_key_on_click user a.agent_keys s
on_click wsl user a s = some (wsl_on_click user a s)
on_click vsock user a s = some (vsock_on_click user a s)
on_click vsock_check user a s = some (vsock_on_check_click user a s)
on_click cygwin user a s = some (cygwin_on_click user a s)
on_click named_pipe user a s = some (pipe_on_click user a s)
on_click named_pipe_sc user a s = some (pipe_on_click_sc user a s)
