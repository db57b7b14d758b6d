-- ===== src/Lib.antt =====
-- KeyBridge is an SSH agent for Windows: it offers the keys of the Windows certificate store, and
-- those of a keyring, to clients of several kinds. This library models the parts that carry its
-- protocols and its resources.
--
-- The agents (package sshagent). A request reaches a wrapped agent (SshAgent/Wrapped,
-- sshagent/wrapped_agent.go), which asks the keyring agent (SshAgent/KeyRing,
-- sshagent/keyring_agent.go) and then the certificate agent (SshAgent/CapiAgent,
-- sshagent/capi_agent.go and certificate.go). The latter loads the user's certificates, filters them
-- by their usages (SshAgent/Eku, sshagent/eku.go), makes a signer of each (SshAgent/Signers,
-- sshagent/rsa.go and ecdsa.go), and signs by the Windows Crypto API (Capi, capi/wincapi.go).
-- SshAgent/Agent is the interface of an agent, over a state that its methods change.
--
-- The clients. Xshell's protocol and the proxy that repairs its messages are App/XShell
-- (app/xshell.go); Cygwin's handshake and the text of its secret are App/Cygwin (app/cygwin.go,
-- UUIDToString of utils/misc.go); PuTTY's window procedure is Utils/Pageant (utils/pageant.go), which
-- hands a request over by the connection of Utils/Mmap (utils/mmap.go). App/VSock is the watcher that
-- keeps a listener for each WSL2 machine (app/vsock.go), with what wakes and ends it in
-- App/VSock/Watch, Utils/TcpOwner the search for the user behind a loopback connection
-- (utils/tcpowner.go), on which App/Wsl refuses a client (app/wsl.go). Utils/XAgent makes and closes
-- the windows of Xshell's agent (utils/xagent.go, utils/window.go), and Utils/Desktop and
-- Utils/MessageBox are the notifications and the boxes (utils/notification.go). App/Serving has the
-- accept loops of the six applications (app/pipe.go, app/pageant.go and the Run methods of the files
-- above) as steps that interleave with their handlers and with the context that is cancelled;
-- App/Cygwin/Setup, App/Wsl/Setup and App/VSock/Setup are what Cygwin's, WSL's and VSock's do around
-- their loops. Utils/PageantWindow is the window of Pageant with its message loop, and
-- Utils/PageantService the channels between its thread, AcceptCtx and the handlers. App/Clicks is what
-- the menu items do (app/pubkey.go and the onClick methods), with the identifiers of App/AppId
-- (app/app.go); Utils/Clipboard is utils/clipboard.go, Utils/Machines the list of virtual machines and
-- the checks of Hyper-V (utils/wsl2.go), Utils/ProcessNotify the process notifications
-- (utils/processnotify.go), Utils/RandomText RandomString (utils/misc.go), Utils/System the
-- identifiers of the user, the smart card service and the awareness of the resolution
-- (utils/security.go, utils/scardsvr.go, utils/dpi.go), and Utils/Shell the elevated starts of
-- programs and the deadline of a listener (utils/uac.go, utils/scardsvr.go, utils/deadline.go).
-- Capi/Property is the property by which Capi resets the PIN.
--
-- The process. Startup/Begin is main.go from the command line to the tray, with the log file and the
-- check for the host. Startup chooses the agent by the flags and puts the agents together over one
-- state (main.go): the keyring, the certificate agent with the desktop that both notify, and the
-- connections of the agent of a Hyper-V guest (SshAgent/HyperV, sshagent/hyperv.go, with
-- sshagent/server.go and ConnectHyperV). Startup/Install is installService, Startup/Menu the menu and
-- the event loop (menu.go, main.go), and Startup/Life the life of the process from there on: the
-- goroutines of the applications (Startup/Programs), each with the accept loop of App/Serving, the
-- events, and the cleanup with its five seconds, as steps that interleave. Relay is the other command
-- of the program, which connects its standard input and output to a pipe (relay.go), with its
-- beginning in Relay/Start and what it logs in Relay/Logs.
--
-- Base holds what the modules share: Outcome has Go's results (a value, an error or a panic) and
-- methods as functions of a state that return a result and the new state, also beside an error; Conn
-- is a connection by what its peer sends, with io.ReadFull; Bytes is encoding/binary; Lists and Tests
-- have lists and Boolean tests over native numbers. A nil slice is the empty list, except where the
-- code tells the two apart. A uint32 keeps its wrap (u32); the int lengths of the code are of 64 bits
-- and do not come near their bound. A method that holds a mutex is one step.
--
-- Parameters stand for other code: the procedures of Windows (Capi.CryptoApi, Capi.UserStore,
-- Utils.Pageant.Answers, Utils.TcpOwner.Windows, Utils.XAgent.WindowCalls), golang.org/x/crypto
-- (App.XShell.SshWire, SshAgent.KeyRing.Keyring, part of SshAgent.CapiAgent.Outside), encoding/asn1
-- and PKCS #7 (SshAgent.Signers.PairCodec, Capi.CryptoApi), and what the system answers
-- (App.Cygwin.Setup.System, App.Wsl.Setup.System, App.Serving.Loops.Checks, Utils.Clipboard.Calls,
-- SshAgent.HyperV.Parent). What is asked of them is a hypothesis of the theorem: the range of `rand.Intn` in Utils.RandomText, an error that tells a closed listener in
-- App.Serving.Shutdown, and `Sprintf` on a format without a percent sign in App.Wsl.Setup.
--
-- The accept loops, the process, Pageant's channels, the process notifications and the relay run for
-- ever by themselves: they are step relations, with theorems on every reachable state and on how they
-- can end.
--
-- Every other loop of the code that is modelled runs over a list or a number of rounds that is known
-- when it starts, so it is structural recursion and no fuel can run out: three attempts for the TCP
-- table, one step for each of its rows, one for each certificate, key, agent, usage or machine.
-- Theorems about the proxy of Xshell and the connection of Pageant are over any list of reads or calls
-- of a server, and say how many reads are enough.
--
-- Not modelled: the declarations of the procedures of Windows and of the constants that only they use;
-- the documents and the build.
pub mod Startup
pub mod Relay
pub mod Base
pub mod App
pub mod SshAgent
pub mod Utils
pub mod Capi
