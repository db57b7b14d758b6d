-- ===== src/App/XShell.antt =====
-- app/xshell.go: the cookie handshake of an Xshell client, and the proxy that turns its connection
-- into the stream that the agent server reads and writes. The decoding of SSH messages
-- (`ssh.Unmarshal`, `ssh.Marshal`) is a parameter.
pub mod Frames
pub mod Replies
pub mod Handshake
pub mod Overflow
mod Tests
use keybridge.Base.{
  ℕ, ◌+◌, ◌-◌, List, [], ◌∷◌, ◌++◌, Bool, Option, none, some, ltb, ◌==◌, not, ◌⊎◌, inl, inr,
  if◌then◌else◌, length, take, drop, replicate, bytes_equal,
}
use keybridge.Base.Outcome.{Error, unexpected_eof, errorf, ok, err, Exec, ◌>>=◌, raise, crash, pure}
use keybridge.Base.Bytes.{u32, big_endian, put_big_endian}
use keybridge.Base.Conn.{Conn, read_full, read_exact, write, write_exact, close}

-- 16 << 20
abbrev pub max_agent_response_bytes : ℕ
max_agent_response_bytes = 16777216

abbrev pub agent_sign_request : ℕ
agent_sign_request = 13

pub record InitAgentMsg : Type 0 where
  pub flag : ℕ
  pub length : ℕ
  pub cookie : List ℕ

-- `golang.org/x/crypto/ssh` as this file uses it: decoding of an `initAgentMsg`, the encoding of an
-- `initAgentRepMsg` by its flag, and whether a `signRequestAgentMsg` decodes.
pub record SshWire : Type 0 where
  pub unmarshal_init : List ℕ → Error ⊎ InitAgentMsg
  pub marshal_rep : ℕ → List ℕ
  pub is_sign_request : List ℕ → Bool

-- `req[0]`, which panics on an empty slice.
opcode : List ℕ → Exec Conn ℕ
opcode [] = crash
opcode (b ∷ bs) = pure b

-- From the decoded message on; `cookie` is what the agent's window shows.
check_cookie : SshWire → List ℕ → InitAgentMsg → Exec Conn (Unit {0})
check_cookie wire cookie msg =
    if not (msg.length == length cookie)
    then raise (errorf "xagent: invalid cookie length" [])
    else if ltb msg.length (length msg.cookie)
    then raise (errorf "xagent: invalid message length" [])
    else do
      remain ← read_exact (msg.length - length msg.cookie)
      if not (bytes_equal (msg.cookie ++ remain) cookie)
          then raise (errorf "xagent: invalid cookie" [])
          else (let rep = wire.marshal_rep msg.flag in
              write_exact (put_big_endian (u32 (length rep)) ++ rep))

after_unmarshal : SshWire → List ℕ → Error ⊎ InitAgentMsg → Exec Conn (Unit {0})
unfolding check_cookie
after_unmarshal wire cookie (inl e) = raise e
after_unmarshal wire cookie (inr msg) = check_cookie wire cookie msg

check_request : SshWire → List ℕ → List ℕ → Exec Conn (Unit {0})
unfolding after_unmarshal opcode
check_request wire cookie req = do
  code ← opcode req
  if not (code == 99)
      then raise (errorf "xagent: unknown opcode: %d" (code ∷ []))
      else after_unmarshal wire cookie (wire.unmarshal_init req)

pub xshell_handshake : SshWire → List ℕ → Exec Conn (Unit {0})
xshell_handshake wire cookie = do
  head ← read_exact 4
  let l = u32 (big_endian head + 4)
  if ltb max_agent_response_bytes l
      then raise (errorf "xagent: request too large: %d" (l ∷ []))
      else do req ← read_exact l; check_request wire cookie req

-- `xshellProxy`; its slices are lists, and a `nil` slice is the empty list.
pub record XShellProxy : Type 0 where
  pub conn : Conn
  pub buf : List ℕ
  pub wlength : ℕ
  pub wbuf : List ℕ

-- The last lines of a `Read`, and its first branch: `n = copy(p, s.buf); s.buf = s.buf[n:]` with
-- `len(p) = n`.
serve_buf : ℕ → Exec XShellProxy (List ℕ)
serve_buf n s = (ok (take n s.buf), record s { buf = drop n s.buf })

-- A sign request that does not decode gets an empty flags field.
pad_sign : SshWire → ℕ → List ℕ → ℕ × List ℕ
pad_sign wire l [] = (l, [])
pad_sign wire l (b ∷ bs) =
    if (b == agent_sign_request)
    then if wire.is_sign_request (b ∷ bs)
      then (l, b ∷ bs)
      else (u32 (l + 4), (b ∷ bs) ++ 0 ∷ 0 ∷ 0 ∷ 0 ∷ [])
    else (l, b ∷ bs)

-- `s.buf[4:]` has been filled by `got`, and `PutUint32` writes the first four bytes.
after_body : SshWire → ℕ → ℕ → List ℕ × Option Error × Conn → Exec XShellProxy (List ℕ)
unfolding serve_buf pad_sign
after_body wire n l (got, some e, c) s =
    (err e, record s { conn = c; buf = replicate 4 0 ++ got ++ replicate (l - length got) 0 })
after_body wire n l (got, none, c) s =
    let (l', body) = pad_sign wire l got in
    serve_buf n (record s { conn = c; buf = put_big_endian l' ++ body })

after_head : SshWire → ℕ → List ℕ × Option Error × Conn → Exec XShellProxy (List ℕ)
unfolding after_body
after_head wire n (got, some e, c) s = (err e, record s { conn = c })
after_head wire n (got, none, c) s =
    let l = big_endian got in
    if l == 0
    then (err unexpected_eof, record s { conn = c })
    else if ltb max_agent_response_bytes l
    then (err (errorf "xagent: request too large: %d" (l ∷ [])), record s { conn = c })
    else after_body wire n l (read_full l c) (record s { conn = c })

read_buf : SshWire → ℕ → List ℕ → Exec XShellProxy (List ℕ)
unfolding after_head
read_buf wire n [] s = after_head wire n (read_full 4 s.conn) s
read_buf wire n (b ∷ bs) s = serve_buf n s

-- `(*xshellProxy).Read(p)` with `len(p) = n`: the bytes put into `p`.
pub read : SshWire → ℕ → Exec XShellProxy (List ℕ)
unfolding read_buf
read wire n s = read_buf wire n s.buf s

after_write : List ℕ → Option Error × Conn → Exec XShellProxy ℕ
after_write p (none, c) s = (ok (length p), record s { conn = c; wlength = 0; wbuf = [] })
after_write p (some e, c) s = (err e, record s { conn = c; wlength = 0 })

-- `(*xshellProxy).Write(p)`. `wlength` is an `int` of 64 bits, and stays below 2^32 + 4.
pub write_reply : List ℕ → Exec XShellProxy ℕ
unfolding after_write
write_reply p s =
    let wbuf = s.wbuf ++ p in
    let s' = record s { wbuf = wbuf } in
    if s.wlength == 0
    then if not (length p == 4)
      then (err (errorf "xagent proxy: invalid write status" []), s)
      else (ok (length p), record s { wlength = big_endian p + 4; wbuf = wbuf })
    else if length wbuf == s.wlength
    then after_write p (write wbuf s.conn) s'
    else if ltb s.wlength (length wbuf)
    then (err (errorf "xagent proxy: invalid write length" []), s')
    else (ok (length p), s')

-- `(*xshellProxy).Close()`
pub close_proxy : XShellProxy → XShellProxy
close_proxy s = record s { conn = close s.conn }
