-- ===== src/Utils/TcpOwner/Users.antt =====
-- The check of the peer's user: what it rests on, and that it closes what it opens.
use keybridge.Base.{ℕ, suc, ◌%◌, ◌^◌, ◌≡◌, refl, Bool, Option, none, some, arith}
use keybridge.Base.Outcome.{ok, lift, pure, ◌>>=◌, bind-ok}
use keybridge.Utils.TcpOwner.{
  Windows, Handles, tcp_conn_owner_pid, same_user_tcp_conn, with_token, with_process, open_owner,
}

-- Every path of the check closes the handles of the process and of its token that it opened.
pub same_user_tcp_conn_closes :
    (w : Windows) (remote : Option ℕ) (h : Handles) → (same_user_tcp_conn w remote h).1 ≡ h
unfolding same_user_tcp_conn
same_user_tcp_conn_closes w none h = refl
same_user_tcp_conn_closes w (some port) h = ground arith

-- What an answer of the check rests on: the process found for the port, its user and this process's user.
pub record Compared (w : Windows) (port : ℕ) (same : Bool) : Type 0 where
  pub pid : ℕ
  pub user : ℕ
  pub ours : ℕ
  pub found : tcp_conn_owner_pid w (port % 2 ^ 16) ≡ ok pid
  pub process : w.open_process pid ≡ ok tt
  pub token : w.open_process_token ≡ ok tt
  pub user_found : w.token_user ≡ ok user
  pub ours_found : w.user_sid ≡ ok ours
  pub compared : w.equal_sid user ours ≡ same

-- If the check answers, the process that owns the connection's other end, its user and the user of this
-- process were all found, and its answer is whether the two users are equal.
pub same_user_tcp_conn-Compared :
    (w : Windows) (port : ℕ) (h : Handles) (same : Bool)
    → (same_user_tcp_conn w (some port) h).0 ≡ ok same
    → Compared w port same
unfolding same_user_tcp_conn
same_user_tcp_conn-Compared w port h same e =
    let (pid, found, e₁) =
      bind-ok (lift (tcp_conn_owner_pid w (port % 2 ^ 16))) (open_owner w) h same e in
    let (tt, process, e₂) = bind-ok (lift (w.open_process pid)) (with_process w) h same e₁ in
    let h₂ = record h { processes = suc h.processes } in
    let (tt, token, e₃) = bind-ok (lift w.open_process_token) (with_token w) h₂ same e₂ in
    let h₃ = record h₂ { tokens = suc h₂.tokens } in
    let (user, user_found, e₄) =
      bind-ok (lift w.token_user) (λ u. lift w.user_sid >>= λ o. pure (w.equal_sid u o)) h₃ same
        e₃ in
    let (ours, ours_found, e₅) =
      bind-ok (lift w.user_sid) (λ o. pure (w.equal_sid user o)) h₃ same e₄ in
    record {
      pid = pid;
      user = user;
      ours = ours;
      found = found;
      process = process;
      token = token;
      user_found = user_found;
      ours_found = ours_found;
      compared = ground arith;
    }
