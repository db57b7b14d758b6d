-- ===== src/SshAgent/HyperV/Tests.antt =====
-- Runs and instances of the theorems about sshagent/hyperv.go and sshagent/server.go.
use keybridge.Base.{◌+◌, ◌≡◌, refl, [], ◌∷◌, true, false, some, inl, inr, ◌==◌, if◌then◌else◌}
use keybridge.Base.Outcome.{eof, errorf, ok, err, panic}
use keybridge.SshAgent.HyperV.{
  Parent, Links, list, sign, new_hv_agent, dialled, connect_by, connect_hyper_v, closing, over_link,
  ssh_agent_handler,
}
use keybridge.SshAgent.HyperV.Interleaved.{
  Sessions, no_sessions, begins, lists, Reach, here, next, IsBalanced, Reach-IsBalanced,
}

-- The second dial fails; the host's agent has no keys and panics on a request to sign.
abbrev parent : Parent
parent = record {
  guid_from_string = inr 5;
  dial = λ svcid dials. if dials == 1 then inl eof else inr 40;
  client_list = λ conn. ok [];
  client_sign = λ conn key bytes. panic;
}

abbrev idle : Links
idle = record { dials = 0; opened = []; closed = [] }

list_run : list parent idle ≡ (ok [], record { dials = 1; opened = 40 ∷ []; closed = 40 ∷ [] })
unfolding list over_link connect_hyper_v connect_by dialled closing
list_run = refl

sign_run : (sign parent [] [] (record idle { dials = 1 })).0 ≡ err eof
unfolding sign over_link connect_hyper_v connect_by dialled closing
sign_run = refl

-- Two requests at the same time, of which the second is done first; a third cannot dial.
abbrev host : Parent
host = record parent { dial = λ svcid dials. if dials == 2 then inl eof else inr (40 + dials) }

abbrev second_done : Sessions
second_done = record {
  links = record { dials = 3; opened = 40 ∷ 41 ∷ []; closed = 41 ∷ [] };
  running = 40 ∷ [];
}

second_done_reached : Reach host no_sessions second_done
unfolding connect_hyper_v connect_by dialled closing
second_done_reached =
    next (next (next (next here (begins refl)) (begins refl)) (lists [] (40 ∷ []) 41 refl refl))
      (begins refl)

second_done-IsBalanced : IsBalanced second_done
second_done-IsBalanced = Reach-IsBalanced host second_done second_done_reached

client_run :
    ssh_agent_handler
      (some (new_hv_agent parent))
      (λ a l. (err (errorf "x" []), l))
      (idle, record { closed = false; log = [] })
    ≡ (ok tt, (idle, record { closed = true; log = errorf "x" [] ∷ [] }))
unfolding ssh_agent_handler
client_run = refl
