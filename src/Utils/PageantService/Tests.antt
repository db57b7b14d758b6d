-- ===== src/Utils/PageantService/Tests.antt =====
-- Runs and instances of the theorems about the requests of Pageant's clients.
use keybridge.Base.{◌≡◌, refl, [], ◌∷◌, true, false}
use keybridge.Utils.Mmap.{replied, MemoryMapConn, new_conn, write, close}
use keybridge.Utils.Mmap.Session.{writes, closes, step}
use keybridge.Utils.PageantService.{
  offering, awaiting, Service, service_first, message, accepted, called, answered, Reach, here,
  next,
}
use keybridge.Utils.PageantService.Exchanges.{Stands}
use keybridge.Utils.PageantService.Replies.{Reach-Stands}
use keybridge.Utils.PageantService.Late.{late_request_stuck}

abbrev first_conn : MemoryMapConn
first_conn = step (writes (5 ∷ [])) (new_conn (11 ∷ []))

-- One client's request is answered, and another one's is taken.
abbrev second_taken : Service
second_taken = record {
  window = awaiting (12 ∷ []) 1;
  accepting = true;
  cancelled = false;
  conns = step closes first_conn ∷ new_conn (12 ∷ []) ∷ [];
  replies = (11 ∷ [], replied (5 ∷ [])) ∷ [];
}

second_reached : Reach service_first second_taken
unfolding new_conn write close
second_reached =
    next
      (next
        (next
          (next (next (next here (message (11 ∷ []) refl refl)) (accepted (11 ∷ []) refl refl refl))
            (called [] [] (new_conn (11 ∷ [])) (writes (5 ∷ [])) refl refl refl))
          (answered [] [] first_conn (11 ∷ []) (replied (5 ∷ [])) refl refl refl refl refl))
        (message (12 ∷ []) refl refl))
      (accepted (12 ∷ []) refl refl refl)

second-Stands : Stands (awaiting (12 ∷ []) 1) second_taken
second-Stands = Reach-Stands second_taken second_reached

-- The accept loop has ended when the client comes.
abbrev too_late : Service
too_late = record service_first { window = offering (11 ∷ []); accepting = false; cancelled = true }

too_late_stuck :
    (too_late.window ≡ offering (11 ∷ []))
    × (too_late.accepting ≡ false)
    × (too_late.replies ≡ too_late.replies)
too_late_stuck = late_request_stuck too_late too_late (11 ∷ []) refl refl here
