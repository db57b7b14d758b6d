-- ===== src/Utils/Mmap/Session.antt =====
-- What a server can do with a request in shared memory, over every sequence of calls.
use keybridge.Base.{
  ℕ, ◌+◌, ◌<◌, ◌≡◌, refl, ap, sym, ◌∙◌, List, [], ◌∷◌, ◌++◌, true, false, Option, none, some, arith,
  leb, ltb, if◌then◌else◌, length, take, drop, length-take, length-drop, take-append-drop_length,
  drop_past, drop-add, leb→le, leb_false→lt, append-nil, All, Bool-cases, inl, inr,
}
use keybridge.Base.Outcome.{Error, eof, unexpected_eof, Result, ok, err, panic}
use keybridge.Utils.Mmap.{Response, replied, failed, MemoryMapConn, new_conn, read, write, close}

pub data Call : Type 0 where
  reads : ℕ → Call
  writes : List ℕ → Call
  closes : Call

abbrev pub step : Call → MemoryMapConn → MemoryMapConn
step (reads n) m = (read n m).1
step (writes p) m = (write p m).1
step closes m = (close m).1

abbrev pub run : List Call → MemoryMapConn → MemoryMapConn
run [] m = m
run (c ∷ cs) m = run cs (step c m)

-- The answer that a response is made of: what was written.
abbrev pub answer : List ℕ → Response
answer w = if ltb 0 (length w) then replied w else failed unexpected_eof

-- A request and the response to it of its connection.
abbrev pub exchange : MemoryMapConn → List ℕ × Response
exchange c = (c.request, answer c.w)

pub new_conn-open :
    (request : List ℕ)
    → ((new_conn request).closed ≡ false) × ((new_conn request).request ≡ request)
unfolding new_conn
new_conn-open request = (refl, refl)

pub step-request : (call : Call) (c : MemoryMapConn) → (step call c).request ≡ c.request
unfolding read write close
step-request (reads n) c = ground arith
step-request (writes p) c = ground arith
step-request closes c = ground arith

-- A connection that is closed does not change any more.
pub step-closed : (call : Call) (c : MemoryMapConn) → c.closed ≡ true → step call c ≡ c
unfolding read write close
step-closed (reads n) c h = rw h refl
step-closed (writes p) c h = rw h refl
step-closed closes c h = rw h refl

-- The first Close keeps the request and what was written.
pub step-closes :
    (c : MemoryMapConn)
    → c.closed ≡ false
    → ((step closes c).closed ≡ true) × (exchange (step closes c) ≡ exchange c)
unfolding close
step-closes c h = (rw h refl, rw h refl)

last_same : (xs : List Response) (a b : Response) → xs ++ a ∷ [] ≡ xs ++ b ∷ [] → a ≡ b
last_same [] a b e = cc
last_same (x ∷ xs) a b e = last_same xs a b cc

-- The response that it sends.
pub step-closes_response :
    (c : MemoryMapConn)
    → c.closed ≡ false
    → (step closes c).responses ≡ c.responses ++ answer c.w ∷ []
unfolding close
step-closes_response c h = rw h refl

pub response-answer :
    (c : MemoryMapConn) (r : Response)
    → c.closed ≡ false
    → (step closes c).responses ≡ c.responses ++ r ∷ []
    → r ≡ answer c.w
response-answer c r h e = last_same c.responses r (answer c.w) (sym e ∙ step-closes_response c h)

-- The responses that the calls are to send, if `w` has been written and nothing is closed.
abbrev pub answers : List ℕ → List Call → List Response
answers w [] = []
answers w (reads n ∷ cs) = answers w cs
answers w (writes p ∷ cs) = answers (w ++ p) cs
answers w (closes ∷ cs) = answer w ∷ []

closed_stays :
    (cs : List Call) (m : MemoryMapConn) → m.closed ≡ true → (run cs m).responses ≡ m.responses
unfolding read write close
closed_stays [] m h = refl
closed_stays (reads n ∷ cs) m h = closed_stays cs _ (ground arith) ∙ ground arith
closed_stays (writes p ∷ cs) m h = closed_stays cs _ (ground arith) ∙ ground arith
closed_stays (closes ∷ cs) m h = closed_stays cs _ (ground arith) ∙ ground arith

run-answers :
    (cs : List Call) (m : MemoryMapConn)
    → m.closed ≡ false
    → (run cs m).responses ≡ m.responses ++ answers m.w cs
unfolding read write close
run-answers [] m h = sym (append-nil m.responses)
run-answers (reads n ∷ cs) m h = run-answers cs _ (ground arith) ∙ ground arith
run-answers (writes p ∷ cs) m h = run-answers cs _ (ground arith) ∙ ground arith
run-answers (closes ∷ cs) m h = closed_stays cs _ (ground arith) ∙ ground arith

-- Whatever a server calls, the window procedure is sent at most one response: none if the connection is
-- not closed, and else, at the first close, all that was written before it in the order of the writes,
-- or an error if that is nothing.
pub run-responses :
    (request : List ℕ) (cs : List Call) → (run cs (new_conn request)).responses ≡ answers [] cs
unfolding new_conn
run-responses request cs = run-answers cs (new_conn request) refl

abbrev drained : Result (List ℕ) → List ℕ × Option Error → List ℕ × Option Error
drained (ok bs) (more, e) = (bs ++ more, e)
drained (err e) later = ([], some e)
drained panic later = ([], none)

-- A server that reads with buffers of the given sizes until a read fails.
abbrev pub drain : List ℕ → MemoryMapConn → List ℕ × Option Error
drain [] m = ([], none)
drain (n ∷ ns) m = drained (read n m).0 (drain ns (read n m).1)

read_more :
    (n : ℕ) (m : MemoryMapConn)
    → m.closed ≡ false
    → leb (length m.request) m.offset ≡ false
    → read n m ≡ (
      ok (take n (drop m.offset m.request)),
      record m { offset = m.offset + length (take n (drop m.offset m.request)) },
    )
unfolding read
read_more n m h more = ground arith

read_end :
    (n : ℕ) (m : MemoryMapConn)
    → m.closed ≡ false
    → leb (length m.request) m.offset ≡ true
    → read n m ≡ (err eof, m)
unfolding read
read_end n m h at_end = ground arith

drain-rest :
    (ns : List ℕ) (m : MemoryMapConn)
    → m.closed ≡ false
    → All (λ n. 0 < n) ns
    → length (drop m.offset m.request) < length ns
    → drain ns m ≡ (drop m.offset m.request, some eof)
drain-rest [] m h pos enough = absurd (omega arith)
drain-rest (n ∷ ns) m h pos enough = elim (Bool-cases (leb (length m.request) m.offset)) [
  | inl at_end ↦ rw (drop_past m.offset m.request (leb→le _ _ at_end), read_end n m h at_end)
  | inr more ↦
      let rest = drop m.offset m.request in
      let got = take n rest in
      let next = m.offset + length got in
      let left : drop next m.request ≡ drop (length got) rest =
        drop-add m.offset (length got) m.request in
      let later : drain ns (record m { offset = next }) ≡ (drop next m.request, some eof) =
        drain-rest ns (record m { offset = next }) h pos.1
          (omega (
            arith,
            ap (length {0}) left,
            length-drop (length got) rest,
            length-take n rest,
            length-drop m.offset m.request,
            leb_false→lt (length m.request) m.offset more,
          )) in
      rw (read_more n m h more, later, left) (rw (take-append-drop_length n rest))
]

-- A server whose buffers are never empty, and that reads often enough, reads exactly the request, whatever
-- the sizes of its buffers, and then the end of the stream.
pub drain_request :
    (request ns : List ℕ)
    → All (λ n. 0 < n) ns
    → length request < length ns
    → drain ns (new_conn request) ≡ (request, some eof)
unfolding new_conn
drain_request request ns pos enough = drain-rest ns (new_conn request) refl pos enough
