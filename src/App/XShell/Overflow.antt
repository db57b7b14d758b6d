-- ===== src/App/XShell/Overflow.antt =====
-- `xshellHandshake`: the length whose sum with 4 wraps around.
use keybridge.Base.{
  ℕ, ◌+◌, ◌≤◌, ◌<◌, ◌≡◌, ◌≢◌, ◌↔◌, refl, inl, inr, List, [], ◌∷◌, arith, length, take, drop,
  length-take, All,
}
use keybridge.Base.Outcome.{panic}
use keybridge.Base.Bytes.{u32, big_endian}
use keybridge.Base.Conn.{Conn}
use keybridge.App.XShell.{SshWire, InitAgentMsg, xshell_handshake, check_request, check_cookie}
use keybridge.App.XShell.Handshake.{either_cases}

check_cookie-ne-panic :
    (wire : SshWire) (cookie : List ℕ) (msg : InitAgentMsg) (c : Conn)
    → (check_cookie wire cookie msg c).0 ≢ panic
unfolding check_cookie
check_cookie-ne-panic wire cookie msg c = ground arith

check_request-panic :
    (wire : SshWire) (cookie req : List ℕ) (c : Conn)
    → (check_request wire cookie req c).0 ≡ panic
    → req ≡ []
unfolding check_request
check_request-panic wire cookie [] c h = refl
check_request-panic wire cookie (b ∷ bs) c h = elim (either_cases (wire.unmarshal_init (b ∷ bs))) [
  | inl (e, refused) ↦ ground (arith, refused)
  | inr (msg, decoded) ↦ ground (arith, decoded, check_cookie-ne-panic wire cookie msg c)
]

handshake-panic :
    (wire : SshWire) (cookie : List ℕ) (c : Conn)
    → (xshell_handshake wire cookie c).0 ≡ panic
    → (4 ≤ length c.incoming) × (u32 (big_endian (take 4 c.incoming) + 4) ≡ 0)
unfolding xshell_handshake
handshake-panic wire cookie c h =
    let rest = drop 4 c.incoming in
    let l = u32 (big_endian (take 4 c.incoming) + 4) in
    ground (
      arith,
      check_request-panic wire cookie (take l rest) (record c { incoming = drop l rest }),
      length-take l rest,
    )

wrapping_bytes :
    (bs : List ℕ)
    → All (λ b. b < 256) bs
    → 4 ≤ length bs
    → u32 (big_endian (take 4 bs) + 4) ≡ 0
    → (rest : List ℕ) × (bs ≡ 255 ∷ 255 ∷ 255 ∷ 252 ∷ rest)
unfolding big_endian
wrapping_bytes (x ∷ y ∷ z ∷ w ∷ rest) small long wraps = (
  rest,
  λ i.
      (let x_eq : x ≡ 255 = omega arith in x_eq i)
      ∷ (let y_eq : y ≡ 255 = omega arith in y_eq i)
      ∷ (let z_eq : z ≡ 255 = omega arith in z_eq i)
      ∷ (let w_eq : w ≡ 252 = omega arith in w_eq i)
      ∷ rest,
)
wrapping_bytes [] small long wraps = absurd (omega arith)
wrapping_bytes (x ∷ []) small long wraps = absurd (omega arith)
wrapping_bytes (x ∷ y ∷ []) small long wraps = absurd (omega arith)
wrapping_bytes (x ∷ y ∷ z ∷ []) small long wraps = absurd (omega arith)

-- With bytes below 256 from the client, the handshake panics exactly when the first four of them are
-- 255, 255, 255 and 252: the length then wraps to 0, and the code reads the first byte of an empty
-- request.
pub xshell_handshake-panic_iff :
    (wire : SshWire) (cookie : List ℕ) (c : Conn)
    → All (λ b. b < 256) c.incoming
    → ((xshell_handshake wire cookie c).0 ≡ panic)
      ↔ ((rest : List ℕ) × (c.incoming ≡ 255 ∷ 255 ∷ 255 ∷ 252 ∷ rest))
unfolding xshell_handshake check_request big_endian
xshell_handshake-panic_iff wire cookie c bytes = (
  λ h.
      (let (long, wraps) = handshake-panic wire cookie c h in
        wrapping_bytes c.incoming bytes long wraps),
  λ (rest, e). ground (arith, e),
)
