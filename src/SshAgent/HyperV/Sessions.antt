-- ===== src/SshAgent/HyperV/Sessions.antt =====
-- One request of the agent of a Hyper-V guest at a time.
use keybridge.Base.{
  ℕ, ◌≤◌, ◌≡◌, refl, ap, [], ◌∷◌, ◌++◌, ◌⊎◌, inl, inr, arith, length, length-append,
}
use keybridge.Base.Outcome.{Error, Result, err}
use keybridge.SshAgent.HyperV.{
  Parent, Links, dialled, connect_by, connect_hyper_v, closing, over_link,
}

-- No connection is open, and none came without a dial.
pub record IsIdle (l : Links) : Type 0 where
  pub all_closed : l.closed ≡ l.opened
  pub each_dialled : length l.opened ≤ l.dials

closing-IsIdle :
    {A : Type 0} (p : Parent) (op : ℕ → Result A) (l : Links) (svcid : ℕ) (d : Error ⊎ ℕ)
    → IsIdle l
    → IsIdle (let (r, l') = dialled d l in closing op r l').1
unfolding dialled closing
closing-IsIdle p op l svcid (inl e) i = ground arith
closing-IsIdle p op l svcid (inr conn) i = record {
  all_closed = ap (λ xs. xs ++ conn ∷ []) i.all_closed;
  each_dialled = omega (arith, i.each_dialled, length-append l.opened (conn ∷ []));
}

over_guid-IsIdle :
    {A : Type 0} (p : Parent) (op : ℕ → Result A) (l : Links) (g : Error ⊎ ℕ)
    → IsIdle l
    → IsIdle (let (r, l') = connect_by p g l in closing op r l').1
unfolding connect_by
over_guid-IsIdle p op l (inl e) i = unfold closing in i
over_guid-IsIdle p op l (inr svcid) i = closing-IsIdle p op l svcid (p.dial svcid l.dials) i

pub over_link-IsIdle :
    {A : Type 0} (p : Parent) (op : ℕ → Result A) (l : Links)
    → IsIdle l
    → IsIdle (over_link p op l).1
unfolding over_link connect_hyper_v
over_link-IsIdle p op l i = over_guid-IsIdle p op l p.guid_from_string i

-- What came of one connection: it was opened, and the operation's result is the result; or it was not, and
-- the result is the error.
pub data Linked {A : Type 0} (op : ℕ → Result A) (l : Links) (r : Result A × Links) : Type 0 where
  linked : (conn : ℕ) → r.0 ≡ op conn → r.1.opened ≡ l.opened ++ conn ∷ [] → Linked op l r
  unlinked : (e : Error) → r.0 ≡ err e → r.1.opened ≡ l.opened → Linked op l r

closing-Linked :
    {A : Type 0} (op : ℕ → Result A) (l : Links) (d : Error ⊎ ℕ)
    → Linked op l (let (r, l') = dialled d l in closing op r l')
unfolding dialled closing
closing-Linked op l (inl e) = unlinked e refl refl
closing-Linked op l (inr conn) = linked conn refl refl

over_guid-Linked :
    {A : Type 0} (p : Parent) (op : ℕ → Result A) (l : Links) (g : Error ⊎ ℕ)
    → Linked op l (let (r, l') = connect_by p g l in closing op r l')
unfolding connect_by closing
over_guid-Linked p op l (inl e) = unlinked e refl refl
over_guid-Linked p op l (inr svcid) = unfold closing in closing-Linked op l (p.dial svcid l.dials)

pub over_link-Linked :
    {A : Type 0} (p : Parent) (op : ℕ → Result A) (l : Links) → Linked op l (over_link p op l)
unfolding over_link connect_hyper_v
over_link-Linked p op l = over_guid-Linked p op l p.guid_from_string
