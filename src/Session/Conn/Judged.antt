-- ===== src/Session/Conn/Judged.antt =====
-- What an exchange returns belongs to its request.
use txmlconnector.Common.{
  ℕ, ◌≡◌, refl, sym, Bool, true, false, Option, none, some, Bytes, List, ◌++◌,
}
use mathlib.Core.Path.{subst}
use txmlconnector.Common.{Bool-cases, inl, inr, ==_iff, ◌==◌, if◌then◌else◌, Result, ok, err}
use txmlconnector.Wire.Frame.{Frame, kind, client_to_server, encode}
use txmlconnector.Session.Conn.{
  Answer, answer, failed, Socket, Net, Conn, read_reply, judge, receive, counted, request,
  write_and_read, talk, exchange, kind_reply, kind_bye, closed, deadline_error,
}

-- An answer satisfies `P`.
abbrev pub Answers : (Frame → Type 0) → Answer Frame → Type 0
Answers P (answer f) = P f
Answers P (failed e) = Unit {0}

abbrev pub IsOwn : ℕ → Frame → Type 0
IsOwn type f = (kind f ≡ kind_reply) × (f.type ≡ type)

judge-IsOwn : (type : ℕ) (f : Frame) → Answers (IsOwn type) (judge type f)
unfolding judge
judge-IsOwn type f = elim (Bool-cases (kind f == kind_bye)) [
  | inl b ↦ rw b tt
  | inr b ↦ rw b (elim (Bool-cases (kind f == kind_reply)) [
    | inr r ↦ rw r tt
    | inl r ↦ rw r (elim (Bool-cases (f.type == type)) [
      | inr t ↦ rw t tt
      | inl t ↦ rw t ((==_iff (kind f) kind_reply).0 r, (==_iff f.type type).0 t)
    ])
  ])
]

receive-IsOwn :
    (net : Net) (type : ℕ) (c : Conn) (sent : Bytes) (x : Result Frame × List ℕ × Bytes)
    → Answers (IsOwn type) (receive net type c sent x).0
unfolding receive
receive-IsOwn net type c sent (ok f, abandoned, unread) = judge-IsOwn type f
receive-IsOwn net type c sent (err e, abandoned, unread) = tt

write_and_read-IsOwn :
    (net : Net) (type : ℕ) (s : Socket) (c : Conn) (out : Bytes)
    → Answers (IsOwn type) (write_and_read net type true s c out).0
unfolding write_and_read
write_and_read-IsOwn net type s c out = at_write net.write_limit refl
  where
    at_write :
        (w : Option ℕ)
        → net.write_limit ≡ w
        → Answers (IsOwn type) (write_and_read net type true s c out).0
    at_write none e =
        rw (e, write_and_read)
          (receive-IsOwn net type c (s.sent ++ out)
            (read_reply c.keys c.abandoned (s.unread ++ net.arrives)))
    at_write (some n) e = rw (e, write_and_read) tt

talk-IsOwn :
    (net : Net) (type : ℕ) (payload : Bytes) (s : Socket) (c : Conn)
    → Answers (IsOwn type) (talk net type payload true s c).0
unfolding talk
talk-IsOwn net type payload s c =
    at_encode (encode c.keys client_to_server (request type payload)) refl
  where
    at_encode :
        (r : Result Bytes)
        → encode c.keys client_to_server (request type payload) ≡ r
        → Answers (IsOwn type) (talk net type payload true s c).0
    at_encode (ok out) e = rw (e, talk) (write_and_read-IsOwn net type s c out)
    at_encode (err x) e = rw (e, talk) tt

if-Answers :
    (P : Frame → Type 0) (b : Bool) (x y : Answer Frame × Conn)
    → Answers P x.0
    → Answers P y.0
    → Answers P (if b then x else y).0
if-Answers P true x y p q = p
if-Answers P false x y p q = q

-- `exchange` by its socket.
abbrev opened : Net → ℕ → Bytes → Conn → Option Socket → Answer Frame × Conn
opened net type payload c n = elim n [
  | none ↦ (failed closed, c)
  | some s ↦
      if net.deadline_set
      then talk net type payload true s (counted type c)
      else (failed deadline_error, c)
]

-- Whatever the network brings, a frame that an exchange returns is a reply of the type of its request.
pub exchange-IsOwn :
    (net : Net) (type : ℕ) (payload : Bytes) (c : Conn)
    → Answers (IsOwn type) (exchange net type payload true c).0
unfolding exchange
exchange-IsOwn net type payload c = at_socket c.nc refl
  where
    at_socket :
        (n : Option Socket) → c.nc ≡ n → Answers (IsOwn type) (exchange net type payload true c).0
    at_socket none e =
        subst (λ (n : Option Socket). Answers (IsOwn type) (opened net type payload c n).0) (sym e)
          tt
    at_socket (some s) e =
        subst (λ (n : Option Socket). Answers (IsOwn type) (opened net type payload c n).0) (sym e)
          (if-Answers (IsOwn type) net.deadline_set (talk net type payload true s (counted type c))
            (failed deadline_error, c) (talk-IsOwn net type payload s (counted type c)) tt)
