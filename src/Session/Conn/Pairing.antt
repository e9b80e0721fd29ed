-- ===== src/Session/Conn/Pairing.antt =====
-- Replies come in the order of the requests, so an exchange that skips those of the abandoned requests
-- reads its own.
use txmlconnector.Common.{
  ℕ, zero, suc, ◌≤◌, ◌≡◌, refl, ap, ◌∙◌, List, [], ◌∷◌, ◌++◌, append_assoc, Bytes,
}
use txmlconnector.Common.{All, IsByte, length, take, drop, ==_refl, ok, err, io_error}
use txmlconnector.Wire.Frame.{Frame, Keys, kind, server_to_client, encode, decode, max_payload}
use txmlconnector.Wire.Frame.RoundTrip.{decode-encode}
use txmlconnector.Session.Conn.{read_reply, unread_after, kind_reply}

-- A reply as the server sends it.
pub record IsReply (f : Frame) : Type 0 where
  pub flags_byte : IsByte f.flags
  pub type_byte : IsByte f.type
  pub payload_bytes : All IsByte f.payload
  pub fits : length f.payload ≤ max_payload
  pub is_reply : kind f ≡ kind_reply

-- The bytes of a frame, and of several.
unfoldable pub wire_of : Keys → Frame → Bytes
wire_of k f = elim (encode k server_to_client f) [ ok w ↦ w | err e ↦ [] ]

unfoldable pub stream : Keys → List Frame → Bytes
unfolding wire_of
stream k [] = []
stream k (f ∷ fs) = wire_of k f ++ stream k fs

abbrev pub types : List Frame → List ℕ
types [] = []
types (f ∷ fs) = f.type ∷ types fs

pub decode-wire_of :
    (k : Keys) (f : Frame) (rest : Bytes)
    → IsReply f
    → decode k server_to_client (wire_of k f ++ rest) ≡ ok (f, rest)
unfolding wire_of
decode-wire_of k f rest h =
    let (w, e, d) =
      decode-encode k server_to_client f rest h.flags_byte h.type_byte h.payload_bytes h.fits in
    rw (e, wire_of) d

decode-nothing : (k : Keys) → decode k server_to_client [] ≡ err io_error
unfolding decode
decode-nothing k = refl

-- The replies that are owed are skipped.
pub skipped :
    (k : Keys) (owed : List Frame) (rest : Bytes)
    → All IsReply owed
    → read_reply k (types owed) (stream k owed ++ rest) ≡ read_reply k [] rest
unfolding read_reply stream
skipped k [] rest h = refl
skipped k (f ∷ fs) rest (h, hs) =
    let whole =
      ap (decode k server_to_client) (append_assoc (wire_of k f) (stream k fs) rest)
      ∙ decode-wire_of k f (stream k fs ++ rest) h in
    rw (whole, read_reply) (rw h.is_reply (rw (==_refl f.type) (skipped k fs rest hs)))

pub own_read :
    (k : Keys) (f : Frame) (rest : Bytes)
    → IsReply f
    → read_reply k [] (wire_of k f ++ rest) ≡ (ok f, [], rest)
unfolding read_reply
own_read k f rest h = rw (decode-wire_of k f rest h, read_reply) refl

-- Where the bytes end behind the first `n` replies, the others stay owed.
pub cut_short :
    (k : Keys) (n : ℕ) (owed : List Frame)
    → All IsReply owed
    → read_reply k (types owed) (stream k (take n owed)) ≡ (err io_error, types (drop n owed), [])
unfolding read_reply stream unread_after
cut_short k zero [] h = rw (decode-nothing k, read_reply) refl
cut_short k (suc n) [] h = rw (decode-nothing k, read_reply) refl
cut_short k zero (f ∷ fs) h = rw (decode-nothing k, read_reply) refl
cut_short k (suc n) (f ∷ fs) (h, hs) =
    rw (decode-wire_of k f (stream k (take n fs)) h, read_reply)
      (rw h.is_reply (rw (==_refl f.type) (cut_short k n fs hs)))
