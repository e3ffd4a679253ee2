-- ===== src/Transport/Mail.antt =====
-- The IP packets in the messages of src/transport/ws_transport.cpp: what a transport has written and
-- what waits in it.
use kirdi.Base.{length, ◌≡◌, ◌≢◌, refl, ap, sym, ◌∙◌, true, Bytes, List, [], ◌∷◌, ◌++◌, ok, none}
use kirdi.Base.{some}
use kirdi.Protocol.{MsgType, build_packet, build_ip_packet}
use kirdi.Protocol.Header.{IsMsgType}
use kirdi.Transport.{dispatch_packet}
use kirdi.Transport.Dispatch.{dispatch-build_packet}
use mathlib.Core.List.{append-nil, append_assoc, Sublist, sublist-append_left, sublist-append_right}
use mathlib.Core.List.Sublist

-- The IP packet that a message carries, if it is one.
abbrev pub packet_of : MsgType → Bytes → List Bytes
packet_of MsgType.ip_packet payload = payload ∷ []
packet_of _ payload = []

abbrev pub packet_in : Bytes → List Bytes
packet_in buf = elim (dispatch_packet true buf) [
  | none ↦ []
  | some (hdr, payload) ↦ packet_of hdr.type payload
]

abbrev pub packets : List Bytes → List Bytes
packets [] = []
packets (m ∷ ms) = packet_in m ++ packets ms

pub packets-append : (xs ys : List Bytes) → packets (xs ++ ys) ≡ packets xs ++ packets ys
packets-append [] ys = refl
packets-append (x ∷ xs) ys =
    ap (λ r. packet_in x ++ r) (packets-append xs ys)
    ∙ sym (append_assoc (packet_in x) (packets xs) (packets ys))

built :
    (type : MsgType) (payload pkt : Bytes)
    → IsMsgType type
    → build_packet type payload ≡ ok pkt
    → dispatch_packet true pkt ≡ some (record { type = type; length = length payload }, payload)
built type payload pkt t e =
    ap (dispatch_packet true) (sym (append-nil pkt)) ∙ dispatch-build_packet type payload pkt [] t e

pub packet_in-build_ip_packet :
    (packet pkt : Bytes) → build_ip_packet packet ≡ ok pkt → packet_in pkt ≡ packet ∷ []
unfolding build_ip_packet
packet_in-build_ip_packet packet pkt e =
    rw (built MsgType.ip_packet packet pkt tt e, packet_in) refl

-- A message of another type carries none.
pub packet_in-build_packet :
    (type : MsgType) (payload pkt : Bytes)
    → IsMsgType type
    → type ≢ MsgType.ip_packet
    → build_packet type payload ≡ ok pkt
    → packet_in pkt ≡ []
packet_in-build_packet type payload pkt t other e =
    rw (built type payload pkt t e, packet_in) (none_of type other)
  where
    none_of : (type : MsgType) → type ≢ MsgType.ip_packet → packet_of type payload ≡ []
    none_of MsgType.ip_packet n = absurd (n refl)
    none_of _ n = refl

-- What a transport has written, and what waits behind it in order.
pub record Post : Type 0 where
  pub wire : List Bytes
  pub waiting : List Bytes

-- The wire only grows. What is written, and what waits then, waited before or is new: no packet is
-- doubled or overtakes another.
pub record Flows (new : List Bytes) (before after : Post) : Type 0 where
  pub more : List Bytes
  pub grows : after.wire ≡ before.wire ++ more
  pub ordered : Sublist (packets more ++ packets after.waiting) (packets before.waiting ++ new)

-- A message that is not taken.
pub refused :
    (new wire xs : List Bytes)
    → Flows new (record { wire = wire; waiting = xs }) (record { wire = wire; waiting = xs })
refused new wire xs = record {
  more = [];
  grows = sym (append-nil wire);
  ordered = sublist-append_left (packets xs) new;
}

pub kept :
    (wire xs : List Bytes)
    → Flows [] (record { wire = wire; waiting = xs }) (record { wire = wire; waiting = xs })
kept wire xs = record {
  more = [];
  grows = sym (append-nil wire);
  ordered = rw (append-nil (packets xs)) (Sublist.refl _);
}

-- What waited first is lost.
pub dropped :
    (wire xs ys : List Bytes)
    → Flows [] (record { wire = wire; waiting = xs ++ ys }) (record { wire = wire; waiting = ys })
dropped wire xs ys = record {
  more = [];
  grows = sym (append-nil wire);
  ordered = rw (append-nil (packets (xs ++ ys)), packets-append xs ys) (sublist-append_right _ _);
}

pub added :
    (wire xs : List Bytes) (m : Bytes)
    → Flows
        (packet_in m)
        (record { wire = wire; waiting = xs })
        (record { wire = wire; waiting = xs ++ (m ∷ []) })
added wire xs m = record {
  more = [];
  grows = sym (append-nil wire);
  ordered = rw (packets-append xs (m ∷ []), append-nil (packet_in m)) (Sublist.refl _);
}

pub passed_on :
    (wire xs : List Bytes) (m : Bytes)
    → Flows []
        (record { wire = wire; waiting = m ∷ xs })
        (record { wire = wire ++ (m ∷ []); waiting = xs })
passed_on wire xs m = record {
  more = m ∷ [];
  grows = refl;
  ordered = rw (append-nil (packet_in m), append-nil (packet_in m ++ packets xs)) (Sublist.refl _);
}

pub Flows-trans :
    (new later : List Bytes) (p q r : Post)
    → Flows new p q
    → Flows later q r
    → Flows (new ++ later) p r
Flows-trans new later p q r f g = record {
  more = f.more ++ g.more;
  grows = g.grows ∙ ap (λ w. w ++ g.more) f.grows ∙ append_assoc p.wire f.more g.more;
  ordered =
      rw
        (
          packets-append f.more g.more,
          append_assoc (packets f.more) (packets g.more) (packets r.waiting),
          ← append_assoc (packets p.waiting) new later,
        )
        (Sublist.trans (Sublist.append (Sublist.refl (packets f.more)) g.ordered) (
          rw (← append_assoc (packets f.more) (packets q.waiting) later)
            (Sublist.append f.ordered (Sublist.refl later))));
}

-- A reader of the stream has the first messages of the wire, and all packets of the transport come
-- from what it was given, in order.
pub record IsOrdered (read sent : List Bytes) (p : Post) : Type 0 where
  pub rest : List Bytes
  pub prefix : p.wire ≡ read ++ rest
  pub ordered : Sublist (packets p.wire ++ packets p.waiting) sent

pub Flows-IsOrdered :
    (read sent new : List Bytes) (p q : Post)
    → Flows new p q
    → IsOrdered read sent p
    → IsOrdered read (sent ++ new) q
Flows-IsOrdered read sent new p q f v = record {
  rest = v.rest ++ f.more;
  prefix = f.grows ∙ ap (λ w. w ++ f.more) v.prefix ∙ append_assoc read v.rest f.more;
  ordered =
      rw
        (
          f.grows,
          packets-append p.wire f.more,
          append_assoc (packets p.wire) (packets f.more) (packets q.waiting),
        )
        (Sublist.trans (Sublist.append (Sublist.refl (packets p.wire)) f.ordered) (
          rw (← append_assoc (packets p.wire) (packets p.waiting) new)
            (Sublist.append v.ordered (Sublist.refl new))));
}

-- The reader takes the next message.
pub read_next :
    (read rest sent : List Bytes) (m : Bytes) (p : Post)
    → p.wire ≡ read ++ (m ∷ rest)
    → IsOrdered read sent p
    → IsOrdered (read ++ (m ∷ [])) sent p
read_next read rest sent m p e v = record {
  rest = rest;
  prefix = e ∙ sym (append_assoc read (m ∷ []) rest);
  ordered = v.ordered;
}

pub read-sent :
    (read sent : List Bytes) (p : Post) → IsOrdered read sent p → Sublist (packets read) sent
read-sent read sent p v =
    Sublist.trans
      (rw (v.prefix, packets-append read v.rest)
        (Sublist.trans (sublist-append_left (packets read) (packets v.rest))
          (sublist-append_left _ (packets p.waiting))))
      v.ordered
