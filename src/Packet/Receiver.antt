-- ===== src/Packet/Receiver.antt =====
-- The receiver: what it lets through, and that a repeated datagram does nothing.
use mosh_client_rs.Prelude.{
  ◌≡◌, ◌⊎◌, inl, inr, refl, sym, ap, subst, ◌∙◌, ℕ, arith, Bool, true, false, List, [], ◌∷◌, Unit0,
  Result, leb, ◌+◌, Bool-cases, ok, err, Option-cases, Result-cases,
}
use mosh_client_rs.Packet.Window.{PacketError, replay, too_old, unexpected_source, accept}
use mosh_client_rs.Packet.Replay.{
  greatest, judge, remember, contains, Agrees, accept-judge, greatest-none,
}
use mosh_client_rs.Packet.Stream.{empty-Agrees}
use mosh_client_rs.Packet.Codec.{
  SessionCrypto, OpenedPacket, open_datagram, Direction, new_receiver, PacketReceiver, receive,
  receive_from,
}

judge-known :
    (history : List ℕ) (n : ℕ)
    → contains history n ≡ true
    → (judge history n ≡ err replay) ⊎ (judge history n ≡ err too_old)
unfolding judge
judge-known history n h = elim (Option-cases (greatest history)) [
  | inl e ↦ absurd (ground (arith, h, greatest-none history n e))
  | inr (top, e) ↦ elim (Bool-cases (leb (n + 64) top)) [
    | inl low ↦ inr (ground (arith, e, low))
    | inr near ↦ inl (ground (arith, e, near, h))
  ]
]

module _ (c : SessionCrypto) where
  -- A datagram that is let through was authenticated, and its number was accepted.
  receive-ok :
      (datagram : List ℕ) (r t : PacketReceiver) (p : OpenedPacket)
      → receive c datagram r ≡ (t, ok p)
      → (open_datagram c r.direction datagram ≡ ok p)
        × ((accept p.sequence r.replay).1 ≡ ok tt)
        × (t ≡ record r { replay = (accept p.sequence r.replay).0 })
  unfolding receive
  receive-ok datagram r t p e = elim (Result-cases (open_datagram c r.direction datagram)) [
    | inr (x, o) ↦ absurd (ground (arith, e, o))
    | inl (q, o) ↦ elim (Result-cases (accept q.sequence r.replay).1) [
      | inr (x, a) ↦ absurd (ground (arith, e, o, a))
      | inl (u, a) ↦ (ground (arith, e, o, a), ground (arith, e, o, a), ground (arith, e, o, a))
    ]
  ]

  -- Some datagrams, one after the other.
  abbrev pub receives : List (List ℕ) → PacketReceiver → PacketReceiver
  receives [] r = r
  receives (datagram ∷ datagrams) r = receives datagrams (receive c datagram r).0

  -- A receiver that came of another one, whose window agrees with a history that the earlier one
  -- continues.
  record Follows (r : PacketReceiver) (history : List ℕ) (t : PacketReceiver) : Type 0 where
    later : List ℕ
    same_direction : t.direction ≡ r.direction
    agrees : Agrees t.replay later
    kept : (n : ℕ) → contains history n ≡ true → contains later n ≡ true

  Follows-self :
      (r : PacketReceiver) (history : List ℕ) → Agrees r.replay history → Follows r history r
  Follows-self r history v = record {
    later = history;
    same_direction = refl;
    agrees = v;
    kept = λ n h. h;
  }

  remember-kept :
      (answer : Result PacketError Unit0) (number : ℕ) (history : List ℕ) (n : ℕ)
      → contains history n ≡ true
      → contains (remember answer number history) n ≡ true
  remember-kept (ok u) number history n h = ground (arith, h)
  remember-kept (err x) number history n h = h

  accepted-Follows :
      (r : PacketReceiver) (history : List ℕ) (n : ℕ)
      → Agrees r.replay history
      → Follows r history (record r { replay = (accept n r.replay).0 })
  accepted-Follows r history n v =
      let (same, agrees) = accept-judge r.replay history n v in
      record {
        later = remember (judge history n) n history;
        same_direction = refl;
        agrees = agrees;
        kept = remember-kept (judge history n) n history;
      }

  -- A datagram that the codec refuses changes nothing; any other is put to the replay window.
  receive-opened :
      (datagram : List ℕ) (r : PacketReceiver)
      → ((receive c datagram r).0 ≡ r)
        ⊎ ((p : OpenedPacket) × ((receive c datagram r).0
              ≡ record r { replay = (accept p.sequence r.replay).0 }))
  unfolding receive
  receive-opened datagram r = elim (Result-cases (open_datagram c r.direction datagram)) [
    | inr (x, o) ↦ inl (ground (arith, o))
    | inl (p, o) ↦ inr (p, ground (arith, o))
  ]

  receive-Follows :
      (datagram : List ℕ) (r : PacketReceiver) (history : List ℕ)
      → Agrees r.replay history
      → Follows r history (receive c datagram r).0
  receive-Follows datagram r history v = elim (receive-opened datagram r) [
    | inl e ↦ subst (Follows r history) (sym e) (Follows-self r history v)
    | inr (q, e) ↦ subst (Follows r history) (sym e) (accepted-Follows r history q.sequence v)
  ]

  receives-Follows :
      (datagrams : List (List ℕ)) (r : PacketReceiver) (history : List ℕ)
      → Agrees r.replay history
      → Follows r history (receives datagrams r)
  receives-Follows [] r history v = Follows-self r history v
  receives-Follows (datagram ∷ datagrams) r history v =
      let f = receive-Follows datagram r history v in
      let g = receives-Follows datagrams (receive c datagram r).0 f.later f.agrees in
      record {
        later = g.later;
        same_direction = g.same_direction ∙ f.same_direction;
        agrees = g.agrees;
        kept = λ n h. g.kept n (f.kept n h);
      }

  -- A datagram that a new receiver let through, after whatever arrived before, is refused whenever it
  -- comes again, whatever arrives in between: as a replay, or as too old.
  pub receive_again :
      (direction : Direction) (before between : List (List ℕ)) (datagram : List ℕ)
      (r t : PacketReceiver) (p : OpenedPacket)
      → receives before (new_receiver direction) ≡ r
      → receive c datagram r ≡ (t, ok p)
      → ((receive c datagram (receives between t)).1 ≡ err replay)
        ⊎ ((receive c datagram (receives between t)).1 ≡ err too_old)
  unfolding receive
  receive_again direction before between datagram r t p came e =
      let f : Follows (new_receiver direction) [] r =
        subst (Follows (new_receiver direction) []) came
          (receives-Follows before (new_receiver direction) [] empty-Agrees) in
      let (opened, accepted, left) = receive-ok datagram r t p e in
      let (same, agrees) = accept-judge r.replay f.later p.sequence f.agrees in
      let fresh : judge f.later p.sequence ≡ ok tt = sym same ∙ accepted in
      let v : Agrees t.replay (p.sequence ∷ f.later) = ground (arith, left, agrees, fresh) in
      let g = receives-Follows between t (p.sequence ∷ f.later) v in
      let u = receives between t in
      let known = judge-known g.later p.sequence (g.kept p.sequence (ground arith)) in
      let (again, _) = accept-judge u.replay g.later p.sequence g.agrees in
      let reopened : open_datagram c u.direction datagram ≡ ok p =
        ap (λ (d : Direction). open_datagram c d datagram)
          (g.same_direction ∙ ap (λ (x : PacketReceiver). x.direction) left)
        ∙ opened in
      elim known [
        | inl e ↦ inl (ground (arith, reopened, again, e))
        | inr e ↦ inr (ground (arith, reopened, again, e))
      ]

  -- A datagram from another address, or one that the codec refuses, leaves the receiver as it was; any
  -- other is put to the replay window, and changes nothing else.
  receive_from-refused :
      (from_server : Bool) (datagram : List ℕ) (r : PacketReceiver)
      → ((from_server ≡ false)
          × (receive_from c from_server datagram r ≡ (r, err unexpected_source)))
        ⊎ ((from_server ≡ true)
            × ((x : PacketError) × (open_datagram c r.direction datagram ≡ err x)
                × (receive_from c from_server datagram r ≡ (r, err x))))
        ⊎ ((from_server ≡ true)
            × ((p : OpenedPacket) × (open_datagram c r.direction datagram ≡ ok p)
                × ((receive_from c from_server datagram r).0
                    ≡ record r { replay = (accept p.sequence r.replay).0 })))
  unfolding receive_from receive
  receive_from-refused false datagram r = inl (refl, refl)
  receive_from-refused true datagram r =
      elim (Result-cases (open_datagram c r.direction datagram)) [
        | inr (x, o) ↦ inr (inl (refl, (x, o, ground (arith, o))))
        | inl (p, o) ↦ inr (inr (refl, (p, o, ground (arith, o))))
      ]
