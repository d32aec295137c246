-- ===== src/Hub/Subscribers.antt =====
-- What a subscriber sees: the snapshot and the events that reach its channel.
use bandolier.Prelude.{
  ℕ, ◌+◌, ◌≤◌, String, ◌≡◌, refl, sym, ap, ◌∙◌, List, [], ◌∷◌, ◌++◌, map, arith, length,
  length-append, eqb, if◌then◌else◌, Option, none, some, append_assoc, append-nil, eq_iff,
}
use bandolier.Hub.{Event, Hub, Subscriber, stamp, offer, publish, subscribe}
use bandolier.Hub.History.{history_of, publish_all, stamp_all}

find_channel : ℕ → List Subscriber → Option Subscriber
find_channel c [] = none
find_channel c (s ∷ ss) = if eqb s.channel c then some s else find_channel c ss

-- The events that wait in a channel, oldest first; nothing for a channel that is closed.
pub queue_of : ℕ → Hub → List Event
queue_of c h = elim (find_channel c h.subs) [ none ↦ [] | some s ↦ s.queue ]

offer_all : String → List Event → Subscriber → Subscriber
offer_all dep [] s = s
offer_all dep (e ∷ es) s = offer_all dep es (offer dep e s)

-- Room for all: nothing is dropped.
offer_all_room :
    (dep : String) (es : List Event) (s : Subscriber)
    → s.deployment ≡ dep
    → length s.queue + length es ≤ s.buf
    → offer_all dep es s ≡ record s { queue = s.queue ++ es }
unfolding offer_all
offer_all_room dep [] s d room = ap (λ q. record s { queue = q }) (sym (append-nil s.queue))
offer_all_room dep (e ∷ es) s d room =
    let taken : offer dep e s ≡ record s { queue = s.queue ++ e ∷ [] } =
      ground (arith, eq_iff s.deployment dep) in
    rw taken (
      offer_all_room dep es (record s { queue = s.queue ++ e ∷ [] }) d
        (omega (arith, length-append s.queue (e ∷ [])))
      ∙ ap (λ q. record s { queue = q }) (append_assoc s.queue (e ∷ []) es))

find_channel-map :
    (c : ℕ) (dep : String) (e : Event) (ss : List Subscriber) (s : Subscriber)
    → find_channel c ss ≡ some s
    → find_channel c (map (offer dep e) ss) ≡ some (offer dep e s)
unfolding find_channel
find_channel-map c dep e [] s h = absurd (cc)
find_channel-map c dep e (t ∷ ts) s h = ground (arith, find_channel-map c dep e ts s)

find_channel-publish_all :
    (c : ℕ) (dep : String) (es : List (ℕ × Event)) (h : Hub) (s : Subscriber)
    → find_channel c h.subs ≡ some s
    → find_channel c (publish_all dep es h).subs ≡ some (offer_all dep (stamp_all es) s)
unfolding publish_all publish offer_all
find_channel-publish_all c dep [] h s e = e
find_channel-publish_all c dep ((now, x) ∷ es) h s e =
    find_channel-publish_all c dep es (publish now dep x h) (offer dep (stamp now x) s)
      (find_channel-map c dep (stamp now x) h.subs s e)

-- A late subscriber misses nothing and sees nothing twice: its snapshot is the history so far, and
-- as long as no more events follow than its channel holds, all of them, in order, wait there.
pub queue_of-subscribe :
    (dep : String) (buf : ℕ) (h : Hub) (es : List (ℕ × Event))
    → length (stamp_all es) ≤ buf
    → let (snapshot, c, h') = subscribe dep buf h in
      (snapshot ≡ history_of dep h) × (queue_of c (publish_all dep es h') ≡ stamp_all es)
unfolding subscribe history_of queue_of find_channel
queue_of-subscribe dep buf h es room = (
  refl,
  rw (
    find_channel-publish_all h.next_channel dep es (subscribe dep buf h).2
        (record { channel = h.next_channel; deployment = dep; buf = buf; queue = [] })
        (ground arith),
    queue_of,
    offer_all_room dep (stamp_all es)
        (record { channel = h.next_channel; deployment = dep; buf = buf; queue = [] }) refl
        (omega arith),
  ),
)
