-- ===== src/Hub/History.antt =====
-- What the hub keeps of a deployment's events.
use bandolier.Prelude.{
  ℕ, zero, suc, ◌+◌, ◌-◌, ◌≤◌, String, ◌≡◌, refl, sym, ap, ◌∙◌, List, [], ◌∷◌, ◌++◌, ◌==◌, eq_refl,
  arith, length, length-append, length-drop, drop, leb, if◌then◌else◌, get_or, get_or-insert,
  Bool-cases, inl, inr, leb→le, append-nil, append_assoc, All, All-append,
}
use bandolier.Hub.{Event, Hub, history_cap, new_hub, stamp, append_event, publish}

-- The events that a late subscriber is shown.
unfoldable pub history_of : String → Hub → List Event
history_of dep h = get_or dep [] h.history

pub history_of-publish :
    (now : ℕ) (dep j : String) (e : Event) (h : Hub)
    → history_of j (publish now dep e h)
      ≡ (if dep == j then append_event (stamp now e) (history_of dep h) else history_of j h)
unfolding history_of publish
history_of-publish now dep j e h =
    get_or-insert dep j [] (append_event (stamp now e) (get_or dep [] h.history)) h.history

-- The events of one deployment, published at the times that stand beside them.
unfoldable pub publish_all : String → List (ℕ × Event) → Hub → Hub
publish_all dep [] h = h
publish_all dep ((now, e) ∷ es) h = publish_all dep es (publish now dep e h)

abbrev pub stamp_all : List (ℕ × Event) → List Event
stamp_all [] = []
stamp_all ((now, e) ∷ es) = stamp now e ∷ stamp_all es

-- The last `history_cap` events.
abbrev pub recent : List Event → List Event
recent es = drop (length es - history_cap) es

drop-append_le : (n : ℕ) (xs ys : List Event) → n ≤ length xs → drop n (xs ++ ys) ≡ drop n xs ++ ys
drop-append_le zero xs ys h = refl
drop-append_le (suc n) [] ys h = absurd (omega arith)
drop-append_le (suc n) (x ∷ xs) ys h = drop-append_le n xs ys (omega arith)

drop_tail : (n : ℕ) (xs : List Event) → drop 1 (drop n xs) ≡ drop (suc n) xs
drop_tail zero xs = refl
drop_tail (suc n) [] = refl
drop_tail (suc n) (x ∷ xs) = drop_tail n xs

append_event-recent :
    (e : Event) (es : List Event) → append_event e (recent es) ≡ recent (es ++ e ∷ [])
unfolding append_event
append_event-recent e es = elim (Bool-cases (leb history_cap (length es))) [
  | inl full ↦
      let long : history_cap ≤ length es = leb→le history_cap (length es) full in
      let kept : length (recent es) ≡ history_cap =
        omega (arith, length-drop (length es - history_cap) es) in
      let more : length (es ++ e ∷ []) - history_cap ≡ suc (length es - history_cap) =
        omega (arith, length-append es (e ∷ [])) in
      rw (kept, more, drop_tail (length es - history_cap) es)
        (sym (drop-append_le (suc (length es - history_cap)) es (e ∷ []) (omega arith)))
  | inr room ↦
      let all_kept : length es - history_cap ≡ 0 = ground arith in
      let still : length (es ++ e ∷ []) - history_cap ≡ 0 =
        ground (arith, length-append es (e ∷ [])) in
      rw (all_kept, still, room)
]

history_of-publish_all :
    (dep : String) (es : List (ℕ × Event)) (h : Hub) (old : List Event)
    → history_of dep h ≡ recent old
    → history_of dep (publish_all dep es h) ≡ recent (old ++ stamp_all es)
unfolding publish_all
history_of-publish_all dep [] h old e = rw append-nil e
history_of-publish_all dep ((now, x) ∷ es) h old e =
    history_of-publish_all dep es (publish now dep x h) (old ++ stamp now x ∷ [])
      (rw (history_of-publish, eq_refl, e) (append_event-recent (stamp now x) old))
    ∙ ap recent (append_assoc old (stamp now x ∷ []) (stamp_all es))

-- After any run of events the hub keeps exactly the last `history_cap` of them, in order.
pub history_of-new_hub :
    (dep : String) (es : List (ℕ × Event))
    → history_of dep (publish_all dep es new_hub) ≡ recent (stamp_all es)
unfolding history_of new_hub get_or
history_of-new_hub dep es = history_of-publish_all dep es new_hub [] refl

module _ {κ} (P : Event → Type κ) where
  All-drop : (n : ℕ) (es : List Event) → All P es → All P (drop n es)
  All-drop zero es h = h
  All-drop (suc n) [] h = h
  All-drop (suc n) (e ∷ es) h = All-drop n es h.1

  pub All-append_event : (e : Event) (es : List Event) → All P es → P e → All P (append_event e es)
  unfolding append_event
  All-append_event e es h p = elim (Bool-cases (leb history_cap (length es))) [
    | inl full ↦ rw full (
        All-append P (drop (length es - history_cap + 1) es) _
          (All-drop (length es - history_cap + 1) es h) (p, tt))
    | inr room ↦ rw room (All-append P es _ h (p, tt))
  ]

  -- The last event stands behind what was kept of the older ones.
  pub append_event-last :
      (e : Event) (es : List Event)
      → All P es
      → (old : List Event) × (append_event e es ≡ old ++ e ∷ []) × All P old
  unfolding append_event
  append_event-last e es h = elim (Bool-cases (leb history_cap (length es))) [
    | inl full ↦ (
      drop (length es - history_cap + 1) es,
      rw full refl,
      All-drop (length es - history_cap + 1) es h,
    )
    | inr room ↦ (es, rw room refl, h)
  ]
