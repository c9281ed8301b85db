-- ===== src/Client/Subscription/Once.antt =====
-- Which events a `StreamSubscription` hands out (packages/honker-rs/src/lib.rs).
use honker.Base.{
  Bool, String, ◌≡◌, refl, sym, ap, ◌∙◌, subst, false, List, [], ◌++◌, append-nil, append_assoc,
  arith, ℕ, suc, ◌≢◌, inl, inr, true, ◌∷◌, if◌then◌else◌, Bool-cases, take,
}
use mathlib.Core.List.Sublistᴰ
use mathlib.Core.List.{Sublistᴰ}
use honker.Action.{ok, Result, err}
use honker.Client.Subscription.{
  subscribe, waits, refill, Subscription, run, Act, pop, next, Session, read_call, popped,
  is_save_due, save_offset, after_refill, from_pending, hand_out, refilled, item, pop_pending,
  opened,
}
use honker.Table.{select}
use honker.Stream.{Streams, stream_get_offset, Event, is_since, stream_read_since}
use honker.Stream.Ordered.{IsOrdered}
use honker.Client.Subscription.Delivery.{Start, feed, Delivers, read_next}
use honker.Client.Subscription.Turns.{run-Takes, all_clean}
use honker.Client.{with_conn}
use honker.Base.Int.{pos, ℤ}

opened_lem :
    (consumer topic : String) (r : Result ℤ) (u : Subscription)
    → opened consumer topic r ≡ ok u
    → ([] ≡ u.pending) × (u.topic ≡ topic)
opened_lem consumer topic (ok o) u h = ground (arith, h)
opened_lem consumer topic (err e) u h = absurd (ground (arith, h))

pub begins :
    (consumer topic : String) (s : Streams) (u : Subscription)
    → IsOrdered s
    → subscribe consumer topic s ≡ ok u
    → Delivers
        (record { topic = topic; offset = u.last_offset })
        []
        (record { sub = u; streams = s })
unfolding subscribe
begins consumer topic s u v h = record {
  on = (opened_lem consumer topic (stream_get_offset consumer topic s) u h).1;
  ordered = v;
  rest = select (is_since topic u.last_offset) s.events;
  whole =
      ap (λ (es : List Event). es ++ select (is_since topic u.last_offset) s.events)
        (opened_lem consumer topic (stream_get_offset consumer topic s) u h).0;
  at = refl;
}

part_of_all :
    (es gone ps rest all : List Event)
    → Sublistᴰ es gone
    → all ≡ gone ++ ps ++ rest
    → Sublistᴰ es all
part_of_all es gone ps rest all part h = subst (Sublistᴰ es) (sym (h ∙ append_assoc gone ps rest)) (
    subst (λ fs. Sublistᴰ fs (gone ++ (ps ++ rest))) (append-nil es)
      (Sublistᴰ.append part (Sublistᴰ.nil-sublist (ps ++ rest))))

-- A consumer subscribes to a topic of a stream that is in order. In every history of publications,
-- saves by any consumer, reads and saves that fail, and turns of the iterator, the events that the
-- iterator hands out are events of the topic past the offset that it started from, in their order, and
-- none twice.
pub run-hands_out_once :
    (consumer topic : String) (s : Streams) (u : Subscription) (acts : List Act)
    → IsOrdered s
    → subscribe consumer topic s ≡ ok u
    → let (es, y) = run acts (record { sub = u; streams = s }) in
      Sublistᴰ es (select (is_since topic u.last_offset) y.streams.events)
run-hands_out_once consumer topic s u acts v h =
    let x : Session = record { sub = u; streams = s } in
    let t =
      run-Takes (record { topic = topic; offset = u.last_offset }) [] acts x
        (begins consumer topic s u v h) in
    part_of_all (run acts x).0 t.gone (run acts x).1.sub.pending t.delivers.rest _ t.part
      t.delivers.whole

hand_out-waits : (e : Event) (r : Result (Unit {0}) × Session) → (hand_out e r).0 ≢ waits
hand_out-waits e (ok _, x) h = absurd (ground (arith, h))
hand_out-waits e (err er, x) h = absurd (ground (arith, h))

pop-waits : (save : Bool) (e : Event) (es : List Event) (x : Session) → (pop save e es x).0 ≢ waits
unfolding pop
pop-waits save e es x h = elim (Bool-cases (is_save_due (popped e es x).sub)) [
  | inl d ↦ hand_out-waits e (save_offset save (popped e es x)) (
      sym (
        ap
          (λ (c : Bool).
            (if c
              then hand_out e (save_offset save (popped e es x))
              else (item (ok e), popped e es x)).0)
          d)
      ∙ h)
  | inr d ↦ absurd (ground (arith, h, d))
]

pop_pending-waits :
    (save : Bool) (ps : List Event) (x : Session) → (pop_pending save ps x).0 ≡ waits → ps ≡ []
pop_pending-waits save [] x h = refl
pop_pending-waits save (e ∷ es) x h = absurd (pop-waits save e es x h)

take-nil : (n : ℕ) (xs : List Event) → take (suc n) xs ≡ [] → xs ≡ []
take-nil n [] h = refl
take-nil n (x ∷ xs) h = absurd (ground (arith, h))

nothing_left :
    (start : Start) (got : List Event) (read save : Bool) (x : Session)
    → Delivers start got x
    → (next read save x).0 ≡ waits
    → feed start x.streams ≡ got
unfolding next refill
nothing_left start got read save x d h = at x.sub.pending refl h
  where
    after :
        (r : Result (List Event))
        → x.sub.pending ≡ []
        → stream_read_since x.sub.topic x.sub.last_offset (pos 100) x.streams ≡ r
        → (after_refill save (refilled r x)).0 ≡ waits
        → feed start x.streams ≡ got
    after (err e) p k w = absurd (ground (arith, w))
    after (ok es) p k w =
        let (rest, whole, part) = read_next start got es x p d k in
        let none_read : es ≡ [] =
          ap (λ (ps : List Event). ps ++ es) (sym p)
          ∙ pop_pending-waits save (x.sub.pending ++ es) _ w in
        whole
        ∙ ap (λ (ps : List Event). got ++ ps) (take-nil 99 rest (part ∙ none_read))
        ∙ append-nil got

    refills :
        (read : Bool)
        → x.sub.pending ≡ []
        → (after_refill save (with_conn read read_call x)).0 ≡ waits
        → feed start x.streams ≡ got
    refills true p w = absurd (ground (arith, w))
    refills false p w =
        after (stream_read_since x.sub.topic x.sub.last_offset (pos 100) x.streams) p refl w

    at :
        (ps : List Event)
        → x.sub.pending ≡ ps
        → (from_pending read save ps x).0 ≡ waits
        → feed start x.streams ≡ got
    at [] p w = refills read p w
    at (e ∷ es) p w = absurd (pop-waits save e es x w)

-- A consumer subscribes to a topic of a stream that is in order. If after a history of publications,
-- saves by any consumer, reads that fail, and turns of the iterator none of whose own saves failed, the
-- iterator waits for a wake, it has handed out the events of the topic past the offset that it started
-- from, all of them, in their order and once each.
pub run-hands_out_all :
    (consumer topic : String) (s : Streams) (u : Subscription) (acts : List Act) (read save : Bool)
    → IsOrdered s
    → subscribe consumer topic s ≡ ok u
    → all_clean acts ≡ true
    → (next read save (run acts (record { sub = u; streams = s })).1).0 ≡ waits
    → let (es, y) = run acts (record { sub = u; streams = s }) in
      select (is_since topic u.last_offset) y.streams.events ≡ es
run-hands_out_all consumer topic s u acts read save v h c w =
    let start : Start = record { topic = topic; offset = u.last_offset } in
    let t = run-Takes start [] acts _ (begins consumer topic s u v h) in
    nothing_left start t.gone read save _ t.delivers w ∙ sym (t.all c)
