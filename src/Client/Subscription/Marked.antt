-- ===== src/Client/Subscription/Marked.antt =====
-- What a `StreamSubscription` saves in any history (packages/honker-rs/src/lib.rs).
use honker.Base.{
  Bool, String, ◌≡◌, refl, sym, ap, ◌∙◌, subst, inl, inr, true, false, List, [], ◌∷◌, ◌++◌,
  append_assoc, arith, Bool-cases, not, ◌&&◌, Option, str_eq, ltb,
}
use honker.Action.{Result, err, ok}
use honker.Client.{with_conn}
use honker.Stream.{
  Event, stream_read_since, stream_publish, offset_of, is_consumer, stream_save_offset, Streams,
}
use honker.Base.Int.{pos, ℤ, ◌≤ℤ◌, i64_max}
use honker.Stream.Paging.{Increasing-since}
use honker.Stream.Ordered.{Increasing, last_offset}
use honker.Client.Subscription.{
  save_offset, hand_out, popped, refill, Session, read_call, pop_pending, refilled, pop,
  after_refill, is_save_due, next, from_pending, Act, saves, iterates, run, publishes, batches,
  saves_for, act,
}
use honker.Client.Subscription.Saved.{save_offset-Marks, Marks, stored}
use honker.Client.Subscription.Delivery.{Delivers, Start, feed, refilled-Delivers}
use honker.Stream.Offsets.{save-find_other}
use honker.Client.Subscription.Turns.{act-Takes}
use honker.Table.Upsert.{find}

last_before :
    (o : ℤ) (xs : List Event) (e : Event) (ys : List Event)
    → Increasing o (xs ++ e ∷ ys)
    → last_offset o xs ≤ℤ pos e.offset
last_before o [] e ys i = omega (arith, i.0)
last_before o (x ∷ xs) e ys i = last_before (pos x.offset) xs e ys i.1

pending_later :
    (start : Start) (got : List Event) (e : Event) (es : List Event) (x : Session)
    → x.sub.pending ≡ e ∷ es
    → Delivers start got x
    → x.sub.last_offset ≤ℤ pos e.offset
pending_later start got e es x p d =
    let whole : feed start x.streams ≡ got ++ (e ∷ es ++ d.rest) =
      d.whole
      ∙ append_assoc got x.sub.pending d.rest
      ∙ ap (λ (ps : List Event). got ++ (ps ++ d.rest)) p in
    subst (λ o. o ≤ℤ pos e.offset) (sym d.at)
      (last_before start.offset got e (es ++ d.rest) (
        subst (Increasing start.offset) whole (
          Increasing-since start.topic start.offset (pos 0) x.streams.events d.ordered.increasing)))

hand_out_state : (e : Event) (r : Result (Unit {0}) × Session) → r.1 ≡ (hand_out e r).1
hand_out_state e (ok _, x) = refl
hand_out_state e (err er, x) = refl

module _ (consumer : String) (start : Start) where
  pop-Marks :
      (got : List Event) (save : Bool) (e : Event) (es : List Event) (x : Session)
      → x.sub.pending ≡ e ∷ es
      → Delivers start got x
      → Marks consumer start.topic x
      → Marks consumer start.topic (pop save e es x).1
  unfolding pop
  pop-Marks got save e es x p d m =
      let y = popped e es x in
      let m' : Marks consumer start.topic y = record {
        whose = m.whose;
        on = m.on;
        row = m.row;
        later = omega (arith, m.later, pending_later start got e es x p d);
      } in
      elim (Bool-cases (is_save_due y.sub)) [
        | inl h ↦ rw h (
            subst (Marks consumer start.topic) (hand_out_state e (save_offset save y))
              (save_offset-Marks consumer start.topic save y m'))
        | inr h ↦ rw h m'
      ]

  pop_pending-Marks :
      (got : List Event) (save : Bool) (ps : List Event) (x : Session)
      → x.sub.pending ≡ ps
      → Delivers start got x
      → Marks consumer start.topic x
      → Marks consumer start.topic (pop_pending save ps x).1
  pop_pending-Marks got save [] x p d m = m
  pop_pending-Marks got save (e ∷ es) x p d m = pop-Marks got save e es x p d m

  refilled-Marks :
      (got : List Event) (save : Bool) (x : Session) (r : Result (List Event))
      → Delivers start got (refilled r x).1
      → Marks consumer start.topic x
      → Marks consumer start.topic (after_refill save (refilled r x)).1
  refilled-Marks got save x (err e) d m = m
  refilled-Marks got save x (ok es) d m =
      pop_pending-Marks got save (x.sub.pending ++ es) _ refl d
        (record { whose = m.whose; on = m.on; row = m.row; later = m.later })

  next-Marks :
      (got : List Event) (read save : Bool) (x : Session)
      → Delivers start got x
      → Marks consumer start.topic x
      → Marks consumer start.topic (next read save x).1
  unfolding next refill
  next-Marks got read save x d m = at x.sub.pending refl
    where
      refills :
          (read : Bool)
          → x.sub.pending ≡ []
          → Marks consumer start.topic (after_refill save (with_conn read read_call x)).1
      refills true p = m
      refills false p =
          let r = stream_read_since x.sub.topic x.sub.last_offset (pos 100) x.streams in
          refilled-Marks got save x r (refilled-Delivers start got x p d r refl) m

      at :
          (ps : List Event)
          → x.sub.pending ≡ ps
          → Marks consumer start.topic (from_pending read save ps x).1
      at [] p = refills read p
      at (e ∷ es) p = pop-Marks got save e es x p d m

-- Whether the act saves no offset of this consumer and topic but through the subscription.
abbrev pub is_foreign : String → String → Act → Bool
is_foreign consumer topic (saves_for c t _) = not (str_eq c consumer && str_eq t topic)
is_foreign consumer topic _ = true

abbrev pub all_foreign : String → String → List Act → Bool
all_foreign consumer topic [] = true
all_foreign consumer topic (a ∷ rest) =
    is_foreign consumer topic a && all_foreign consumer topic rest

foreign_row :
    (consumer topic c t : String) (offset : ℤ) (x : Session)
    → not (str_eq c consumer && str_eq t topic) ≡ true
    → Marks consumer topic x
    → stored x.sub.consumer x.sub.topic (stream_save_offset c t offset x.streams).1
      ≡ x.sub.last_saved
foreign_row consumer topic c t offset x h m =
    ap offset_of (
      save-find_other c t offset x.streams x.sub.consumer x.sub.topic
        (rw (m.whose, m.on) (ground (arith, h))))
    ∙ m.row

pub publish-consumers :
    (topic : String) (key : Option String) (payload : String) (created : ℤ) (s : Streams)
    → s.consumers ≡ (stream_publish topic key payload created s).1.consumers
unfolding stream_publish
publish-consumers topic key payload created s = elim (Bool-cases (ltb i64_max s.next_offset)) [
  | inl e ↦ rw e refl
  | inr e ↦ rw e refl
]

act-Marks :
    (consumer : String) (start : Start) (got : List Event) (a : Act) (x : Session)
    → is_foreign consumer start.topic a ≡ true
    → Delivers start got x
    → Marks consumer start.topic x
    → Marks consumer start.topic (act a x).1
unfolding act
act-Marks consumer start got (publishes topic key payload created) x f d m = record {
  whose = m.whose;
  on = m.on;
  row =
      ap (λ cs. offset_of (find (is_consumer x.sub.consumer x.sub.topic) cs))
        (sym (publish-consumers topic key payload created x.streams))
      ∙ m.row;
  later = m.later;
}
act-Marks consumer start got (saves_for c t offset) x f d m = record {
  whose = m.whose;
  on = m.on;
  row = foreign_row consumer start.topic c t offset x f m;
  later = m.later;
}
act-Marks consumer start got (iterates read save) x f d m =
    next-Marks consumer start got read save x d m
act-Marks consumer start got (saves down) x f d m = save_offset-Marks consumer start.topic down x m
act-Marks consumer start got (batches n) x f d m = record {
  whose = m.whose;
  on = m.on;
  row = m.row;
  later = m.later;
}

pub run-Marks :
    (consumer : String) (start : Start) (got : List Event) (acts : List Act) (x : Session)
    → all_foreign consumer start.topic acts ≡ true
    → Delivers start got x
    → Marks consumer start.topic x
    → Marks consumer start.topic (run acts x).1
unfolding run
run-Marks consumer start got [] x f d m = m
run-Marks consumer start got (a ∷ rest) x f d m =
    let t = act-Takes start got a x d in
    run-Marks consumer start (got ++ t.gone) rest (act a x).1 (ground (arith, f)) t.delivers
      (act-Marks consumer start got a x (ground (arith, f)) d m)
