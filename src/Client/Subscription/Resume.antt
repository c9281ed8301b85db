-- ===== src/Client/Subscription/Resume.antt =====
-- Where a consumer resumes after its `StreamSubscription` is dropped (packages/honker-rs/src/lib.rs).
use honker.Base.{String, ◌≡◌, refl, sym, ap, ◌∙◌, subst, true, false, List, [], arith}
use honker.Action.{Result, ok}
use honker.Stream.{Streams, stream_get_offset}
use honker.Base.Int.{ℤ, ◌≤ℤ◌}
use honker.Stream.Ordered.{last_offset, IsOrdered}
use honker.Client.Subscription.{
  save_offset, Session, Act, run, subscribe, opened, dropped, Subscription,
}
use honker.Client.Subscription.Saved.{save_offset-Marks, Marks, stored, row_of, save_offset-row}
use honker.Client.Subscription.Delivery.{Start}
use honker.Client.Subscription.Turns.{run-Takes, all_clean}
use honker.Client.Subscription.Once.{begins}
use honker.Client.Subscription.Marked.{all_foreign, run-Marks}

begins-Marks :
    (consumer topic : String) (s : Streams) (u : Subscription)
    → subscribe consumer topic s ≡ ok u
    → Marks consumer topic (record { sub = u; streams = s })
unfolding subscribe stream_get_offset
begins-Marks consumer topic s u h =
    subst (λ v. Marks consumer topic (record { sub = v; streams = s }))
      (ok_inj (opened consumer topic (stream_get_offset consumer topic s)) _ u refl h)
      (record { whose = refl; on = refl; row = refl; later = omega arith })
  where
    ok_inj : (r : Result Subscription) (v w : Subscription) → r ≡ ok v → r ≡ ok w → v ≡ w
    ok_inj r v w h k = ground (arith, h, k)

own_row :
    (consumer topic : String) (y : Session)
    → Marks consumer topic y
    → stored consumer topic y.streams ≡ row_of y
own_row consumer topic y m =
    ap (λ c. stored c topic y.streams) (sym m.whose)
    ∙ ap (λ t. stored y.sub.consumer t y.streams) (sym m.on)

resumes :
    (consumer topic : String) (y : Session) (o : ℤ)
    → Marks consumer topic y
    → y.sub.last_offset ≡ o
    → (stream_get_offset consumer topic y.streams ≡ ok y.sub.last_saved)
      × (y.sub.last_saved ≤ℤ o)
      × (stream_get_offset consumer topic (dropped false y) ≡ ok o)
unfolding dropped stream_get_offset
resumes consumer topic y o m h = (
  ap ok (own_row consumer topic y m ∙ m.row),
  subst (λ p. y.sub.last_saved ≤ℤ p) h m.later,
  ap ok (
      own_row consumer topic (save_offset false y).1 (save_offset-Marks consumer topic false y m)
      ∙ save_offset-row consumer topic y m
      ∙ h),
)

-- A consumer subscribes to a topic of a stream that is in order. After a history of publications, saves
-- by other consumers, reads and saves that fail, and turns of the iterator none of whose own saves
-- failed, the offset that the database holds for the consumer is the one that the subscription saved
-- last, and is not past the last event that the iterator handed out. When the subscription is dropped
-- and that save does not fail, the consumer's offset is that of the last event handed out, or the one
-- that it started from if there was none.
pub stream_get_offset-dropped :
    (consumer topic : String) (s : Streams) (u : Subscription) (acts : List Act)
    → IsOrdered s
    → subscribe consumer topic s ≡ ok u
    → all_clean acts ≡ true
    → all_foreign consumer topic acts ≡ true
    → let (es, y) = run acts (record { sub = u; streams = s }) in
      (stream_get_offset consumer topic y.streams ≡ ok y.sub.last_saved)
      × (y.sub.last_saved ≤ℤ last_offset u.last_offset es)
      × (stream_get_offset consumer topic (dropped false y) ≡ ok (last_offset u.last_offset es))
stream_get_offset-dropped consumer topic s u acts v h c f =
    let start : Start = record { topic = topic; offset = u.last_offset } in
    let x : Session = record { sub = u; streams = s } in
    let d = begins consumer topic s u v h in
    let t = run-Takes start [] acts x d in
    let m = run-Marks consumer start [] acts x f d (begins-Marks consumer topic s u h) in
    resumes consumer topic (run acts x).1 _ m
      (t.delivers.at ∙ ap (last_offset u.last_offset) (sym (t.all c)))
