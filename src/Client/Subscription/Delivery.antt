-- ===== src/Client/Subscription/Delivery.antt =====
-- What a `StreamSubscription` has taken out of its topic (packages/honker-rs/src/lib.rs).
use honker.Base.{
  Bool, ℕ, ◌≡◌, refl, sym, ap, ◌∙◌, subst, inl, inr, true, false, List, ◌++◌, ltb, Bool-cases,
  String, Option, [], ◌∷◌, drop, zero, suc, arith, take, append_assoc,
}
use honker.Client.{with_conn}
use honker.Table.{select}
use honker.Client.Subscription.{noted, save_call, save_offset, Session, refilled, popped}
use honker.Stream.{is_since, Event, stream_save_offset, Streams, stream_publish, stream_read_since}
use honker.Base.Int.{ℤ, ltb_ℤ, ◌<ℤ◌, pos, i64_max}
use honker.Stream.Ordered.{
  IsOrdered, last_offset, Increasing, stream_publish-IsOrdered, last_append,
}
use honker.Action.{err, ok, Result}
use honker.Stream.Paging.{read_ordered, event}
use honker.Stream.Rest.{since_rest}

-- The topic that is read, and the offset that reading starts after.
pub record Start : Type 0 where
  pub topic : String
  pub offset : ℤ

abbrev pub feed : Start → Streams → List Event
feed start s = select (is_since start.topic start.offset) s.events

-- `got` has been taken out, and what waits in `pending` comes next in the topic's events past `start`.
pub record Delivers (start : Start) (got : List Event) (x : Session) : Type 0 where
  pub on : x.sub.topic ≡ start.topic
  pub ordered : IsOrdered x.streams
  pub rest : List Event
  pub whole : feed start x.streams ≡ got ++ x.sub.pending ++ rest
  pub at : x.sub.last_offset ≡ last_offset start.offset got

-- The two sessions differ in what is saved alone.
pub record SameFeed (x y : Session) : Type 0 where
  pub events : y.streams.events ≡ x.streams.events
  pub fresh : y.streams.next_offset ≡ x.streams.next_offset
  pub topic : y.sub.topic ≡ x.sub.topic
  pub at : y.sub.last_offset ≡ x.sub.last_offset
  pub pending : y.sub.pending ≡ x.sub.pending

same-IsOrdered :
    (s t : Streams)
    → t.events ≡ s.events
    → t.next_offset ≡ s.next_offset
    → IsOrdered s
    → IsOrdered t
same-IsOrdered s t h k v = record {
  increasing = subst (Increasing (pos 0)) (sym h) v.increasing;
  fresh =
      subst (λ n. last_offset (pos 0) t.events <ℤ pos n) (sym k)
        (subst (λ es. last_offset (pos 0) es <ℤ pos s.next_offset) (sym h) v.fresh);
}

pub same-Delivers :
    (start : Start) (got : List Event) (x y : Session)
    → SameFeed x y
    → Delivers start got x
    → Delivers start got y
same-Delivers start got x y s d = record {
  on = s.topic ∙ d.on;
  ordered = same-IsOrdered x.streams y.streams s.events s.fresh d.ordered;
  rest = d.rest;
  whole =
      ap (select (is_since start.topic start.offset)) s.events
      ∙ d.whole
      ∙ ap (λ (es : List Event). got ++ es ++ d.rest) (sym s.pending);
  at = s.at ∙ d.at;
}

noted-SameFeed :
    (x : Session) (n : ℕ) (t : Streams)
    → t.events ≡ x.streams.events
    → t.next_offset ≡ x.streams.next_offset
    → SameFeed x (record { sub = noted n x.sub; streams = t })
noted-SameFeed x n t h k = elim (Bool-cases (ltb 0 n)) [
  | inl e ↦ rw e (record { events = h; fresh = k; topic = refl; at = refl; pending = refl })
  | inr e ↦ rw e (record { events = h; fresh = k; topic = refl; at = refl; pending = refl })
]

pub same_feed : (x : Session) → SameFeed x x
same_feed x = record { events = refl; fresh = refl; topic = refl; at = refl; pending = refl }

-- Whether it succeeds or not, a save changes neither the events nor what is read of them.
pub save_offset-SameFeed : (down : Bool) (x : Session) → SameFeed x (save_offset down x).1
unfolding save_offset stream_save_offset
save_offset-SameFeed down x = elim (Bool-cases (ltb_ℤ x.sub.last_saved x.sub.last_offset)) [
  | inl e ↦ rw e (called down)
  | inr e ↦ rw e (same_feed x)
]
  where
    called :
        (down : Bool) → SameFeed x (with_conn down (λ (y : Session). save_call y.sub y.streams) x).1
    called true = same_feed x
    called false = noted-SameFeed x _ _ refl refl

select-append :
    (p : Event → Bool) (xs ys : List Event) → select p (xs ++ ys) ≡ select p xs ++ select p ys
select-append p [] ys = refl
select-append p (x ∷ xs) ys = ground (arith, select-append p xs ys)

pub publish-Delivers :
    (start : Start) (got : List Event) (topic : String) (key : Option String) (payload : String)
    (created : ℤ) (x : Session)
    → Delivers start got x
    → Delivers start got
        (record x { streams = (stream_publish topic key payload created x.streams).1 })
unfolding stream_publish
publish-Delivers start got topic key payload created x d =
    elim (Bool-cases (ltb i64_max x.streams.next_offset)) [
      | inl e ↦ rw e d
      | inr e ↦
          let new = event topic payload key created x.streams.next_offset in
          record {
            on = d.on;
            ordered = stream_publish-IsOrdered topic key payload created x.streams d.ordered;
            rest = d.rest ++ select (is_since start.topic start.offset) (new ∷ []);
            whole = rw e (
                select-append (is_since start.topic start.offset) x.streams.events (new ∷ [])
                ∙ ap
                    (λ (es : List Event).
                      es ++ select (is_since start.topic start.offset) (new ∷ []))
                    d.whole
                ∙ append_assoc (got ++ x.sub.pending) d.rest _);
            at = d.at;
          }
    ]

pub save_for-Delivers :
    (start : Start) (got : List Event) (consumer topic : String) (offset : ℤ) (x : Session)
    → Delivers start got x
    → Delivers start got
        (record x { streams = (stream_save_offset consumer topic offset x.streams).1 })
unfolding stream_save_offset
save_for-Delivers start got consumer topic offset x d = record {
  on = d.on;
  ordered = same-IsOrdered _ _ refl refl d.ordered;
  rest = d.rest;
  whole = d.whole;
  at = d.at;
}

pub popped-Delivers :
    (start : Start) (got : List Event) (e : Event) (es : List Event) (x : Session)
    → x.sub.pending ≡ e ∷ es
    → Delivers start got x
    → Delivers start (got ++ e ∷ []) (popped e es x)
popped-Delivers start got e es x p d = record {
  on = d.on;
  ordered = d.ordered;
  rest = d.rest;
  whole =
      d.whole
      ∙ ap (λ (ps : List Event). got ++ ps ++ d.rest) p
      ∙ ap (λ (ps : List Event). ps ++ d.rest) (sym (append_assoc got (e ∷ []) es));
  at = sym (last_append start.offset got e);
}

take-append-drop : (n : ℕ) (xs : List Event) → take n xs ++ drop n xs ≡ xs
take-append-drop zero xs = refl
take-append-drop (suc n) [] = refl
take-append-drop (suc n) (x ∷ xs) = ap (λ (es : List Event). x ∷ es) (take-append-drop n xs)

-- What a read past the last event returns is the next part of the topic.
pub read_next :
    (start : Start) (got es : List Event) (x : Session)
    → x.sub.pending ≡ []
    → Delivers start got x
    → stream_read_since x.sub.topic x.sub.last_offset (pos 100) x.streams ≡ ok es
    → (rest : List Event) × (feed start x.streams ≡ got ++ rest) × (take 100 rest ≡ es)
read_next start got es x p d h =
    let whole : feed start x.streams ≡ got ++ d.rest =
      d.whole ∙ ap (λ (ps : List Event). got ++ ps ++ d.rest) p ∙ append_assoc got [] d.rest in
    let (read, _) = read_ordered x.sub.topic x.sub.last_offset (pos 100) x.streams es d.ordered h in
    (
      d.rest,
      whole,
      sym (
            ap (take 100) (
              ap (λ t. select (is_since t x.sub.last_offset) x.streams.events) d.on
              ∙ ap (λ o. select (is_since start.topic o) x.streams.events) d.at
              ∙ since_rest start.topic start.offset (pos 0) x.streams.events got d.rest
                  d.ordered.increasing whole))
          ∙ read,
    )

pub refilled-Delivers :
    (start : Start) (got : List Event) (x : Session)
    → x.sub.pending ≡ []
    → Delivers start got x
    → (r : Result (List Event))
    → stream_read_since x.sub.topic x.sub.last_offset (pos 100) x.streams ≡ r
    → Delivers start got (refilled r x).1
refilled-Delivers start got x p d (err e) h = d
refilled-Delivers start got x p d (ok es) h =
    let (rest, whole, part) = read_next start got es x p d h in
    record {
      on = d.on;
      ordered = d.ordered;
      rest = drop 100 rest;
      whole =
          whole
          ∙ ap (λ (ps : List Event). got ++ ps) (sym (take-append-drop 100 rest))
          ∙ sym (append_assoc got (take 100 rest) (drop 100 rest))
          ∙ ap (λ (ps : List Event). got ++ ps ++ drop 100 rest)
              (part ∙ ap (λ (ps : List Event). ps ++ es) (sym p));
      at = d.at;
    }
