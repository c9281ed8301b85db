-- ===== src/Client/Subscription/Turns.antt =====
-- The turns of a `StreamSubscription`'s loop, in any history (packages/honker-rs/src/lib.rs).
use honker.Base.{
  Bool, ◌≡◌, refl, sym, subst, inl, inr, true, false, not, List, [], ◌∷◌, ◌++◌, append-nil, arith,
  Bool-cases, ap, ◌∙◌, ◌&&◌, append_assoc,
}
use mathlib.Core.List.Sublistᴰ
use mathlib.Core.List.{Sublistᴰ}
use honker.Action.{err, ok, Result}
use honker.Stream.{Event, stream_save_offset, stream_read_since}
use honker.Base.Int.{ltb_ℤ, pos}
use honker.Client.Subscription.{
  Turn, is_save_due, handed, hand_out, save_offset, Session, pop, pop_pending, popped, from_pending,
  Act, after_refill, run, next, refill, publishes, saves, read_call, saves_for, iterates, refilled,
  batches, act,
}
use honker.Client.Subscription.Delivery.{
  Delivers, save_offset-SameFeed, popped-Delivers, same-Delivers, refilled-Delivers,
  publish-Delivers, save_for-Delivers, Start,
}
use honker.Client.{with_conn}

-- Of the events taken out, `gone`, an act hands out `es`: all of them if it is `clean`.
pub record Takes (start : Start) (got es : List Event) (clean : Bool) (y : Session) : Type 0 where
  pub gone : List Event
  pub delivers : Delivers start (got ++ gone) y
  pub part : Sublistᴰ es gone
  pub all : clean ≡ true → es ≡ gone

abbrev of_turn : Turn × Session → List Event × Session
of_turn (t, y) = (handed t, y)

none-Takes :
    (start : Start) (got : List Event) (clean : Bool) (y : Session)
    → Delivers start got y
    → Takes start got [] clean y
none-Takes start got clean y d = record {
  gone = [];
  delivers = subst (λ es. Delivers start es y) (sym (append-nil got)) d;
  part = Sublistᴰ.slnil;
  all = λ c. refl;
}

one-Takes :
    (start : Start) (got : List Event) (clean : Bool) (e : Event) (y : Session)
    → Delivers start (got ++ e ∷ []) y
    → Takes start got (e ∷ []) clean y
one-Takes start got clean e y d = record {
  gone = e ∷ [];
  delivers = d;
  part = Sublistᴰ.refl (e ∷ []);
  all = λ c. refl;
}

-- A save that is not down succeeds.
save_offset-ok : (x : Session) → (save_offset false x).0 ≡ ok tt
unfolding save_offset stream_save_offset
save_offset-ok x = elim (Bool-cases (ltb_ℤ x.sub.last_saved x.sub.last_offset)) [
  | inl e ↦ rw e refl
  | inr e ↦ rw e refl
]

handed-Takes :
    (start : Start) (got : List Event) (save : Bool) (e : Event) (r : Result (Unit {0}) × Session)
    → (save ≡ false → r.0 ≡ ok tt)
    → Delivers start (got ++ e ∷ []) r.1
    → let (t, y) = hand_out e r in Takes start got (handed t) (not save) y
handed-Takes start got save e (ok _, y) h d = one-Takes start got (not save) e y d
handed-Takes start got true e (err er, y) h d = record {
  gone = e ∷ [];
  delivers = d;
  part = Sublistᴰ.nil-sublist (e ∷ []);
  all = λ c. absurd (ground (arith, c));
}
handed-Takes start got false e (err er, y) h d = absurd (ground (arith, h refl))

pop-Takes :
    (start : Start) (got : List Event) (save : Bool) (e : Event) (es : List Event) (x : Session)
    → x.sub.pending ≡ e ∷ es
    → Delivers start got x
    → let (t, y) = pop save e es x in Takes start got (handed t) (not save) y
unfolding pop
pop-Takes start got save e es x p d =
    let d' = popped-Delivers start got e es x p d in
    let y = popped e es x in
    elim (Bool-cases (is_save_due y.sub)) [
      | inl h ↦ rw h (
          handed-Takes start got save e (save_offset save y) (fine save) (
            same-Delivers start (got ++ e ∷ []) y (save_offset save y).1
              (save_offset-SameFeed save y) d'))
      | inr h ↦ rw h (one-Takes start got (not save) e y d')
    ]
  where
    fine : (save : Bool) → save ≡ false → (save_offset save (popped e es x)).0 ≡ ok tt
    fine true c = absurd (ground (arith, c))
    fine false c = save_offset-ok (popped e es x)

pop_pending-Takes :
    (start : Start) (got : List Event) (save : Bool) (ps : List Event) (x : Session)
    → x.sub.pending ≡ ps
    → Delivers start got x
    → let (t, y) = pop_pending save ps x in Takes start got (handed t) (not save) y
pop_pending-Takes start got save [] x p d = none-Takes start got (not save) x d
pop_pending-Takes start got save (e ∷ es) x p d = pop-Takes start got save e es x p d

next-Takes :
    (start : Start) (got : List Event) (read save : Bool) (x : Session)
    → Delivers start got x
    → let (t, y) = next read save x in Takes start got (handed t) (not save) y
unfolding next refill
next-Takes start got read save x d = at x.sub.pending refl
  where
    after :
        (r : Result (List Event))
        → Delivers start got (refilled r x).1
        → let (t, y) = after_refill save (refilled r x) in Takes start got (handed t) (not save) y
    after (ok es) d' = pop_pending-Takes start got save (x.sub.pending ++ es) _ refl d'
    after (err e) d' = none-Takes start got (not save) x d'

    refills :
        (read : Bool)
        → x.sub.pending ≡ []
        → let (t, y) = after_refill save (with_conn read read_call x) in
          Takes start got (handed t) (not save) y
    refills true p = none-Takes start got (not save) x d
    refills false p =
        let r = stream_read_since x.sub.topic x.sub.last_offset (pos 100) x.streams in
        after r (refilled-Delivers start got x p d r refl)

    at :
        (ps : List Event)
        → x.sub.pending ≡ ps
        → let (t, y) = from_pending read save ps x in Takes start got (handed t) (not save) y
    at [] p = refills read p
    at (e ∷ es) p = pop-Takes start got save e es x p d

-- Whether no auto-save of the act is down.
abbrev pub is_clean : Act → Bool
is_clean (iterates read save) = not save
is_clean _ = true

abbrev pub all_clean : List Act → Bool
all_clean [] = true
all_clean (a ∷ rest) = is_clean a && all_clean rest

pub act-Takes :
    (start : Start) (got : List Event) (a : Act) (x : Session)
    → Delivers start got x
    → let (es, y) = act a x in Takes start got es (is_clean a) y
unfolding act
act-Takes start got (publishes topic key payload created) x d =
    none-Takes start got true _ (publish-Delivers start got topic key payload created x d)
act-Takes start got (saves_for consumer topic offset) x d =
    none-Takes start got true _ (save_for-Delivers start got consumer topic offset x d)
act-Takes start got (iterates read save) x d = next-Takes start got read save x d
act-Takes start got (saves down) x d =
    none-Takes start got true _ (same-Delivers start got x _ (save_offset-SameFeed down x) d)
act-Takes start got (batches n) x d =
    none-Takes start got true _
      (record { on = d.on; ordered = d.ordered; rest = d.rest; whole = d.whole; at = d.at })

joined :
    (start : Start) (got es fs : List Event) (c k : Bool) (y z : Session)
    → (t : Takes start got es c y) → Takes start (got ++ t.gone) fs k z
    → Takes start got (es ++ fs) (c && k) z
joined start got es fs c k y z t u = record {
  gone = t.gone ++ u.gone;
  delivers = subst (λ gs. Delivers start gs z) (append_assoc got t.gone u.gone) u.delivers;
  part = Sublistᴰ.append t.part u.part;
  all = λ h.
      ap (λ (gs : List Event). gs ++ fs) (t.all (ground (arith, h)))
      ∙ ap (λ (gs : List Event). t.gone ++ gs) (u.all (ground (arith, h)));
}

pub run-Takes :
    (start : Start) (got : List Event) (acts : List Act) (x : Session)
    → Delivers start got x
    → let (es, y) = run acts x in Takes start got es (all_clean acts) y
unfolding run
run-Takes start got [] x d = none-Takes start got true x d
run-Takes start got (a ∷ rest) x d =
    let t = act-Takes start got a x d in
    joined start got _ _ (is_clean a) (all_clean rest) _ _ t
      (run-Takes start (got ++ t.gone) rest _ t.delivers)
